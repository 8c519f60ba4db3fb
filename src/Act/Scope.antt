-- ===== src/Act/Scope.antt =====
-- The scope of a batch is closed on every way out of `act`.
use oc_computer_use.Act.Gate.{gate_active-active}
use oc_computer_use.Prelude.{
  ◌≡◌, ◌≢◌, arith, ◌⊎◌, refl, Option, none, some, Bool, true, false, not, List, [], ◌∷◌, All,
  retain, lookup, lookup-remove_self, if◌then◌else◌, inl, inr,
}
use oc_computer_use.Errors.{CuError, Result, ok, err}
use oc_computer_use.Platform.{Platform}
use oc_computer_use.Session.{Session, SessionState, verify_control_token, end_batch}
use oc_computer_use.Requests.{RequestKey, RequestRegistry, unregister, key_eq}
use oc_computer_use.Runtime.{gate_active}
use oc_computer_use.Exec.{checks, performs, ◌>>=◌}
use oc_computer_use.Act.{RuntimeConfig, Machine, ActParams, Desk}
use oc_computer_use.Act.Batch.{
  begin_scope, in_scope, open_scope, close_scope, scoped, batch_body, act_session,
}

not-true : (b : Bool) → not b ≡ true → b ≡ false
not-true true h = absurd (cc)
not-true false h = refl

module _ (P : Platform) where
  -- No token of a batch is the one that ended.
  dropped :
      (token : P.Token) (ts : List P.Token)
      → All (λ t. P.same t token ≡ false) (retain (λ t. not (P.same t token)) ts)
  unfolding retain
  dropped token [] = tt
  dropped token (t ∷ ts) = go (P.same t token) refl (dropped token ts)
    where
      go :
          (b : Bool)
          → P.same t token ≡ b
          → All (λ t. P.same t token ≡ false) (retain (λ t. not (P.same t token)) ts)
          → All
              (λ t. P.same t token ≡ false)
              (if not b
                then t ∷ retain (λ t. not (P.same t token)) ts
                else retain (λ t. not (P.same t token)) ts)
      go true e rest = rest
      go false e rest = (e, rest)

  -- The request's key, if it has one, stands for no batch.
  pub IsUnregistered : Option RequestKey → RequestRegistry P → Type 0
  IsUnregistered none r = Unit
  IsUnregistered (some key) r = lookup key r.handles ≡ none

  pub record IsClosed (key : Option RequestKey) (token : P.Token) (d : Desk P) : Type 0 where
    pub ended : All (λ t. P.same t token ≡ false) d.world.session.batch_tokens
    pub unregistered : IsUnregistered key d.runtime.requests

  module _ (config : RuntimeConfig P) (M : Machine P) where
    close_scope-IsClosed :
        (key : Option RequestKey) (token : P.Token) (d : Desk P)
        → IsClosed key token (close_scope P config M key token d)
    unfolding close_scope end_batch unregister IsUnregistered
    close_scope-IsClosed none token d = record {
      ended = dropped token d.world.session.batch_tokens;
      unregistered = tt;
    }
    close_scope-IsClosed (some key) token d = record {
      ended = dropped token d.world.session.batch_tokens;
      unregistered = lookup-remove_self key d.runtime.requests.handles;
    }

    in_scope-IsClosed :
        (p : ActParams P) (key : Option RequestKey) (d : Desk P)
        → IsClosed key (begin_scope P config M key p.session_id d).0 (in_scope P config M p key d).1
    unfolding in_scope open_scope scoped performs ◌>>=◌
    in_scope-IsClosed p key d =
        let (token, d') = begin_scope P config M key p.session_id d in
        close_scope-IsClosed key token (batch_body P config M p token d').1

    refused_state :
        (s : Session P) (e : CuError) → gate_active P s ≡ err e → s.state ≢ SessionState.active
    unfolding gate_active
    refused_state s e h active = ground arith

    -- An act without the session's control token, or in a session that is not active, is an error
    -- and changes nothing. Any other, however it ends, leaves neither its batch token in the session
    -- nor its key in the registry of requests.
    pub act_closes :
        (p : ActParams P) (key : Option RequestKey) (d : Desk P)
        → ((e : CuError) × ((verify_control_token P d.world.session p.control_token ≡ err e)
              ⊎ (d.world.session.state ≢ SessionState.active))
            × (act_session P config M p key d ≡ (some (err e), d)))
          ⊎ ((verify_control_token P d.world.session p.control_token ≡ ok tt)
              × (d.world.session.state ≡ SessionState.active)
              × IsClosed key
                  (begin_scope P config M key p.session_id d).0
                  (act_session P config M p key d).1)
    unfolding act_session ◌>>=◌ checks
    act_closes p key d =
        go (verify_control_token P d.world.session p.control_token) refl
          (gate_active P d.world.session) refl
      where
        go :
            (v : Result (Unit {0}))
            → verify_control_token P d.world.session p.control_token ≡ v
            → (g : Result (Unit {0})) → gate_active P d.world.session ≡ g
            → ((e : CuError) × ((verify_control_token P d.world.session p.control_token ≡ err e)
                  ⊎ (d.world.session.state ≢ SessionState.active))
                × (act_session P config M p key d ≡ (some (err e), d)))
              ⊎ ((verify_control_token P d.world.session p.control_token ≡ ok tt)
                  × (d.world.session.state ≡ SessionState.active)
                  × IsClosed key
                      (begin_scope P config M key p.session_id d).0
                      (act_session P config M p key d).1)
        go (err e) v g h = inl (e, inl v, rw v refl)
        go (ok _) v (err e) h = inl (e, inr (refused_state d.world.session e h), rw (v, h) refl)
        go (ok _) v (ok _) h =
            inr (v, gate_active-active P d.world.session h, rw (v, h) (in_scope-IsClosed p key d))
