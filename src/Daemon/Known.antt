-- ===== src/Daemon/Known.antt =====
-- The tokens that open a session, and the code of `dispatch` that looks at nothing private.
use mathlib.Core.List.{Memᴰ}
use oc_computer_use.Prelude.{
  ◌≡◌, ◌≢◌, refl, ap, ◌∙◌, inl, inr, Option, Bool, true, false, List, [], ◌∷◌, arith, Bool-cases,
}
use oc_computer_use.Errors.{Text, CuError, Result, ok, err}
use oc_computer_use.Platform.{Platform}
use oc_computer_use.Session.{Session, verify_read_tokens}
use oc_computer_use.Runtime.{Runtime, Outcome}
use oc_computer_use.Exec.{checks, fails_if, stop_if, resume, performs, ◌>>=◌}
use oc_computer_use.Exec.Rules.{Keeps, keeps_rules, checks-cases}
use oc_computer_use.Act.{RuntimeConfig, Machine, Step}
use oc_computer_use.Daemon.{CapabilityTokenParams, Access, Host, Serve}
use oc_computer_use.Daemon.Tokens.{verify_any_token, any_session_opens, accepts}
use oc_computer_use.Daemon.Gates.{on_runtime, at_desk, on_session}

module _ (P : Platform) where
  -- What was looked at, and whether the daemon is to stop.
  abbrev pub view : Host P → List Access × Bool
  view h = (h.accesses, h.app_shutdown)

  -- The tokens open one of the sessions.
  abbrev pub IsKnown : CapabilityTokenParams → Host P → Type 0
  IsKnown p h =
      (e : Text × Session P) × Memᴰ e h.runtime.sessions
      × (verify_read_tokens P e.1 p.observation_token p.control_token ≡ ok tt)

  accepted : (r : Result (Unit {0})) → accepts r ≡ true → r ≡ ok tt
  accepted (ok _) _ = refl
  accepted (err _) refused = absurd (cc)

  any-IsKnown :
      (o c : Option Text) (ss : List (Text × Session P))
      → any_session_opens P o c ss ≡ true
      → (e : Text × Session P) × Memᴰ e ss × (verify_read_tokens P e.1 o c ≡ ok tt)
  unfolding any_session_opens
  any-IsKnown o c [] h = absurd (cc)
  any-IsKnown o c ((id, s) ∷ ss) h = elim (Bool-cases (accepts (verify_read_tokens P s o c))) [
    | inl opens ↦ ((id, s), Memᴰ.head refl, accepted (verify_read_tokens P s o c) opens)
    | inr closed ↦ later id s (any-IsKnown o c ss (ground arith))
  ]
    where
      later :
          (id : Text) (s : Session P)
          → (e : Text × Session P) × Memᴰ e ss × (verify_read_tokens P e.1 o c ≡ ok tt)
          → (e : Text × Session P) × Memᴰ e ((id, s) ∷ ss) × (verify_read_tokens P e.1 o c ≡ ok tt)
      later id s (e, m, v) = (e, Memᴰ.tail m, v)

  pub verify_any-IsKnown :
      (p : CapabilityTokenParams) (h : Host P)
      → verify_any_token P p.observation_token p.control_token h.runtime ≡ ok tt
      → IsKnown p h
  unfolding verify_any_token
  verify_any-IsKnown p h e = elim (Bool-cases opened) [
    | inl opens ↦ any-IsKnown p.observation_token p.control_token h.runtime.sessions opens
    | inr closed ↦ absurd (ground arith)
  ]
    where
      opened : Bool
      opened = any_session_opens P p.observation_token p.control_token h.runtime.sessions

  -- A check stands before the change.
  pub gated :
      {A B : Type 0} (test : Host P → Result A) (rest : A → Serve P B) (h : Host P)
      → view ((checks test >>= rest) h).1 ≢ view h
      → (a : A) × (test h ≡ ok a) × (view (rest a h).1 ≢ view h)
  gated test rest h d = elim (checks-cases test rest h) [
    | inl (_, refused) ↦ absurd (d (ap (λ r. view r.1) refused))
    | inr (a, passed, same) ↦ (a, passed, λ e. d (ap (λ r. view r.1) same ∙ e))
  ]

  -- An early return under a condition stands before the change.
  pub running :
      {B : Type 0} (h : Host P) (test : Host P → Bool) (reason : Host P → CuError)
      (rest : Unit {0} → Serve P B)
      → view ((fails_if test reason >>= rest) h).1 ≢ view h
      → (test h ≡ false) × (view (rest tt h).1 ≢ view h)
  unfolding fails_if ◌>>=◌
  running h test reason rest d = go (test h) d
    where
      go :
          (c : Bool)
          → view (resume (stop_if c (reason h) h).0 rest (stop_if c (reason h) h).1).1 ≢ view h
          → (c ≡ false) × (view (rest tt h).1 ≢ view h)
      go true d = absurd (d refl)
      go false d = (refl, d)

  -- Every method but those below leaves the view alone.
  module _ (v : List Access × Bool) where
    abbrev pub IsAt : Host P → Type 0
    IsAt h = view h ≡ v

    pub on_runtime-IsAt : {A : Type 0} (f : Runtime P → Outcome P A) → Keeps IsAt (on_runtime P f)
    unfolding on_runtime performs
    on_runtime-IsAt f = record { at = λ s h. h }

    pub on_session-IsAt :
        {A : Type 0} (config : RuntimeConfig P) (M : Machine P) (id : Text) (m : Step P A)
        → Keeps IsAt (on_session P config M id m)
    unfolding on_session
    on_session-IsAt config M id m = search (keeps_rules, at_desk-IsAt) depth 12
      where
        at_desk-IsAt :
            {A : Type 0} (m : Step P A) (s : Session P) → Keeps IsAt (at_desk P config M m s)
        at_desk-IsAt m s = record { at = λ h k. k }

    pub ruleset view_rules = (keeps_rules, on_runtime-IsAt, on_session-IsAt)
