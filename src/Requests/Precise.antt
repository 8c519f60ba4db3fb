-- ===== src/Requests/Precise.antt =====
-- A cancellation touches the one request that it names.
use oc_computer_use.Prelude.{
  ◌≡◌, refl, ◌⊎◌, inl, inr, Option, none, some, true, false, List, arith, ◌==◌, lookup,
  Option-cases, Bool-cases, ℕ, ◌≢◌, Bool,
}
use oc_computer_use.Errors.{Text, CuError, Result, ok, err}
use oc_computer_use.Platform.{Platform}
use oc_computer_use.Requests.{
  RequestKey, key_eq, RequestHandle, RequestRegistry, cancel, cancel_found,
}

module _ (P : Platform) (first : List RequestKey → Option RequestKey) where
  open P use {Token, Store, is_cancelled, same, cancel_self, cancel_other}

  found_precise :
      (key : RequestKey) (sid : Text) (h : RequestHandle P) (r : RequestRegistry P) (st : Store)
      → h.session_id ≡ sid
      → let out = cancel_found P first key sid (some h) r st in
        (out.0 ≡ ok true)
        × (out.1 ≡ r)
        × (is_cancelled h.token out.2 ≡ true)
        × ((u : Token) → same h.token u ≡ false → is_cancelled u out.2 ≡ is_cancelled u st)
  unfolding cancel_found
  found_precise key sid h r st e = (
    ground arith,
    ground arith,
    ground (arith, cancel_self h.token st),
    λ u n. ground (arith, cancel_other h.token u st n),
  )

  -- The first of three cases: the key stands for a request of the session `sid`, whose token is
  -- cancelled, and no other; the registry stays as it was.
  pub record IsCancelled (key : RequestKey) (sid : Text) (r : RequestRegistry P) (st : Store)
      (out : Result Bool × RequestRegistry P × Store) : Type 0 where
    pub handle : RequestHandle P
    pub registered : lookup key r.handles ≡ some handle
    pub owned : handle.session_id ≡ sid
    pub answered : out.0 ≡ ok true
    pub kept : out.1 ≡ r
    pub fired : is_cancelled handle.token out.2 ≡ true
    pub others :
        (u : Token) → same handle.token u ≡ false → is_cancelled u out.2 ≡ is_cancelled u st

  -- The second: it stands for a request of another session, and nothing changes.
  pub record IsForeign (key : RequestKey) (sid : Text) (r : RequestRegistry P) (st : Store)
      (out : Result Bool × RequestRegistry P × Store) : Type 0 where
    pub handle : RequestHandle P
    pub registered : lookup key r.handles ≡ some handle
    pub owned_by_other : handle.session_id ≢ sid
    pub unchanged : out ≡ (err CuError.invalid_params, r, st)

  -- The third: it stands for nothing, and no token is cancelled and no request forgotten.
  pub record IsUnknown (key : RequestKey) (r : RequestRegistry P) (st : Store)
      (out : Result Bool × RequestRegistry P × Store) : Type 0 where
    pub unregistered : lookup key r.handles ≡ none
    pub answered : out.0 ≡ ok false
    pub handles : out.1.handles ≡ r.handles
    pub store : out.2 ≡ st

  differs : (a b : ℕ) → (a == b) ≡ false → a ≢ b
  differs a b h e = ground arith

  agrees : (a b : ℕ) → (a == b) ≡ true → a ≡ b
  agrees a b h = ground arith

  -- A cancellation, of whatever key and for whatever session, does one of three things. Where the key
  -- stands for a request of that session, it cancels the request's token, and no other. Where it
  -- stands for a request of another session, it is an error and changes nothing. Where it stands for
  -- no request, it says so, cancels no token and leaves the registered requests as they were.
  pub cancel_precise :
      (key : RequestKey) (sid : Text) (r : RequestRegistry P) (st : Store)
      → let out = cancel P first key sid r st in
        IsCancelled key sid r st out ⊎ IsForeign key sid r st out ⊎ IsUnknown key r st out
  unfolding cancel cancel_found
  cancel_precise key sid r st = elim (Option-cases (lookup key r.handles)) [
    | inl e ↦ inr (
        inr (record {
          unregistered = e;
          answered = rw (e, cancel) refl;
          handles = rw (e, cancel) refl;
          store = rw (e, cancel) refl;
        }))
    | inr (h, e) ↦ elim (Bool-cases (h.session_id == sid)) [
      | inl own ↦
          (let same_session = agrees h.session_id sid own in
            let (answered, kept, fired, others) = found_precise key sid h r st same_session in
            inl (record {
              handle = h;
              registered = e;
              owned = same_session;
              answered = rw (e, cancel) answered;
              kept = rw (e, cancel) kept;
              fired = rw (e, cancel) fired;
              others = rw (e, cancel) others;
            }))
      | inr foreign ↦ inr (
          inl (record {
            handle = h;
            registered = e;
            owned_by_other = differs h.session_id sid foreign;
            unchanged = rw (e, cancel, foreign) refl;
          }))
    ]
  ]
