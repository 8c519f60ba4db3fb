-- ===== src/Runtime/Cases.antt =====
-- To prove something of an operation, prove it of each way the operation can go.
use oc_computer_use.Prelude.{◌≡◌, refl, Option, some, false, arith, lookup, nat_eq, ◌⊎◌, inl, inr}
use oc_computer_use.Errors.{Text, CuError, Result, ok, err}
use oc_computer_use.Platform.{Platform}
use oc_computer_use.Session.{Session, SessionState, verify_control_token, transition}
use oc_computer_use.Session.Coherence.{finished}
use oc_computer_use.Runtime.{
  Runtime, Outcome, get_session, verify_mutating, authorized, transitioned, put,
}

pub Result-cases {ℓ} :
    {A : Type ℓ} (r : Result A) → ((a : A) × (r ≡ ok a)) ⊎ ((e : CuError) × (r ≡ err e))
Result-cases (ok a) = inl (a, refl)
Result-cases (err e) = inr (e, refl)

module _ (P : Platform) where
  pub verify_mutating_lem :
      (s : Session P) (t : Option Text)
      → verify_mutating P s t ≡ ok tt
      → (verify_control_token P s t ≡ ok tt) × (finished P s.state ≡ false)
  unfolding verify_mutating
  verify_mutating_lem s t h = ground arith

  pub get_session_ok :
      (id : Text) (rt : Runtime P) (s : Session P)
      → get_session P id rt ≡ ok s
      → lookup id rt.sessions ≡ some s
  unfolding get_session
  get_session_ok id rt s h = ground arith

  pub authorized_cases {ℓ} :
      {A : Type 0} (Q : Outcome P A → Type ℓ) (id : Text) (token : Option Text) (rt : Runtime P)
      (next : Session P → Outcome P A)
      → ((e : CuError) → Q (err e, rt))
      → ((s : Session P)
          → lookup id rt.sessions ≡ some s
          → verify_mutating P s token ≡ ok tt
          → Q (next s))
      → Q (authorized P id token rt next)
  authorized_cases Q id token rt next refused passed = elim (Result-cases (get_session P id rt)) [
    | inr (e, h) ↦ rw (h, authorized) (refused e)
    | inl (s, h) ↦ elim (Result-cases (verify_mutating P s token)) [
      | inr (e, v) ↦ rw (h, v, authorized) (refused e)
      | inl (u, v) ↦ rw (h, v, authorized) (passed s (get_session_ok id rt s h) v)
    ]
  ]

  pub transitioned_cases {ℓ} :
      {A : Type 0} (Q : Outcome P A → Type ℓ) (s : Session P) (t : SessionState) (rt : Runtime P)
      (next : Session P → Runtime P → Outcome P A)
      → ((e : CuError) → Q (err e, rt))
      → ((s' : Session P) (st : P.Store)
          → transition P s t rt.store ≡ ok (s', st)
          → Q (next s' (put P s' (record rt { store = st }))))
      → Q (transitioned P s t rt next)
  transitioned_cases Q s t rt next refused passed =
      elim (Result-cases (transition P s t rt.store)) [
        | inr (e, h) ↦ rw (h, transitioned) (refused e)
        | inl (r, h) ↦ rw (h, transitioned) (passed r.0 r.1 h)
      ]
