-- ===== src/Session/Cancelling.antt =====
-- Which batches a session's transitions cancel: all of its own, and no other.
use oc_computer_use.Prelude.{
  ◌≡◌, ◌∙◌, refl, inl, inr, Bool, true, false, List, [], ◌∷◌, arith, All, Bool-cases,
}
use oc_computer_use.Errors.{ok}
use oc_computer_use.Platform.{Platform}
use oc_computer_use.Session.{Session, SessionState, transition, cancel_all}

module _ (P : Platform) where
  open P use {Token, Store, cancel, is_cancelled, same, same_iff, cancel_self, cancel_other}

  -- A cancelled token stays cancelled.
  cancel_keeps :
      (t u : Token) (st : Store) → is_cancelled u st ≡ true → is_cancelled u (cancel t st) ≡ true
  cancel_keeps t u st h = elim (Bool-cases (same t u)) [
    | inl e ↦ rw ((same_iff t u).0 e) (cancel_self u st)
    | inr e ↦ rw (cancel_other t u st e) h
  ]

  pub cancel_all_keeps :
      (ts : List Token) (u : Token) (st : Store)
      → is_cancelled u st ≡ true
      → is_cancelled u (cancel_all P ts st) ≡ true
  unfolding cancel_all
  cancel_all_keeps [] u st h = h
  cancel_all_keeps (t ∷ ts) u st h = cancel_all_keeps ts u (cancel t st) (cancel_keeps t u st h)

  pub cancel_all_cancels :
      (ts : List Token) (st : Store) → All (λ t. is_cancelled t (cancel_all P ts st) ≡ true) ts
  unfolding cancel_all
  cancel_all_cancels [] st = tt
  cancel_all_cancels (t ∷ ts) st =
      (cancel_all_keeps ts t (cancel t st) (cancel_self t st), cancel_all_cancels ts (cancel t st))

  pub cancel_all_other :
      (ts : List Token) (u : Token) (st : Store)
      → All (λ t. same t u ≡ false) ts
      → is_cancelled u (cancel_all P ts st) ≡ is_cancelled u st
  unfolding cancel_all
  cancel_all_other [] u st h = refl
  cancel_all_other (t ∷ ts) u st h =
      cancel_all_other ts u (cancel t st) h.1 ∙ cancel_other t u st h.0

  -- The states whose entry aborts the work in flight.
  abbrev pub aborts : SessionState → Bool
  aborts SessionState.starting = false
  aborts SessionState.active = false
  aborts _ = true

  transition_store :
      (s : Session P) (t : SessionState) (st : Store) {r : Session P × Store}
      → aborts t ≡ true
      → transition P s t st ≡ ok r
      → (r.1 ≡ cancel_all P s.batch_tokens st) × (r.0.batch_tokens ≡ s.batch_tokens)
  unfolding transition
  transition_store s SessionState.paused st h q = ground arith
  transition_store s t st h q = ground arith

  -- Pausing, taking over, stopping and failing cancel every batch of the session, also those that
  -- still wait for its turn, and no token of another session.
  pub transition_cancels :
      (s : Session P) (t : SessionState) (st : Store) {r : Session P × Store}
      → aborts t ≡ true
      → transition P s t st ≡ ok r
      → All (λ b. is_cancelled b r.1 ≡ true) s.batch_tokens
        × ((u : Token)
            → All (λ b. same b u ≡ false) s.batch_tokens
            → is_cancelled u r.1 ≡ is_cancelled u st)
  transition_cancels s t st {r} h q =
      let e = (transition_store s t st h q).0 in
      rw e (cancel_all_cancels s.batch_tokens st, λ u n. cancel_all_other s.batch_tokens u st n)

  -- Becoming active again cancels nothing.
  pub transition-active_store :
      (s : Session P) (st : Store) {r : Session P × Store}
      → transition P s SessionState.active st ≡ ok r
      → (r.1 ≡ st) × (r.0.batch_tokens ≡ s.batch_tokens)
  unfolding transition
  transition-active_store s st q = ground arith
