-- ===== src/Session/Batches.antt =====
-- The life of one batch token: begun, cancelled by whatever aborts the session's work, ended.
use oc_computer_use.Prelude.{◌≡◌, ap, refl, true, false, not, List, [], ◌∷◌, ◌++◌, All, retain}
use oc_computer_use.Errors.{ok}
use oc_computer_use.Platform.{Platform}
use oc_computer_use.Session.{Session, SessionState, transition, begin_batch, end_batch}
use oc_computer_use.Session.Cancelling.{aborts, transition_cancels}

module _ (P : Platform) where
  open P use {Token, Store, is_cancelled, same, same_iff, child_live}

  All_last : (Q : Token → Type 0) (ts : List Token) (t : Token) → All Q (ts ++ t ∷ []) → Q t
  All_last Q [] t a = a.0
  All_last Q (u ∷ ts) t a = All_last Q ts t a.1

  retain_others :
      (ts : List Token) (t : Token)
      → All (λ u. same u t ≡ false) ts
      → retain (λ u. not (same u t)) (ts ++ t ∷ []) ≡ ts
  unfolding retain
  retain_others [] t h = rw ((same_iff t t).1 refl, retain) refl
  retain_others (u ∷ ts) t h = rw (h.0, retain) (ap (λ us. u ∷ us) (retain_others ts t h.1))

  -- A batch begins with a live token; pausing, taking over, stopping or failing the session before
  -- it ends cancels that token; and ending it leaves the session as it was before it began, if no
  -- batch under way has the same token.
  pub batch_life :
      (s : Session P) (t : SessionState) (st : Store) {r : Session P × Store}
      → All (λ u. same u (begin_batch P s st).0 ≡ false) s.batch_tokens
      → aborts P t ≡ true
      → transition P (begin_batch P s st).1 t (begin_batch P s st).2 ≡ ok r
      → let (token, s', st') = begin_batch P s st in
        (is_cancelled token st' ≡ false)
        × (is_cancelled token r.1 ≡ true)
        × (end_batch P token s' ≡ s)
  unfolding begin_batch end_batch
  batch_life s t st {r} h a q =
      (let (token, s', st') = begin_batch P s st in
        let all = (transition_cancels P s' t st' a q).0 in
        (
          child_live st,
          All_last (λ b. is_cancelled b r.1 ≡ true) s.batch_tokens token all,
          ap (λ ts. record s { batch_tokens = ts }) (retain_others s.batch_tokens token h),
        ))
