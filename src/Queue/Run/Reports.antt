-- ===== src/Queue/Run/Reports.antt =====
-- What the reports of a batch say of its actions.
use oc_computer_use.Prelude.{
  is_some, not, ◌&&◌, ℕ, suc, ◌-◌, ◌≡◌, ◌≢◌, refl, Option, none, some, Bool, true, false, List, [],
  ◌∷◌, ◌⊎◌, inl, inr, Bool-cases,
}
use oc_computer_use.Errors.{Text, Result, ok, err}
use oc_computer_use.Platform.{Platform}
use oc_computer_use.Coordinates.{ImageGeometry}
use oc_computer_use.Policy.{TakeoverDetector}
use oc_computer_use.Actions.{ComputerAction, ResolvedAction}
use oc_computer_use.Queue.{
  World, Driver, Recorder, QueueState, Code, ActionRun, ActionResult, run_cancelled, run_failed,
  Detail, RunStatus,
}
use oc_computer_use.Queue.Triples.{Triple, choose}
use oc_computer_use.Queue.Poll.{interrupted, probe, fits}
use oc_computer_use.Queue.Guards.{is_physical, needs_physical, is_locationless}
use oc_computer_use.Human.{millis}
use oc_computer_use.Queue.Run.{
  Turn, halt, keep, broken, Outcome, cut_short, came, turn, run_from, run, fill_cancelled,
  add_report, carry_out, aim, resolved_or, focused_or, guarded, finish, report, continue_with,
  after_trace,
}

-- A report on the action at its own index, that was carried out or refused.
pub IsOwn : ℕ → ActionRun → Type 0
IsOwn i r = (r.index ≡ i) × (r.status ≢ RunStatus.cancelled)

-- One cancelled report for each action, numbered from `i`.
pub data AllCancelled {A : Type 0} : ℕ → List A → List ActionRun → Type 0 where
  cancelled_none : {i : ℕ} → AllCancelled i [] []
  cancelled_next :
      {i : ℕ} {a : A} {as_ : List A} {rs : List ActionRun}
      → AllCancelled (suc i) as_ rs
      → AllCancelled i (a ∷ as_) (run_cancelled i ∷ rs)

-- The reports of actions that are numbered from `i`: each of the first ones is carried out or
-- refused and at its own index, and, if the batch was cut short, the rest are cancelled.
pub data Covers {A : Type 0} : ℕ → List A → List ActionRun → Type 0 where
  covers_none : {i : ℕ} → Covers i [] []
  covers_next :
      {i : ℕ} {a : A} {as_ : List A} {r : ActionRun} {rs : List ActionRun}
      → IsOwn i r
      → Covers (suc i) as_ rs
      → Covers i (a ∷ as_) (r ∷ rs)
  covers_rest :
      {i : ℕ} {as_ : List A} {rs : List ActionRun} → AllCancelled i as_ rs → Covers i as_ rs

pub fill_cancelled-AllCancelled :
    {A : Type 0} (i : ℕ) (as_ : List A) → AllCancelled i as_ (fill_cancelled i as_)
unfolding fill_cancelled
fill_cancelled-AllCancelled i [] = cancelled_none
fill_cancelled-AllCancelled i (a ∷ as_) = cancelled_next (fill_cancelled-AllCancelled (suc i) as_)

module _ (P : Platform) (D : Driver P) (token : P.Token) (geometry : ImageGeometry P)
    (tap_active : Bool) (recorder : Option (Recorder P)) (display_id : Text) where
  -- A round reports on its own action.
  pub Reports : ℕ → Turn → Type 0
  Reports i (halt none) = Unit
  Reports i (halt (some r)) = IsOwn i r ⊎ (r ≡ run_cancelled i)
  Reports i (keep r) = IsOwn i r
  Reports i (broken e) = Unit

  -- Code whose value satisfies `R` from any state.
  abbrev Gives : {A : Type 0} → Code P A → (A → Type 0) → Type 0
  Gives m R = Triple (λ _. Unit {0}) m (λ a _. R a)

  report-IsOwn : (i ms : ℕ) (o : Result ActionResult) → IsOwn i (report i ms o)
  unfolding report IsOwn
  report-IsOwn i ms (err e) = (refl, λ h. cc)
  report-IsOwn i ms (ok r) = elim (Bool-cases r.success) [
    | inl e ↦ rw (e) (refl, λ h. cc)
    | inr e ↦ rw (e) (refl, λ h. cc)
  ]

  refused : (i : ℕ) (d : Detail) → IsOwn i (run_failed i 0 d)
  unfolding IsOwn
  refused i d = (refl, λ h. cc)

  after_trace-Reports :
      (i : ℕ) (a : ComputerAction P) (r : ActionRun) (w : Result (Unit {0}))
      → IsOwn i r
      → Gives (after_trace P D token geometry tap_active recorder display_id a r w) (Reports i)
  unfolding Reports
  after_trace-Reports i a r (err e) h s t = tt
  after_trace-Reports i a r (ok _) h s t = elim (Bool-cases (probe P D token tap_active a s).0) [
    | inl e ↦ rw (e) (inl h)
    | inr e ↦ rw (e) h
  ]

  finish-Reports :
      (i : ℕ) (a : ComputerAction P) (started : ℕ) (o : Outcome)
      → Gives (finish P D token geometry tap_active recorder display_id i a started o) (Reports i)
  unfolding Reports
  finish-Reports i a started cut_short s t = inr refl
  finish-Reports i a started (came result) s t =
      after_trace-Reports i a (report i (millis (s.world.now - started)) result) _
        (report-IsOwn i _ result) _ t

  carry_out-Reports :
      (i : ℕ) (a : ComputerAction P) (r : ResolvedAction P)
      → Gives (carry_out P D token geometry tap_active recorder display_id i a r) (Reports i)
  unfolding carry_out
  carry_out-Reports i a r s t = finish-Reports i a s.world.now _ _ tt

  aim-Reports :
      (i : ℕ) (a : ComputerAction P) (r : ResolvedAction P)
      → Gives (aim P D token geometry tap_active recorder display_id i a r) (Reports i)
  unfolding aim Reports
  aim-Reports i a r s t =
      choose (λ u _. Reports i u) (is_some s.world.session.resolved_target && is_locationless P a) _
        _ (λ _ _ _. inl (refused i _))
        (λ _.
          choose (λ u _. Reports i u)
            (not (fits P D token tap_active r s.world.session.target_bounds)) _ _
            (λ _ _ _. inl (refused i _)) (λ _. carry_out-Reports i a r))
        s tt

  resolved_or-Reports :
      (i : ℕ) (a : ComputerAction P) (r : Result (ResolvedAction P))
      → Gives (resolved_or P D token geometry tap_active recorder display_id i a r) (Reports i)
  unfolding Reports
  resolved_or-Reports i a (err e) s t = inl (refused i _)
  resolved_or-Reports i a (ok r) s t = aim-Reports i a r s tt

  focused_or-Reports :
      (i : ℕ) (a : ComputerAction P) (b : Bool)
      → Gives (focused_or P D token geometry tap_active recorder display_id i a b) (Reports i)
  unfolding focused_or Reports
  focused_or-Reports i a false s t = inl (refused i _)
  focused_or-Reports i a true s t = resolved_or-Reports i a _ s tt

  guarded-Reports :
      (i : ℕ) (a : ComputerAction P)
      → Gives (guarded P D token geometry tap_active recorder display_id i a) (Reports i)
  unfolding guarded Reports
  guarded-Reports i a s t =
      choose {Pre = λ _. Unit {0}} (λ u _. Reports i u)
        (needs_physical P a && not (is_physical s.world.session.pointer_policy)) _ _
        (λ _ _ _. inl (refused i _)) (λ _ s' t'. focused_or-Reports i a _ _ tt) s tt

  turn-Reports :
      (i : ℕ) (a : ComputerAction P)
      → Gives (turn P D token geometry tap_active recorder display_id i a) (Reports i)
  unfolding turn Reports
  turn-Reports i a s t =
      choose (λ u _. Reports i u) (interrupted P D token tap_active s).0 _ _ (λ _ _ _. tt)
        (λ _. guarded-Reports i a) (interrupted P D token tap_active s).1 tt

  continue-Covers :
      (i : ℕ) (a : ComputerAction P) (as_ : List (ComputerAction P))
      (rest : Code P (Result (List ActionRun))) (u : Turn) (s : QueueState P) {rs : List ActionRun}
      → Reports i u
      → ((s' : QueueState P) (rs' : List ActionRun) → (rest s').0 ≡ ok rs' → Covers (suc i) as_ rs')
      → (continue_with P D token geometry tap_active recorder display_id i as_ rest u s).0 ≡ ok rs
      → Covers i (a ∷ as_) rs
  unfolding Reports fill_cancelled
  continue-Covers i a as_ rest (halt none) s {rs} h k e =
      let e' : run_cancelled i ∷ fill_cancelled (suc i) as_ ≡ rs = cc in
      rw (← e') (covers_rest (cancelled_next (fill_cancelled-AllCancelled (suc i) as_)))
  continue-Covers i a as_ rest (halt (some r)) s {rs} (inl own) k e =
      let e' : r ∷ fill_cancelled (suc i) as_ ≡ rs = cc in
      rw (← e') (covers_next own (covers_rest (fill_cancelled-AllCancelled (suc i) as_)))
  continue-Covers i a as_ rest (halt (some r)) s {rs} (inr c) k e =
      let e' : run_cancelled i ∷ fill_cancelled (suc i) as_ ≡ rs = cc in
      rw (← e') (covers_rest (cancelled_next (fill_cancelled-AllCancelled (suc i) as_)))
  continue-Covers i a as_ rest (keep r) s {rs} h k e = kept (rest s).0 (k s) e
    where
      kept :
          (m : Result (List ActionRun))
          → ((rs' : List ActionRun) → m ≡ ok rs' → Covers (suc i) as_ rs')
          → add_report r m ≡ ok rs
          → Covers i (a ∷ as_) rs
      kept (err x) k' e' = absurd (cc)
      kept (ok rs') k' e' = let e2 : r ∷ rs' ≡ rs = cc in rw (← e2) (covers_next h (k' rs' refl))
  continue-Covers i a as_ rest (broken x) s {rs} h k e = absurd (cc)

  run_from-Covers :
      (i : ℕ) (actions : List (ComputerAction P)) (s : QueueState P) (rs : List ActionRun)
      → (run_from P D token geometry tap_active recorder display_id i actions s).0 ≡ ok rs
      → Covers i actions rs
  unfolding run_from
  run_from-Covers i [] s rs e = let e' : [] ≡ rs = cc in rw (← e') covers_none
  run_from-Covers i (a ∷ as_) s rs e =
      continue-Covers i a as_ _ _ _ (turn-Reports i a s tt) (run_from-Covers (suc i) as_) e

  -- Every action of a batch has one report, in the order of the actions: up to some action they
  -- were carried out or refused, each under its own index, and the rest were cancelled.
  pub run-Covers :
      (actions : List (ComputerAction P)) (detector : TakeoverDetector P) (w : World P)
      {rs : List ActionRun}
      → (run P D token geometry tap_active recorder display_id actions detector w).0 ≡ ok rs
      → Covers 0 actions rs
  unfolding run
  run-Covers actions detector w {rs} e = run_from-Covers 0 actions _ rs e
