-- ===== src/Queue/Run/Lawful.antt =====
-- A batch asks for lawful inputs only.
use oc_computer_use.Queue.Poll.{take_heuristic}
use oc_computer_use.Queue.Run.Guarded.{drags, travels, IsGuarded, to_resolved-IsGuarded}
use oc_computer_use.Prelude.{◌-◌}
use oc_computer_use.Human.{millis}
use oc_computer_use.Prelude.{
  ℕ, zero, suc, ◌+◌, ◌*◌, ◌≡◌, refl, ◌∙◌, sym, ap, Option, none, some, Bool, true, false, List, [],
  ◌∷◌, All, not, ◌&&◌, arith, is_some, ltb,
}
use oc_computer_use.Errors.{Text, Result, ok, err}
use oc_computer_use.Platform.{Platform}
use oc_computer_use.Session.{PointerPolicy, set_virtual_pointer}
use oc_computer_use.Policy.{TakeoverDetector}
use oc_computer_use.Coordinates.{ImageGeometry}
use oc_computer_use.Actions.{
  ComputerAction, ResolvedAction, resolved_click, resolved_move, resolved_type, resolved_key,
  resolved_scroll, resolved_drag, resolved_wait, to_resolved,
}
use oc_computer_use.Queue.{World, Driver, Recorder, executed, QueueState, ActionRun, Code, call}
use oc_computer_use.Queue.Guards.{
  is_physical, stamp_synthetic, needs_physical, needs_focus, is_locationless,
}
use oc_computer_use.Queue.Poll.{interrupted, focus_guard, fits}
use oc_computer_use.Queue.Steady.{
  IsSteady, IsSteadyTrace, Holds, carry, carry_input, split, interrupted-Holds, focus_guard-Holds,
  probe-Holds,
}
use oc_computer_use.Queue.Lawful.{IsLawful, borrows, acts, is_physical-true}
use oc_computer_use.Queue.Lawful.Clicks.{dispatch_click-Holds}
use oc_computer_use.Queue.Run.{
  Turn, halt, keep, broken, Outcome, cut_short, came, nap, nap_then, wait_round, wait_loop,
  wait_for, wait_rounds, move_virtually, drive, perform, record_run, after_trace, finish, carry_out,
  aim, resolved_or, focused_or, guarded, turn, continue_with, run_from, run, report,
}

module _ (P : Platform) (D : Driver P) (token : P.Token) (geometry : ImageGeometry P)
    (tap_active : Bool) (recorder : Option (Recorder P)) (display_id : Text) (steady : IsSteady P D)
    (steady_trace : IsSteadyTrace P recorder) (p : PointerPolicy) where
  abbrev Good : QueueState P → Type 0
  Good = Holds P (IsLawful P p token) p

  abbrev Live : QueueState P → Type 0
  Live s = P.is_cancelled token s.world.store ≡ false

  nap_then-Holds :
      (deadline : ℕ) (rest : Code P Bool) (s : QueueState P)
      → ((s' : QueueState P) → Good s' → Good (rest s').1)
      → Good s
      → Good (nap_then P D token geometry tap_active recorder display_id deadline rest s).1
  unfolding nap_then
  nap_then-Holds deadline rest s k h =
      (let ns = nap P D token geometry tap_active recorder display_id deadline s.world in
        let (fired, s1) = call (D.sleep ns token) s in
        split P fired _ _ s1 (λ _ g. g) (λ _ g. k s1 g)
          (carry P {s = s} refl (steady.sleep ns token s.world) h))

  wait_round-Holds :
      (deadline : ℕ) (rest : Code P Bool) (s : QueueState P)
      → ((s' : QueueState P) → Good s' → Good (rest s').1)
      → Good s
      → Good (wait_round P D token geometry tap_active recorder display_id deadline rest s).1
  unfolding wait_round
  wait_round-Holds deadline rest s k h =
      split P (ltb s.world.now deadline) _ _ s
        (λ _ g.
          (let (stop, s1) = interrupted P D token tap_active s in
            split P stop _ _ s1 (λ _ g1. g1) (λ _ g1. nap_then-Holds deadline rest s1 k g1)
              (interrupted-Holds P D steady token tap_active s g)))
        (λ _ g. g) h

  wait_loop-Holds :
      (rounds deadline : ℕ) (s : QueueState P)
      → Good s
      → Good (wait_loop P D token geometry tap_active recorder display_id rounds deadline s).1
  unfolding wait_loop
  wait_loop-Holds zero deadline s h = h
  wait_loop-Holds (suc rounds) deadline s h =
      wait_round-Holds deadline _ s (wait_loop-Holds rounds deadline) h

  drive-Holds :
      (r : ResolvedAction P) (s : QueueState P)
      → (borrows P (executed r) ≡ true → p ≡ PointerPolicy.physical_allowed)
      → (acts P (executed r) ≡ true → Live s)
      → Good s
      → Good (drive P D token geometry tap_active recorder display_id r s).1
  unfolding drive stamp_synthetic
  drive-Holds r s b l h =
      carry_input P {s = s} refl (steady.execute r token _) (record { permitted = b; live = l }) h

  perform-Holds :
      (r : ResolvedAction P) (s : QueueState P)
      → (drags r ≡ true → p ≡ PointerPolicy.physical_allowed)
      → (travels r ≡ true → Live s)
      → Good s
      → Good (perform P D token geometry tap_active recorder display_id r s).1
  unfolding perform wait_for move_virtually stamp_synthetic set_virtual_pointer borrows acts
  perform-Holds (resolved_click q b double) s d l h =
      dispatch_click-Holds P D steady token display_id p b q double s h
  perform-Holds (resolved_move from to _) s d l h =
      carry P {s = s} refl (steady.visualized _ _ _ _) h
  perform-Holds (resolved_wait ms) s d l h =
      wait_loop-Holds (wait_rounds P D token geometry tap_active recorder display_id ms)
        (s.world.now + ms * 1000000) s h
  perform-Holds (resolved_type t m) s d l h =
      drive-Holds (resolved_type t m) s (λ e. absurd (cc)) (λ e. absurd (cc)) h
  perform-Holds (resolved_key ks) s d l h =
      drive-Holds (resolved_key ks) s (λ e. absurd (cc)) (λ e. absurd (cc)) h
  perform-Holds (resolved_scroll none dx dy) s d l h =
      drive-Holds (resolved_scroll none dx dy) s (λ e. absurd (cc)) l h
  perform-Holds (resolved_scroll (some q) dx dy) s d l h =
      drive-Holds (resolved_scroll (some q) dx dy) s d l h
  perform-Holds (resolved_drag q q' ms) s d l h = drive-Holds (resolved_drag q q' ms) s d l h

  trace-Holds :
      (o : Option (Recorder P)) (r : ActionRun) (s : QueueState P)
      → IsSteadyTrace P o
      → Good s
      → Good (record_run P D token geometry tap_active recorder display_id o r s).1
  unfolding IsSteadyTrace
  trace-Holds none r s t h = h
  trace-Holds (some f) r s t h = carry P {s = s} refl (t r s.world) h

  after_trace-Holds :
      (a : ComputerAction P) (r : ActionRun) (w : Result (Unit {0})) (s : QueueState P)
      → Good s
      → Good (after_trace P D token geometry tap_active recorder display_id a r w s).1
  after_trace-Holds a r (err _) s h = h
  after_trace-Holds a r (ok _) s h = probe-Holds P D steady token tap_active a s h

  finish-Holds :
      (i : ℕ) (a : ComputerAction P) (started : ℕ) (o : Outcome) (s : QueueState P)
      → Good s
      → Good (finish P D token geometry tap_active recorder display_id i a started o s).1
  finish-Holds i a started cut_short s h = h
  finish-Holds i a started (came result) s h =
      after_trace-Holds a _ _ _
        (trace-Holds recorder (report i (millis (s.world.now - started)) result) s steady_trace h)

  aim-Holds :
      (i : ℕ) (a : ComputerAction P) (r : ResolvedAction P) (s : QueueState P)
      → (drags r ≡ true → p ≡ PointerPolicy.physical_allowed)
      → (travels r ≡ true → Live s)
      → Good s
      → Good (aim P D token geometry tap_active recorder display_id i a r s).1
  unfolding aim carry_out
  aim-Holds i a r s d l h =
      split P (is_some s.world.session.resolved_target && is_locationless P a) _ _ s (λ _ g. g)
        (λ _ g.
          split P (not (fits P D token tap_active r s.world.session.target_bounds)) _ _ s (λ _ k. k)
            (λ _ k.
              (let (o, s1) = perform P D token geometry tap_active recorder display_id r s in
                finish-Holds i a s.world.now o s1 (perform-Holds r s d l k)))
            g)
        h

  resolved_or-Holds :
      (i : ℕ) (a : ComputerAction P) (m : Result (ResolvedAction P)) (s : QueueState P)
      → ((r : ResolvedAction P) → m ≡ ok r → IsGuarded P a r)
      → (needs_physical P a ≡ true → p ≡ PointerPolicy.physical_allowed)
      → (needs_focus P a ≡ false → Live s)
      → Good s
      → Good (resolved_or P D token geometry tap_active recorder display_id i a m s).1
  resolved_or-Holds i a (err _) s g d l h = h
  resolved_or-Holds i a (ok r) s g d l h =
      (let k = g r refl in aim-Holds i a r s (λ e. d (k.cursor e)) (λ e. l (k.place e)) h)

  focused_or-Holds :
      (i : ℕ) (a : ComputerAction P) (b : Bool) (s : QueueState P)
      → (needs_physical P a ≡ true → p ≡ PointerPolicy.physical_allowed)
      → (needs_focus P a ≡ false → Live s)
      → Good s
      → Good (focused_or P D token geometry tap_active recorder display_id i a b s).1
  unfolding focused_or
  focused_or-Holds i a false s d l h = h
  focused_or-Holds i a true s d l h =
      resolved_or-Holds i a (to_resolved P a geometry s.last_pointer) s
        (λ r e. to_resolved-IsGuarded P a geometry s.last_pointer e) d l h

  focus_guard_store :
      (a : ComputerAction P) (s : QueueState P)
      → needs_focus P a ≡ false
      → (focus_guard P D token tap_active a s).1.world.store ≡ s.world.store
  unfolding focus_guard
  focus_guard_store a s e = rw (e) refl

  -- A guard that lets an action by which needs the cursor has seen the physical policy.
  passed :
      (b : Bool) (q : PointerPolicy)
      → (b && not (is_physical q)) ≡ false
      → b ≡ true
      → q ≡ PointerPolicy.physical_allowed
  passed b q h t = is_physical-true q (ground arith)

  guarded-Holds :
      (i : ℕ) (a : ComputerAction P) (s : QueueState P)
      → Live s
      → Good s
      → Good (guarded P D token geometry tap_active recorder display_id i a s).1
  unfolding guarded
  guarded-Holds i a s l h =
      split P (needs_physical P a && not (is_physical s.world.session.pointer_policy)) _ _ s
        (λ _ g. g)
        (λ e g.
          (let (focused, s1) = focus_guard P D token tap_active a s in
            focused_or-Holds i a focused s1
              (λ t. sym h.policy ∙ passed (needs_physical P a) s.world.session.pointer_policy e t)
              (λ t. ap (P.is_cancelled token) (focus_guard_store a s t) ∙ l)
              (focus_guard-Holds P D steady token tap_active a s g)))
        h

  interrupted-Live :
      (s : QueueState P)
      → (interrupted P D token tap_active s).0 ≡ false
      → Live (interrupted P D token tap_active s).1
  unfolding interrupted take_heuristic
  interrupted-Live s h = ground arith

  turn-Holds :
      (i : ℕ) (a : ComputerAction P) (s : QueueState P)
      → Good s
      → Good (turn P D token geometry tap_active recorder display_id i a s).1
  unfolding turn
  turn-Holds i a s h =
      (let (stop, s1) = interrupted P D token tap_active s in
        split P stop _ _ s1 (λ _ g. g) (λ e g. guarded-Holds i a s1 (interrupted-Live s e) g)
          (interrupted-Holds P D steady token tap_active s h))

  continue-Holds :
      (i : ℕ) (as_ : List (ComputerAction P)) (rest : Code P (Result (List ActionRun))) (t : Turn)
      (s : QueueState P)
      → ((s' : QueueState P) → Good s' → Good (rest s').1)
      → Good s
      → Good (continue_with P D token geometry tap_active recorder display_id i as_ rest t s).1
  continue-Holds i as_ rest (halt none) s k h = h
  continue-Holds i as_ rest (halt (some _)) s k h = h
  continue-Holds i as_ rest (keep _) s k h = k s h
  continue-Holds i as_ rest (broken _) s k h = h

  run_from-Holds :
      (i : ℕ) (actions : List (ComputerAction P)) (s : QueueState P)
      → Good s
      → Good (run_from P D token geometry tap_active recorder display_id i actions s).1
  unfolding run_from
  run_from-Holds i [] s h = h
  run_from-Holds i (a ∷ as_) s h =
      (let (t, s1) = turn P D token geometry tap_active recorder display_id i a s in
        continue-Holds i as_ _ t s1 (run_from-Holds (suc i) as_) (turn-Holds i a s h))

module _ (P : Platform) (D : Driver P) (token : P.Token) (geometry : ImageGeometry P)
    (tap_active : Bool) (recorder : Option (Recorder P)) (display_id : Text) where
  -- If neither the driver nor the trace changes the session's pointer policy, every input that a
  -- batch asks for is lawful: it moves the real cursor only under the physical policy, and a click, a
  -- drag or a scroll is asked for while the batch's token is live.
  pub run-IsLawful :
      IsSteady P D
      → IsSteadyTrace P recorder
      → (actions : List (ComputerAction P)) (detector : TakeoverDetector P) (w : World P)
      → All
          (IsLawful P w.session.pointer_policy token)
          (run P D token geometry tap_active recorder display_id actions detector w).1.emitted
  unfolding run
  run-IsLawful steady steady_trace actions detector w =
      (run_from-Holds P D token geometry tap_active recorder display_id steady steady_trace
        w.session.pointer_policy 0 actions _ (record { policy = refl; inputs = tt })).inputs
