-- ===== src/Queue/Run.antt =====
-- cu-runtime/src/action_queue.rs: one action from its guards to its report, and the whole batch.
pub mod Reports
pub mod Guarded
pub mod Lawful
pub mod Waits
use oc_computer_use.Prelude.{
  ℕ, zero, suc, ◌+◌, ◌-◌, ◌*◌, ◌/◌, ltb, Option, none, some, Bool, true, false, not, ◌&&◌, ◌||◌,
  List, [], ◌∷◌, is_some, if◌then◌else◌,
}
use oc_computer_use.Errors.{Text, CuError, Result, ok, err}
use oc_computer_use.Platform.{Platform}
use oc_computer_use.Session.{PointerPolicy, Point, set_virtual_pointer}
use oc_computer_use.Policy.{TakeoverDetector, reset}
use oc_computer_use.Human.{millis}
use oc_computer_use.Coordinates.{ImageGeometry}
use oc_computer_use.Actions.{
  ComputerAction, ResolvedAction, resolved_click, resolved_move, resolved_type, resolved_key,
  resolved_scroll, resolved_drag, resolved_wait, to_resolved,
}
use oc_computer_use.Queue.{
  World, Driver, Recorder, executed, QueueState, Code, return, ◌>>=◌, ◌>>◌, look, put, call, emit,
  Detail, ActionResult, ActionRun, run_success, run_failed, run_cancelled,
}
use oc_computer_use.Queue.Guards.{
  is_physical, needs_physical, physical_refusal, is_locationless, stamp_synthetic,
}
use oc_computer_use.Queue.Poll.{interrupted, focus_guard, fits, pointer_of, probe}
use oc_computer_use.Queue.Click.{dispatch_click}

-- What an action came to: a wait that was cut short, or the driver's answer.
pub data Outcome : Type 0 where
  cut_short : Outcome
  came : Result ActionResult → Outcome

-- What a round of the loop does: end the batch, with a report for this action or without, go on to
-- the next action, or fail because the trace could not be written.
pub data Turn : Type 0 where
  halt : Option ActionRun → Turn
  keep : ActionRun → Turn
  broken : CuError → Turn

abbrev pub text_or_default : Option Detail → Detail
text_or_default none = Detail.action_failed
text_or_default (some d) = d

unfoldable pub report : ℕ → ℕ → Result ActionResult → ActionRun
report i ms (err e) = run_failed i ms (Detail.error_text e)
report i ms (ok r) =
    if r.success then run_success i ms else run_failed i ms (text_or_default r.detail)

unfoldable pub fill_cancelled {ℓ} : {A : Type ℓ} → ℕ → List A → List ActionRun
fill_cancelled i [] = []
fill_cancelled i (a ∷ as_) = run_cancelled i ∷ fill_cancelled (suc i) as_

abbrev pub add_report : ActionRun → Result (List ActionRun) → Result (List ActionRun)
add_report r (err e) = err e
add_report r (ok rs) = ok (r ∷ rs)

module _ (P : Platform) (D : Driver P) (token : P.Token) (geometry : ImageGeometry P)
    (tap_active : Bool) (recorder : Option (Recorder P)) (display_id : Text) where
  open D use {execute_with_cancel, pointer_visualized, sleep}

  -- 50 milliseconds.
  abbrev pub poll_interval : ℕ
  poll_interval = 50000000

  abbrev pub nap : ℕ → World P → ℕ
  nap deadline w =
      let remaining = deadline - w.now in
      if ltb poll_interval remaining then poll_interval else remaining

  -- The sleep of one round, and the rounds after it, unless its token ended it.
  unfoldable pub nap_then : ℕ → Code P Bool → Code P Bool
  nap_then deadline rest = do
    fired ← call (λ w. sleep (nap deadline w) token w)
    if fired then return true else rest

  -- One round of the `while` of a wait.
  unfoldable pub wait_round : ℕ → Code P Bool → Code P Bool
  unfolding nap_then
  wait_round deadline rest = do
    now ← look (λ w. w.now)
    if ltb now deadline
        then (do
          stop ← interrupted P D token tap_active
          if stop then return true else nap_then deadline rest)
        else return false

  -- The `while`, true when it was cut short. Every round but the last sleeps 50 milliseconds at
  -- least, or its token ends it, so the rounds of `wait_rounds` are enough.
  unfoldable pub wait_loop : ℕ → ℕ → Code P Bool
  unfolding wait_round
  wait_loop zero deadline = return false
  wait_loop (suc rounds) deadline = wait_round deadline (wait_loop rounds deadline)

  abbrev pub wait_rounds : ℕ → ℕ
  wait_rounds duration_ms = suc (duration_ms / 50 + 1)

  abbrev pub wait_outcome : Bool → Outcome
  wait_outcome true = cut_short
  wait_outcome false = came (ok (record { success = true; detail = none }))

  unfoldable pub wait_for : ℕ → Code P Outcome
  unfolding wait_loop
  wait_for duration_ms = do
    started ← look (λ w. w.now)
    stopped ← wait_loop (wait_rounds duration_ms) (started + duration_ms * 1000000)
    return (wait_outcome stopped)

  -- A move shows the agent's own pointer only.
  unfoldable pub move_virtually : Point P → Code P Outcome
  unfolding stamp_synthetic
  move_virtually to = do
    stamp_synthetic P
    put (λ w. record w { session = set_virtual_pointer P to display_id w.session })
    call (λ w. (tt, pointer_visualized to display_id w.session.virtual_pointer.mode w))
    return (came (ok (record { success = true; detail = some Detail.virtual_pointer })))

  unfoldable pub drive : ResolvedAction P → Code P Outcome
  unfolding stamp_synthetic
  drive r = do
    stamp_synthetic P
    result ← emit (executed r) (execute_with_cancel r token)
    return (came result)

  unfoldable pub perform : ResolvedAction P → Code P Outcome
  perform (resolved_click p button double) = do
    result ← dispatch_click P D token display_id button p double
    return (came result)
  perform (resolved_move from to _) = move_virtually to
  perform (resolved_wait duration_ms) = wait_for duration_ms
  perform r = drive r

  abbrev pub record_run : Option (Recorder P) → ActionRun → Code P (Result (Unit {0}))
  record_run none r = return (ok tt)
  record_run (some f) r = call (f r)

  -- After the report: the trace and the probe for a takeover.
  abbrev pub after_trace : ComputerAction P → ActionRun → Result (Unit {0}) → Code P Turn
  after_trace a r (err e) = return (broken e)
  after_trace a r (ok _) = do
    taken ← probe P D token tap_active a
    return (if taken then halt (some r) else keep r)

  abbrev pub finish : ℕ → ComputerAction P → ℕ → Outcome → Code P Turn
  finish i a started cut_short = return (halt (some (run_cancelled i)))
  finish i a started (came result) = do
    now ← look (λ w. w.now)
    let r = report i (millis (now - started)) result
    written ← record_run recorder r
    after_trace a r written

  unfoldable pub carry_out : ℕ → ComputerAction P → ResolvedAction P → Code P Turn
  carry_out i a r = do started ← look (λ w. w.now); outcome ← perform r; finish i a started outcome

  abbrev pub refuse : ℕ → Detail → Code P Turn
  refuse i d = return (halt (some (run_failed i 0 d)))

  -- The session's window, for an action with its points.
  unfoldable pub aim : ℕ → ComputerAction P → ResolvedAction P → Code P Turn
  unfolding carry_out
  aim i a r = do
    scoped ← look (λ w. is_some w.session.resolved_target)
    inside ← look (λ w. fits P D token tap_active r w.session.target_bounds)
    if scoped && is_locationless P a
        then refuse i Detail.target_coordinate_required
        else if not inside
        then refuse i Detail.target_outside_session
        else carry_out i a r

  abbrev pub resolved_or : ℕ → ComputerAction P → Result (ResolvedAction P) → Code P Turn
  resolved_or i a (err e) = refuse i (Detail.error_text e)
  resolved_or i a (ok r) = aim i a r

  -- The rest of a round, once it is known whether the target has the focus.
  unfoldable pub focused_or : ℕ → ComputerAction P → Bool → Code P Turn
  unfolding aim
  focused_or i a false s = refuse i Detail.input_focus_mismatch s
  focused_or i a true s = resolved_or i a (to_resolved P a geometry s.last_pointer) s

  unfoldable pub guarded : ℕ → ComputerAction P → Code P Turn
  unfolding focused_or
  guarded i a = do
    policy ← look (λ w. w.session.pointer_policy)
    if needs_physical P a && not (is_physical policy)
        then refuse i (physical_refusal P policy a)
        else (do focused ← focus_guard P D token tap_active a; focused_or i a focused)

  -- One round of the loop.
  unfoldable pub turn : ℕ → ComputerAction P → Code P Turn
  unfolding guarded
  turn i a = do
    stop ← interrupted P D token tap_active
    if stop then return (halt none) else guarded i a

  abbrev pub continue_with :
      ℕ
      → List (ComputerAction P)
      → Code P (Result (List ActionRun))
      → Turn
      → Code P (Result (List ActionRun))
  continue_with i as_ rest (halt none) = return (ok (run_cancelled i ∷ fill_cancelled (suc i) as_))
  continue_with i as_ rest (halt (some r)) = return (ok (r ∷ fill_cancelled (suc i) as_))
  continue_with i as_ rest (keep r) = do rs ← rest; return (add_report r rs)
  continue_with i as_ rest (broken e) = return (err e)

  unfoldable pub run_from : ℕ → List (ComputerAction P) → Code P (Result (List ActionRun))
  run_from i [] = return (ok [])
  run_from i (a ∷ as_) = do t ← turn i a; continue_with i as_ (run_from (suc i) as_) t

  -- The variables of `run` at its start, and no input yet.
  abbrev pub start_state : TakeoverDetector P → World P → QueueState P
  start_state detector w = record {
    world = w;
    last_pointer = pointer_of P D token tap_active w.session;
    takeover = reset P detector;
    emitted = [];
  }

  unfoldable pub run :
      List (ComputerAction P)
      → TakeoverDetector P
      → World P
      → Result (List ActionRun) × QueueState P
  unfolding run_from reset
  run actions detector w = run_from 0 actions (start_state detector w)
