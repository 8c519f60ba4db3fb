-- ===== src/Examples/Queues.antt =====
-- Concrete inputs for the theorems on locations, actions, the human's input and the action queue.
use oc_computer_use.Actions.{action_moves_pointer}
use oc_computer_use.Queue.{RunStatus, Detail}
use oc_computer_use.Queue.Click.{occlusion_verdict, with_verdict, click_occluded, press}
use oc_computer_use.Queue.Guards.{
  session_aborted, needs_physical, physical_refusal, human_grabbed, stamp_synthetic,
}
use oc_computer_use.Queue.Poll.{interrupted, take_heuristic, focus_guard, probe}
use oc_computer_use.Queue.Run.{
  came, wait_loop, wait_round, nap_then, run_from, turn, guarded, focused_or, aim, carry_out,
  perform, report, fill_cancelled,
}
use oc_computer_use.Queue.Steady.{IsSteadyTrace}
use oc_computer_use.Prelude.{◌-◌}
use oc_computer_use.Prelude.{
  ℕ, ◌+◌, ◌*◌, ◌≤◌, ◌<◌, ◌≡◌, ◌≢◌, refl, none, some, true, false, List, [], ◌∷◌, All, arith, pos,
  ◌↔◌,
}
use oc_computer_use.Errors.{ok}
use oc_computer_use.Platform.Sample.{sample, no_tokens}
use oc_computer_use.Session.{
  SessionState, PointerPolicy, Point, DisplayBounds, ResolvedSessionTarget,
}
use oc_computer_use.Policy.{TakeoverDetector, TakeoverPolicy, reset}
use oc_computer_use.Human.{
  HumanInputMonitor, on_human_event, record_synthetic_event, consume_real_takeover,
  human_to_input_stop_ms, run_hook, millis,
}
use oc_computer_use.Human.Latency.{on_human_event_lem}
use oc_computer_use.Coordinates.{
  CoordinateSpace, ImageGeometry, Region, to_global, image_pixel_to_global, to_image_pixels,
  scale_factor,
}
use oc_computer_use.Coordinates.Inside.{to_global_inside, to_image_pixels_inside, HasEnds}
use oc_computer_use.Actions.{
  ComputerAction, click, drag, wait, MouseButton, ResolvedAction, resolved_drag, to_resolved,
  resolve_action_points, resolved_within_bounds, TextInputMethod, WaitPolicy, ActionBatch, validate,
}
use oc_computer_use.Actions.Limits.{validate_iff, IsWithinLimits}
use oc_computer_use.Actions.Bounds.{resolve_action_points-to_resolved, touched, every_inside}
use oc_computer_use.Queue.{World, Driver, QueueState, ActionRun}
use oc_computer_use.Queue.Click.{dispatch_click}
use oc_computer_use.Queue.Click.Occlusion.{
  IsHidden, IsHeldBack, other_window, dispatch_click-HeldBack,
}
use oc_computer_use.Queue.Steady.{IsSteady}
use oc_computer_use.Queue.Lawful.{IsLawful}
use oc_computer_use.Queue.Run.{run, wait_for, cut_short}
use oc_computer_use.Queue.Run.Reports.{Covers, run-Covers}
use oc_computer_use.Queue.Run.Lawful.{run-IsLawful}
use oc_computer_use.Queue.Run.Waits.{wait_for_lasts}
use oc_computer_use.Examples.{session_of}

-- A screen of 10 by 10 pixels, one pixel to a point.
abbrev pub screen : DisplayBounds sample
screen = record { x = 0; y = 0; width = 10000; height = 10000 }

abbrev geometry : ImageGeometry sample
geometry = record { image_width_px = 10; image_height_px = 10; display_bounds = screen }

abbrev middle_of_screen : Point sample
middle_of_screen = record { x = 5000; y = 5000 }

to_global_inside_example :
    (px : ℕ) × (py : ℕ) × (px < 10)
    × (py < 10)
    × (middle_of_screen ≡ image_pixel_to_global sample geometry px py)
unfolding to_global image_pixel_to_global
to_global_inside_example =
    to_global_inside sample geometry CoordinateSpace.image_pixels middle_of_screen
      {q = middle_of_screen} (omega arith) (omega arith) (omega arith) (omega arith) refl

abbrev region : Region sample
region = record {
  x = 1000;
  y = 1000;
  width = 2000;
  height = 2000;
  coordinate_space = CoordinateSpace.image_pixels;
}

region-HasEnds : HasEnds sample region
unfolding HasEnds
region-HasEnds = (λ m n em en. fits m n em en, λ m n em en. fits m n em en)
  where
    fits : (m n : ℕ) → pos 1 ≡ pos m → pos 2 ≡ pos n → m + n < 9223372036854775808
    fits m n em en = let a : 1 ≡ m = cc in let b : 2 ≡ n = cc in omega arith

to_image_pixels_inside_example : (1 + 2 ≤ 10) × (1 + 2 ≤ 10)
unfolding to_image_pixels
to_image_pixels_inside_example =
    to_image_pixels_inside sample region geometry
      {q = record { x = 1; y = 1; width = 2; height = 2 }} (omega arith) (omega arith) (omega arith)
      (omega arith) region-HasEnds refl

abbrev drag_action : ComputerAction sample
drag_action =
    drag (record { x = 1000; y = 1000 }) (record { x = 2000; y = 2000 })
      CoordinateSpace.image_pixels none

abbrev dragged : ResolvedAction sample
dragged = resolved_drag (record { x = 1000; y = 1000 }) (record { x = 2000; y = 2000 }) none

resolve_action_points-to_resolved_example :
    (resolve_action_points sample drag_action geometry ≡ ok (touched sample dragged))
    × (resolved_within_bounds sample dragged screen
        ≡ every_inside sample screen (touched sample dragged))
unfolding to_resolved to_global image_pixel_to_global scale_factor
resolve_action_points-to_resolved_example =
    resolve_action_points-to_resolved sample drag_action geometry middle_of_screen screen
      {r = dragged} refl

abbrev monitor : HumanInputMonitor sample
monitor = record {
  last_human = none;
  pending_real_takeover = false;
  pending_takeover = false;
  last_latency_ms = none;
  human_event_at = none;
  event_callback_at = none;
  takeover_started_at = none;
  last_synthetic_event_at = some 1;
  synthetic_count = 1;
  human_event_generation = 4;
  real_takeover_hook = some (sample.cancel 5);
}

-- An event noticed 3 milliseconds late, at 10, and an input at 12.
on_human_event_example :
    let (h', st') = on_human_event sample 3 10000000 monitor no_tokens in
    (human_to_input_stop_ms sample (record_synthetic_event sample 12000000 h')
      ≡ some (millis (12000000 - 10000000) + 3))
    × (st' ≡ run_hook sample (some (sample.cancel 5)) no_tokens)
    × ((consume_real_takeover sample h').0 ≡ true)
    × ((consume_real_takeover sample (consume_real_takeover sample h').1).0 ≡ false)
    × (h'.human_event_generation ≢ 4)
on_human_event_example =
    on_human_event_lem sample 3 10000000 12000000 monitor no_tokens (omega arith) (omega arith)
      (omega arith)

abbrev pub window : ResolvedSessionTarget sample
window = record { bundle_id = 3; pid = 40; window_id = 6; bounds = some screen }

abbrev pub world : World sample
world = record {
  session = record (session_of SessionState.active) { resolved_target = some window };
  human = some monitor;
  store = no_tokens;
  now = 0;
}

-- A driver that does what it is asked for, at once; window 7 lies on top everywhere.
abbrev pub driver : Driver sample
driver = record {
  execute_with_cancel = λ r t w. (ok (record { success = true; detail = none }), w);
  click_via_accessibility = λ pid q w. (ok true, w);
  physical_click_at = λ b q w. (ok true, w);
  physical_double_click_at = λ b q w. (ok true, w);
  pointer_click_ripple = λ q w. w;
  pointer_visualized = λ q d m w. w;
  pointer_hidden = λ w. w;
  pointer_location = λ w. (ok middle_of_screen, w);
  active_application = λ w. (ok none, w);
  window_at_point = λ q w. (ok (some (record { window_id = 7; pid = 41; bundle_id = 4 })), w);
  sleep = λ ns t w. (false, record w { now = w.now + ns });
}

driver-IsSteady : IsSteady sample driver
driver-IsSteady = record {
  execute = λ r t w. refl;
  accessibility = λ pid q w. refl;
  physical = λ b q w. refl;
  physical_double = λ b q w. refl;
  ripple = λ q w. refl;
  visualized = λ q d m w. refl;
  hidden = λ w. refl;
  location = λ w. refl;
  application = λ w. refl;
  window = λ q w. refl;
  sleep = λ ns t w. refl;
}

abbrev detector : TakeoverDetector sample
detector = record {
  jump_threshold_points = 60000;
  required_jumps = 2;
  policy = TakeoverPolicy.auto_pause;
  consecutive_jumps = 0;
}

abbrev actions : List (ComputerAction sample)
actions =
    click 1000 1000 MouseButton.left CoordinateSpace.image_pixels ∷ wait 100 ∷ drag_action ∷ []

run-IsLawful_example :
    All
      (IsLawful sample PointerPolicy.isolated_preferred 5)
      (run sample driver 5 geometry true none 0 actions detector world).1.emitted
unfolding IsSteadyTrace
run-IsLawful_example =
    run-IsLawful sample driver 5 geometry true none 0 driver-IsSteady tt actions detector world

abbrev queue_state : QueueState sample
queue_state = record {
  world = world;
  last_pointer = middle_of_screen;
  takeover = detector;
  emitted = [];
}

window-IsHidden :
    IsHidden sample driver 5 0 window (driver.window_at_point middle_of_screen world).0
window-IsHidden =
    other_window (record { window_id = 7; pid = 41; bundle_id = 4 }) (λ e. omega (arith, e))

dispatch_click-HeldBack_example :
    let (r, s') =
      dispatch_click sample driver 5 0 MouseButton.left middle_of_screen true queue_state in
    IsHeldBack sample driver 5 0 middle_of_screen true
      (driver.window_at_point middle_of_screen world).0
      []
      r
      s'.emitted
dispatch_click-HeldBack_example =
    dispatch_click-HeldBack sample driver 5 0 MouseButton.left middle_of_screen true window
      queue_state refl window-IsHidden

wait_for_lasts_example :
    0 + 100 * 1000000 ≤ (wait_for sample driver 5 geometry true none 0 100 queue_state).1.world.now
unfolding wait_for wait_loop wait_round nap_then interrupted take_heuristic session_aborted
    consume_real_takeover
wait_for_lasts_example =
    wait_for_lasts sample driver 5 geometry true none 0 (λ ns t w h. sums w.now ns) 100 queue_state
      differs
  where
    sums : (a b : ℕ) → a + b ≤ a + b
    sums a b = omega arith

    differs : came (ok (record { success = true; detail = none })) ≢ cut_short
    differs e = cc

abbrev reports : List ActionRun
reports =
    record { index = 0; status = RunStatus.success; duration_ms = 0; error = none }
    ∷ record { index = 1; status = RunStatus.success; duration_ms = 100; error = none }
    ∷ record {
      index = 2;
      status = RunStatus.failed;
      duration_ms = 0;
      error = some Detail.physical_fallback_required;
    }
    ∷ []

run-Covers_example : Covers 0 actions reports
unfolding run run_from turn guarded focused_or focus_guard aim carry_out perform dispatch_click
    occlusion_verdict with_verdict click_occluded press interrupted take_heuristic session_aborted
    consume_real_takeover to_resolved to_global image_pixel_to_global scale_factor needs_physical
    physical_refusal wait_for wait_loop wait_round nap_then human_grabbed stamp_synthetic probe
    report fill_cancelled reset action_moves_pointer record_synthetic_event
run-Covers_example =
    run-Covers sample driver 5 geometry true none 0 actions detector world {rs = reports} refl

-- A text of two bytes, a key and a wait of ten minutes.
abbrev permitted : ActionBatch sample
permitted = record {
  actions =
      ComputerAction.type_text (104 ∷ 105 ∷ []) TextInputMethod.keyboard
      ∷ ComputerAction.key (36 ∷ [])
      ∷ ComputerAction.wait 600000
      ∷ [];
  wait_policy = WaitPolicy.no_wait;
  fixed_wait_ms = none;
  return_screenshot = false;
}

validate_iff_example : (validate sample permitted ≡ ok tt) ↔ IsWithinLimits sample permitted.actions
validate_iff_example = validate_iff sample permitted
