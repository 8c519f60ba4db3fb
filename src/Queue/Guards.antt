-- ===== src/Queue/Guards.antt =====
-- cu-runtime/src/action_queue.rs: the checks before an action, and what a takeover does.
use oc_computer_use.Prelude.{
  ℕ, ◌==◌, Option, none, some, Bool, true, false, not, ◌&&◌, ◌||◌, is_some,
}
use oc_computer_use.Errors.{Text, Result, ok, err}
use oc_computer_use.Platform.{Platform}
use oc_computer_use.Session.{
  Session, SessionState, PointerPolicy, PointerMode, SessionTarget, transition, set_mode,
}
use oc_computer_use.Policy.{TakeoverPolicy}
use oc_computer_use.Human.{
  HumanInputMonitor, record_synthetic_event, event_to_takeover_ms, human_to_input_stop_ms,
}
use oc_computer_use.Actions.{ComputerAction, type_text, key, scroll, drag}
use oc_computer_use.Queue.{World, Code, put, Detail, Telemetry, ApplicationInfo}

abbrev pub is_physical : PointerPolicy → Bool
is_physical PointerPolicy.physical_allowed = true
is_physical _ = false

-- The states of `session_aborted` beside its flags.
abbrev pub is_ending : SessionState → Bool
is_ending SessionState.stopping = true
is_ending SessionState.stopped = true
is_ending SessionState.failed = true
is_ending _ = false

-- A constraint of the target and what is known of the application in front.
abbrev pub meets : Option ℕ → Option ℕ → Bool
meets none _ = true
meets (some t) none = false
meets (some t) (some l) = l == t

abbrev pub bundle_of : Option ApplicationInfo → Option Text
bundle_of none = none
bundle_of (some a) = some a.bundle_id

abbrev pub pid_of : Option ApplicationInfo → Option ℕ
pid_of none = none
pid_of (some a) = a.pid

abbrev pub window_of : Option ApplicationInfo → Option ℕ
window_of none = none
window_of (some a) = a.window_id

abbrev pub known : Result (Option ApplicationInfo) → Option ApplicationInfo
known (ok a) = a
known (err _) = none

unfoldable pub is_focused : SessionTarget → Option ApplicationInfo → Bool
is_focused t live =
    meets t.bundle_id (bundle_of live)
    && meets t.pid (pid_of live)
    && meets t.window_id (window_of live)

abbrev pub has_identity : SessionTarget → Bool
has_identity t = is_some t.bundle_id || is_some t.pid || is_some t.window_id

module _ (P : Platform) where
  open P use {Token, is_cancelled, f64_lt}

  unfoldable pub needs_physical : ComputerAction P → Bool
  needs_physical (drag _ _ _ _) = true
  needs_physical (scroll (some _) (some _) _ _ _) = true
  needs_physical _ = false

  abbrev pub needs_focus : ComputerAction P → Bool
  needs_focus (type_text _ _) = true
  needs_focus (key _) = true
  needs_focus _ = false

  -- A scroll without any coordinate.
  abbrev pub is_locationless : ComputerAction P → Bool
  is_locationless (scroll none none _ _ _) = true
  is_locationless _ = false

  -- The error of an action that needs the real cursor, under a policy that is not physical.
  unfoldable pub physical_refusal : PointerPolicy → ComputerAction P → Detail
  physical_refusal PointerPolicy.isolated_only (drag _ _ _ _) = Detail.isolated_drag_unavailable
  physical_refusal PointerPolicy.isolated_only _ = Detail.physical_fallback_not_allowed
  physical_refusal _ _ = Detail.physical_fallback_required

  unfoldable pub session_aborted : Session P → Bool
  session_aborted s = s.paused || s.user_takeover || is_ending s.state

  -- `session.transition`, whose error the queue drops.
  abbrev pub settle : World P → Result (Session P × P.Store) → World P
  settle w (err _) = w
  settle w (ok (s, st)) = record w { session = s; store = st }

  unfoldable pub try_transition : SessionState → World P → World P
  try_transition t w = settle w (transition P w.session t w.store)

  abbrev pub with_monitor : (HumanInputMonitor P → HumanInputMonitor P) → World P → World P
  with_monitor f w = record w { human = changed w.human }
    where
      changed : Option (HumanInputMonitor P) → Option (HumanInputMonitor P)
      changed none = none
      changed (some h) = some (f h)

  -- Taking a flag of the monitor, if there is one.
  abbrev pub take_flag :
      (HumanInputMonitor P → Bool × HumanInputMonitor P)
      → Option (HumanInputMonitor P)
      → Bool × Option (HumanInputMonitor P)
  take_flag f none = (false, none)
  take_flag f (some h) = let (b, h') = f h in (b, some h')

  abbrev pub take : (HumanInputMonitor P → Bool × HumanInputMonitor P) → World P → Bool × World P
  take f w = let (b, h) = take_flag f w.human in (b, record w { human = h })

  unfoldable pub stamp_synthetic : Code P (Unit {0})
  stamp_synthetic = put (λ w. with_monitor (record_synthetic_event P w.now) w)

  abbrev pub generation : World P → Option ℕ
  generation w = generation_of w.human
    where
      generation_of : Option (HumanInputMonitor P) → Option ℕ
      generation_of none = none
      generation_of (some h) = some h.human_event_generation

  abbrev pub moved : Option ℕ → Option ℕ → Bool
  moved (some b) (some a) = not (a == b)
  moved _ _ = false

  unfoldable pub human_grabbed : Token → Option ℕ → World P → Bool
  human_grabbed token before w = is_cancelled token w.store || moved before (generation w)

  abbrev pub no_telemetry : Telemetry
  no_telemetry = record {
    event_detection_latency_ms = none;
    human_to_takeover_ms = none;
    human_to_input_stop_ms = none;
  }

  unfoldable pub interrupt_telemetry : Option (HumanInputMonitor P) → Telemetry
  interrupt_telemetry none = no_telemetry
  interrupt_telemetry (some h) = record {
    event_detection_latency_ms = h.last_latency_ms;
    human_to_takeover_ms = event_to_takeover_ms P h;
    human_to_input_stop_ms = human_to_input_stop_ms P h;
  }

  abbrev pub set_pointer_mode : PointerMode → World P → World P
  set_pointer_mode m w = record w {
    session = record w.session { virtual_pointer = set_mode P m w.session.virtual_pointer };
  }

  unfoldable pub apply_takeover : TakeoverPolicy → World P → World P
  unfolding try_transition
  apply_takeover TakeoverPolicy.ignore w = w
  apply_takeover TakeoverPolicy.auto_pause w = try_transition SessionState.paused w
  apply_takeover TakeoverPolicy.immediate_takeover w = try_transition SessionState.user_takeover w

  abbrev pub heuristic_takeover : Code P (Unit {0})
  heuristic_takeover s = put (apply_takeover s.takeover.policy) s
