-- ===== src/Queue.antt =====
-- cu-runtime/src/action_queue.rs, the types: what the queue reports, what it asks of the driver,
-- and the state that its code runs on. The children hold its steps in the order of `run`.
pub mod Guards
pub mod Poll
pub mod Fallback
pub mod Click
pub mod Run
pub mod Triples
pub mod Steady
pub mod Lawful
use oc_computer_use.Prelude.{
  ℕ, ◌-◌, ◌/◌, Option, none, some, Bool, true, false, List, [], ◌∷◌, if◌then◌else◌,
}
use oc_computer_use.Errors.{Text, CuError, Result, ok, err}
use oc_computer_use.Platform.{Platform}
use oc_computer_use.Session.{Session, Point, PointerMode}
use oc_computer_use.Policy.{TakeoverDetector}
use oc_computer_use.Human.{HumanInputMonitor}
use oc_computer_use.Actions.{MouseButton, ResolvedAction}

pub data RunStatus : Type 0 where
  success failed cancelled : RunStatus

pub data VerdictLabel : Type 0 where
  not_target_scoped clear blocked no_window_at_point hit_test_unavailable : VerdictLabel

-- The figures of `interrupt_telemetry_suffix`.
pub record Telemetry : Type 0 where
  pub event_detection_latency_ms : Option ℕ
  pub human_to_takeover_ms : Option ℕ
  pub human_to_input_stop_ms : Option ℕ

-- What the texts that the queue writes into a detail or an error say. `driver_text` is a driver's
-- own text; an `error_text` is an error, printed.
pub data Detail : Type 0 where
  direct_cg_event virtual_pointer : Detail
  accessibility : Option VerdictLabel → Detail
  physical_restored : Bool → Detail
  physical_grabbed : Telemetry → Detail
  cancelled_by_takeover : Telemetry → Detail
  human_takeover isolated_pointer_unavailable ax_unsupported_for_double_click : Detail
  target_occluded wait_interrupted action_failed : Detail
  ax_error : CuError → Detail
  isolated_drag_unavailable physical_fallback_not_allowed physical_fallback_required : Detail
  input_focus_mismatch target_coordinate_required target_outside_session : Detail
  driver_text : Text → Detail
  error_text : CuError → Detail

-- `duration_ms` is left out: the queue measures the time itself.
pub record ActionResult : Type 0 where
  pub success : Bool
  pub detail : Option Detail

-- `pointer` is left out: it is parsed from the detail that a success had.
pub record ActionRun : Type 0 where
  pub index : ℕ
  pub status : RunStatus
  pub duration_ms : ℕ
  pub error : Option Detail

abbrev pub run_success : ℕ → ℕ → ActionRun
run_success i ms = record { index = i; status = RunStatus.success; duration_ms = ms; error = none }

abbrev pub run_failed : ℕ → ℕ → Detail → ActionRun
run_failed i ms d = record {
  index = i;
  status = RunStatus.failed;
  duration_ms = ms;
  error = some d;
}

abbrev pub run_cancelled : ℕ → ActionRun
run_cancelled i = record { index = i; status = RunStatus.cancelled; duration_ms = 0; error = none }

pub record ApplicationInfo : Type 0 where
  pub bundle_id : Text
  pub pid : Option ℕ
  pub window_id : Option ℕ

pub record WindowAtPoint : Type 0 where
  pub window_id : ℕ
  pub pid : ℕ
  pub bundle_id : Text

pub data OcclusionVerdict : Type 0 where
  unscoped : OcclusionVerdict
  unobstructed : OcclusionVerdict
  covered : WindowAtPoint → OcclusionVerdict
  no_window : OcclusionVerdict
  unverifiable : OcclusionVerdict

unfoldable pub label : OcclusionVerdict → VerdictLabel
label unscoped = VerdictLabel.not_target_scoped
label unobstructed = VerdictLabel.clear
label (covered _) = VerdictLabel.blocked
label no_window = VerdictLabel.no_window_at_point
label unverifiable = VerdictLabel.hit_test_unavailable

module _ (P : Platform) where
  open P use {Token, Store}

  -- What others may change while the queue waits for a call: the shared session, the monitor, the
  -- tokens and the clock, in nanoseconds.
  pub record World : Type 0 where
    pub session : Session P
    pub human : Option (HumanInputMonitor P)
    pub store : Store
    pub now : ℕ

  -- The methods of `ComputerDriver` that the queue calls, the runtime's `sleep` raced with a token
  -- (true when the token won), and what each leaves of the world. Where the queue drops a result,
  -- it is left out here.
  pub record Driver : Type 0 where
    pub execute_with_cancel : ResolvedAction P → Token → World → Result ActionResult × World
    pub click_via_accessibility : ℕ → Point P → World → Result Bool × World
    pub physical_click_at : MouseButton → Point P → World → Result Bool × World
    pub physical_double_click_at : MouseButton → Point P → World → Result Bool × World
    pub pointer_click_ripple : Point P → World → World
    pub pointer_visualized : Point P → Text → PointerMode → World → World
    pub pointer_hidden : World → World
    pub pointer_location : World → Result (Point P) × World
    pub active_application : World → Result (Option ApplicationInfo) × World
    pub window_at_point : Point P → World → Result (Option WindowAtPoint) × World
    pub sleep : ℕ → Token → World → Bool × World

  -- `TraceRecorder::record_action`, with the report that it writes.
  abbrev pub Recorder : Type 0
  Recorder = ActionRun → World → Result (Unit {0}) × World

  -- An input that the queue asks for.
  pub data Input : Type 0 where
    executed : ResolvedAction P → Input
    pressed : ℕ → Point P → Input
    clicked : MouseButton → Point P → Bool → Input

  -- An input and the world at the moment the queue asks for it.
  pub record Emission : Type 0 where
    pub input : Input
    pub at : World

  -- `last_pointer` and `takeover` are variables of `run`; `emitted` has the latest input first.
  pub record QueueState : Type 0 where
    pub world : World
    pub last_pointer : Point P
    pub takeover : TakeoverDetector P
    pub emitted : List Emission

abbrev pub Code : Platform → Type 0 → Type 0
Code P A = QueueState P → A × QueueState P

abbrev pub return : {P : Platform} {A : Type 0} → A → Code P A
return a s = (a, s)

infixl 5 ◌>>=◌ ◌>>◌
abbrev pub ◌>>=◌ : {P : Platform} {A B : Type 0} → Code P A → (A → Code P B) → Code P B
◌>>=◌ m f s = let (a, s') = m s in f a s'

abbrev pub ◌>>◌ : {P : Platform} {B : Type 0} → Code P (Unit {0}) → Code P B → Code P B
◌>>◌ m k s = k (m s).1

-- What the code reads without waiting.
abbrev pub look : {P : Platform} {A : Type 0} → (World P → A) → Code P A
look f s = (f s.world, s)

-- A change of the shared state by the queue itself.
abbrev pub put : {P : Platform} → (World P → World P) → Code P (Unit {0})
put f s = (tt, record s { world = f s.world })

-- A call that the queue waits for.
abbrev pub call : {P : Platform} {A : Type 0} → (World P → A × World P) → Code P A
call f s = let (a, w) = f s.world in (a, record s { world = w })

-- A call that is an input.
abbrev pub emit : {P : Platform} {A : Type 0} → Input P → (World P → A × World P) → Code P A
emit i f s =
    let (a, w) = f s.world in
    (a, record s { world = w; emitted = record { input = i; at = s.world } ∷ s.emitted })
