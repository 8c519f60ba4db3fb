-- ===== src/Act.antt =====
-- cu-runtime/src/runtime.rs: `observe` and `act`, and what they call outside of the runtime. The
-- children hold their steps.
pub mod Gate
pub mod Observe
pub mod Admit
pub mod Wait
pub mod Batch
pub mod Quiet
pub mod Fresh
pub mod Cleared
pub mod Emits
pub mod Scope
pub mod Replies
pub mod Captured
pub mod Observed
use oc_computer_use.Prelude.{ℕ, Option, none, some, Bool, List, ◌%◌, ◌+◌}
use oc_computer_use.Errors.{Text, CuError, RiskLevel, Result, ok, err}
use oc_computer_use.Platform.{Platform}
use oc_computer_use.Session.{Session, DisplayBounds}
use oc_computer_use.Policy.{TakeoverPolicy}
use oc_computer_use.Human.{HumanInputMonitor}
use oc_computer_use.Actions.{ComputerAction, WaitPolicy}
use oc_computer_use.Stale.{StaleFrameConfig}
use oc_computer_use.Queue.{World, Driver, Recorder, ActionRun, Emission}
use oc_computer_use.Screen.{Screen, CaptureRegion}
use oc_computer_use.Screen.Stabilizer.{StabilizerConfig, StabilizeOutcome}
use oc_computer_use.Runtime.{Runtime, Effect, emit_if_traced}
use oc_computer_use.Runtime.Start.{TraceMode}
use oc_computer_use.Exec.{Exec, performs, writes, reads}

pub record TraceReport : Type 0 where
  pub mode : TraceMode
  pub degraded : Bool
  pub warnings : List Text

module _ (P : Platform) where
  open P use {F64}

  -- The directories and the limit of the frame cache are left out: they are used at the start.
  pub record RuntimeConfig : Type 0 where
    pub stale : StaleFrameConfig P
    pub stabilizer : StabilizerConfig P
    pub observe_max_width : ℕ
    pub observe_format : Text
    pub observe_jpeg_quality : ℕ
    pub trace_mode : TraceMode
    pub takeover_policy : TakeoverPolicy

  -- The image goes to a file named for the session and the counter.
  pub record CaptureRequest : Type 0 where
    pub display_id : Text
    pub output_session : Text
    pub output_counter : ℕ
    pub include_cursor : Bool
    pub max_width : ℕ
    pub format : Text
    pub jpeg_quality : ℕ
    pub region : Option (CaptureRegion P)

  -- `image` stands for the path and the bytes.
  pub record CapturedFrame : Type 0 where
    pub display_id : Text
    pub width : ℕ
    pub height : ℕ
    pub scale_factor : F64
    pub bounds : DisplayBounds P
    pub image : ℕ
    pub captured_at : ℕ

  -- What lies outside: the driver, the trace recorder, the file system, the clock, the texts
  -- `frame_<counter>`, and what other requests do while this one waits for the session's `busy`.
  pub record Machine : Type 0 where
    pub driver : Driver P
    pub screen : Screen P
    pub capture : CaptureRequest → World P → Result CapturedFrame × World P
    pub tap_active : World P → Bool
    pub create_frames_dir : World P → Result (Unit {0}) × World P
    pub record_action : Recorder P
    pub is_degraded : World P → Bool
    pub warnings : World P → List Text × World P
    pub utc_now : World P → ℕ
    pub new_frame_id : ℕ → Text
    pub others : World P → Runtime P → World P × Runtime P

  pub record ObserveParams : Type 0 where
    pub session_id : Option Text
    pub display_id : Option Text
    pub observation_token : Option Text
    pub control_token : Option Text
    pub include_cursor : Option Bool
    pub max_width : Option ℕ
    pub image_format : Option Text
    pub jpeg_quality : Option ℕ
    pub include_image : Option Bool

  -- The image is the captured one, if the caller asked for it.
  pub record ObserveResult : Type 0 where
    pub session_id : Text
    pub frame_id : Text
    pub width : ℕ
    pub height : ℕ
    pub display_id : Text
    pub scale_factor : F64
    pub active_application : Option Text
    pub active_window : Option Text
    pub image : Option ℕ
    pub is_png : Bool
    pub captured_at : ℕ
    pub target_bounds : Option (DisplayBounds P)
    pub window_id : Option ℕ

  -- The text of the risk level is parsed already.
  pub record ActParams : Type 0 where
    pub session_id : Text
    pub frame_id : Text
    pub actions : List (ComputerAction P)
    pub control_token : Option Text
    pub wait_policy : Option WaitPolicy
    pub fixed_wait_ms : Option ℕ
    pub return_screenshot : Option Bool
    pub risk_level : RiskLevel
    pub requires_confirmation : Option Bool
    pub policy_context : Option Text

  pub record ActResult : Type 0 where
    pub executed : Bool
    pub action_results : List ActionRun
    pub screen_changed : Bool
    pub stable : Bool
    pub next_frame_id : Option Text
    pub screenshot : Option ObserveResult
    pub stabilization : Option (StabilizeOutcome P)
    pub trace : Option TraceReport

  -- What a request works on: the session it found with what it shares with others, the runtime,
  -- and the inputs asked for, the latest first. The runtime's own entry of this session and its
  -- store of tokens are those of the world; they are written back at the end, and until then only
  -- the owners of the sessions are read from the map.
  pub record Desk : Type 0 where
    pub world : World P
    pub runtime : Runtime P
    pub emitted : List (Emission P)

  abbrev pub Step : Type 0 → Type 0
  Step A = Exec Desk A

  -- A call that the request waits for, and one whose error ends it.
  unfoldable pub calls : {A : Type 0} → (World P → Result A × World P) → Step A
  calls f d = performs (λ d. let (r, w) = f d.world in (r, record d { world = w })) d

  unfoldable pub awaits : {A : Type 0} → (World P → A × World P) → Step A
  awaits f d = performs (λ d. let (a, w) = f d.world in (ok a, record d { world = w })) d

  unfoldable pub changes : (Session P → Session P) → Step (Unit {0})
  changes f d = writes (λ d. record d { world = record d.world { session = f d.world.session } }) d

  -- A call of the trace recorder whose result the code ignores.
  unfoldable pub traces : Effect P → Step (Unit {0})
  traces e d = writes (λ d. record d { runtime = emit_if_traced P d.world.session e d.runtime }) d

  -- `fetch_add` on an `AtomicU64`.
  unfoldable pub next_counter : Step ℕ
  next_counter d =
      performs
        (λ d. (
          ok d.runtime.frame_counter,
          record d {
            runtime = record d.runtime {
              frame_counter = (d.runtime.frame_counter + 1) % 18446744073709551616;
            };
          },
        ))
        d
