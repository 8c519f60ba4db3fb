-- ===== src/Runtime.antt =====
-- cu-runtime/src/runtime.rs: the state of the runtime and the operations on a session. A session is
-- shared by reference in the source; here it is written back under its id. What the operations
-- send outside, to the trace recorder, the manifest store and the driver, is kept in a log, in order;
-- the source ignores whether these succeed.
pub mod Control
pub mod Stop
pub mod Cancel
pub mod Start
pub mod Dispatch
mod Cases
pub mod Rights
pub mod Exclusive
pub mod Capability
pub mod Starts
pub mod Lifecycle
pub mod Interruption
pub mod Shutdown
use oc_computer_use.Prelude.{
  ℕ, Option, none, some, Bool, true, false, List, [], ◌∷◌, ◌++◌, ◌==◌, if◌then◌else◌, nat_eq,
  lookup, insert, is_some,
}
use oc_computer_use.Errors.{Text, ClientInfo, CuError, Result, ok, err, ok_or}
use oc_computer_use.Platform.{Platform}
use oc_computer_use.Session.{
  Session, SessionState, PointerMode, verify_control_token, verify_read_tokens, transition,
  cancel_in_flight,
}
use oc_computer_use.Session.Lock.{ControlLock, try_acquire, is_held_by, release as release_lock}
use oc_computer_use.Frames.{FrameStore}
use oc_computer_use.Requests.{RequestKey, RequestRegistry, cancel}

-- The names "session.start" and so on, and "cancel" with its scope.
pub data TraceName : Type 0 where
  start_event pause_event resume_event takeover_event release_event stop_event : TraceName
  cancel_session_event cancel_request_event : TraceName
  observe_event stale_rejected_event : TraceName

module _ (P : Platform) where
  open P use {F64, Store}

  pub data Effect : Type 0 where
    trace_event : Text → TraceName → Effect
    trace_closed : Text → Effect
    manifest_written manifest_removed manifest_stopped : Text → Effect
    pointer_visualized : F64 → F64 → Text → PointerMode → Effect
    pointer_hidden : Effect
    driver_shutdown : Effect

  -- `store` is the state of all cancellation tokens.
  pub record Runtime : Type 0 where
    pub control_lock : ControlLock
    pub sessions : List (Text × Session P)
    pub frames : FrameStore P
    pub frame_counter : ℕ
    pub requests : RequestRegistry P
    pub shutting_down : Bool
    pub store : Store
    pub log : List Effect

  pub record SessionResult : Type 0 where
    pub session_id : Text
    pub state : SessionState
    pub paused : Bool
    pub user_takeover : Bool
    pub lock_held : Bool
    pub display_id : Text
    pub created_at : ℕ
    pub last_action_at : Option ℕ
    pub current_frame_id : Option Text
    pub trace_dir : Option Text
    pub started_by : Text
    pub control_token : Option Text
    pub observation_token : Option Text
    pub owner : Option ClientInfo

  unfoldable pub session_result : Runtime → Session P → SessionResult
  session_result rt s = record {
    session_id = s.id;
    state = s.state;
    paused = s.paused;
    user_takeover = s.user_takeover;
    lock_held = is_held_by rt.control_lock s.id;
    display_id = s.display_id;
    created_at = s.created_at;
    last_action_at = s.last_action_at;
    current_frame_id = s.current_frame_id;
    trace_dir = s.trace;
    started_by = s.started_by;
    control_token = none;
    observation_token = none;
    owner = s.owner;
  }

  -- What an operation returns, and the runtime after it.
  abbrev pub Outcome : Type 0 → Type 0
  Outcome A = Result A × Runtime

  unfoldable pub get_session : Text → Runtime → Result (Session P)
  get_session id rt = ok_or CuError.session_not_found (lookup id rt.sessions)

  abbrev pub put : Session P → Runtime → Runtime
  put s rt = record rt { sessions = insert s.id s rt.sessions }

  abbrev pub emit : Effect → Runtime → Runtime
  emit e rt = record rt { log = rt.log ++ e ∷ [] }

  -- `if let Some(t) = session.trace.as_ref() { t.record_event(…) }`
  abbrev pub emit_if_traced : Session P → Effect → Runtime → Runtime
  emit_if_traced s e rt = if is_some s.trace then emit e rt else rt

  unfoldable pub verify_mutating : Session P → Option Text → Result (Unit {0})
  verify_mutating s token = elim (verify_control_token P s token) [
    | err e ↦ err e
    | ok _ ↦ elim s.state [
      | SessionState.stopping ↦ err CuError.session_stopped
      | SessionState.stopped ↦ err CuError.session_stopped
      | SessionState.failed ↦ err CuError.invalid_session_state
      | _ ↦ ok tt
    ]
  ]

  unfoldable pub gate_active : Session P → Result (Unit {0})
  gate_active s = elim s.state [
    | SessionState.active ↦ ok tt
    | SessionState.starting ↦ err CuError.not_ready
    | SessionState.paused ↦ err CuError.paused
    | SessionState.user_takeover ↦ err CuError.user_takeover
    | SessionState.stopping ↦ err CuError.session_stopped
    | SessionState.stopped ↦ err CuError.session_stopped
    | SessionState.failed ↦ err CuError.invalid_session_state
  ]

  -- `session.transition(target)?`, written back, then what the operation does next.
  abbrev pub transitioned :
      {A : Type 0}
      → Session P
      → SessionState
      → Runtime
      → (Session P → Runtime → Outcome A)
      → Outcome A
  transitioned s target rt next = elim (transition P s target rt.store) [
    | err e ↦ (err e, rt)
    | ok (s', st) ↦ next s' (put s' (record rt { store = st }))
  ]

  -- The common head of the mutating operations: the session, its token, its state.
  abbrev pub authorized :
      {A : Type 0} → Text → Option Text → Runtime → (Session P → Outcome A) → Outcome A
  authorized id token rt next = elim (get_session id rt) [
    | err e ↦ (err e, rt)
    | ok s ↦ elim (verify_mutating s token) [ err e ↦ (err e, rt) | ok _ ↦ next s ]
  ]

  -- The result is read off the runtime that the operation leaves.
  abbrev pub report : Session P → Runtime → Outcome SessionResult
  report s rt = (ok (session_result rt s), rt)
