-- ===== src/Session.antt =====
-- cu-runtime/src/sessions.rs and cu-core/src/{sessions,pointer}.rs: one session, its state
-- machine, its capability tokens, its batch tokens and its virtual pointer.
pub mod Verify
pub mod Lock
pub mod Coherence
pub mod Cancelling
pub mod Batches
use oc_computer_use.Prelude.{
  ℕ, Option, none, some, Bool, true, false, not, List, [], ◌∷◌, ◌++◌, if◌then◌else◌, ◌||◌, retain,
}
use oc_computer_use.Errors.{Text, ClientInfo, CuError, Result, ok, err}
use oc_computer_use.Security.{same_digest}
use oc_computer_use.Platform.{Platform}

pub data SessionState : Type 0 where
  starting active paused user_takeover stopping stopped failed : SessionState

pub data PointerMode : Type 0 where
  isolated physical_fallback paused user_takeover : PointerMode

pub data PointerPolicy : Type 0 where
  isolated_only isolated_preferred physical_allowed : PointerPolicy

unfoldable pub physical_fallback_allowed : PointerPolicy → Bool → Bool
physical_fallback_allowed PointerPolicy.isolated_only caller_permitted = false
physical_fallback_allowed PointerPolicy.isolated_preferred caller_permitted = caller_permitted
physical_fallback_allowed PointerPolicy.physical_allowed caller_permitted = true

pub data FocusPolicy : Type 0 where
  strict activate_target : FocusPolicy

-- Numbers that identify processes and windows are below 2^31, so the casts of the source keep them.
pub record SessionTarget : Type 0 where
  pub bundle_id : Option Text
  pub pid : Option ℕ
  pub window_id : Option ℕ

-- The table of `transition`, in the order of its arms.
unfoldable pub legal : SessionState → SessionState → Bool
legal SessionState.starting SessionState.active = true
legal SessionState.active SessionState.active = true
legal SessionState.active SessionState.paused = true
legal _ SessionState.paused = false
legal SessionState.paused SessionState.active = true
legal SessionState.active SessionState.user_takeover = true
legal SessionState.paused SessionState.user_takeover = true
legal _ SessionState.user_takeover = false
legal SessionState.user_takeover SessionState.active = true
legal _ SessionState.stopping = true
legal _ SessionState.stopped = true
legal _ SessionState.failed = true
legal _ _ = false

abbrev pub mode_of : SessionState → PointerMode
mode_of SessionState.user_takeover = PointerMode.user_takeover
mode_of SessionState.paused = PointerMode.paused
mode_of _ = PointerMode.isolated

abbrev pub read_refusal : Option Text → Option Text → CuError
read_refusal none none = CuError.observation_token_required
read_refusal _ _ = CuError.invalid_observation_token

module _ (P : Platform) where
  open P use {F64, f64_zero, Token, Store, child_token, cancel, same, sha256}

  pub record Point : Type 0 where
    pub x : F64
    pub y : F64

  pub record DisplayBounds : Type 0 where
    pub x : F64
    pub y : F64
    pub width : F64
    pub height : F64

  pub record ResolvedSessionTarget : Type 0 where
    pub bundle_id : Text
    pub pid : ℕ
    pub window_id : ℕ
    pub bounds : Option DisplayBounds

  -- The monotonic `last_updated_at` is left out: nothing reads it.
  pub record VirtualPointerState : Type 0 where
    pub x : F64
    pub y : F64
    pub display_id : Text
    pub visible : Bool
    pub mode : PointerMode

  abbrev pub new_pointer : F64 → F64 → Text → VirtualPointerState
  new_pointer x y d = record {
    x = x;
    y = y;
    display_id = d;
    visible = true;
    mode = PointerMode.isolated;
  }

  abbrev pub set_location : Point → Text → VirtualPointerState → VirtualPointerState
  set_location p d v = record v { x = p.x; y = p.y; display_id = d }

  abbrev pub set_mode : PointerMode → VirtualPointerState → VirtualPointerState
  set_mode m v = record v { mode = m }

  -- `trace` is the recorder's path, if there is a recorder. `busy` is no field: an operation that
  -- holds it is one step.
  pub record Session : Type 0 where
    pub id : Text
    pub display_id : Text
    pub created_at : ℕ
    pub started_by : Text
    pub owner : Option ClientInfo
    pub control_token_hash : List ℕ
    pub observation_token_hash : List ℕ
    pub state : SessionState
    pub paused : Bool
    pub user_takeover : Bool
    pub last_action_at : Option ℕ
    pub current_frame_id : Option Text
    pub batch_tokens : List Token
    pub trace : Option Text
    pub virtual_pointer : VirtualPointerState
    pub pointer_policy : PointerPolicy
    pub target : Option SessionTarget
    pub target_bounds : Option DisplayBounds
    pub resolved_target : Option ResolvedSessionTarget
    pub focus_policy : FocusPolicy

  -- The display "0" of `VirtualPointerState::default` is the string of index 0.
  unfoldable pub new :
      Text → Text → ℕ → Text → Option ClientInfo → List ℕ → List ℕ → Option Text → Session
  new id display_id now started_by owner control observation trace = record {
    id = id;
    display_id = display_id;
    created_at = now;
    started_by = started_by;
    owner = owner;
    control_token_hash = control;
    observation_token_hash = observation;
    state = SessionState.active;
    paused = false;
    user_takeover = false;
    last_action_at = none;
    current_frame_id = none;
    batch_tokens = [];
    trace = trace;
    virtual_pointer = new_pointer f64_zero f64_zero 0;
    pointer_policy = PointerPolicy.isolated_preferred;
    target = none;
    target_bounds = none;
    resolved_target = none;
    focus_policy = FocusPolicy.strict;
  }

  unfoldable pub init_virtual_pointer : Point → Text → Session → Session
  init_virtual_pointer p d s = record s { virtual_pointer = new_pointer p.x p.y d }

  unfoldable pub set_virtual_pointer : Point → Text → Session → Session
  set_virtual_pointer p d s = record s { virtual_pointer = set_location p d s.virtual_pointer }

  unfoldable pub sync_pointer_mode : SessionState → Session → Session
  sync_pointer_mode t s = record s { virtual_pointer = set_mode (mode_of t) s.virtual_pointer }

  abbrev pub bounds_of : Option ResolvedSessionTarget → Option DisplayBounds
  bounds_of none = none
  bounds_of (some r) = r.bounds

  unfoldable pub set_resolved_target : Option ResolvedSessionTarget → Session → Session
  set_resolved_target rt s = record s { resolved_target = rt; target_bounds = bounds_of rt }

  -- `SecretTokenHash::verify`.
  unfoldable pub verify : List ℕ → Text → Bool
  unfolding same_digest
  verify hash presented = same_digest (sha256 presented) hash

  unfoldable pub verify_control_token : Session → Option Text → Result (Unit {0})
  verify_control_token s none = err CuError.control_token_required
  verify_control_token s (some t) =
      if verify s.control_token_hash t then ok tt else err CuError.invalid_control_token

  abbrev pub verify_slot : List ℕ → Option Text → Bool
  verify_slot hash none = false
  verify_slot hash (some t) = verify hash t

  unfoldable pub verify_read_tokens : Session → Option Text → Option Text → Result (Unit {0})
  verify_read_tokens s observation control =
      if verify_slot s.observation_token_hash observation
      then ok tt
      else if verify_slot s.control_token_hash control
      then ok tt
      else err (read_refusal observation control)

  unfoldable pub cancel_all : List Token → Store → Store
  cancel_all [] st = st
  cancel_all (t ∷ ts) st = cancel_all ts (cancel t st)

  unfoldable pub cancel_in_flight : Session → Store → Store
  unfolding cancel_all
  cancel_in_flight s st = cancel_all s.batch_tokens st

  -- The flags and tokens of `transition`'s second `match`, once the state is written.
  unfoldable pub enter : SessionState → Session → Store → Session × Store
  unfolding cancel_in_flight
  enter SessionState.paused s st = (record s { paused = true }, cancel_in_flight s st)
  enter SessionState.user_takeover s st =
      (record s { user_takeover = true; paused = false }, cancel_in_flight s st)
  enter SessionState.stopping s st = (s, cancel_in_flight s st)
  enter SessionState.stopped s st = (s, cancel_in_flight s st)
  enter SessionState.failed s st = (s, cancel_in_flight s st)
  enter SessionState.active s st = (record s { user_takeover = false; paused = false }, st)
  enter SessionState.starting s st = (s, st)

  unfoldable pub transition : Session → SessionState → Store → Result (Session × Store)
  unfolding legal enter sync_pointer_mode
  transition s target st =
      if legal s.state target
      then (let (s', st') = enter target (record s { state = target }) st in
          ok (sync_pointer_mode target s', st'))
      else err CuError.invalid_session_state

  unfoldable pub begin_batch : Session → Store → Token × Session × Store
  begin_batch s st =
      let (token, st') = child_token st in
      (token, record s { batch_tokens = s.batch_tokens ++ token ∷ [] }, st')

  unfoldable pub end_batch : Token → Session → Session
  end_batch token s = record s { batch_tokens = retain (λ t. not (same t token)) s.batch_tokens }
