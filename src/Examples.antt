-- ===== src/Examples.antt =====
-- Concrete inputs for the theorems, on the sample platform: token 1 controls and token 2 observes.
pub mod Controls
pub mod Sessions
pub mod Stores
pub mod Policies
pub mod Queues
pub mod Screens
pub mod Acts
pub mod Daemons
pub mod Drags
pub mod Redactions
use oc_computer_use.Prelude.{
  ℕ, Option, none, some, Bool, true, false, List, [], ◌∷◌, ◌≡◌, ◌≢◌, refl, arith, nat_eq,
}
use oc_computer_use.Errors.{Text, ClientInfo, ok}
use oc_computer_use.Platform.Sample.{sample, no_tokens, digest}
use oc_computer_use.Session.{Session, SessionState, PointerMode, PointerPolicy, FocusPolicy}
use oc_computer_use.Frames.{FrameStore}
use oc_computer_use.Requests.{RequestRegistry}
use oc_computer_use.Runtime.{Runtime}
use oc_computer_use.Runtime.Start.{StartInput, TraceMode, disabled}

abbrev pub client : ClientInfo
client = record { client_id = 3; client_name = 4; client_instance_id = 6 }

abbrev pub session_of : SessionState → Session sample
session_of st = record {
  id = 7;
  display_id = 0;
  created_at = 0;
  started_by = 4;
  owner = none;
  control_token_hash = digest 1;
  observation_token_hash = digest 2;
  state = st;
  paused = false;
  user_takeover = false;
  last_action_at = none;
  current_frame_id = none;
  batch_tokens = [];
  trace = none;
  virtual_pointer = record {
    x = 0;
    y = 0;
    display_id = 0;
    visible = true;
    mode = PointerMode.isolated;
  };
  pointer_policy = PointerPolicy.isolated_preferred;
  target = none;
  target_bounds = none;
  resolved_target = none;
  focus_policy = FocusPolicy.strict;
}

-- The session with a batch under way, whose token is 5.
abbrev pub busy_session : SessionState → Session sample
busy_session st = record (session_of st) { batch_tokens = 5 ∷ [] }

abbrev no_frames : FrameStore sample
no_frames = record { by_id = []; order = []; limit = 2; ordinal_counter = 0 }

abbrev no_requests : RequestRegistry sample
no_requests = record { handles = []; tombstones = [] }

abbrev pub idle_runtime : Runtime sample
idle_runtime = record {
  control_lock = none;
  sessions = [];
  frames = no_frames;
  frame_counter = 0;
  requests = no_requests;
  shutting_down = false;
  store = no_tokens;
  log = [];
}

-- One session, 7, that holds the lock.
abbrev pub runtime_of : SessionState → Runtime sample
runtime_of st = record idle_runtime { control_lock = some 7; sessions = (7, busy_session st) ∷ [] }

abbrev pub start_input : StartInput sample
start_input = record {
  display_id = some 0;
  client = client;
  target = none;
  pointer_policy = none;
  focus_policy = none;
  now = 0;
  fresh_id = 7;
  control_token = 1;
  observation_token = 2;
  trace_mode = TraceMode.disabled;
  primary_display = ok 0;
  trace_opened = ok 3;
  resolved = ok none;
  pointer = ok (record { x = 10; y = 20 });
}
