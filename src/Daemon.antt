-- ===== src/Daemon.antt =====
-- cu-daemon/src/jsonrpc.rs: `dispatch`, which routes a request; verify_trace_access and
-- verify_any_token of cu-runtime/src/runtime.rs; check_access of cu-trace/src/manifest.rs.
pub mod Tokens
pub mod Summary
pub mod Gates
pub mod Route
pub mod Known
pub mod Told
pub mod Names
pub mod Scoped
pub mod Rights
pub mod Gated
pub mod Successes
pub mod Permitted
use oc_computer_use.Prelude.{ℕ, Option, none, some, Bool, List, ◌∷◌}
use oc_computer_use.Errors.{Text, CuError, ClientInfo, Result}
use oc_computer_use.Platform.{Platform}
use oc_computer_use.Session.{SessionState, SessionTarget, PointerPolicy, FocusPolicy}
use oc_computer_use.Human.{HumanInputMonitor}
use oc_computer_use.Runtime.{Runtime, SessionResult}
use oc_computer_use.Runtime.Dispatch.{SessionAction}
use oc_computer_use.Runtime.Start.{StartInput}
use oc_computer_use.Act.{ObserveParams, ObserveResult, ActParams, ActResult}
use oc_computer_use.Inspect.{InspectParams, InspectResult}
use oc_computer_use.Exec.{Exec}

-- The parameters of the methods, parsed.
pub record CapabilityTokenParams : Type 0 where
  pub observation_token : Option Text
  pub control_token : Option Text

pub record TraceParams : Type 0 where
  pub session_id : Text
  pub observation_token : Option Text
  pub control_token : Option Text
  pub limit : Option ℕ

pub record TraceAdminListParams : Type 0 where
  pub admin_token : Option Text
  pub limit : Option ℕ

pub record CancelParams : Type 0 where
  pub session_id : Text
  pub request_id : Option Text
  pub control_token : Option Text

pub record SessionParams : Type 0 where
  pub action : SessionAction
  pub session_id : Option Text
  pub display_id : Option Text
  pub client_id : Option Text
  pub client_name : Option Text
  pub client_instance_id : Option Text
  pub control_token : Option Text
  pub observation_token : Option Text
  pub target : Option SessionTarget
  pub pointer_policy : Option PointerPolicy
  pub focus_policy : Option FocusPolicy

-- What the daemon looks at that is private.
pub data Access : Type 0 where
  desktop_layout pointer active_application : Access
  session_traces : Text → Access
  all_traces : Access
  trace_file : Text → Access

pub record SessionSummary : Type 0 where
  pub session_id : Option Text
  pub state : Option SessionState
  pub lock_held : Bool
  pub owner_client_id : Option Text
  pub owner_client_name : Option Text

-- A manifest as it is read; a digest that is not well-formed is `none`.
pub record TraceAccessManifest : Type 0 where
  pub format_version : ℕ
  pub session_id : Text
  pub access_token_hashes : List (Option (List ℕ))

module _ (P : Platform) where
  -- A method with its parameters; `none` are parameters that do not parse. A version that a client
  -- advertises is a number that may not be a u64.
  pub data Call : Type 0 where
    runtime_health : Call
    runtime_version : Option (Option ℕ) → Call
    runtime_permissions runtime_displays : Call
    runtime_desktop_layout : Option CapabilityTokenParams → Call
    runtime_pointer : Option CapabilityTokenParams → Call
    runtime_active_application : Option CapabilityTokenParams → Call
    runtime_shutdown : Option (Option Text) → Call
    computer_session : Option SessionParams → Call
    session_summary : Call
    computer_observe : Option (ObserveParams P) → Call
    computer_inspect : Option (InspectParams P) → Call
    computer_act : Option (ActParams P) → Call
    computer_cancel : Option CancelParams → Call
    trace_list : Option TraceParams → Call
    trace_admin_list : Option TraceAdminListParams → Call
    trace_get trace_export trace_replay trace_summaries : Option TraceParams → Call
    other : Call

  -- What a success carries. The contents that come from outside are numbers.
  pub data RpcResult : Type 0 where
    content : ℕ → RpcResult
    contents : List ℕ → RpcResult
    version : RpcResult
    shutting_down : RpcResult
    session_answer : SessionResult P → RpcResult
    summary : SessionSummary → RpcResult
    observed : ObserveResult P → RpcResult
    inspected : InspectResult P → RpcResult
    acted : ActResult P → RpcResult
    cancelled : Bool → Text → RpcResult

  -- The answers of the driver and of the trace files, the bytes of a text, the order in which a hash
  -- set and a hash map give their elements, and what a start takes from outside.
  pub record Services : Type 0 where
    pub health : ℕ
    pub permissions : Result ℕ
    pub displays : Result ℕ
    pub layout : Result ℕ
    pub pointer_location : Result ℕ
    pub application : Result ℕ
    pub list_session_traces : Text → Result (List ℕ)
    pub list_traces : Result (List ℕ)
    pub read_trace : Text → Result ℕ
    pub read_trace_export : Text → Result ℕ
    pub replay_from_file : Text → Result ℕ
    pub manifest : Text → Option TraceAccessManifest
    pub bytes : Text → List ℕ
    pub start : StartInput P

  -- The daemon: the runtime with what it shares, its shutdown token, and what was looked at, the
  -- latest first.
  pub record Host : Type 0 where
    pub runtime : Runtime P
    pub human : Option (HumanInputMonitor P)
    pub now : ℕ
    pub app_shutdown : Bool
    pub accesses : List Access

  abbrev pub Serve : Type 0 → Type 0
  Serve A = Exec Host A
