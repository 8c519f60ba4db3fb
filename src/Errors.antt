-- ===== src/Errors.antt =====
-- cu-core/src/errors.rs: the error codes, their wire numbers and names, and the error values.
-- A message that only a person reads (the `String` of a variant) is left out; the structured
-- details that a caller reads are kept.
pub mod Wire
use Prim.Native.String.{String}
use oc_computer_use.Prelude.{ℕ, Option, none, some, Bool, ℤ, minus}

-- A string that the code only copies and compares, by an index that is equal when the string is.
abbrev pub Text : Type 0
Text = ℕ

pub data ErrorCode : Type 0 where
  parse_error invalid_request invalid_params method_not_found internal not_ready permission :
      ErrorCode
  stale_frame control_locked paused user_takeover out_of_bounds unknown_frame : ErrorCode
  session_not_found invalid_session_state confirmation_required cancelled trace_error : ErrorCode
  driver_error unsupported user_takeover_active action_timeout capture_failed : ErrorCode
  control_token_required invalid_control_token observation_token_required : ErrorCode
  invalid_observation_token session_stopped request_timeout protocol_version_mismatch : ErrorCode
  daemon_admin_token_required invalid_daemon_admin_token daemon_shutting_down : ErrorCode
  target_outside_session target_unavailable input_focus_mismatch : ErrorCode
  isolated_pointer_unavailable isolated_drag_unavailable physical_fallback_not_allowed : ErrorCode
  target_coordinate_required physical_fallback_required target_occluded : ErrorCode

unfoldable pub jsonrpc_code : ErrorCode → ℤ
jsonrpc_code parse_error = minus 32700
jsonrpc_code invalid_request = minus 32600
jsonrpc_code invalid_params = minus 32602
jsonrpc_code method_not_found = minus 32601
jsonrpc_code internal = minus 32000
jsonrpc_code not_ready = minus 32001
jsonrpc_code permission = minus 32002
jsonrpc_code stale_frame = minus 32003
jsonrpc_code control_locked = minus 32004
jsonrpc_code paused = minus 32005
jsonrpc_code user_takeover = minus 32006
jsonrpc_code out_of_bounds = minus 32007
jsonrpc_code unknown_frame = minus 32008
jsonrpc_code session_not_found = minus 32009
jsonrpc_code invalid_session_state = minus 32010
jsonrpc_code confirmation_required = minus 32011
jsonrpc_code cancelled = minus 32012
jsonrpc_code trace_error = minus 32013
jsonrpc_code driver_error = minus 32014
jsonrpc_code unsupported = minus 32015
jsonrpc_code user_takeover_active = minus 32016
jsonrpc_code action_timeout = minus 32017
jsonrpc_code capture_failed = minus 32018
jsonrpc_code control_token_required = minus 32019
jsonrpc_code invalid_control_token = minus 32020
jsonrpc_code observation_token_required = minus 32024
jsonrpc_code invalid_observation_token = minus 32025
jsonrpc_code session_stopped = minus 32021
jsonrpc_code request_timeout = minus 32022
jsonrpc_code protocol_version_mismatch = minus 32023
jsonrpc_code daemon_admin_token_required = minus 32026
jsonrpc_code invalid_daemon_admin_token = minus 32027
jsonrpc_code daemon_shutting_down = minus 32028
jsonrpc_code target_outside_session = minus 32029
jsonrpc_code target_unavailable = minus 32030
jsonrpc_code input_focus_mismatch = minus 32031
jsonrpc_code isolated_pointer_unavailable = minus 32032
jsonrpc_code isolated_drag_unavailable = minus 32033
jsonrpc_code physical_fallback_not_allowed = minus 32034
jsonrpc_code target_coordinate_required = minus 32035
jsonrpc_code physical_fallback_required = minus 32036
jsonrpc_code target_occluded = minus 32037

unfoldable pub as_str : ErrorCode → String
as_str parse_error = "PARSE_ERROR"
as_str invalid_request = "INVALID_REQUEST"
as_str invalid_params = "INVALID_PARAMS"
as_str method_not_found = "METHOD_NOT_FOUND"
as_str internal = "INTERNAL"
as_str not_ready = "NOT_READY"
as_str permission = "PERMISSION"
as_str stale_frame = "STALE_FRAME"
as_str control_locked = "CONTROL_LOCKED"
as_str paused = "PAUSED"
as_str user_takeover = "USER_TAKEOVER"
as_str out_of_bounds = "OUT_OF_BOUNDS"
as_str unknown_frame = "UNKNOWN_FRAME"
as_str session_not_found = "SESSION_NOT_FOUND"
as_str invalid_session_state = "INVALID_SESSION_STATE"
as_str confirmation_required = "CONFIRMATION_REQUIRED"
as_str cancelled = "CANCELLED"
as_str trace_error = "TRACE_ERROR"
as_str driver_error = "DRIVER_ERROR"
as_str unsupported = "UNSUPPORTED"
as_str user_takeover_active = "USER_TAKEOVER_ACTIVE"
as_str action_timeout = "ACTION_TIMEOUT"
as_str capture_failed = "CAPTURE_FAILED"
as_str control_token_required = "CONTROL_TOKEN_REQUIRED"
as_str invalid_control_token = "INVALID_CONTROL_TOKEN"
as_str observation_token_required = "OBSERVATION_TOKEN_REQUIRED"
as_str invalid_observation_token = "INVALID_OBSERVATION_TOKEN"
as_str session_stopped = "SESSION_STOPPED"
as_str request_timeout = "REQUEST_TIMEOUT"
as_str protocol_version_mismatch = "PROTOCOL_VERSION_MISMATCH"
as_str daemon_admin_token_required = "DAEMON_ADMIN_TOKEN_REQUIRED"
as_str invalid_daemon_admin_token = "INVALID_DAEMON_ADMIN_TOKEN"
as_str daemon_shutting_down = "DAEMON_SHUTTING_DOWN"
as_str target_outside_session = "TARGET_OUTSIDE_SESSION"
as_str target_unavailable = "TARGET_UNAVAILABLE"
as_str input_focus_mismatch = "INPUT_FOCUS_MISMATCH"
as_str isolated_pointer_unavailable = "ISOLATED_POINTER_UNAVAILABLE"
as_str isolated_drag_unavailable = "ISOLATED_DRAG_UNAVAILABLE"
as_str physical_fallback_not_allowed = "PHYSICAL_FALLBACK_NOT_ALLOWED"
as_str target_coordinate_required = "TARGET_COORDINATE_REQUIRED"
as_str physical_fallback_required = "PHYSICAL_FALLBACK_REQUIRED"
as_str target_occluded = "TARGET_OCCLUDED"

pub record ClientInfo : Type 0 where
  pub client_id : Text
  pub client_name : Text
  pub client_instance_id : Text

pub record StaleFrameDetail : Type 0 where
  pub referenced_frame_id : Text
  pub current_frame_id : Text

pub data RiskLevel : Type 0 where
  low medium high : RiskLevel

pub record ConfirmationDetail : Type 0 where
  pub risk_level : RiskLevel
  pub requires_confirmation : Bool
  pub policy_context : Option Text

pub data CuError : Type 0 where
  parse : CuError
  invalid_request : CuError
  method_not_found : CuError
  invalid_params : CuError
  internal : CuError
  not_ready : CuError
  permission : CuError
  stale_frame : StaleFrameDetail → CuError
  control_locked : Text → Option ClientInfo → CuError
  paused : CuError
  user_takeover : CuError
  user_takeover_active : CuError
  action_timeout : CuError
  capture_failed : CuError
  out_of_bounds : CuError
  unknown_frame : Text → CuError
  session_not_found : CuError
  control_token_required : CuError
  invalid_control_token : CuError
  observation_token_required : CuError
  invalid_observation_token : CuError
  session_stopped : CuError
  invalid_session_state : CuError
  request_timeout : CuError
  protocol_version_mismatch : ℕ → Option ℕ → CuError
  confirmation_required : ConfirmationDetail → CuError
  cancelled : CuError
  trace : CuError
  driver : CuError
  unsupported : CuError
  daemon_admin_token_required : CuError
  invalid_daemon_admin_token : CuError
  daemon_shutting_down : CuError
  target_outside_session : CuError
  target_unavailable : CuError
  input_focus_mismatch : CuError
  isolated_pointer_unavailable : CuError
  isolated_drag_unavailable : CuError
  physical_fallback_not_allowed : CuError
  target_coordinate_required : CuError
  physical_fallback_required : CuError
  target_occluded : CuError

pub data Result {ℓ} (A : Type ℓ) : Type ℓ where
  ok : A → Result A
  err : CuError → Result A

-- `Option::ok_or_else`.
abbrev pub ok_or {ℓ} : {A : Type ℓ} → CuError → Option A → Result A
ok_or e none = err e
ok_or e (some a) = ok a

unfoldable pub code : CuError → ErrorCode
code CuError.parse = ErrorCode.parse_error
code CuError.invalid_request = ErrorCode.invalid_request
code CuError.method_not_found = ErrorCode.method_not_found
code CuError.invalid_params = ErrorCode.invalid_params
code CuError.internal = ErrorCode.internal
code CuError.not_ready = ErrorCode.not_ready
code CuError.permission = ErrorCode.permission
code (CuError.stale_frame _) = ErrorCode.stale_frame
code (CuError.control_locked _ _) = ErrorCode.control_locked
code CuError.paused = ErrorCode.paused
code CuError.user_takeover = ErrorCode.user_takeover
code CuError.user_takeover_active = ErrorCode.user_takeover_active
code CuError.action_timeout = ErrorCode.action_timeout
code CuError.capture_failed = ErrorCode.capture_failed
code CuError.out_of_bounds = ErrorCode.out_of_bounds
code (CuError.unknown_frame _) = ErrorCode.unknown_frame
code CuError.session_not_found = ErrorCode.session_not_found
code CuError.control_token_required = ErrorCode.control_token_required
code CuError.invalid_control_token = ErrorCode.invalid_control_token
code CuError.observation_token_required = ErrorCode.observation_token_required
code CuError.invalid_observation_token = ErrorCode.invalid_observation_token
code CuError.session_stopped = ErrorCode.session_stopped
code CuError.invalid_session_state = ErrorCode.invalid_session_state
code CuError.request_timeout = ErrorCode.request_timeout
code (CuError.protocol_version_mismatch _ _) = ErrorCode.protocol_version_mismatch
code (CuError.confirmation_required _) = ErrorCode.confirmation_required
code CuError.cancelled = ErrorCode.cancelled
code CuError.trace = ErrorCode.trace_error
code CuError.driver = ErrorCode.driver_error
code CuError.unsupported = ErrorCode.unsupported
code CuError.daemon_admin_token_required = ErrorCode.daemon_admin_token_required
code CuError.invalid_daemon_admin_token = ErrorCode.invalid_daemon_admin_token
code CuError.daemon_shutting_down = ErrorCode.daemon_shutting_down
code CuError.target_outside_session = ErrorCode.target_outside_session
code CuError.target_unavailable = ErrorCode.target_unavailable
code CuError.input_focus_mismatch = ErrorCode.input_focus_mismatch
code CuError.isolated_pointer_unavailable = ErrorCode.isolated_pointer_unavailable
code CuError.isolated_drag_unavailable = ErrorCode.isolated_drag_unavailable
code CuError.physical_fallback_not_allowed = ErrorCode.physical_fallback_not_allowed
code CuError.target_coordinate_required = ErrorCode.target_coordinate_required
code CuError.physical_fallback_required = ErrorCode.physical_fallback_required
code CuError.target_occluded = ErrorCode.target_occluded
