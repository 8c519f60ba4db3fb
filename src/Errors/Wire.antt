-- ===== src/Errors/Wire.antt =====
-- The error codes are told apart on the wire, by number and by name.
use Prim.Native.String.{String}
use text.Mathlib.Text.{◌==◌ as str_eq}
use oc_computer_use.Prelude.{
  ℕ, suc, ◌≡◌, refl, ap, Option, some, none, ◌==◌, if◌then◌else◌, ℤ, pos, negsuc,
}
use oc_computer_use.Errors.{ErrorCode, jsonrpc_code, as_str}

-- The code that a number names; the number is given by its distance below zero.
of_number : ℕ → Option ErrorCode
of_number n =
    if n == 32700
    then some ErrorCode.parse_error
    else if n == 32600
    then some ErrorCode.invalid_request
    else if n == 32602
    then some ErrorCode.invalid_params
    else if n == 32601
    then some ErrorCode.method_not_found
    else if n == 32000
    then some ErrorCode.internal
    else if n == 32001
    then some ErrorCode.not_ready
    else if n == 32002
    then some ErrorCode.permission
    else if n == 32003
    then some ErrorCode.stale_frame
    else if n == 32004
    then some ErrorCode.control_locked
    else if n == 32005
    then some ErrorCode.paused
    else if n == 32006
    then some ErrorCode.user_takeover
    else if n == 32007
    then some ErrorCode.out_of_bounds
    else if n == 32008
    then some ErrorCode.unknown_frame
    else if n == 32009
    then some ErrorCode.session_not_found
    else if n == 32010
    then some ErrorCode.invalid_session_state
    else if n == 32011
    then some ErrorCode.confirmation_required
    else if n == 32012
    then some ErrorCode.cancelled
    else if n == 32013
    then some ErrorCode.trace_error
    else if n == 32014
    then some ErrorCode.driver_error
    else if n == 32015
    then some ErrorCode.unsupported
    else if n == 32016
    then some ErrorCode.user_takeover_active
    else if n == 32017
    then some ErrorCode.action_timeout
    else if n == 32018
    then some ErrorCode.capture_failed
    else if n == 32019
    then some ErrorCode.control_token_required
    else if n == 32020
    then some ErrorCode.invalid_control_token
    else if n == 32024
    then some ErrorCode.observation_token_required
    else if n == 32025
    then some ErrorCode.invalid_observation_token
    else if n == 32021
    then some ErrorCode.session_stopped
    else if n == 32022
    then some ErrorCode.request_timeout
    else if n == 32023
    then some ErrorCode.protocol_version_mismatch
    else if n == 32026
    then some ErrorCode.daemon_admin_token_required
    else if n == 32027
    then some ErrorCode.invalid_daemon_admin_token
    else if n == 32028
    then some ErrorCode.daemon_shutting_down
    else if n == 32029
    then some ErrorCode.target_outside_session
    else if n == 32030
    then some ErrorCode.target_unavailable
    else if n == 32031
    then some ErrorCode.input_focus_mismatch
    else if n == 32032
    then some ErrorCode.isolated_pointer_unavailable
    else if n == 32033
    then some ErrorCode.isolated_drag_unavailable
    else if n == 32034
    then some ErrorCode.physical_fallback_not_allowed
    else if n == 32035
    then some ErrorCode.target_coordinate_required
    else if n == 32036
    then some ErrorCode.physical_fallback_required
    else if n == 32037
    then some ErrorCode.target_occluded
    else none

abbrev magnitude : ℤ → ℕ
magnitude (pos n) = 0
magnitude (negsuc n) = suc n

of_number-jsonrpc_code : (c : ErrorCode) → of_number (magnitude (jsonrpc_code c)) ≡ some c
unfolding of_number jsonrpc_code
of_number-jsonrpc_code ErrorCode.parse_error = refl
of_number-jsonrpc_code ErrorCode.invalid_request = refl
of_number-jsonrpc_code ErrorCode.invalid_params = refl
of_number-jsonrpc_code ErrorCode.method_not_found = refl
of_number-jsonrpc_code ErrorCode.internal = refl
of_number-jsonrpc_code ErrorCode.not_ready = refl
of_number-jsonrpc_code ErrorCode.permission = refl
of_number-jsonrpc_code ErrorCode.stale_frame = refl
of_number-jsonrpc_code ErrorCode.control_locked = refl
of_number-jsonrpc_code ErrorCode.paused = refl
of_number-jsonrpc_code ErrorCode.user_takeover = refl
of_number-jsonrpc_code ErrorCode.out_of_bounds = refl
of_number-jsonrpc_code ErrorCode.unknown_frame = refl
of_number-jsonrpc_code ErrorCode.session_not_found = refl
of_number-jsonrpc_code ErrorCode.invalid_session_state = refl
of_number-jsonrpc_code ErrorCode.confirmation_required = refl
of_number-jsonrpc_code ErrorCode.cancelled = refl
of_number-jsonrpc_code ErrorCode.trace_error = refl
of_number-jsonrpc_code ErrorCode.driver_error = refl
of_number-jsonrpc_code ErrorCode.unsupported = refl
of_number-jsonrpc_code ErrorCode.user_takeover_active = refl
of_number-jsonrpc_code ErrorCode.action_timeout = refl
of_number-jsonrpc_code ErrorCode.capture_failed = refl
of_number-jsonrpc_code ErrorCode.control_token_required = refl
of_number-jsonrpc_code ErrorCode.invalid_control_token = refl
of_number-jsonrpc_code ErrorCode.observation_token_required = refl
of_number-jsonrpc_code ErrorCode.invalid_observation_token = refl
of_number-jsonrpc_code ErrorCode.session_stopped = refl
of_number-jsonrpc_code ErrorCode.request_timeout = refl
of_number-jsonrpc_code ErrorCode.protocol_version_mismatch = refl
of_number-jsonrpc_code ErrorCode.daemon_admin_token_required = refl
of_number-jsonrpc_code ErrorCode.invalid_daemon_admin_token = refl
of_number-jsonrpc_code ErrorCode.daemon_shutting_down = refl
of_number-jsonrpc_code ErrorCode.target_outside_session = refl
of_number-jsonrpc_code ErrorCode.target_unavailable = refl
of_number-jsonrpc_code ErrorCode.input_focus_mismatch = refl
of_number-jsonrpc_code ErrorCode.isolated_pointer_unavailable = refl
of_number-jsonrpc_code ErrorCode.isolated_drag_unavailable = refl
of_number-jsonrpc_code ErrorCode.physical_fallback_not_allowed = refl
of_number-jsonrpc_code ErrorCode.target_coordinate_required = refl
of_number-jsonrpc_code ErrorCode.physical_fallback_required = refl
of_number-jsonrpc_code ErrorCode.target_occluded = refl

-- Two codes with the same JSON-RPC number are the same code.
jsonrpc_code-injective : (a b : ErrorCode) → jsonrpc_code a ≡ jsonrpc_code b → a ≡ b
jsonrpc_code-injective a b h =
    cc (ap (λ n. of_number (magnitude n)) h, of_number-jsonrpc_code a, of_number-jsonrpc_code b)

of_name : String → Option ErrorCode
of_name s =
    if str_eq s "PARSE_ERROR"
    then some ErrorCode.parse_error
    else if str_eq s "INVALID_REQUEST"
    then some ErrorCode.invalid_request
    else if str_eq s "INVALID_PARAMS"
    then some ErrorCode.invalid_params
    else if str_eq s "METHOD_NOT_FOUND"
    then some ErrorCode.method_not_found
    else if str_eq s "INTERNAL"
    then some ErrorCode.internal
    else if str_eq s "NOT_READY"
    then some ErrorCode.not_ready
    else if str_eq s "PERMISSION"
    then some ErrorCode.permission
    else if str_eq s "STALE_FRAME"
    then some ErrorCode.stale_frame
    else if str_eq s "CONTROL_LOCKED"
    then some ErrorCode.control_locked
    else if str_eq s "PAUSED"
    then some ErrorCode.paused
    else if str_eq s "USER_TAKEOVER"
    then some ErrorCode.user_takeover
    else if str_eq s "OUT_OF_BOUNDS"
    then some ErrorCode.out_of_bounds
    else if str_eq s "UNKNOWN_FRAME"
    then some ErrorCode.unknown_frame
    else if str_eq s "SESSION_NOT_FOUND"
    then some ErrorCode.session_not_found
    else if str_eq s "INVALID_SESSION_STATE"
    then some ErrorCode.invalid_session_state
    else if str_eq s "CONFIRMATION_REQUIRED"
    then some ErrorCode.confirmation_required
    else if str_eq s "CANCELLED"
    then some ErrorCode.cancelled
    else if str_eq s "TRACE_ERROR"
    then some ErrorCode.trace_error
    else if str_eq s "DRIVER_ERROR"
    then some ErrorCode.driver_error
    else if str_eq s "UNSUPPORTED"
    then some ErrorCode.unsupported
    else if str_eq s "USER_TAKEOVER_ACTIVE"
    then some ErrorCode.user_takeover_active
    else if str_eq s "ACTION_TIMEOUT"
    then some ErrorCode.action_timeout
    else if str_eq s "CAPTURE_FAILED"
    then some ErrorCode.capture_failed
    else if str_eq s "CONTROL_TOKEN_REQUIRED"
    then some ErrorCode.control_token_required
    else if str_eq s "INVALID_CONTROL_TOKEN"
    then some ErrorCode.invalid_control_token
    else if str_eq s "OBSERVATION_TOKEN_REQUIRED"
    then some ErrorCode.observation_token_required
    else if str_eq s "INVALID_OBSERVATION_TOKEN"
    then some ErrorCode.invalid_observation_token
    else if str_eq s "SESSION_STOPPED"
    then some ErrorCode.session_stopped
    else if str_eq s "REQUEST_TIMEOUT"
    then some ErrorCode.request_timeout
    else if str_eq s "PROTOCOL_VERSION_MISMATCH"
    then some ErrorCode.protocol_version_mismatch
    else if str_eq s "DAEMON_ADMIN_TOKEN_REQUIRED"
    then some ErrorCode.daemon_admin_token_required
    else if str_eq s "INVALID_DAEMON_ADMIN_TOKEN"
    then some ErrorCode.invalid_daemon_admin_token
    else if str_eq s "DAEMON_SHUTTING_DOWN"
    then some ErrorCode.daemon_shutting_down
    else if str_eq s "TARGET_OUTSIDE_SESSION"
    then some ErrorCode.target_outside_session
    else if str_eq s "TARGET_UNAVAILABLE"
    then some ErrorCode.target_unavailable
    else if str_eq s "INPUT_FOCUS_MISMATCH"
    then some ErrorCode.input_focus_mismatch
    else if str_eq s "ISOLATED_POINTER_UNAVAILABLE"
    then some ErrorCode.isolated_pointer_unavailable
    else if str_eq s "ISOLATED_DRAG_UNAVAILABLE"
    then some ErrorCode.isolated_drag_unavailable
    else if str_eq s "PHYSICAL_FALLBACK_NOT_ALLOWED"
    then some ErrorCode.physical_fallback_not_allowed
    else if str_eq s "TARGET_COORDINATE_REQUIRED"
    then some ErrorCode.target_coordinate_required
    else if str_eq s "PHYSICAL_FALLBACK_REQUIRED"
    then some ErrorCode.physical_fallback_required
    else if str_eq s "TARGET_OCCLUDED"
    then some ErrorCode.target_occluded
    else none

of_name-as_str : (c : ErrorCode) → of_name (as_str c) ≡ some c
unfolding of_name as_str
of_name-as_str ErrorCode.parse_error = refl
of_name-as_str ErrorCode.invalid_request = refl
of_name-as_str ErrorCode.invalid_params = refl
of_name-as_str ErrorCode.method_not_found = refl
of_name-as_str ErrorCode.internal = refl
of_name-as_str ErrorCode.not_ready = refl
of_name-as_str ErrorCode.permission = refl
of_name-as_str ErrorCode.stale_frame = refl
of_name-as_str ErrorCode.control_locked = refl
of_name-as_str ErrorCode.paused = refl
of_name-as_str ErrorCode.user_takeover = refl
of_name-as_str ErrorCode.out_of_bounds = refl
of_name-as_str ErrorCode.unknown_frame = refl
of_name-as_str ErrorCode.session_not_found = refl
of_name-as_str ErrorCode.invalid_session_state = refl
of_name-as_str ErrorCode.confirmation_required = refl
of_name-as_str ErrorCode.cancelled = refl
of_name-as_str ErrorCode.trace_error = refl
of_name-as_str ErrorCode.driver_error = refl
of_name-as_str ErrorCode.unsupported = refl
of_name-as_str ErrorCode.user_takeover_active = refl
of_name-as_str ErrorCode.action_timeout = refl
of_name-as_str ErrorCode.capture_failed = refl
of_name-as_str ErrorCode.control_token_required = refl
of_name-as_str ErrorCode.invalid_control_token = refl
of_name-as_str ErrorCode.observation_token_required = refl
of_name-as_str ErrorCode.invalid_observation_token = refl
of_name-as_str ErrorCode.session_stopped = refl
of_name-as_str ErrorCode.request_timeout = refl
of_name-as_str ErrorCode.protocol_version_mismatch = refl
of_name-as_str ErrorCode.daemon_admin_token_required = refl
of_name-as_str ErrorCode.invalid_daemon_admin_token = refl
of_name-as_str ErrorCode.daemon_shutting_down = refl
of_name-as_str ErrorCode.target_outside_session = refl
of_name-as_str ErrorCode.target_unavailable = refl
of_name-as_str ErrorCode.input_focus_mismatch = refl
of_name-as_str ErrorCode.isolated_pointer_unavailable = refl
of_name-as_str ErrorCode.isolated_drag_unavailable = refl
of_name-as_str ErrorCode.physical_fallback_not_allowed = refl
of_name-as_str ErrorCode.target_coordinate_required = refl
of_name-as_str ErrorCode.physical_fallback_required = refl
of_name-as_str ErrorCode.target_occluded = refl

-- Two codes with the same name on the wire are the same code.
pub as_str-injective : (a b : ErrorCode) → as_str a ≡ as_str b → a ≡ b
as_str-injective a b h = cc (ap of_name h, of_name-as_str a, of_name-as_str b)
