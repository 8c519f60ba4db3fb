-- ===== src/Daemon/Route.antt =====
-- `dispatch` of cu-daemon/src/jsonrpc.rs.
use oc_computer_use.Prelude.{ℕ, Option, none, some, Bool, true, List}
use oc_computer_use.Errors.{Text, CuError, ClientInfo}
use oc_computer_use.Platform.{Platform}
use oc_computer_use.Policy.{unwrap_or}
use oc_computer_use.Requests.{RequestKey}
use oc_computer_use.Runtime.Dispatch.{session}
use oc_computer_use.Runtime.Start.{StartInput}
use oc_computer_use.Runtime.Cancel.{cancel_request, cancel_session}
use oc_computer_use.Exec.{answer, fail, checks, fails_if, ◌>>=◌, ◌>>◌}
use oc_computer_use.Act.{RuntimeConfig, Machine, ObserveParams}
use oc_computer_use.Act.Observe.{observe_session}
use oc_computer_use.Act.Batch.{act_session}
use oc_computer_use.Inspect.{Codec, inspect_session}
use oc_computer_use.Daemon.{CancelParams, SessionParams, Access, Call, RpcResult, Services, Serve}
use oc_computer_use.Daemon.Summary.{session_summary}
use oc_computer_use.Daemon.Gates.{
  version_result, parsed, on_runtime, on_session, with_capability, shut_down, with_trace, listed,
  read_file, trace_error, admin_list,
}

-- The strings "jsonrpc", "JSON-RPC client" and "unknown" are those of the indices 2, 3 and 4.
abbrev pub client_of : SessionParams → ClientInfo
client_of p = record {
  client_id = unwrap_or 2 p.client_id;
  client_name = unwrap_or 3 p.client_name;
  client_instance_id = unwrap_or 4 p.client_instance_id;
}

-- The id of a request, if it has one, on its connection.
abbrev pub key_of : ℕ → Option Text → Option RequestKey
key_of connection none = none
key_of connection (some id) = some (record { connection_id = connection; request_id = id })

module _ (P : Platform) (config : RuntimeConfig P) (M : Machine P) (codec : Codec) (V : Services P)
    (admin_hash : List ℕ) (first : List RequestKey → Option RequestKey) where
  abbrev pub start_options : SessionParams → StartInput P
  start_options p = record V.start {
    display_id = p.display_id;
    client = client_of p;
    target = p.target;
    pointer_policy = p.pointer_policy;
    focus_policy = p.focus_policy;
  }

  unfoldable pub session_call : SessionParams → Serve P (RpcResult P)
  unfolding on_runtime session
  session_call p = do
    r ←
        on_runtime P
          (session P p.action p.session_id p.control_token p.observation_token (start_options p))
    answer (RpcResult.session_answer r)

  abbrev pub observe_at : ObserveParams P → Option Text → Serve P (RpcResult P)
  observe_at p none = fail CuError.invalid_params
  observe_at p (some id) = do
    o ← on_session P config M id (observe_session P config M p)
    answer (RpcResult.observed o)

  abbrev pub cancel_with : ℕ → CancelParams → Option Text → Serve P Bool
  cancel_with connection p (some rid) = on_runtime P (
      cancel_request P first (record { connection_id = connection; request_id = rid }) p.session_id
        p.control_token)
  cancel_with connection p none = do
    on_runtime P (cancel_session P p.session_id p.control_token)
    answer true

  unfoldable pub cancel_call : ℕ → CancelParams → Serve P (RpcResult P)
  unfolding on_runtime cancel_request cancel_session
  cancel_call connection p = do
    done ← cancel_with connection p p.request_id
    answer (RpcResult.cancelled done p.session_id)

  unfoldable pub route : ℕ → Option Text → Call P → Serve P (RpcResult P)
  unfolding with_capability shut_down with_trace admin_list session_call cancel_call on_session
      session_summary observe_session act_session inspect_session
  route connection id Call.runtime_health = answer (RpcResult.content V.health)
  route connection id (Call.runtime_version v) = do
    checks (λ _. version_result v)
    answer RpcResult.version
  route connection id Call.runtime_permissions = do
    n ← checks (λ _. V.permissions)
    answer (RpcResult.content n)
  route connection id Call.runtime_displays = do
    n ← checks (λ _. V.displays)
    answer (RpcResult.content n)
  route connection id (Call.runtime_desktop_layout q) =
      parsed P q λ p. with_capability P p Access.desktop_layout V.layout
  route connection id (Call.runtime_pointer q) =
      parsed P q λ p. with_capability P p Access.pointer V.pointer_location
  route connection id (Call.runtime_active_application q) =
      parsed P q λ p. with_capability P p Access.active_application V.application
  route connection id (Call.runtime_shutdown q) = parsed P q (shut_down P admin_hash)
  route connection id (Call.computer_session q) = parsed P q session_call
  route connection id Call.session_summary =
      λ h. answer (RpcResult.summary (session_summary P h.runtime)) h
  route connection id (Call.computer_observe q) = parsed P q λ p. observe_at p p.session_id
  route connection id (Call.computer_inspect q) = parsed P q λ p. (do
    r ← on_session P config M p.session_id (inspect_session P M codec p)
    answer (RpcResult.inspected r))
  route connection id (Call.computer_act q) = parsed P q λ p. (do
    r ← on_session P config M p.session_id (act_session P config M p (key_of connection id))
    answer (RpcResult.acted r))
  route connection id (Call.computer_cancel q) = parsed P q (cancel_call connection)
  route connection id (Call.trace_list q) = parsed P q λ p. with_trace P V p (listed P V p)
  route connection id (Call.trace_admin_list q) = parsed P q (admin_list P V admin_hash)
  route connection id (Call.trace_get q) =
      parsed P q λ p. with_trace P V p (read_file P V.read_trace p)
  route connection id (Call.trace_export q) =
      parsed P q λ p. with_trace P V p (read_file P (λ t. trace_error (V.read_trace_export t)) p)
  route connection id (Call.trace_replay q) =
      parsed P q λ p. with_trace P V p (read_file P V.replay_from_file p)
  route connection id (Call.trace_summaries q) = parsed P q λ p. with_trace P V p (listed P V p)
  route connection id Call.other = fail CuError.method_not_found

  -- A daemon that is stopping refuses new work.
  unfoldable pub dispatch : ℕ → Option Text → Call P → Serve P (RpcResult P)
  unfolding route
  dispatch connection id call = do
    fails_if (λ h. h.runtime.shutting_down) (λ _. CuError.daemon_shutting_down)
    route connection id call
