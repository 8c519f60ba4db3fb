-- ===== src/Examples/Daemons.antt =====
-- Concrete inputs for the theorems on `dispatch`: the trace of session 7 is read, with its observation
-- token while it lives, and with the control token in its manifest after a restart.
use oc_computer_use.Prelude.{◌+◌, ◌≡◌, ◌⊎◌, refl, lookup, Option, none, some, false, List, [], ◌∷◌}
use oc_computer_use.Errors.{CuError, ok, err}
use oc_computer_use.Platform.Sample.{sample, digest}
use oc_computer_use.Session.{Session, SessionState, verify, verify_read_tokens}
use oc_computer_use.Requests.{RequestKey}
use oc_computer_use.Runtime.{get_session}
use oc_computer_use.Daemon.{TraceAccessManifest, Call, Services, Host}
use oc_computer_use.Daemon.Tokens.{verify_trace_access}
use oc_computer_use.Daemon.Gates.{version_result}
use oc_computer_use.Daemon.Rights.{Permitted}
use oc_computer_use.Daemon.Scoped.{IsVouched, verify_trace_access-IsScoped}
use oc_computer_use.Examples.{runtime_of, idle_runtime, start_input}

abbrev kept_manifest : TraceAccessManifest
kept_manifest = record {
  format_version = 1;
  session_id = 7;
  access_token_hashes = none ∷ some (digest 1) ∷ [];
}

abbrev services : Services sample
services = record {
  health = 1;
  permissions = ok 2;
  displays = ok 3;
  layout = ok 4;
  pointer_location = ok 5;
  application = ok 6;
  list_session_traces = λ id. ok (id ∷ []);
  list_traces = ok (7 ∷ 8 ∷ []);
  read_trace = λ id. ok id;
  read_trace_export = λ id. ok id;
  replay_from_file = λ id. ok id;
  manifest = λ id. some kept_manifest;
  bytes = λ id. (48 + id) ∷ [];
  start = start_input;
}

abbrev host : Host sample
host = record {
  runtime = runtime_of SessionState.active;
  human = none;
  now = 0;
  app_shutdown = false;
  accesses = [];
}

abbrev get_trace : Call sample
get_trace = Call.trace_get (
    some
      (record { session_id = 7; observation_token = some 2; control_token = none; limit = none }))

abbrev oldest : List RequestKey → Option RequestKey
oldest [] = none
oldest (k ∷ ks) = some k

restarted : verify_trace_access sample (some kept_manifest) 7 none (some 1) idle_runtime ≡ ok tt
unfolding verify_trace_access get_session lookup verify
restarted = refl

verify_trace_access-IsScoped_example :
    ((s : Session sample) × (get_session sample 7 idle_runtime ≡ ok s)
      × (verify_read_tokens sample s none (some 1) ≡ ok tt))
    ⊎ ((e : CuError) × (get_session sample 7 idle_runtime ≡ err e)
        × IsVouched sample (some kept_manifest) 7 none (some 1))
verify_trace_access-IsScoped_example =
    verify_trace_access-IsScoped sample (some kept_manifest) 7 none (some 1) idle_runtime restarted

-- A version that is not 3, and passes for it.
wrapped_version : version_result (some (some 4294967299)) ≡ ok tt
unfolding version_result
wrapped_version = refl
