-- ===== src/Daemon/Summary.antt =====
-- `Runtime::session_summary` of cu-runtime/src/runtime.rs. The text of its message is not modelled.
use oc_computer_use.Prelude.{Option, none, some, true, false, nat_eq, lookup}
use oc_computer_use.Errors.{Text, ClientInfo}
use oc_computer_use.Platform.{Platform}
use oc_computer_use.Session.{Session, SessionState}
use oc_computer_use.Runtime.{Runtime}
use oc_computer_use.Daemon.{SessionSummary}

module _ (P : Platform) where
  abbrev pub owner_field : (ClientInfo → Text) → Option (Session P) → Option Text
  owner_field f none = none
  owner_field f (some s) = owner_text s.owner
    where
      owner_text : Option ClientInfo → Option Text
      owner_text none = none
      owner_text (some o) = some (f o)

  abbrev pub state_field : Option (Session P) → Option SessionState
  state_field none = none
  state_field (some s) = some s.state

  abbrev pub summary_of : Runtime P → Option Text → SessionSummary
  summary_of rt none = record {
    session_id = none;
    state = none;
    lock_held = false;
    owner_client_id = none;
    owner_client_name = none;
  }
  summary_of rt (some id) = record {
    session_id = some id;
    state = state_field (lookup id rt.sessions);
    lock_held = true;
    owner_client_id = owner_field (λ o. o.client_id) (lookup id rt.sessions);
    owner_client_name = owner_field (λ o. o.client_name) (lookup id rt.sessions);
  }

  -- `Runtime::session_summary`.
  unfoldable pub session_summary : Runtime P → SessionSummary
  session_summary rt = summary_of rt rt.control_lock
