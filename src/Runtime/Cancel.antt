-- ===== src/Runtime/Cancel.antt =====
-- Cancellation by a client and by the human, of cu-runtime/src/runtime.rs.
use oc_computer_use.Prelude.{Option, none, some, Bool, List, nat_eq, lookup}
use oc_computer_use.Errors.{Text, ok, err}
use oc_computer_use.Platform.{Platform}
use oc_computer_use.Session.{Session, SessionState, transition, cancel_in_flight}
use oc_computer_use.Requests.{RequestKey, cancel}
use oc_computer_use.Runtime.{
  Runtime, Outcome, get_session, verify_mutating, authorized, put, emit_if_traced, trace_event,
  cancel_session_event, cancel_request_event,
}

module _ (P : Platform) where
  -- `Runtime::cancel_in_flight`.
  unfoldable pub cancel_session : Text → Option Text → Runtime P → Outcome P (Unit {0})
  unfolding get_session verify_mutating
  cancel_session id token rt = authorized P id token rt λ s.
      (let rt' = emit_if_traced P s (trace_event s.id cancel_session_event) rt in
        (ok tt, record rt' { store = cancel_in_flight P s rt.store }))

  -- `first` is the iteration order of the tombstones.
  unfoldable pub cancel_request :
      (List RequestKey → Option RequestKey)
      → RequestKey
      → Text
      → Option Text
      → Runtime P
      → Outcome P Bool
  unfolding get_session verify_mutating
  cancel_request first key id token rt = authorized P id token rt λ s.
      (let rt' = emit_if_traced P s (trace_event s.id cancel_request_event) rt in
        let (r, requests, st) = cancel P first key id rt.requests rt.store in
        (r, record rt' { requests = requests; store = st }))

  -- The batches are cancelled first; a transition that is refused is ignored.
  abbrev pub take_from : Session P → Runtime P → Runtime P
  take_from s rt = elim (transition P s SessionState.user_takeover rt.store) [
    | err e ↦ rt
    | ok (s', st) ↦ put P s' (record rt { store = st })
  ]

  abbrev pub interrupt : Option (Session P) → Runtime P → Runtime P
  interrupt none rt = rt
  interrupt (some s) rt = take_from s (record rt { store = cancel_in_flight P s rt.store })

  -- The hook of `install_human_takeover_hook`, for the session that holds the lock.
  unfoldable pub takeover_hook : Runtime P → Runtime P
  takeover_hook rt = elim rt.control_lock [
    | none ↦ rt
    | some sid ↦ interrupt (lookup sid rt.sessions) rt
  ]
