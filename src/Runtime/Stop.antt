-- ===== src/Runtime/Stop.antt =====
-- `session_stop`, `stop_session`, `session_status` and `shutdown` of cu-runtime/src/runtime.rs.
use oc_computer_use.Prelude.{Option, none, some, true, List, [], ◌∷◌, nat_eq, lookup}
use oc_computer_use.Errors.{Text, Result, ok, err}
use oc_computer_use.Platform.{Platform}
use oc_computer_use.Session.{Session, SessionState, verify_control_token, verify_read_tokens}
use oc_computer_use.Session.Lock.{release as release_lock}
use oc_computer_use.Runtime.{
  Runtime, Outcome, SessionResult, get_session, transitioned, report, put, emit, emit_if_traced,
  trace_event, trace_closed, manifest_stopped, pointer_hidden, driver_shutdown, stop_event,
}

module _ (P : Platform) where
  abbrev pub stop_begun : Session P → Runtime P → Result (Session P) × Runtime P
  stop_begun s rt =
      let rt' = emit_if_traced P s (trace_event s.id stop_event) (emit P pointer_hidden rt) in
      (ok s, emit P (manifest_stopped s.id) (emit_if_traced P s (trace_closed s.id) rt'))

  -- `stop_session` up to its last write: the state is `stopping` while the trace closes.
  unfoldable pub stop_begin : Session P → Runtime P → Result (Session P) × Runtime P
  stop_begin s rt = transitioned P s SessionState.stopping rt stop_begun

  abbrev pub stopped_session : Session P → Session P
  stopped_session s = record s { state = SessionState.stopped }

  -- `set_state(Stopped)` and the release of the lock.
  unfoldable pub finish_stop : Session P → Runtime P → Outcome P (SessionResult P)
  finish_stop s rt =
      let s' = stopped_session s in
      report P s' (record (put P s' rt) { control_lock = release_lock rt.control_lock s.id })

  -- The second half runs if the first succeeded.
  abbrev pub finish_begun : Result (Session P) × Runtime P → Outcome P (SessionResult P)
  finish_begun (err e, rt) = (err e, rt)
  finish_begun (ok s, rt) = finish_stop s rt

  unfoldable pub stop_by_state : SessionState → Session P → Runtime P → Outcome P (SessionResult P)
  unfolding stop_begin finish_stop
  stop_by_state SessionState.stopped s rt = report P s rt
  stop_by_state SessionState.stopping s rt = finish_stop s rt
  stop_by_state _ s rt = finish_begun (stop_begin s rt)

  unfoldable pub stop_session : Session P → Runtime P → Outcome P (SessionResult P)
  unfolding stop_by_state
  stop_session s rt = stop_by_state s.state s rt

  unfoldable pub session_stop : Text → Option Text → Runtime P → Outcome P (SessionResult P)
  unfolding get_session stop_session
  session_stop id token rt = elim (get_session P id rt) [
    | err e ↦ (err e, rt)
    | ok s ↦ elim (verify_control_token P s token) [
      | err e ↦ (err e, rt)
      | ok _ ↦ stop_session s rt
    ]
  ]

  unfoldable pub session_status :
      Text → Option Text → Option Text → Runtime P → Outcome P (SessionResult P)
  unfolding get_session
  session_status id observation control rt = elim (get_session P id rt) [
    | err e ↦ (err e, rt)
    | ok s ↦ elim (verify_read_tokens P s observation control) [
      | err e ↦ (err e, rt)
      | ok _ ↦ report P s rt
    ]
  ]

  -- The loop of `shutdown` over the sessions, in the order in which the map yields them.
  unfoldable pub stop_all : List Text → Runtime P → Runtime P
  unfolding stop_session
  stop_all [] rt = rt
  stop_all (id ∷ ids) rt = elim (lookup id rt.sessions) [
    | none ↦ stop_all ids rt
    | some s ↦ stop_all ids (stop_session s rt).1
  ]

  unfoldable pub shutdown : List Text → Runtime P → Runtime P
  unfolding stop_all
  shutdown ids rt = emit P driver_shutdown (stop_all ids (record rt { shutting_down = true }))
