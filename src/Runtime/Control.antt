-- ===== src/Runtime/Control.antt =====
-- `session_pause`, `session_resume`, `session_takeover` and `session_release` of
-- cu-runtime/src/runtime.rs.
use oc_computer_use.Prelude.{Option, nat_eq}
use oc_computer_use.Errors.{Text, CuError, err}
use oc_computer_use.Platform.{Platform}
use oc_computer_use.Session.{Session, SessionState}
use oc_computer_use.Runtime.{
  Runtime, Outcome, SessionResult, get_session, verify_mutating, authorized, transitioned, report,
  emit, emit_if_traced, trace_event, Effect, pointer_visualized, pointer_hidden, pause_event,
  resume_event, takeover_event, release_event,
}

-- What each operation does once its transition has succeeded stands under a name ending in `_done`.
module _ (P : Platform) where
  abbrev pub pause_done : Session P → Runtime P → Outcome P (SessionResult P)
  pause_done s rt = report P s (emit_if_traced P s (trace_event s.id pause_event) rt)

  abbrev pub pause_session : Session P → Runtime P → Outcome P (SessionResult P)
  pause_session s rt = transitioned P s SessionState.paused rt pause_done

  unfoldable pub session_pause : Text → Option Text → Runtime P → Outcome P (SessionResult P)
  unfolding get_session verify_mutating
  session_pause id token rt = authorized P id token rt λ s. pause_session s rt

  abbrev pub resume_done : Session P → Runtime P → Outcome P (SessionResult P)
  resume_done s rt = report P s (emit_if_traced P s (trace_event s.id resume_event) rt)

  abbrev pub resume_by_state : SessionState → Session P → Runtime P → Outcome P (SessionResult P)
  resume_by_state SessionState.user_takeover s rt = (err CuError.user_takeover_active, rt)
  resume_by_state SessionState.paused s rt = transitioned P s SessionState.active rt resume_done
  resume_by_state _ s rt = (err CuError.invalid_session_state, rt)

  unfoldable pub session_resume : Text → Option Text → Runtime P → Outcome P (SessionResult P)
  unfolding get_session verify_mutating
  session_resume id token rt = authorized P id token rt λ s. resume_by_state s.state s rt

  abbrev pub takeover_done : Session P → Runtime P → Outcome P (SessionResult P)
  takeover_done s rt =
      report P s (emit_if_traced P s (trace_event s.id takeover_event) (emit P pointer_hidden rt))

  abbrev pub take_over : Session P → Runtime P → Outcome P (SessionResult P)
  take_over s rt = transitioned P s SessionState.user_takeover rt takeover_done

  unfoldable pub session_takeover : Text → Option Text → Runtime P → Outcome P (SessionResult P)
  unfolding get_session verify_mutating
  session_takeover id token rt = authorized P id token rt λ s. take_over s rt

  abbrev pub shown : Session P → Effect P
  shown s = let v = s.virtual_pointer in pointer_visualized v.x v.y v.display_id v.mode

  abbrev pub release_done : Session P → Runtime P → Outcome P (SessionResult P)
  release_done s rt =
      report P s (emit_if_traced P s (trace_event s.id release_event) (emit P (shown s) rt))

  abbrev pub release_by_state : SessionState → Session P → Runtime P → Outcome P (SessionResult P)
  release_by_state SessionState.user_takeover s rt =
      transitioned P s SessionState.active rt release_done
  release_by_state _ s rt = (err CuError.invalid_session_state, rt)

  unfoldable pub session_release : Text → Option Text → Runtime P → Outcome P (SessionResult P)
  unfolding get_session verify_mutating
  session_release id token rt = authorized P id token rt λ s. release_by_state s.state s rt
