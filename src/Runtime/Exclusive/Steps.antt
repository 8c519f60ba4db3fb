-- ===== src/Runtime/Exclusive/Steps.antt =====
-- Every operation of the runtime keeps the lock exclusive, also where a stop is interleaved with
-- other operations.
use oc_computer_use.Runtime.Control.{
  pause_session, pause_done, resume_done, takeover_done, take_over, release_done, shown,
}
use oc_computer_use.Runtime.Stop.{stop_begin, stop_begun, finish_stop, stopped_session}
use oc_computer_use.Prelude.{
  ◌≡◌, refl, inl, inr, ◌≢◌, Option, some, false, nat_eq, lookup, Option-cases,
}
use oc_computer_use.Errors.{Text}
use oc_computer_use.Platform.{Platform}
use oc_computer_use.Session.{Session, SessionState}
use oc_computer_use.Session.Coherence.{finished}
use oc_computer_use.Runtime.{
  trace_event, trace_closed, pause_event, resume_event, takeover_event, release_event, stop_event,
  pointer_hidden, Runtime, Outcome, Effect, put, emit, emit_if_traced, transitioned,
}
use oc_computer_use.Runtime.Control.{
  session_pause, session_resume, session_takeover, session_release, resume_by_state,
  release_by_state,
}
use oc_computer_use.Runtime.Cases.{authorized_cases, transitioned_cases}
use oc_computer_use.Runtime.Exclusive.{
  IsExclusive, release-Excl, transition_id, transition_from_live, replace-Excl,
}

module _ (P : Platform) where
  open P use {Store}

  abbrev pub Keeps : {A : Type 0} → Outcome P A → Type 0
  Keeps out = IsExclusive P out.1

  pub traced :
      (s : Session P) (e : Effect P) (rt : Runtime P)
      → IsExclusive P rt
      → IsExclusive P (emit_if_traced P s e rt)
  traced s e rt x = elim (Option-cases s.trace) [
    | inl q ↦ rw (q, emit_if_traced) x
    | inr (t, q) ↦ rw (q, emit_if_traced) x
  ]

  -- A transition to a state of work, from whichever session the map holds under an id.
  transitioned-IsExclusive :
      {A : Type 0} (id : Text) (s : Session P) (t : SessionState) (rt : Runtime P)
      (next : Session P → Runtime P → Outcome P A)
      → lookup id rt.sessions ≡ some s
      → finished P t ≡ false
      → ((s' : Session P) (rt' : Runtime P) → IsExclusive P rt' → Keeps (next s' rt'))
      → IsExclusive P rt
      → Keeps (transitioned P s t rt next)
  transitioned-IsExclusive id s t rt next e f keep x =
      transitioned_cases P Keeps s t rt next (λ _. x)
        λ s' st h. keep s' _ (
          replace-Excl P rt id s s' e (transition_from_live P s t rt.store s' st f h)
            (transition_id P s t rt.store s' st h) x)

  pub session_pause-IsExclusive :
      (id : Text) (token : Option Text) (rt : Runtime P)
      → IsExclusive P rt
      → Keeps (session_pause P id token rt)
  unfolding session_pause
  session_pause-IsExclusive id token rt x =
      authorized_cases P Keeps id token rt (λ s. pause_session P s rt) (λ _. x)
        λ s e v.
          transitioned-IsExclusive id s SessionState.paused rt (pause_done P) e refl
            (λ s' rt' x'. traced s' (trace_event s'.id pause_event) rt' x') x

  resume-IsExclusive :
      (st : SessionState) (id : Text) (s : Session P) (rt : Runtime P)
      → lookup id rt.sessions ≡ some s
      → IsExclusive P rt
      → Keeps (resume_by_state P st s rt)
  resume-IsExclusive SessionState.user_takeover id s rt e x = x
  resume-IsExclusive SessionState.paused id s rt e x =
      transitioned-IsExclusive id s SessionState.active rt (resume_done P) e refl
        (λ s' rt' x'. traced s' (trace_event s'.id resume_event) rt' x') x
  resume-IsExclusive _ id s rt e x = x

  pub session_resume-IsExclusive :
      (id : Text) (token : Option Text) (rt : Runtime P)
      → IsExclusive P rt
      → Keeps (session_resume P id token rt)
  unfolding session_resume
  session_resume-IsExclusive id token rt x =
      authorized_cases P Keeps id token rt (λ s. resume_by_state P s.state s rt) (λ _. x)
        λ s e v. resume-IsExclusive s.state id s rt e x

  pub session_takeover-IsExclusive :
      (id : Text) (token : Option Text) (rt : Runtime P)
      → IsExclusive P rt
      → Keeps (session_takeover P id token rt)
  unfolding session_takeover
  session_takeover-IsExclusive id token rt x =
      authorized_cases P Keeps id token rt (λ s. take_over P s rt) (λ _. x)
        λ s e v.
          transitioned-IsExclusive id s SessionState.user_takeover rt (takeover_done P) e refl
            (λ s' rt' x'.
              traced s' (trace_event s'.id takeover_event) (emit P pointer_hidden rt') x')
            x

  release-IsExclusive :
      (st : SessionState) (id : Text) (s : Session P) (rt : Runtime P)
      → lookup id rt.sessions ≡ some s
      → IsExclusive P rt
      → Keeps (release_by_state P st s rt)
  release-IsExclusive SessionState.user_takeover id s rt e x =
      transitioned-IsExclusive id s SessionState.active rt (release_done P) e refl
        (λ s' rt' x'. traced s' (trace_event s'.id release_event) (emit P (shown P s') rt') x') x
  release-IsExclusive _ id s rt e x = x

  pub session_release-IsExclusive :
      (id : Text) (token : Option Text) (rt : Runtime P)
      → IsExclusive P rt
      → Keeps (session_release P id token rt)
  unfolding session_release
  session_release-IsExclusive id token rt x =
      authorized_cases P Keeps id token rt (λ s. release_by_state P s.state s rt) (λ _. x)
        λ s e v. release-IsExclusive s.state id s rt e x

  -- The two halves of a stop, each on its own.
  pub stop_begin-IsExclusive :
      (id : Text) (s : Session P) (rt : Runtime P)
      → lookup id rt.sessions ≡ some s
      → s.state ≢ SessionState.stopped
      → IsExclusive P rt
      → Keeps (stop_begin P s rt)
  unfolding stop_begin
  stop_begin-IsExclusive id s rt e n x =
      transitioned_cases P Keeps s SessionState.stopping rt (stop_begun P) (λ _. x)
        λ s' st h.
          (let rt' = put P s' (record rt { store = st }) in
            let x' =
              replace-Excl P rt id s s' e n
                (transition_id P s SessionState.stopping rt.store s' st h) x in
            traced s' (trace_closed s'.id) _
              (traced s' (trace_event s'.id stop_event) (emit P pointer_hidden rt') x'))

  pub finish_stop-IsExclusive :
      (s : Session P) (rt : Runtime P) → IsExclusive P rt → Keeps (finish_stop P s rt)
  unfolding finish_stop
  finish_stop-IsExclusive s rt x =
      release-Excl P rt.control_lock rt.sessions (stopped_session P s) refl x
