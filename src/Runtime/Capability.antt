-- ===== src/Runtime/Capability.antt =====
-- What a caller without the control token cannot do, and who learns the tokens.
use oc_computer_use.Runtime.{session_result}
use oc_computer_use.Prelude.{
  ◌≡◌, refl, inl, inr, ◌≢◌, Option, none, some, Bool, true, false, arith, nat_eq, lookup,
  Option-cases,
}
use oc_computer_use.Errors.{Text, CuError, Result, ok, err}
use oc_computer_use.Platform.{Platform}
use oc_computer_use.Session.{Session, SessionState, verify_control_token, verify_read_tokens}
use oc_computer_use.Runtime.{
  Runtime, Outcome, SessionResult, get_session, verify_mutating, authorized, transitioned, report,
}
use oc_computer_use.Runtime.Control.{
  session_pause, session_resume, session_takeover, session_release, pause_session, pause_done,
  resume_by_state, resume_done, take_over, takeover_done, release_by_state, release_done,
}
use oc_computer_use.Runtime.Stop.{
  session_stop, session_status, stop_session, stop_by_state, stop_begin, finish_begun, finish_stop,
}
use oc_computer_use.Runtime.Start.{StartInput}
use oc_computer_use.Runtime.Dispatch.{SessionAction, session, act_on, without_id}
use oc_computer_use.Runtime.Cases.{authorized_cases, transitioned_cases, Result-cases}

-- The actions on a session that need its control token.
abbrev pub needs_control : SessionAction → Bool
needs_control SessionAction.start = false
needs_control SessionAction.status = false
needs_control _ = true

module _ (P : Platform) where
  get_session_lem :
      (id : Text) (rt : Runtime P) (s : Session P)
      → lookup id rt.sessions ≡ some s
      → get_session P id rt ≡ ok s
  unfolding get_session
  get_session_lem id rt s h = ground arith

  refused_mutating :
      (s : Session P) (t : Option Text) (e : CuError)
      → verify_control_token P s t ≡ err e
      → verify_mutating P s t ≡ err e
  unfolding verify_mutating
  refused_mutating s t e h = ground arith

  authorized_refused :
      {A : Type 0} (id : Text) (token : Option Text) (rt : Runtime P) (s : Session P) (e : CuError)
      (next : Session P → Outcome P A)
      → lookup id rt.sessions ≡ some s
      → verify_control_token P s token ≡ err e
      → authorized P id token rt next ≡ (err e, rt)
  authorized_refused id token rt s e next h v =
      rw (get_session_lem id rt s h, refused_mutating s token e v, authorized) refl

  -- An action that needs the control token of an existing session, called without it, is an error
  -- and leaves the whole runtime as it was, its log too.
  pub act_on_refused :
      (a : SessionAction) (id : Text) (control observation : Option Text) (i : StartInput P)
      (rt : Runtime P) {s : Session P} {e : CuError}
      → needs_control a ≡ true
      → lookup id rt.sessions ≡ some s
      → verify_control_token P s control ≡ err e
      → act_on P a id control observation i rt ≡ (err e, rt)
  unfolding act_on session_pause session_resume session_takeover session_release session_stop
  act_on_refused SessionAction.start id c o i rt n h v = ground arith
  act_on_refused SessionAction.status id c o i rt n h v = ground arith
  act_on_refused SessionAction.pause id c o i rt {s = s} {e = e} n h v =
      authorized_refused id c rt s e (λ u. pause_session P u rt) h v
  act_on_refused SessionAction.resume id c o i rt {s = s} {e = e} n h v =
      authorized_refused id c rt s e (λ u. resume_by_state P u.state u rt) h v
  act_on_refused SessionAction.stop id c o i rt {s = s} {e = e} n h v =
      rw (get_session_lem id rt s h, v, session_stop) refl
  act_on_refused SessionAction.takeover id c o i rt {s = s} {e = e} n h v =
      authorized_refused id c rt s e (λ u. take_over P u rt) h v
  act_on_refused SessionAction.release id c o i rt {s = s} {e = e} n h v =
      authorized_refused id c rt s e (λ u. release_by_state P u.state u rt) h v

  -- A result that does not show the tokens.
  abbrev Hides : Outcome P (SessionResult P) → Type 0
  Hides out =
      (r : SessionResult P) → out.0 ≡ ok r → (r.control_token ≡ none) × (r.observation_token ≡ none)

  refusal-Hides : (e : CuError) (rt : Runtime P) → Hides (err e, rt)
  refusal-Hides e rt r h = ground arith

  report-Hides : (s : Session P) (rt : Runtime P) → Hides (report P s rt)
  unfolding session_result
  report-Hides s rt r h = ground arith

  transitioned-Hides :
      (s : Session P) (t : SessionState) (rt : Runtime P)
      (next : Session P → Runtime P → Outcome P (SessionResult P))
      → ((s' : Session P) (rt' : Runtime P) → Hides (next s' rt'))
      → Hides (transitioned P s t rt next)
  transitioned-Hides s t rt next h =
      transitioned_cases P Hides s t rt next (λ e. refusal-Hides e rt) (λ s' st q. h s' _)

  resume-Hides :
      (st : SessionState) (s : Session P) (rt : Runtime P) → Hides (resume_by_state P st s rt)
  resume-Hides SessionState.paused s rt =
      transitioned-Hides s SessionState.active rt (resume_done P) (λ s' rt'. report-Hides s' _)
  resume-Hides SessionState.user_takeover s rt = refusal-Hides _ rt
  resume-Hides _ s rt = refusal-Hides _ rt

  release-Hides :
      (st : SessionState) (s : Session P) (rt : Runtime P) → Hides (release_by_state P st s rt)
  release-Hides SessionState.user_takeover s rt =
      transitioned-Hides s SessionState.active rt (release_done P) (λ s' rt'. report-Hides s' _)
  release-Hides _ s rt = refusal-Hides _ rt

  finish_begun-Hides : (out : Result (Session P) × Runtime P) → Hides (finish_begun P out)
  unfolding finish_stop
  finish_begun-Hides (err e, rt) = refusal-Hides e rt
  finish_begun-Hides (ok s, rt) = report-Hides _ _

  stop-Hides :
      (st : SessionState) (s : Session P) (rt : Runtime P) → Hides (stop_by_state P st s rt)
  unfolding stop_by_state finish_stop
  stop-Hides SessionState.stopped s rt = report-Hides s rt
  stop-Hides SessionState.stopping s rt = report-Hides _ _
  stop-Hides _ s rt = finish_begun-Hides (stop_begin P s rt)

  session_stop-Hides :
      (id : Text) (token : Option Text) (rt : Runtime P) → Hides (session_stop P id token rt)
  unfolding session_stop stop_session
  session_stop-Hides id token rt = elim (Result-cases (get_session P id rt)) [
    | inr (e, h) ↦ rw (h, session_stop) (refusal-Hides e rt)
    | inl (s, h) ↦ elim (Result-cases (verify_control_token P s token)) [
      | inr (e, v) ↦ rw (h, v, session_stop) (refusal-Hides e rt)
      | inl (u, v) ↦ rw (h, v, session_stop) (stop-Hides s.state s rt)
    ]
  ]

  session_status-Hides :
      (id : Text) (o c : Option Text) (rt : Runtime P) → Hides (session_status P id o c rt)
  unfolding session_status
  session_status-Hides id o c rt = elim (Result-cases (get_session P id rt)) [
    | inr (e, h) ↦ rw (h, session_status) (refusal-Hides e rt)
    | inl (s, h) ↦ elim (Result-cases (verify_read_tokens P s o c)) [
      | inr (e, v) ↦ rw (h, v, session_status) (refusal-Hides e rt)
      | inl (u, v) ↦ rw (h, v, session_status) (report-Hides s rt)
    ]
  ]

  act_on-Hides :
      (a : SessionAction) (id : Text) (c o : Option Text) (i : StartInput P) (rt : Runtime P)
      → a ≢ SessionAction.start
      → Hides (act_on P a id c o i rt)
  unfolding act_on session_pause session_resume session_takeover session_release
  act_on-Hides SessionAction.start id c o i rt n = absurd (n refl)
  act_on-Hides SessionAction.status id c o i rt n = session_status-Hides id o c rt
  act_on-Hides SessionAction.pause id c o i rt n =
      authorized_cases P Hides id c rt (λ s. pause_session P s rt) (λ e. refusal-Hides e rt)
        λ s e v.
          transitioned-Hides s SessionState.paused rt (pause_done P) (λ s' rt'. report-Hides s' _)
  act_on-Hides SessionAction.resume id c o i rt n =
      authorized_cases P Hides id c rt (λ s. resume_by_state P s.state s rt)
        (λ e. refusal-Hides e rt) λ s e v. resume-Hides s.state s rt
  act_on-Hides SessionAction.stop id c o i rt n = session_stop-Hides id c rt
  act_on-Hides SessionAction.takeover id c o i rt n =
      authorized_cases P Hides id c rt (λ s. take_over P s rt) (λ e. refusal-Hides e rt)
        λ s e v.
          transitioned-Hides s SessionState.user_takeover rt (takeover_done P)
            (λ s' rt'. report-Hides s' _)
  act_on-Hides SessionAction.release id c o i rt n =
      authorized_cases P Hides id c rt (λ s. release_by_state P s.state s rt)
        (λ e. refusal-Hides e rt) λ s e v. release-Hides s.state s rt

  without_id-Hides :
      (a : SessionAction) (c o : Option Text) (i : StartInput P) (rt : Runtime P)
      → a ≢ SessionAction.start
      → Hides (without_id P a c o i rt)
  unfolding without_id
  without_id-Hides SessionAction.start c o i rt n = absurd (n refl)
  without_id-Hides SessionAction.status c o i rt n = elim (Option-cases rt.control_lock) [
    | inl h ↦ rw (h, without_id) (refusal-Hides _ rt)
    | inr (holder, h) ↦ rw (h, without_id) (session_status-Hides holder o c rt)
  ]
  without_id-Hides _ c o i rt n = refusal-Hides _ rt

  -- Only the result of a start carries tokens: every other action that succeeds answers with none.
  pub tokens_shown_once :
      (a : SessionAction) (id control observation : Option Text) (i : StartInput P) (rt : Runtime P)
      (r : SessionResult P)
      → a ≢ SessionAction.start
      → (session P a id control observation i rt).0 ≡ ok r
      → (r.control_token ≡ none) × (r.observation_token ≡ none)
  unfolding session
  tokens_shown_once a none c o i rt r n h = without_id-Hides a c o i rt n r h
  tokens_shown_once a (some id) c o i rt r n h = act_on-Hides a id c o i rt n r h
