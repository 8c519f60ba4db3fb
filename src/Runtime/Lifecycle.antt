-- ===== src/Runtime/Lifecycle.antt =====
-- What the operations bring a session to.
use oc_computer_use.Runtime.{trace_event, release_event, Effect}
use oc_computer_use.Prelude.{ap}
use oc_computer_use.Runtime.Control.{shown}
use oc_computer_use.Runtime.Control.{release_done}
use oc_computer_use.Prelude.{
  ℕ, ◌≡◌, ◌∙◌, sym, refl, inl, inr, ◌≢◌, Option, none, some, true, false, List, arith, nat_eq,
  lookup, lookup-insert_self, Option-cases,
}
use oc_computer_use.Errors.{Text, CuError, ok, err}
use oc_computer_use.Platform.{Platform}
use oc_computer_use.Session.{
  Session, SessionState, transition, verify_control_token, cancel_in_flight, legal, enter,
  sync_pointer_mode,
}
use oc_computer_use.Session.Lock.{is_held_by, release}
use oc_computer_use.Runtime.{
  Runtime, Outcome, SessionResult, get_session, verify_mutating, authorized, transitioned,
  session_result, put, emit, emit_if_traced,
}
use oc_computer_use.Runtime.Control.{
  session_resume, session_release, resume_by_state, release_by_state,
}
use oc_computer_use.Runtime.Stop.{
  session_stop, stop_session, stop_by_state, stop_begin, stop_begun, finish_begun, finish_stop,
  stopped_session,
}

module _ (P : Platform) where
  open P use {Store}

  -- The session of an id is stopped, keeps the digest of its control token, and does not hold the
  -- lock; the operation succeeded and says so.
  pub record Stopped (id : Text) (hash : List ℕ) (out : Outcome P (SessionResult P)) : Type 0 where
    pub after : Session P
    pub answer : SessionResult P
    pub found : lookup id out.1.sessions ≡ some after
    pub stopped : after.state ≡ SessionState.stopped
    pub digest : after.control_token_hash ≡ hash
    pub unlocked : is_held_by out.1.control_lock id ≡ false
    pub answered : out.0 ≡ ok answer
    pub shown : (answer.state ≡ SessionState.stopped) × (answer.lock_held ≡ false)

  release_lem : (lock : Option Text) (id : Text) → is_held_by (release lock id) id ≡ false
  unfolding release is_held_by
  release_lem none id = refl
  release_lem (some h) id = ground arith

  finish_stop-Stopped :
      (s : Session P) (rt : Runtime P) → Stopped s.id s.control_token_hash (finish_stop P s rt)
  unfolding finish_stop session_result
  finish_stop-Stopped s rt = record {
    after = stopped_session P s;
    answer = session_result P (finish_stop P s rt).1 (stopped_session P s);
    found = lookup-insert_self s.id (stopped_session P s) rt.sessions;
    stopped = refl;
    digest = refl;
    unlocked = release_lem rt.control_lock s.id;
    answered = refl;
    shown = (refl, release_lem rt.control_lock s.id);
  }

  -- The session after a transition to `stopping`.
  abbrev pub halting : Session P → Session P
  halting s = sync_pointer_mode P SessionState.stopping (record s { state = SessionState.stopping })

  legal_stopping : (t : SessionState) → legal t SessionState.stopping ≡ true
  unfolding legal
  legal_stopping t = ground arith

  stopping_lem :
      (s : Session P) (st : Store)
      → transition P s SessionState.stopping st ≡ ok (halting s, cancel_in_flight P s st)
  unfolding transition enter cancel_in_flight sync_pointer_mode
  stopping_lem s st = rw (legal_stopping s.state, transition) refl

  pub begun_lem :
      (s : Session P) (rt : Runtime P)
      → stop_begin P s rt
        ≡ stop_begun P
            (halting s)
            (put P (halting s) (record rt { store = cancel_in_flight P s rt.store }))
  unfolding stop_begin
  begun_lem s rt = rw (stopping_lem s rt.store, stop_begin, transitioned) refl

  pub stop_by_state-Stopped :
      (t : SessionState) (s : Session P) (rt : Runtime P)
      → t ≢ SessionState.stopped
      → Stopped s.id s.control_token_hash (stop_by_state P t s rt)
  unfolding stop_by_state sync_pointer_mode
  stop_by_state-Stopped SessionState.stopped s rt n = absurd (n refl)
  stop_by_state-Stopped SessionState.stopping s rt n = finish_stop-Stopped s rt
  stop_by_state-Stopped _ s rt n =
      rw (begun_lem s rt, finish_begun) (finish_stop-Stopped (halting s) _)

  get_session_lem :
      (id : Text) (rt : Runtime P) (s : Session P)
      → lookup id rt.sessions ≡ some s
      → get_session P id rt ≡ ok s
  unfolding get_session
  get_session_lem id rt s h = ground arith

  pub stop_completes :
      (id : Text) (token : Option Text) (rt : Runtime P) {s : Session P}
      → lookup id rt.sessions ≡ some s
      → s.id ≡ id
      → verify_control_token P s token ≡ ok tt
      → s.state ≢ SessionState.stopped
      → Stopped id s.control_token_hash (session_stop P id token rt)
  unfolding session_stop stop_session
  stop_completes id token rt {s = s} h i v n =
      rw (get_session_lem id rt s h, v, session_stop, sym i) (stop_by_state-Stopped s.state s rt n)

  same_hash :
      (s u : Session P) (token : Option Text)
      → u.control_token_hash ≡ s.control_token_hash
      → verify_control_token P s token ≡ ok tt
      → verify_control_token P u token ≡ ok tt
  unfolding verify_control_token
  same_hash s u none e v = v
  same_hash s u (some t) e v = rw e v

  stop_again :
      (id : Text) (token : Option Text) (rt : Runtime P) (u : Session P)
      → lookup id rt.sessions ≡ some u
      → verify_control_token P u token ≡ ok tt
      → u.state ≡ SessionState.stopped
      → session_stop P id token rt ≡ (ok (session_result P rt u), rt)
  unfolding session_stop stop_session stop_by_state
  stop_again id token rt u h v e =
      rw (get_session_lem id rt u h, v, e, session_stop, stop_session) refl

  -- Stopping a session that the same call has stopped already changes nothing, and answers that it
  -- is stopped.
  pub stop_twice :
      (id : Text) (token : Option Text) (rt : Runtime P) {s : Session P}
      → lookup id rt.sessions ≡ some s
      → s.id ≡ id
      → verify_control_token P s token ≡ ok tt
      → s.state ≢ SessionState.stopped
      → let rt' = (session_stop P id token rt).1 in
        ((session_stop P id token rt').1 ≡ rt')
        × ((r : SessionResult P) × ((session_stop P id token rt').0 ≡ ok r)
            × (r.state ≡ SessionState.stopped))
  unfolding session_result
  stop_twice id token rt {s = s} h i v n =
      (let x = stop_completes id token rt h i v n in
        let rt' = (session_stop P id token rt).1 in
        rw
          (stop_again id token rt' x.after x.found (same_hash s x.after token x.digest v) x.stopped)
          (refl, (session_result P rt' x.after, refl, x.stopped)))

  authorized_ok :
      {A : Type 0} (id : Text) (token : Option Text) (rt : Runtime P) (s : Session P)
      (next : Session P → Outcome P A)
      → lookup id rt.sessions ≡ some s
      → verify_mutating P s token ≡ ok tt
      → authorized P id token rt next ≡ next s
  authorized_ok id token rt s next h v = rw (get_session_lem id rt s h, v, authorized) refl

  taken_over :
      (s : Session P) (token : Option Text)
      → s.state ≡ SessionState.user_takeover
      → verify_control_token P s token ≡ ok tt
      → verify_mutating P s token ≡ ok tt
  unfolding verify_mutating
  taken_over s token e v = rw (v, e, verify_mutating) refl

  -- What a release that succeeded has done: the session, active, under its id, and the answer.
  pub record Active (id : Text) (out : Outcome P (SessionResult P)) : Type 0 where
    pub after : Session P
    pub answer : SessionResult P
    pub found : lookup id out.1.sessions ≡ some after
    pub active : (after.state ≡ SessionState.active) × (after.user_takeover ≡ false)
    pub answered : out.0 ≡ ok answer

  released : Session P → Session P
  released s =
      sync_pointer_mode P SessionState.active
        (record s { state = SessionState.active; user_takeover = false; paused = false })

  released_lem :
      (s : Session P) (st : Store)
      → s.state ≡ SessionState.user_takeover
      → transition P s SessionState.active st ≡ ok (released s, st)
  unfolding transition enter released legal
  released_lem s st e = rw (e, transition) refl

  pub emit_if_traced-sessions :
      (s : Session P) (e : Effect P) (rt : Runtime P)
      → (emit_if_traced P s e rt).sessions ≡ rt.sessions
  emit_if_traced-sessions s e rt = elim (Option-cases s.trace) [
    | inl h ↦ rw (h, emit_if_traced) refl
    | inr (t, h) ↦ rw (h, emit_if_traced) refl
  ]

  release_done-Active :
      (s : Session P) (rt : Runtime P)
      → Active s.id (release_done P (released s) (put P (released s) rt))
  unfolding released sync_pointer_mode session_result
  release_done-Active s rt =
      (let u = released s in
        let rt' = emit P (shown P u) (put P u rt) in
        record {
          after = u;
          answer = session_result P (release_done P u (put P u rt)).1 u;
          found =
              ap (lookup s.id) (emit_if_traced-sessions u (trace_event s.id release_event) rt')
              ∙ lookup-insert_self s.id u rt.sessions;
          active = (refl, refl);
          answered = refl;
        })

  release_by_state_lem :
      (t : SessionState) (s : Session P) (rt : Runtime P)
      → t ≡ SessionState.user_takeover
      → transition P s SessionState.active rt.store ≡ ok (released s, rt.store)
      → release_by_state P t s rt ≡ release_done P (released s) (put P (released s) rt)
  release_by_state_lem t s rt h q = rw (h, q, release_by_state, transitioned) refl

  -- After a takeover, resuming is refused and changes nothing, and a release makes the session
  -- active; both are called with the session's control token.
  pub takeover_needs_release :
      (id : Text) (token : Option Text) (rt : Runtime P) {s : Session P}
      → lookup id rt.sessions ≡ some s
      → s.id ≡ id
      → verify_control_token P s token ≡ ok tt
      → s.state ≡ SessionState.user_takeover
      → (session_resume P id token rt ≡ (err CuError.user_takeover_active, rt))
        × Active id (session_release P id token rt)
  unfolding session_resume session_release
  takeover_needs_release id token rt {s = s} h i v e =
      (let w = taken_over s token e v in
        (
          authorized_ok id token rt s (λ u. resume_by_state P u.state u rt) h w
              ∙ rw (e, resume_by_state) refl,
          rw (authorized_ok id token rt s (λ u. release_by_state P u.state u rt) h w) (
              rw (release_by_state_lem s.state s rt e (released_lem s rt.store e), sym i)
                (release_done-Active s rt)),
        ))
