-- ===== src/Runtime/Exclusive/Stopping.antt =====
-- Stops, a shutdown and a look at a session keep the lock exclusive.
use oc_computer_use.Prelude.{
  ◌≡◌, refl, inl, inr, Option, some, true, List, [], ◌∷◌, arith, nat_eq, lookup, Option-cases,
}
use oc_computer_use.Errors.{Text, Result, ok, err}
use oc_computer_use.Platform.{Platform}
use oc_computer_use.Session.{Session, SessionState, verify_control_token, verify_read_tokens}
use oc_computer_use.Runtime.{Runtime, get_session}
use oc_computer_use.Runtime.Stop.{
  stop_begin, finish_begun, stop_session, stop_by_state, session_stop, session_status, stop_all,
  shutdown,
}
use oc_computer_use.Runtime.Cases.{Result-cases, get_session_ok}
use oc_computer_use.Runtime.Exclusive.{IsExclusive}
use oc_computer_use.Runtime.Exclusive.Steps.{Keeps, stop_begin-IsExclusive, finish_stop-IsExclusive}

module _ (P : Platform) where
  finish_begun-IsExclusive :
      (out : Result (Session P) × Runtime P) → IsExclusive P out.1 → Keeps P (finish_begun P out)
  finish_begun-IsExclusive (err e, rt) x = x
  finish_begun-IsExclusive (ok s, rt) x = finish_stop-IsExclusive P s rt x

  pub stop_by_state-IsExclusive :
      (st : SessionState) (id : Text) (s : Session P) (rt : Runtime P)
      → lookup id rt.sessions ≡ some s
      → s.state ≡ st
      → IsExclusive P rt
      → Keeps P (stop_by_state P st s rt)
  unfolding stop_by_state
  stop_by_state-IsExclusive SessionState.stopped id s rt e h x = x
  stop_by_state-IsExclusive SessionState.stopping id s rt e h x = finish_stop-IsExclusive P s rt x
  stop_by_state-IsExclusive _ id s rt e h x =
      finish_begun-IsExclusive (stop_begin P s rt)
        (stop_begin-IsExclusive P id s rt e (λ q. ground arith) x)

  pub stop_session-IsExclusive :
      (id : Text) (s : Session P) (rt : Runtime P)
      → lookup id rt.sessions ≡ some s
      → IsExclusive P rt
      → Keeps P (stop_session P s rt)
  unfolding stop_session
  stop_session-IsExclusive id s rt h x = stop_by_state-IsExclusive s.state id s rt h refl x

  pub session_stop-IsExclusive :
      (id : Text) (token : Option Text) (rt : Runtime P)
      → IsExclusive P rt
      → Keeps P (session_stop P id token rt)
  unfolding session_stop stop_session
  session_stop-IsExclusive id token rt x = elim (Result-cases (get_session P id rt)) [
    | inr (e, h) ↦ rw (h, session_stop) x
    | inl (s, h) ↦ elim (Result-cases (verify_control_token P s token)) [
      | inr (e, v) ↦ rw (h, v, session_stop) x
      | inl (u, v) ↦
          rw (h, v, session_stop)
            (stop_by_state-IsExclusive s.state id s rt (get_session_ok P id rt s h) refl x)
    ]
  ]

  pub session_status-IsExclusive :
      (id : Text) (observation control : Option Text) (rt : Runtime P)
      → IsExclusive P rt
      → Keeps P (session_status P id observation control rt)
  unfolding session_status
  session_status-IsExclusive id o c rt x = elim (Result-cases (get_session P id rt)) [
    | inr (e, h) ↦ rw (h, session_status) x
    | inl (s, h) ↦ elim (Result-cases (verify_read_tokens P s o c)) [
      | inr (e, v) ↦ rw (h, v, session_status) x
      | inl (u, v) ↦ rw (h, v, session_status) x
    ]
  ]

  stop_all-IsExclusive :
      (ids : List Text) (rt : Runtime P) → IsExclusive P rt → IsExclusive P (stop_all P ids rt)
  unfolding stop_all stop_session
  stop_all-IsExclusive [] rt x = x
  stop_all-IsExclusive (id ∷ ids) rt x = elim (Option-cases (lookup id rt.sessions)) [
    | inl h ↦ rw (h, stop_all) (stop_all-IsExclusive ids rt x)
    | inr (s, h) ↦
        rw (h, stop_all)
          (stop_all-IsExclusive ids (stop_session P s rt).1
            (stop_by_state-IsExclusive s.state id s rt h refl x))
  ]

  pub shutdown-IsExclusive :
      (ids : List Text) (rt : Runtime P) → IsExclusive P rt → IsExclusive P (shutdown P ids rt)
  unfolding shutdown
  shutdown-IsExclusive ids rt x =
      (let y =
          stop_all-IsExclusive ids (record rt { shutting_down = true })
            (record { ids = x.ids; live = x.live }) in
        record { ids = y.ids; live = y.live })
