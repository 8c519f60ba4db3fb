-- ===== src/Runtime/Rights.antt =====
-- What the success of an action on a session says of its tokens.
use oc_computer_use.Prelude.{◌≡◌, refl, Option, none, some, lookup, nat_eq}
use oc_computer_use.Errors.{Text, CuError, Result, ok, err}
use oc_computer_use.Platform.{Platform}
use oc_computer_use.Session.{Session, verify_control_token, verify_read_tokens}
use oc_computer_use.Runtime.{Runtime, Outcome, SessionResult, get_session, authorized, report}
use oc_computer_use.Runtime.Cases.{get_session_ok, authorized_cases, verify_mutating_lem}
use oc_computer_use.Runtime.Control.{
  session_pause, session_resume, session_takeover, session_release, pause_session, resume_by_state,
  take_over, release_by_state,
}
use oc_computer_use.Runtime.Stop.{session_stop, session_status, stop_session}
use oc_computer_use.Runtime.Start.{StartInput}
use oc_computer_use.Runtime.Dispatch.{SessionAction, session, act_on, without_id}

module _ (P : Platform) where
  -- A live session of this id takes one of the tokens for reading, or the token for control.
  abbrev pub CanRead : Text → Option Text → Option Text → Runtime P → Type 0
  CanRead id observation control rt =
      (s : Session P) × (lookup id rt.sessions ≡ some s)
      × (verify_read_tokens P s observation control ≡ ok tt)

  abbrev pub CanControl : Text → Option Text → Runtime P → Type 0
  CanControl id control rt =
      (s : Session P) × (lookup id rt.sessions ≡ some s)
      × (verify_control_token P s control ≡ ok tt)

  -- What an action needs: a start nothing; the status a token for reading, of the session that is named
  -- or, where none is, of the holder of the control lock; any other the token for control of the
  -- session that is named.
  pub MayAct : SessionAction → Option Text → Option Text → Option Text → Runtime P → Type 0
  MayAct SessionAction.start id control observation rt = Unit
  MayAct SessionAction.status (some id) control observation rt = CanRead id observation control rt
  MayAct SessionAction.status none control observation rt =
      (id : Text) × (rt.control_lock ≡ some id) × CanRead id observation control rt
  MayAct _ none control observation rt = ⊥
  MayAct _ (some id) control observation rt = CanControl id control rt

  pub authorized-CanControl :
      {A : Type 0} (id : Text) (token : Option Text) (rt : Runtime P)
      (next : Session P → Outcome P A) {a : A}
      → (authorized P id token rt next).0 ≡ ok a
      → CanControl id token rt
  authorized-CanControl id token rt next {a} =
      authorized_cases P (λ out. out.0 ≡ ok a → CanControl id token rt) id token rt next
        (λ e h. absurd (cc)) (λ s found v h. (s, found, (verify_mutating_lem P s token v).0))

  stop-CanControl :
      (id : Text) (token : Option Text) (rt : Runtime P) {r : SessionResult P}
      → (session_stop P id token rt).0 ≡ ok r
      → CanControl id token rt
  unfolding session_stop
  stop-CanControl id token rt {r} h = go (get_session P id rt) refl h
    where
      checked :
          (s : Session P) (v : Result (Unit {0}))
          → verify_control_token P s token ≡ v
          → get_session P id rt ≡ ok s
          → (elim v as (λ _. Outcome P (SessionResult P)) [
            | err e ↦ (err e, rt)
            | ok _ ↦ stop_session P s rt
          ]).0
            ≡ ok r
          → CanControl id token rt
      checked s (err e) v g h = absurd (cc)
      checked s (ok _) v g h = (s, get_session_ok P id rt s g, v)

      go :
          (g : Result (Session P))
          → get_session P id rt ≡ g
          → (elim g as (λ _. Outcome P (SessionResult P)) [
            | err e ↦ (err e, rt)
            | ok s ↦ elim (verify_control_token P s token) [
              | err e ↦ (err e, rt)
              | ok _ ↦ stop_session P s rt
            ]
          ]).0
            ≡ ok r
          → CanControl id token rt
      go (err e) g h = absurd (cc)
      go (ok s) g h = checked s (verify_control_token P s token) refl g h

  status-CanRead :
      (id : Text) (o c : Option Text) (rt : Runtime P) {r : SessionResult P}
      → (session_status P id o c rt).0 ≡ ok r
      → CanRead id o c rt
  unfolding session_status
  status-CanRead id o c rt {r} h = go (get_session P id rt) refl h
    where
      checked :
          (s : Session P) (v : Result (Unit {0}))
          → verify_read_tokens P s o c ≡ v
          → get_session P id rt ≡ ok s
          → (elim v as (λ _. Outcome P (SessionResult P)) [
            | err e ↦ (err e, rt)
            | ok _ ↦ report P s rt
          ]).0
            ≡ ok r
          → CanRead id o c rt
      checked s (err e) v g h = absurd (cc)
      checked s (ok _) v g h = (s, get_session_ok P id rt s g, v)

      go :
          (g : Result (Session P))
          → get_session P id rt ≡ g
          → (elim g as (λ _. Outcome P (SessionResult P)) [
            | err e ↦ (err e, rt)
            | ok s ↦ elim (verify_read_tokens P s o c) [
              | err e ↦ (err e, rt)
              | ok _ ↦ report P s rt
            ]
          ]).0
            ≡ ok r
          → CanRead id o c rt
      go (err e) g h = absurd (cc)
      go (ok s) g h = checked s (verify_read_tokens P s o c) refl g h

  holder-CanRead :
      (o c : Option Text) (rt : Runtime P) (lock : Option Text) {r : SessionResult P}
      → rt.control_lock ≡ lock
      → (elim lock as (λ _. Outcome P (SessionResult P)) [
        | none ↦ (err CuError.session_not_found, rt)
        | some holder ↦ session_status P holder o c rt
      ]).0
        ≡ ok r
      → (id : Text) × (rt.control_lock ≡ some id) × CanRead id o c rt
  holder-CanRead o c rt none e h = absurd (cc)
  holder-CanRead o c rt (some id) e h = (id, e, status-CanRead id o c rt h)

  pub session-MayAct :
      (a : SessionAction) (id control observation : Option Text) (i : StartInput P) (rt : Runtime P)
      {r : SessionResult P}
      → (session P a id control observation i rt).0 ≡ ok r
      → MayAct a id control observation rt
  unfolding session act_on without_id session_pause session_resume session_takeover session_release
      MayAct
  session-MayAct SessionAction.start id c o i rt h = tt
  session-MayAct SessionAction.status none c o i rt h = holder-CanRead o c rt rt.control_lock refl h
  session-MayAct SessionAction.status (some id) c o i rt h = status-CanRead id o c rt h
  session-MayAct SessionAction.pause none c o i rt h = absurd (cc)
  session-MayAct SessionAction.resume none c o i rt h = absurd (cc)
  session-MayAct SessionAction.stop none c o i rt h = absurd (cc)
  session-MayAct SessionAction.takeover none c o i rt h = absurd (cc)
  session-MayAct SessionAction.release none c o i rt h = absurd (cc)
  session-MayAct SessionAction.pause (some id) c o i rt h =
      authorized-CanControl id c rt (λ s. pause_session P s rt) h
  session-MayAct SessionAction.resume (some id) c o i rt h =
      authorized-CanControl id c rt (λ s. resume_by_state P s.state s rt) h
  session-MayAct SessionAction.stop (some id) c o i rt h = stop-CanControl id c rt h
  session-MayAct SessionAction.takeover (some id) c o i rt h =
      authorized-CanControl id c rt (λ s. take_over P s rt) h
  session-MayAct SessionAction.release (some id) c o i rt h =
      authorized-CanControl id c rt (λ s. release_by_state P s.state s rt) h

  -- A live session is found by its id.
  pub found_session :
      (id : Text) (rt : Runtime P) (s : Session P)
      → get_session P id rt ≡ ok s
      → lookup id rt.sessions ≡ some s
  found_session id rt s h = get_session_ok P id rt s h
