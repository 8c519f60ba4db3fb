-- ===== src/Runtime/Exclusive/Reach.antt =====
-- All the steps of the runtime together, and what holds of every runtime they lead to.
use oc_computer_use.Prelude.{
  ◌≡◌, refl, inl, inr, ◌≢◌, Option, none, some, List, [], ◌∷◌, arith, nat_eq, lookup, Option-cases,
}
use oc_computer_use.Errors.{Text}
use oc_computer_use.Platform.{Platform}
use oc_computer_use.Requests.{RequestKey}
use oc_computer_use.Session.{Session, SessionState}
use oc_computer_use.Runtime.{Runtime}
use oc_computer_use.Runtime.Stop.{stop_begin, finish_stop, shutdown}
use oc_computer_use.Runtime.Cancel.{cancel_session, cancel_request, takeover_hook}
use oc_computer_use.Runtime.Start.{StartInput}
use oc_computer_use.Runtime.Dispatch.{SessionAction, session, act_on, without_id}
use oc_computer_use.Runtime.Exclusive.{IsExclusive}
use oc_computer_use.Runtime.Exclusive.Steps.{
  Keeps, session_pause-IsExclusive, session_resume-IsExclusive, session_takeover-IsExclusive,
  session_release-IsExclusive, stop_begin-IsExclusive, finish_stop-IsExclusive,
}
use oc_computer_use.Runtime.Exclusive.Stopping.{
  session_stop-IsExclusive, session_status-IsExclusive, shutdown-IsExclusive,
}
use oc_computer_use.Runtime.Exclusive.Interrupts.{
  cancel_session-IsExclusive, cancel_request-IsExclusive, takeover_hook-IsExclusive,
}
use oc_computer_use.Runtime.Exclusive.Starting.{session_start-IsExclusive}

module _ (P : Platform) where
  act_on-IsExclusive :
      (a : SessionAction) (id : Text) (control observation : Option Text) (i : StartInput P)
      (rt : Runtime P)
      → IsExclusive P rt
      → Keeps P (act_on P a id control observation i rt)
  unfolding act_on
  act_on-IsExclusive SessionAction.start id c o i rt x = session_start-IsExclusive P i rt x
  act_on-IsExclusive SessionAction.status id c o i rt x = session_status-IsExclusive P id o c rt x
  act_on-IsExclusive SessionAction.pause id c o i rt x = session_pause-IsExclusive P id c rt x
  act_on-IsExclusive SessionAction.resume id c o i rt x = session_resume-IsExclusive P id c rt x
  act_on-IsExclusive SessionAction.stop id c o i rt x = session_stop-IsExclusive P id c rt x
  act_on-IsExclusive SessionAction.takeover id c o i rt x = session_takeover-IsExclusive P id c rt x
  act_on-IsExclusive SessionAction.release id c o i rt x = session_release-IsExclusive P id c rt x

  without_id-IsExclusive :
      (a : SessionAction) (control observation : Option Text) (i : StartInput P) (rt : Runtime P)
      → IsExclusive P rt
      → Keeps P (without_id P a control observation i rt)
  unfolding without_id
  without_id-IsExclusive SessionAction.start c o i rt x = session_start-IsExclusive P i rt x
  without_id-IsExclusive SessionAction.status c o i rt x = elim (Option-cases rt.control_lock) [
    | inl h ↦ rw (h, without_id) x
    | inr (holder, h) ↦ rw (h, without_id) (session_status-IsExclusive P holder o c rt x)
  ]
  without_id-IsExclusive _ c o i rt x = x

  session-IsExclusive :
      (a : SessionAction) (id control observation : Option Text) (i : StartInput P) (rt : Runtime P)
      → IsExclusive P rt
      → Keeps P (session P a id control observation i rt)
  unfolding session
  session-IsExclusive a none c o i rt x = without_id-IsExclusive a c o i rt x
  session-IsExclusive a (some id) c o i rt x = act_on-IsExclusive a id c o i rt x

  -- The steps of the runtime. A stop is also two steps, between which others run.
  pub data Step (rt : Runtime P) : Runtime P → Type 0 where
    acted :
        (a : SessionAction) (id control observation : Option Text) (i : StartInput P)
        → Step rt (session P a id control observation i rt).1
    session_cancelled : (id : Text) (token : Option Text) → Step rt (cancel_session P id token rt).1
    request_cancelled :
        (first : List RequestKey → Option RequestKey) (key : RequestKey) (id : Text)
        (token : Option Text)
        → Step rt (cancel_request P first key id token rt).1
    human_acted : Step rt (takeover_hook P rt)
    stop_began :
        (id : Text) (s : Session P)
        → lookup id rt.sessions ≡ some s
        → s.state ≢ SessionState.stopped
        → Step rt (stop_begin P s rt).1
    stop_finished : (s : Session P) → Step rt (finish_stop P s rt).1
    shut_down : (ids : List Text) → Step rt (shutdown P ids rt)

  pub data Runs (rt : Runtime P) : Runtime P → Type 0 where
    idle : Runs rt rt
    then : {u v : Runtime P} → Runs rt u → Step u v → Runs rt v

  -- Each step keeps the invariant: every session stands under its own id, and is stopped or holds
  -- the control lock.
  pub Step-IsExclusive : {rt rt' : Runtime P} → IsExclusive P rt → Step rt rt' → IsExclusive P rt'
  Step-IsExclusive {rt = rt} x (acted a id c o i) = session-IsExclusive a id c o i rt x
  Step-IsExclusive {rt = rt} x (session_cancelled id t) = cancel_session-IsExclusive P id t rt x
  Step-IsExclusive {rt = rt} x (request_cancelled f key id t) =
      cancel_request-IsExclusive P f key id t rt x
  Step-IsExclusive {rt = rt} x human_acted = takeover_hook-IsExclusive P rt x
  Step-IsExclusive {rt = rt} x (stop_began id s e n) = stop_begin-IsExclusive P id s rt e n x
  Step-IsExclusive {rt = rt} x (stop_finished s) = finish_stop-IsExclusive P s rt x
  Step-IsExclusive {rt = rt} x (shut_down ids) = shutdown-IsExclusive P ids rt x

  Runs-IsExclusive : {rt rt' : Runtime P} → IsExclusive P rt → Runs rt rt' → IsExclusive P rt'
  Runs-IsExclusive x idle = x
  Runs-IsExclusive x (then r s) = Step-IsExclusive (Runs-IsExclusive x r) s

  lookup-none : (id : Text) (m : List (Text × Session P)) → m ≡ [] → lookup id m ≡ none
  unfolding lookup
  lookup-none id [] h = refl
  lookup-none id (p ∷ m) h = ground arith

  none_started : (rt : Runtime P) → rt.sessions ≡ [] → IsExclusive P rt
  none_started rt h = record {
    ids = λ id s e. ground (arith, lookup-none id rt.sessions h);
    live = λ id s e. ground (arith, lookup-none id rt.sessions h);
  }

  -- From a runtime that has no session yet, whatever steps it takes, two sessions that are not
  -- stopped are the same session: the machine has one controller at most.
  pub one_controller :
      {rt rt' : Runtime P} (id id' : Text) {s s' : Session P}
      → rt.sessions ≡ []
      → Runs rt rt'
      → lookup id rt'.sessions ≡ some s
      → lookup id' rt'.sessions ≡ some s'
      → s.state ≢ SessionState.stopped
      → s'.state ≢ SessionState.stopped
      → id ≡ id'
  one_controller {rt = rt} id id' {s = s} {s' = s'} h runs e e' n n' =
      (let x = Runs-IsExclusive (none_started rt h) runs in
        elim (x.live id s e) [
          | inl q ↦ absurd (n q)
          | inr q ↦ elim (x.live id' s' e') [ inl q' ↦ absurd (n' q') | inr q' ↦ ground arith ]
        ])
