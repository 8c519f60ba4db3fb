-- ===== src/Examples/Controls.antt =====
-- The theorems about the runtime, at concrete inputs.
use oc_computer_use.Runtime.Start.{session_start}
use oc_computer_use.Prelude.{
  none, some, true, [], ◌∷◌, ◌≡◌, ◌≢◌, refl, arith, ap, sym, ◌∙◌, nat_eq, lookup, insert, contains,
  inr,
}
use oc_computer_use.Errors.{Text, CuError, ok, err}
use oc_computer_use.Platform.Sample.{sample}
use oc_computer_use.Session.{
  Session, SessionState, PointerMode, verify_control_token, verify_read_tokens, verify,
}
use oc_computer_use.Runtime.{Runtime, SessionResult, session_result}
use oc_computer_use.Runtime.Stop.{session_status, shutdown}
use oc_computer_use.Runtime.Control.{session_resume, session_release}
use oc_computer_use.Runtime.Cancel.{takeover_hook}
use oc_computer_use.Runtime.Dispatch.{SessionAction, session, act_on}
use oc_computer_use.Runtime.Exclusive.{IsExclusive}
use oc_computer_use.Runtime.Exclusive.Reach.{
  idle, then, acted, human_acted, Step-IsExclusive, one_controller,
}
use oc_computer_use.Runtime.Capability.{act_on_refused, tokens_shown_once}
use oc_computer_use.Runtime.Lifecycle.{Active, takeover_needs_release}
use oc_computer_use.Runtime.Interruption.{Interrupted, takeover_hook_interrupts}
use oc_computer_use.Runtime.Shutdown.{IsDown, shutdown_stops}
use oc_computer_use.Examples.{
  client, session_of, busy_session, idle_runtime, runtime_of, start_input,
}

active_not_stopped : SessionState.active ≢ SessionState.stopped
active_not_stopped = λ e. ground arith

-- The only entry of the map of the sample runtimes.
entry_lem :
    (st : SessionState) (id : Text) (s : Session sample)
    → lookup id (runtime_of st).sessions ≡ some s
    → (id ≡ 7) × (s ≡ busy_session st)
unfolding lookup
entry_lem st id s e = ground arith

runtime_of-IsExclusive : (st : SessionState) → IsExclusive sample (runtime_of st)
runtime_of-IsExclusive st = record {
  ids = λ id s e. (let (p, q) = entry_lem st id s e in ap (λ u. u.id) q ∙ sym p);
  live = λ id s e. inr (ap some (sym (entry_lem st id s e).0));
}

found : (st : SessionState) → lookup 7 (runtime_of st).sessions ≡ some (busy_session st)
unfolding lookup
found st = refl

verified : (st : SessionState) → verify_control_token sample (busy_session st) (some 1) ≡ ok tt
unfolding verify_control_token verify
verified st = refl

refused :
    verify_control_token sample (busy_session SessionState.active) (some 2)
    ≡ err CuError.invalid_control_token
unfolding verify_control_token verify
refused = refl

takeover_needs_release_example :
    (session_resume sample 7 (some 1) (runtime_of SessionState.user_takeover)
      ≡ (err CuError.user_takeover_active, runtime_of SessionState.user_takeover))
    × Active sample 7 (session_release sample 7 (some 1) (runtime_of SessionState.user_takeover))
takeover_needs_release_example =
    takeover_needs_release sample 7 (some 1) (runtime_of SessionState.user_takeover)
      (found SessionState.user_takeover) refl (verified SessionState.user_takeover) refl

takeover_hook_interrupts_example :
    Interrupted sample 7
      (busy_session SessionState.active)
      (takeover_hook sample (runtime_of SessionState.active))
takeover_hook_interrupts_example =
    takeover_hook_interrupts sample 7 (runtime_of SessionState.active) refl
      (found SessionState.active) refl

shutdown_stops_example :
    IsDown sample 7 (shutdown sample (8 ∷ 7 ∷ []) (runtime_of SessionState.paused))
unfolding contains
shutdown_stops_example =
    shutdown_stops sample (8 ∷ 7 ∷ []) 7 (runtime_of SessionState.paused)
      (runtime_of-IsExclusive SessionState.paused) refl (found SessionState.paused)

act_on_refused_example :
    act_on sample SessionAction.takeover 7
      (some 2)
      none
      start_input
      (runtime_of SessionState.active)
    ≡ (err CuError.invalid_control_token, runtime_of SessionState.active)
act_on_refused_example =
    act_on_refused sample SessionAction.takeover 7 (some 2) none start_input
      (runtime_of SessionState.active) refl (found SessionState.active) refused

abbrev status : SessionResult sample
status = session_result sample (runtime_of SessionState.active) (busy_session SessionState.active)

status_shown :
    (session sample SessionAction.status
      (some 7)
      (some 1)
      none
      start_input
      (runtime_of SessionState.active)).0
    ≡ ok status
unfolding session session_status verify_read_tokens verify lookup session_result
status_shown = refl

tokens_shown_once_example : (status.control_token ≡ none) × (status.observation_token ≡ none)
tokens_shown_once_example =
    tokens_shown_once sample SessionAction.status (some 7) (some 1) none start_input
      (runtime_of SessionState.active) status (λ e. ground arith) status_shown

Step-IsExclusive_example :
    IsExclusive sample (takeover_hook sample (runtime_of SessionState.active))
Step-IsExclusive_example =
    Step-IsExclusive sample (runtime_of-IsExclusive SessionState.active) human_acted

abbrev started : Runtime sample
started = (session sample SessionAction.start none none none start_input idle_runtime).1

abbrev started_session : Session sample
started_session = record (session_of SessionState.active) {
  owner = some client;
  virtual_pointer = record {
    x = 10;
    y = 20;
    display_id = 0;
    visible = true;
    mode = PointerMode.isolated;
  };
}

started_found : lookup 7 started.sessions ≡ some started_session
unfolding session session_start lookup insert
started_found = refl

one_controller_example : ◌≡◌ {A = Text} 7 7
one_controller_example =
    one_controller sample {rt = idle_runtime} 7 7 refl
      (then idle (acted SessionAction.start none none none start_input)) started_found started_found
      active_not_stopped active_not_stopped
