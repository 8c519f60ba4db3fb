-- ===== src/Daemon/Successes.antt =====
-- What stands before every success on a session.
use oc_computer_use.Prelude.{ℕ, ◌≡◌, Option, none, some, true, List}
use oc_computer_use.Errors.{Text, ok}
use oc_computer_use.Platform.{Platform}
use oc_computer_use.Session.{verify_read_tokens, verify_control_token}
use oc_computer_use.Requests.{RequestKey}
use oc_computer_use.Exec.{answer, ◌>>=◌}
use oc_computer_use.Exec.Rules.{Success, Success-then, answer-Success, fail-Success}
use oc_computer_use.Act.{RuntimeConfig, Machine, Desk, ActParams, ObserveParams}
use oc_computer_use.Act.Observe.{observe_session}
use oc_computer_use.Act.Batch.{act_session, desk_for}
use oc_computer_use.Runtime.Dispatch.{session}
use oc_computer_use.Runtime.Cancel.{cancel_request, cancel_session}
use oc_computer_use.Runtime.Rights.{CanControl, authorized-CanControl, session-MayAct}
use oc_computer_use.Inspect.{Codec, InspectParams, inspect_session}
use oc_computer_use.Daemon.{CancelParams, Call, RpcResult, Services, Host, Serve}
use oc_computer_use.Daemon.Gates.{on_runtime, on_session}
use oc_computer_use.Daemon.Route.{
  key_of, start_options, session_call, observe_at, cancel_with, cancel_call, route,
}
use oc_computer_use.Daemon.Told.{first_check, on_runtime-Success, on_session-Success}
use oc_computer_use.Daemon.Rights.{IsObserver, Permitted, is_on_session}

module _ (P : Platform) (config : RuntimeConfig P) (M : Machine P) (codec : Codec) (V : Services P)
    (admin_hash : List ℕ) (first : List RequestKey → Option RequestKey) where
  observe_session-Reads :
      (p : ObserveParams P) (d : Desk P)
      → Success
          (λ _ _. verify_read_tokens P d.world.session p.observation_token p.control_token ≡ ok tt)
          (observe_session P config M p d)
  unfolding observe_session
  observe_session-Reads p d = first_check _ _ d

  inspect_session-Reads :
      (p : InspectParams P) (d : Desk P)
      → Success
          (λ _ _. verify_read_tokens P d.world.session p.observation_token p.control_token ≡ ok tt)
          (inspect_session P M codec p d)
  unfolding inspect_session
  inspect_session-Reads p d = first_check _ _ d

  act_session-Controls :
      (p : ActParams P) (key : Option RequestKey) (d : Desk P)
      → Success
          (λ _ _. verify_control_token P d.world.session p.control_token ≡ ok tt)
          (act_session P config M p key d)
  unfolding act_session
  act_session-Controls p key d = first_check _ _ d

  cancel_with-Controls :
      (c : ℕ) (p : CancelParams) (id : Option Text) (h : Host P)
      → Success
          (λ _ _. CanControl P p.session_id p.control_token h.runtime)
          (cancel_with P config M codec V admin_hash first c p id h)
  unfolding cancel_request cancel_session
  cancel_with-Controls c p none h =
      Success-then _ (λ _ _. CanControl P p.session_id p.control_token h.runtime) _ _ h
        (on_runtime-Success P (cancel_session P p.session_id p.control_token) h
          λ _ e. authorized-CanControl P p.session_id p.control_token h.runtime _ e)
        λ _ s q. answer-Success _ _ s q
  cancel_with-Controls c p (some rid) h =
      on_runtime-Success P
        (cancel_request P first (record { connection_id = c; request_id = rid }) p.session_id
          p.control_token)
        h λ _ e. authorized-CanControl P p.session_id p.control_token h.runtime _ e

  -- A success that is passed on says what the part says.
  passed :
      {A : Type 0} (Q : Type 0) (m : Serve P A) (f : A → RpcResult P) (h : Host P)
      → Success (λ _ _. Q) (m h)
      → Success (λ _ _. Q) ((m >>= λ a. answer (f a)) h)
  passed Q m f h q = Success-then _ (λ _ _. Q) m _ h q λ _ s k. answer-Success _ _ s k

  observe_at-Reads :
      (p : ObserveParams P) (id : Option Text) (h : Host P)
      → Success
          (λ _ _.
            IsObserver P config M codec V admin_hash first id p.observation_token p.control_token h)
          (observe_at P config M codec V admin_hash first p id h)
  observe_at-Reads p none h = fail-Success _ _ h
  observe_at-Reads p (some id) h =
      passed _ (on_session P config M id (observe_session P config M p)) RpcResult.observed h (
        on_session-Success P config M _ id (observe_session P config M p) h
          λ s. observe_session-Reads p (desk_for P config M s h.human h.now h.runtime))

  pub route-Success :
      (c : ℕ) (id : Option Text) (call : Call P) (h : Host P)
      → is_on_session P config M codec V admin_hash first call ≡ true
      → Success
          (λ _ _. Permitted P config M codec V admin_hash first call h)
          (route P config M codec V admin_hash first c id call h)
  unfolding route Permitted session_call cancel_call is_on_session
  route-Success c id (Call.computer_session (some p)) h on =
      passed _
        (on_runtime P (
          session P p.action p.session_id p.control_token p.observation_token
            (start_options P config M codec V admin_hash first p)))
        RpcResult.session_answer h
        (on_runtime-Success P _ h λ _ e.
          session-MayAct P p.action p.session_id p.control_token p.observation_token _ h.runtime e)
  route-Success c id (Call.computer_observe (some p)) h on = observe_at-Reads p p.session_id h
  route-Success c id (Call.computer_inspect (some p)) h on =
      passed _ (on_session P config M p.session_id (inspect_session P M codec p))
        RpcResult.inspected h
        (on_session-Success P config M _ p.session_id (inspect_session P M codec p) h
          λ s. inspect_session-Reads p (desk_for P config M s h.human h.now h.runtime))
  route-Success c id (Call.computer_act (some p)) h on =
      passed _ (on_session P config M p.session_id (act_session P config M p (key_of c id)))
        RpcResult.acted h
        (on_session-Success P config M _ p.session_id (act_session P config M p (key_of c id)) h
          λ s. act_session-Controls p (key_of c id) (desk_for P config M s h.human h.now h.runtime))
  route-Success c id (Call.computer_cancel (some p)) h on =
      passed _ (cancel_with P config M codec V admin_hash first c p p.request_id)
        (λ done. RpcResult.cancelled done p.session_id) h (cancel_with-Controls c p p.request_id h)
  route-Success c id (Call.computer_session none) h on = fail-Success _ _ h
  route-Success c id (Call.computer_observe none) h on = fail-Success _ _ h
  route-Success c id (Call.computer_inspect none) h on = fail-Success _ _ h
  route-Success c id (Call.computer_act none) h on = fail-Success _ _ h
  route-Success c id (Call.computer_cancel none) h on = fail-Success _ _ h
  route-Success c id Call.runtime_health h on = absurd (cc)
  route-Success c id (Call.runtime_version _) h on = absurd (cc)
  route-Success c id Call.runtime_permissions h on = absurd (cc)
  route-Success c id Call.runtime_displays h on = absurd (cc)
  route-Success c id (Call.runtime_desktop_layout _) h on = absurd (cc)
  route-Success c id (Call.runtime_pointer _) h on = absurd (cc)
  route-Success c id (Call.runtime_active_application _) h on = absurd (cc)
  route-Success c id (Call.runtime_shutdown _) h on = absurd (cc)
  route-Success c id Call.session_summary h on = absurd (cc)
  route-Success c id (Call.trace_list _) h on = absurd (cc)
  route-Success c id (Call.trace_admin_list _) h on = absurd (cc)
  route-Success c id (Call.trace_get _) h on = absurd (cc)
  route-Success c id (Call.trace_export _) h on = absurd (cc)
  route-Success c id (Call.trace_replay _) h on = absurd (cc)
  route-Success c id (Call.trace_summaries _) h on = absurd (cc)
  route-Success c id Call.other h on = absurd (cc)
