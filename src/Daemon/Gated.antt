-- ===== src/Daemon/Gated.antt =====
-- What stands before every private look and before a stop.
use oc_computer_use.Prelude.{ℕ, ◌≡◌, ◌≢◌, refl, Option, none, some, Bool, List, arith}
use oc_computer_use.Errors.{Text, Result, ok}
use oc_computer_use.Platform.{Platform}
use oc_computer_use.Requests.{RequestKey}
use oc_computer_use.Exec.{answer}
use oc_computer_use.Exec.Rules.{Keeps}
use oc_computer_use.Act.{RuntimeConfig, Machine, ObserveParams}
use oc_computer_use.Inspect.{Codec}
use oc_computer_use.Daemon.{
  CapabilityTokenParams, TraceParams, TraceAdminListParams, CancelParams, SessionParams, Access,
  Call, RpcResult, Services, Host, Serve,
}
use oc_computer_use.Daemon.Tokens.{validate_session_id, verify_trace_access, verify_any_token}
use oc_computer_use.Daemon.Gates.{with_capability, admin_check, shut_down, with_trace, admin_list}
use oc_computer_use.Daemon.Route.{session_call, observe_at, cancel_with, cancel_call, route}
use oc_computer_use.Daemon.Known.{view, IsKnown, IsAt, verify_any-IsKnown, gated, view_rules}
use oc_computer_use.Daemon.Rights.{IsAdmin, IsReader, Permitted}
use oc_computer_use.Daemon.Names.{validate_session_id-IsTraceId}
use oc_computer_use.Daemon.Scoped.{verify_trace_access-IsScoped}

module _ (P : Platform) (config : RuntimeConfig P) (M : Machine P) (codec : Codec) (V : Services P)
    (admin_hash : List ℕ) (first : List RequestKey → Option RequestKey) where
  with_capability-IsKnown :
      (p : CapabilityTokenParams) (a : Access) (r : Result ℕ) (h : Host P)
      → view P (with_capability P p a r h).1 ≢ view P h
      → IsKnown P p h
  unfolding with_capability
  with_capability-IsKnown p a r h d =
      verify_any-IsKnown P p h
        (gated P (λ h. verify_any_token P p.observation_token p.control_token h.runtime) _ h d).1

  admin_check-IsAdmin :
      (token : Option Text)
      → admin_check P admin_hash token ≡ ok tt
      → IsAdmin P config M codec V admin_hash first token
  unfolding admin_check
  admin_check-IsAdmin none e = absurd (cc)
  admin_check-IsAdmin (some presented) e = ground arith

  with_trace-IsReader :
      (p : TraceParams) (rest : Serve P (RpcResult P)) (h : Host P)
      → view P (with_trace P V p rest h).1 ≢ view P h
      → IsReader P config M codec V admin_hash first p h
  unfolding with_trace
  with_trace-IsReader p rest h d =
      let (_, named, later) = gated P (λ _. validate_session_id (V.bytes p.session_id)) _ h d in
      (
        validate_session_id-IsTraceId _ named,
        verify_trace_access-IsScoped P _ p.session_id p.observation_token p.control_token h.runtime
            (gated P
              (λ h.
                verify_trace_access P (V.manifest p.session_id) p.session_id p.observation_token
                  p.control_token h.runtime)
              (λ _. rest) h later).1,
      )

  shut_down-IsAdmin :
      (token : Option Text) (h : Host P)
      → view P (shut_down P admin_hash token h).1 ≢ view P h
      → IsAdmin P config M codec V admin_hash first token
  unfolding shut_down
  shut_down-IsAdmin token h d =
      admin_check-IsAdmin token (gated P (λ _. admin_check P admin_hash token) _ h d).1

  admin_list-IsAdmin :
      (p : TraceAdminListParams) (h : Host P)
      → view P (admin_list P V admin_hash p h).1 ≢ view P h
      → IsAdmin P config M codec V admin_hash first p.admin_token
  unfolding admin_list
  admin_list-IsAdmin p h d =
      admin_check-IsAdmin p.admin_token
        (gated P (λ _. admin_check P admin_hash p.admin_token) _ h d).1

  module _ (v : List Access × Bool) where
    session_call-IsAt :
        (p : SessionParams) → Keeps (IsAt P v) (session_call P config M codec V admin_hash first p)
    unfolding session_call
    session_call-IsAt p = search view_rules depth 12

    observe_at-IsAt :
        (p : ObserveParams P) (id : Option Text)
        → Keeps (IsAt P v) (observe_at P config M codec V admin_hash first p id)
    observe_at-IsAt p none = search view_rules depth 12
    observe_at-IsAt p (some id) = search view_rules depth 12

    cancel_with-IsAt :
        (connection : ℕ) (p : CancelParams) (id : Option Text)
        → Keeps (IsAt P v) (cancel_with P config M codec V admin_hash first connection p id)
    cancel_with-IsAt connection p none = search view_rules depth 12
    cancel_with-IsAt connection p (some id) = search view_rules depth 12

    cancel_call-IsAt :
        (connection : ℕ) (p : CancelParams)
        → Keeps (IsAt P v) (cancel_call P config M codec V admin_hash first connection p)
    unfolding cancel_call
    cancel_call-IsAt connection p = search (view_rules, cancel_with-IsAt) depth 12

  unseen :
      {K : Type 0} (connection : ℕ) (id : Option Text) (call : Call P) (h : Host P)
      → Keeps (IsAt P (view P h)) (route P config M codec V admin_hash first connection id call)
      → view P (route P config M codec V admin_hash first connection id call h).1 ≢ view P h
      → K
  unseen connection id call h k d = absurd (d (k.at h refl))

  pub route-Permitted :
      (connection : ℕ) (id : Option Text) (call : Call P) (h : Host P)
      → view P (route P config M codec V admin_hash first connection id call h).1 ≢ view P h
      → Permitted P config M codec V admin_hash first call h
  unfolding route Permitted answer
  route-Permitted c id Call.runtime_health h d =
      unseen c id Call.runtime_health h (search view_rules) d
  route-Permitted c id (Call.runtime_version v) h d =
      unseen c id (Call.runtime_version v) h (search view_rules depth 12) d
  route-Permitted c id Call.runtime_permissions h d =
      unseen c id Call.runtime_permissions h (search view_rules depth 12) d
  route-Permitted c id Call.runtime_displays h d =
      unseen c id Call.runtime_displays h (search view_rules depth 12) d
  route-Permitted c id Call.session_summary h d =
      unseen c id Call.session_summary h (record { at = λ _ k. k }) d
  route-Permitted c id Call.other h d = unseen c id Call.other h (search view_rules) d
  route-Permitted c id (Call.runtime_desktop_layout (some p)) h d =
      with_capability-IsKnown p _ _ h d
  route-Permitted c id (Call.runtime_pointer (some p)) h d = with_capability-IsKnown p _ _ h d
  route-Permitted c id (Call.runtime_active_application (some p)) h d =
      with_capability-IsKnown p _ _ h d
  route-Permitted c id (Call.trace_get (some p)) h d = with_trace-IsReader p _ h d
  route-Permitted c id (Call.trace_export (some p)) h d = with_trace-IsReader p _ h d
  route-Permitted c id (Call.trace_replay (some p)) h d = with_trace-IsReader p _ h d
  route-Permitted c id (Call.trace_list (some p)) h d = with_trace-IsReader p _ h d
  route-Permitted c id (Call.trace_summaries (some p)) h d = with_trace-IsReader p _ h d
  route-Permitted c id (Call.runtime_shutdown (some token)) h d = shut_down-IsAdmin token h d
  route-Permitted c id (Call.trace_admin_list (some p)) h d = admin_list-IsAdmin p h d
  route-Permitted c id (Call.computer_session (some p)) h d =
      unseen c id (Call.computer_session (some p)) h (session_call-IsAt (view P h) p) d
  route-Permitted c id (Call.computer_observe (some p)) h d =
      unseen c id (Call.computer_observe (some p)) h (observe_at-IsAt (view P h) p p.session_id) d
  route-Permitted c id (Call.computer_inspect (some p)) h d =
      unseen c id (Call.computer_inspect (some p)) h (search view_rules depth 12) d
  route-Permitted c id (Call.computer_act (some p)) h d =
      unseen c id (Call.computer_act (some p)) h (search view_rules depth 12) d
  route-Permitted c id (Call.computer_cancel (some p)) h d =
      unseen c id (Call.computer_cancel (some p)) h (cancel_call-IsAt (view P h) c p) d
  route-Permitted c id (Call.runtime_desktop_layout none) h d =
      unseen c id (Call.runtime_desktop_layout none) h (search view_rules) d
  route-Permitted c id (Call.runtime_pointer none) h d =
      unseen c id (Call.runtime_pointer none) h (search view_rules) d
  route-Permitted c id (Call.runtime_active_application none) h d =
      unseen c id (Call.runtime_active_application none) h (search view_rules) d
  route-Permitted c id (Call.trace_get none) h d =
      unseen c id (Call.trace_get none) h (search view_rules) d
  route-Permitted c id (Call.trace_export none) h d =
      unseen c id (Call.trace_export none) h (search view_rules) d
  route-Permitted c id (Call.trace_replay none) h d =
      unseen c id (Call.trace_replay none) h (search view_rules) d
  route-Permitted c id (Call.trace_list none) h d =
      unseen c id (Call.trace_list none) h (search view_rules) d
  route-Permitted c id (Call.trace_summaries none) h d =
      unseen c id (Call.trace_summaries none) h (search view_rules) d
  route-Permitted c id (Call.runtime_shutdown none) h d =
      unseen c id (Call.runtime_shutdown none) h (search view_rules) d
  route-Permitted c id (Call.trace_admin_list none) h d =
      unseen c id (Call.trace_admin_list none) h (search view_rules) d
  route-Permitted c id (Call.computer_session none) h d =
      unseen c id (Call.computer_session none) h (search view_rules) d
  route-Permitted c id (Call.computer_observe none) h d =
      unseen c id (Call.computer_observe none) h (search view_rules) d
  route-Permitted c id (Call.computer_inspect none) h d =
      unseen c id (Call.computer_inspect none) h (search view_rules) d
  route-Permitted c id (Call.computer_act none) h d =
      unseen c id (Call.computer_act none) h (search view_rules) d
  route-Permitted c id (Call.computer_cancel none) h d =
      unseen c id (Call.computer_cancel none) h (search view_rules) d
