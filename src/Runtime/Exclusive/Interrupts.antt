-- ===== src/Runtime/Exclusive/Interrupts.antt =====
-- Cancellations and the hook for the human keep the lock exclusive.
use oc_computer_use.Runtime.Cancel.{take_from}
use oc_computer_use.Prelude.{◌≡◌, refl, inl, inr, Option, some, List, nat_eq, lookup, Option-cases}
use oc_computer_use.Errors.{Text, ok}
use oc_computer_use.Platform.{Platform}
use oc_computer_use.Requests.{RequestKey, cancel}
use oc_computer_use.Session.{Session, SessionState, transition, cancel_in_flight}
use oc_computer_use.Runtime.{
  trace_event, cancel_session_event, cancel_request_event, Runtime, emit_if_traced,
}
use oc_computer_use.Runtime.Cancel.{cancel_session, cancel_request, takeover_hook}
use oc_computer_use.Runtime.Cases.{authorized_cases, Result-cases}
use oc_computer_use.Runtime.Exclusive.{
  IsExclusive, transition_id, transition_from_live, replace-Excl,
}
use oc_computer_use.Runtime.Exclusive.Steps.{Keeps, traced}

module _ (P : Platform) where
  pub cancel_session-IsExclusive :
      (id : Text) (token : Option Text) (rt : Runtime P)
      → IsExclusive P rt
      → Keeps P (cancel_session P id token rt)
  unfolding cancel_session
  cancel_session-IsExclusive id token rt x =
      authorized_cases P (Keeps P) id token rt
        (λ s.
          (let rt' = emit_if_traced P s (trace_event s.id cancel_session_event) rt in
            (ok tt, record rt' { store = cancel_in_flight P s rt.store })))
        (λ _. x)
        λ s e v.
          (let y = traced P s (trace_event s.id cancel_session_event) rt x in
            record { ids = y.ids; live = y.live })

  pub cancel_request-IsExclusive :
      (first : List RequestKey → Option RequestKey) (key : RequestKey) (id : Text)
      (token : Option Text) (rt : Runtime P)
      → IsExclusive P rt
      → Keeps P (cancel_request P first key id token rt)
  unfolding cancel_request
  cancel_request-IsExclusive first key id token rt x =
      authorized_cases P (Keeps P) id token rt
        (λ s.
          (let rt' = emit_if_traced P s (trace_event s.id cancel_request_event) rt in
            let (r, requests, st) = cancel P first key id rt.requests rt.store in
            (r, record rt' { requests = requests; store = st })))
        (λ _. x)
        λ s e v.
          (let y = traced P s (trace_event s.id cancel_request_event) rt x in
            record { ids = y.ids; live = y.live })

  interrupt-IsExclusive :
      (id : Text) (s : Session P) (rt : Runtime P)
      → lookup id rt.sessions ≡ some s
      → IsExclusive P rt
      → IsExclusive P (take_from P s rt)
  interrupt-IsExclusive id s rt e x =
      elim (Result-cases (transition P s SessionState.user_takeover rt.store)) [
        | inr (_, h) ↦ rw (h, take_from) x
        | inl (r, h) ↦
            rw (h, take_from)
              (replace-Excl P rt id s r.0 e
                (transition_from_live P s SessionState.user_takeover rt.store r.0 r.1 refl h)
                (transition_id P s SessionState.user_takeover rt.store r.0 r.1 h) x)
      ]

  pub takeover_hook-IsExclusive :
      (rt : Runtime P) → IsExclusive P rt → IsExclusive P (takeover_hook P rt)
  unfolding takeover_hook
  takeover_hook-IsExclusive rt x = elim (Option-cases rt.control_lock) [
    | inl h ↦ rw (h, takeover_hook) x
    | inr (sid, h) ↦ elim (Option-cases (lookup sid rt.sessions)) [
      | inl q ↦ rw (h, q, takeover_hook) x
      | inr (s, q) ↦
          rw (h, q, takeover_hook)
            (interrupt-IsExclusive sid s (record rt { store = cancel_in_flight P s rt.store }) q
              (record { ids = x.ids; live = x.live }))
    ]
  ]
