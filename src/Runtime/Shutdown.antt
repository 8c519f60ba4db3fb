-- ===== src/Runtime/Shutdown.antt =====
-- A shutdown stops every session.
use oc_computer_use.Prelude.{◌⊎◌, ◌≢◌}
use oc_computer_use.Prelude.{
  ◌≡◌, ◌∙◌, ap, refl, inl, inr, some, true, false, List, [], ◌∷◌, arith, ◌==◌, ==_iff, nat_eq,
  lookup, lookup-insert_other, Bool-cases, Option-cases, contains,
}
use oc_computer_use.Errors.{Text}
use oc_computer_use.Platform.{Platform}
use oc_computer_use.Session.{Session, SessionState, cancel_in_flight, sync_pointer_mode}
use oc_computer_use.Runtime.{
  Runtime, put, emit, emit_if_traced, trace_event, trace_closed, stop_event, pointer_hidden,
}
use oc_computer_use.Runtime.Stop.{
  stop_session, stop_by_state, stop_begun, finish_begun, finish_stop, stopped_session, stop_all,
  shutdown,
}
use oc_computer_use.Runtime.Exclusive.{IsExclusive}
use oc_computer_use.Runtime.Exclusive.Stopping.{stop_session-IsExclusive}
use oc_computer_use.Runtime.Lifecycle.{
  emit_if_traced-sessions, halting, begun_lem, stop_by_state-Stopped,
}

module _ (P : Platform) where
  pub record IsDown (id : Text) (rt : Runtime P) : Type 0 where
    pub after : Session P
    pub found : lookup id rt.sessions ≡ some after
    pub stopped : after.state ≡ SessionState.stopped

  stop_session-IsDown :
      (t : SessionState) (s : Session P) (rt : Runtime P)
      → lookup s.id rt.sessions ≡ some s
      → s.state ≡ t
      → IsDown s.id (stop_by_state P t s rt).1
  unfolding stop_by_state
  stop_session-IsDown SessionState.stopped s rt h e = record { after = s; found = h; stopped = e }
  stop_session-IsDown t s rt h e =
      (let x = stop_by_state-Stopped P t s rt (λ q. ground arith) in
        record { after = x.after; found = x.found; stopped = x.stopped })

  finish_stop-others :
      (s : Session P) (rt : Runtime P) (j : Text)
      → (s.id == j) ≡ false
      → lookup j (finish_stop P s rt).1.sessions ≡ lookup j rt.sessions
  unfolding finish_stop
  finish_stop-others s rt j n = lookup-insert_other s.id j (stopped_session P s) rt.sessions n

  stop_begun-sessions :
      (u : Session P) (rt : Runtime P) → (stop_begun P u rt).1.sessions ≡ rt.sessions
  stop_begun-sessions u rt =
      (let rt' = emit P pointer_hidden rt in
        emit_if_traced-sessions P u (trace_closed u.id)
          (emit_if_traced P u (trace_event u.id stop_event) rt')
        ∙ emit_if_traced-sessions P u (trace_event u.id stop_event) rt')

  stop_session-others :
      (t : SessionState) (s : Session P) (rt : Runtime P) (j : Text)
      → (s.id == j) ≡ false
      → lookup j (stop_by_state P t s rt).1.sessions ≡ lookup j rt.sessions
  unfolding stop_by_state sync_pointer_mode
  stop_session-others SessionState.stopped s rt j n = refl
  stop_session-others SessionState.stopping s rt j n = finish_stop-others s rt j n
  stop_session-others _ s rt j n =
      (let u = halting P s in
        let rt' = put P u (record rt { store = cancel_in_flight P s rt.store }) in
        rw (begun_lem P s rt, finish_begun)
          (finish_stop-others u (stop_begun P u rt').1 j n
            ∙ ap (lookup j) (stop_begun-sessions u rt')
            ∙ lookup-insert_other u.id j u rt.sessions n))

  unequal : (a b : Text) → (a == b) ≡ false → a ≢ b
  unequal a b h = λ e. ground arith

  -- One turn of the loop: the session of its id is stopped, and a stopped one stays so.
  turn-IsDown :
      (id j : Text) (s : Session P) (rt : Runtime P)
      → IsExclusive P rt
      → lookup id rt.sessions ≡ some s
      → (id ≡ j) ⊎ IsDown j rt
      → IsDown j (stop_session P s rt).1
  unfolding stop_session
  turn-IsDown id j s rt x h w =
      (let i = x.ids id s h in
        elim (Bool-cases (s.id == j)) [
          | inl e ↦
              rw⁻¹ ((==_iff s.id j).0 e)
                (stop_session-IsDown s.state s rt (ap (λ k. lookup k rt.sessions) i ∙ h) refl)
          | inr n ↦ elim w [
            | inl e ↦ absurd (unequal s.id j n (i ∙ e))
            | inr d ↦ record {
              after = d.after;
              found = stop_session-others s.state s rt j n ∙ d.found;
              stopped = d.stopped;
            }
          ]
        ])

  stop_all-IsDown :
      (ids : List Text) (j : Text) (rt : Runtime P)
      → IsExclusive P rt
      → IsDown j rt
      → IsDown j (stop_all P ids rt)
  unfolding stop_all
  stop_all-IsDown [] j rt x d = d
  stop_all-IsDown (id ∷ ids) j rt x d = elim (Option-cases (lookup id rt.sessions)) [
    | inl h ↦ rw (h, stop_all) (stop_all-IsDown ids j rt x d)
    | inr (s, h) ↦
        rw (h, stop_all)
          (stop_all-IsDown ids j (stop_session P s rt).1 (stop_session-IsExclusive P id s rt h x)
            (turn-IsDown id j s rt x h (inr d)))
  ]

  not_in_nil : (j : Text) → contains j [] ≢ true
  unfolding contains
  not_in_nil j = λ e. ground arith

  contains_tail :
      (id j : Text) (ids : List Text)
      → (id == j) ≡ false
      → contains j (id ∷ ids) ≡ true
      → contains j ids ≡ true
  unfolding contains
  contains_tail id j ids n c = ground arith

  stop_all_reaches :
      (ids : List Text) (j : Text) (rt : Runtime P) {s : Session P}
      → IsExclusive P rt
      → contains j ids ≡ true
      → lookup j rt.sessions ≡ some s
      → IsDown j (stop_all P ids rt)
  unfolding stop_all stop_session
  stop_all_reaches [] j rt x c h = absurd (not_in_nil j c)
  stop_all_reaches (id ∷ ids) j rt {s = s} x c h = elim (Bool-cases (id == j)) [
    | inl e ↦
        (let p = (==_iff id j).0 e in
          let h' = ap (λ k. lookup k rt.sessions) p ∙ h in
          rw (h', stop_all)
            (stop_all-IsDown ids j (stop_session P s rt).1 (stop_session-IsExclusive P id s rt h' x)
              (turn-IsDown id j s rt x h' (inl p))))
    | inr n ↦
        (let c' = contains_tail id j ids n c in
          elim (Option-cases (lookup id rt.sessions)) [
            | inl q ↦ rw (q, stop_all) (stop_all_reaches ids j rt x c' h)
            | inr (u, q) ↦
                rw (q, stop_all)
                  (stop_all_reaches ids j (stop_session P u rt).1
                    (stop_session-IsExclusive P id u rt q x) c'
                    (stop_session-others u.state u rt j (rw (x.ids id u q) n) ∙ h))
          ])
  ]

  -- From a runtime whose lock is exclusive, a shutdown leaves every session that it visits stopped,
  -- whatever the order of its visits.
  pub shutdown_stops :
      (ids : List Text) (j : Text) (rt : Runtime P) {s : Session P}
      → IsExclusive P rt
      → contains j ids ≡ true
      → lookup j rt.sessions ≡ some s
      → IsDown j (shutdown P ids rt)
  unfolding shutdown
  shutdown_stops ids j rt x c h =
      (let d =
          stop_all_reaches ids j (record rt { shutting_down = true })
            (record { ids = x.ids; live = x.live }) c h in
        record { after = d.after; found = d.found; stopped = d.stopped })
