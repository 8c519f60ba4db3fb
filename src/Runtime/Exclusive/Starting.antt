-- ===== src/Runtime/Exclusive/Starting.antt =====
-- A start keeps the lock exclusive, whether it succeeds or fails.
use oc_computer_use.Runtime.Exclusive.{acquire_lem}
use oc_computer_use.Runtime.Start.{announce, start_traced, start_targeted, with_holder_owner}
use oc_computer_use.Prelude.{◌≡◌, inl, inr, some, nat_eq}
use oc_computer_use.Errors.{CuError}
use oc_computer_use.Platform.{Platform}
use oc_computer_use.Session.{Session, init_virtual_pointer}
use oc_computer_use.Session.Lock.{try_acquire}
use oc_computer_use.Runtime.{
  start_event, trace_event, trace_closed, manifest_written, Runtime, SessionResult, put, emit,
}
use oc_computer_use.Runtime.Start.{
  StartInput, session_start, start_live, start_pointer, start_display, start_trace, start_target,
  start_policies, fresh_session, abandon,
}
use oc_computer_use.Runtime.Cases.{Result-cases}
use oc_computer_use.Runtime.Exclusive.{IsExclusive, insert-Excl, acquire-Excl}
use oc_computer_use.Runtime.Exclusive.Steps.{Keeps, traced}

module _ (P : Platform) where
  start_pointer-IsExclusive :
      (i : StartInput P) (s : Session P) (rt : Runtime P)
      → rt.control_lock ≡ some s.id
      → IsExclusive P rt
      → IsExclusive P (start_pointer P i s rt).1
  unfolding start_pointer init_virtual_pointer
  start_pointer-IsExclusive i s rt held x = elim (Result-cases i.pointer) [
    | inr (_, h) ↦ rw (h, start_pointer) x
    | inl (p, h) ↦
        rw (h, start_pointer)
          ((let y =
              insert-Excl P rt.control_lock rt.sessions (init_virtual_pointer P p s.display_id s)
                (inr held) x in
            record { ids = y.ids; live = y.live }))
  ]

  announce-IsExclusive :
      (i : StartInput P) (out : Session P × Runtime P)
      → IsExclusive P out.1
      → Keeps P (announce P i out)
  announce-IsExclusive i (s, rt) x = traced P s (trace_event s.id start_event) rt x

  abandon-IsExclusive :
      (e : CuError) (s : Session P) (rt : Runtime P)
      → IsExclusive P rt
      → Keeps P (abandon P {A = SessionResult P} e s rt)
  abandon-IsExclusive e s rt x =
      (let y = traced P s (trace_closed s.id) rt x in record { ids = y.ids; live = y.live })

  start_live-IsExclusive :
      (i : StartInput P) (s : Session P) (rt : Runtime P)
      → IsExclusive P rt
      → Keeps P (start_live P i s rt)
  unfolding start_live
  start_live-IsExclusive i s rt x = elim (Result-cases (try_acquire rt.control_lock s.id)) [
    | inr (e, h) ↦ rw (h, start_live) (abandon-IsExclusive (with_holder_owner P e rt) s rt x)
    | inl (lock, h) ↦
        rw (h, start_live)
          (announce-IsExclusive i
            (start_pointer P i s (put P s (record rt { control_lock = lock })))
            (start_pointer-IsExclusive i s (put P s (record rt { control_lock = lock }))
              (acquire_lem P rt.control_lock lock s.id h).0
              (acquire-Excl P rt.control_lock lock rt.sessions s h x)))
  ]

  pub session_start-IsExclusive :
      (i : StartInput P) (rt : Runtime P) → IsExclusive P rt → Keeps P (session_start P i rt)
  unfolding session_start start_traced start_targeted
  session_start-IsExclusive i rt x = elim (Result-cases (start_display P i)) [
    | inr (e, h) ↦ rw (h, session_start) x
    | inl (d, h) ↦ elim (Result-cases (start_trace P i)) [
      | inr (e, q) ↦ rw (h, q, session_start, start_traced) (record { ids = x.ids; live = x.live })
      | inl (t, q) ↦
          (let rt' = emit P (manifest_written i.fresh_id) rt in
            let y : IsExclusive P rt' = record { ids = x.ids; live = x.live } in
            elim (Result-cases (start_target P i (fresh_session P i d t))) [
              | inr (e, r) ↦
                  rw (h, q, r, session_start, start_traced, start_targeted)
                    (abandon-IsExclusive e (fresh_session P i d t) rt' y)
              | inl (s, r) ↦
                  rw (h, q, r, session_start, start_traced, start_targeted)
                    (start_live-IsExclusive i (start_policies P i s) rt' y)
            ])
    ]
  ]
