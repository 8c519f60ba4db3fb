-- ===== src/Runtime/Starts.antt =====
-- What a start leaves behind when it fails.
use oc_computer_use.Prelude.{◌≢◌}
use oc_computer_use.Prelude.{◌≡◌, refl, inl, inr, List, nat_eq, Option-cases}
use oc_computer_use.Errors.{CuError, err}
use oc_computer_use.Platform.{Platform}
use oc_computer_use.Session.{Session}
use oc_computer_use.Session.Lock.{try_acquire}
use oc_computer_use.Runtime.{
  Runtime, Outcome, SessionResult, Effect, manifest_written, emit, emit_if_traced, put,
}
use oc_computer_use.Runtime.Start.{
  StartInput, session_start, start_live, start_pointer, start_display, start_trace, start_target,
  start_policies, start_traced, start_targeted, fresh_session, abandon, announce, with_holder_owner,
}
use oc_computer_use.Runtime.Cases.{Result-cases}

module _ (P : Platform) where
  -- Nothing but the log differs.
  pub record SameButLog (rt rt' : Runtime P) : Type 0 where
    pub lock : rt'.control_lock ≡ rt.control_lock
    pub sessions : rt'.sessions ≡ rt.sessions
    pub frames : rt'.frames ≡ rt.frames
    pub requests : rt'.requests ≡ rt.requests
    pub store : rt'.store ≡ rt.store

  abbrev Clean : Runtime P → Outcome P (SessionResult P) → Type 0
  Clean rt out = (e : CuError) → out.0 ≡ err e → SameButLog rt out.1

  logged : (rt : Runtime P) (l : List (Effect P)) → SameButLog rt (record rt { log = l })
  logged rt l = record {
    lock = refl;
    sessions = refl;
    frames = refl;
    requests = refl;
    store = refl;
  }

  abandon_lem :
      (e : CuError) (s : Session P) (rt : Runtime P)
      → SameButLog rt (abandon P {A = SessionResult P} e s rt).1
  abandon_lem e s rt = elim (Option-cases s.trace) [
    | inl h ↦ rw (h, abandon, emit_if_traced) (logged rt _)
    | inr (t, h) ↦ rw (h, abandon, emit_if_traced) (logged rt _)
  ]

  announce_ok :
      (i : StartInput P) (out : Session P × Runtime P) (u : CuError) → (announce P i out).0 ≢ err u
  announce_ok i (s, rt) u = λ h. cc

  start_live-Clean :
      (i : StartInput P) (s : Session P) (rt : Runtime P) → Clean rt (start_live P i s rt)
  unfolding start_live
  start_live-Clean i s rt = elim (Result-cases (try_acquire rt.control_lock s.id)) [
    | inr (e, h) ↦ rw (h, start_live) (λ u q. abandon_lem (with_holder_owner P e rt) s rt)
    | inl (lock, h) ↦
        rw (h, start_live)
          (λ u q.
            absurd (
              announce_ok i (start_pointer P i s (put P s (record rt { control_lock = lock }))) u
                q))
  ]

  relogged :
      (rt rt' : Runtime P) (l : List (Effect P))
      → SameButLog (record rt { log = l }) rt'
      → SameButLog rt rt'
  relogged rt rt' l x = record {
    lock = x.lock;
    sessions = x.sessions;
    frames = x.frames;
    requests = x.requests;
    store = x.store;
  }

  -- A start that fails, for whatever reason, leaves the lock, the sessions, the frames, the requests
  -- and all tokens as they were; only calls outside may have been made.
  pub start_failed :
      (i : StartInput P) (rt : Runtime P) {e : CuError}
      → (session_start P i rt).0 ≡ err e
      → SameButLog rt (session_start P i rt).1
  unfolding session_start start_traced start_targeted
  start_failed i rt {e = e} = elim (Result-cases (start_display P i)) [
    | inr (_, h) ↦ rw (h, session_start) (λ z. logged rt rt.log)
    | inl (d, h) ↦ elim (Result-cases (start_trace P i)) [
      | inr (_, q) ↦ rw (h, q, session_start, start_traced) (λ z. logged rt _)
      | inl (t, q) ↦
          (let rt' = emit P (manifest_written i.fresh_id) rt in
            elim (Result-cases (start_target P i (fresh_session P i d t))) [
              | inr (u, r) ↦
                  rw (h, q, r, session_start, start_traced, start_targeted)
                    (λ z. relogged rt _ _ (abandon_lem u (fresh_session P i d t) rt'))
              | inl (s, r) ↦
                  rw (h, q, r, session_start, start_traced, start_targeted)
                    (λ z. relogged rt _ _ (start_live-Clean i (start_policies P i s) rt' e z))
            ])
    ]
  ]
