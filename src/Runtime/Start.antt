-- ===== src/Runtime/Start.antt =====
-- `session_start` of cu-runtime/src/runtime.rs.
use oc_computer_use.Prelude.{ℕ, Option, none, some, nat_eq, lookup}
use oc_computer_use.Errors.{Text, ClientInfo, CuError, Result, ok, err}
use oc_computer_use.Platform.{Platform}
use oc_computer_use.Session.{
  Session, SessionTarget, ResolvedSessionTarget, PointerPolicy, FocusPolicy, PointerMode, Point,
  new, set_resolved_target, init_virtual_pointer,
}
use oc_computer_use.Session.Lock.{try_acquire}
use oc_computer_use.Runtime.{
  Runtime, Outcome, SessionResult, put, emit, emit_if_traced, trace_event, trace_closed,
  manifest_written, manifest_removed, start_event, session_result, pointer_visualized,
}

-- `TraceMode` of cu-trace.
pub data TraceMode : Type 0 where
  required best_effort disabled : TraceMode

-- `t.bundle_id.get_or_insert_with(…)` and the two fields after it.
abbrev pub or_else {ℓ} : {A : Type ℓ} → Option A → A → Option A
or_else none a = some a
or_else (some b) a = some b

module _ (P : Platform) where
  -- `with_holder_owner`.
  unfoldable pub with_holder_owner : CuError → Runtime P → CuError
  with_holder_owner (CuError.control_locked holder none) rt =
      CuError.control_locked holder
        (elim (lookup holder rt.sessions) [ none ↦ none | some s ↦ s.owner ])
  with_holder_owner e rt = e

  -- What `session_start` takes from outside: its arguments and the answers of the driver, of the
  -- generators of ids and tokens and of the trace recorder. The text written to the trace is not
  -- modelled, and a manifest that cannot be written is only a warning.
  pub record StartInput : Type 0 where
    pub display_id : Option Text
    pub client : ClientInfo
    pub target : Option SessionTarget
    pub pointer_policy : Option PointerPolicy
    pub focus_policy : Option FocusPolicy
    pub now : ℕ
    pub fresh_id : Text
    pub control_token : Text
    pub observation_token : Text
    pub trace_mode : TraceMode
    pub primary_display : Result Text
    pub trace_opened : Result Text
    pub resolved : Result (Option (ResolvedSessionTarget P))
    pub pointer : Result (Point P)

  unfoldable pub start_display : StartInput → Result Text
  start_display i = elim i.display_id [ some d ↦ ok d | none ↦ i.primary_display ]

  unfoldable pub start_trace : StartInput → Result (Option Text)
  start_trace i = elim i.trace_mode [
    | disabled ↦ ok none
    | required ↦ elim i.trace_opened [ ok t ↦ ok (some t) | err e ↦ err e ]
    | best_effort ↦ elim i.trace_opened [ ok t ↦ ok (some t) | err e ↦ ok none ]
  ]

  unfoldable pub backfill : SessionTarget → ResolvedSessionTarget P → SessionTarget
  backfill t r = record {
    bundle_id = or_else t.bundle_id r.bundle_id;
    pid = or_else t.pid r.pid;
    window_id = or_else t.window_id r.window_id;
  }

  -- The resolution of an explicit target; a target that does not resolve fails the start.
  unfoldable pub start_target : StartInput → Session P → Result (Session P)
  unfolding backfill set_resolved_target
  start_target i s = elim i.target [
    | none ↦ ok s
    | some t ↦ elim i.resolved [
      | err e ↦ err e
      | ok none ↦ err CuError.target_unavailable
      | ok (some r) ↦
          ok (set_resolved_target P (some r) (record s { target = some (backfill t r) }))
    ]
  ]

  abbrev pub start_policies : StartInput → Session P → Session P
  start_policies i s = record s {
    pointer_policy = elim i.pointer_policy [ none ↦ s.pointer_policy | some p ↦ p ];
    focus_policy = elim i.focus_policy [ none ↦ s.focus_policy | some f ↦ f ];
  }

  -- The session closes its trace and drops its manifest: it never went live.
  abbrev pub abandon : {A : Type 0} → CuError → Session P → Runtime P → Outcome P A
  abandon e s rt =
      (err e, emit P (manifest_removed s.id) (emit_if_traced P s (trace_closed s.id) rt))

  unfoldable pub start_pointer : StartInput → Session P → Runtime P → Session P × Runtime P
  unfolding init_virtual_pointer
  start_pointer i s rt = elim i.pointer [
    | err e ↦ (s, rt)
    | ok p ↦
        (let s' = init_virtual_pointer P p s.display_id s in
          (s', emit P (pointer_visualized p.x p.y s.display_id PointerMode.isolated) (put P s' rt)))
  ]

  -- The trace says that the session started; the result carries the two tokens, in the clear.
  abbrev pub announce : StartInput → Session P × Runtime P → Outcome P (SessionResult P)
  announce i (s, rt) =
      let rt' = emit_if_traced P s (trace_event s.id start_event) rt in
      (
        ok (record (session_result P rt' s) {
          control_token = some i.control_token;
          observation_token = some i.observation_token;
        }),
        rt',
      )

  -- From the acquisition of the lock on.
  unfoldable pub start_live : StartInput → Session P → Runtime P → Outcome P (SessionResult P)
  unfolding with_holder_owner start_pointer session_result try_acquire
  start_live i s rt = elim (try_acquire rt.control_lock s.id) [
    | err e ↦ abandon (with_holder_owner e rt) s rt
    | ok lock ↦ announce i (start_pointer i s (put P s (record rt { control_lock = lock })))
  ]

  abbrev pub fresh_session : StartInput → Text → Option Text → Session P
  fresh_session i display trace =
      new P i.fresh_id display i.now i.client.client_name (some i.client) (P.sha256 i.control_token)
        (P.sha256 i.observation_token) trace

  -- From the resolution of the target on.
  unfoldable pub start_targeted : StartInput → Session P → Runtime P → Outcome P (SessionResult P)
  unfolding start_target start_live
  start_targeted i s rt = elim (start_target i s) [
    | err e ↦ abandon e s rt
    | ok s' ↦ start_live i (start_policies i s') rt
  ]

  -- From the opening of the trace on; where it fails the manifest stays.
  unfoldable pub start_traced : StartInput → Text → Runtime P → Outcome P (SessionResult P)
  unfolding start_trace start_targeted new
  start_traced i display rt = elim (start_trace i) [
    | err e ↦ (err e, rt)
    | ok trace ↦ start_targeted i (fresh_session i display trace) rt
  ]

  unfoldable pub session_start : StartInput → Runtime P → Outcome P (SessionResult P)
  unfolding start_display start_traced
  session_start i rt = elim (start_display i) [
    | err e ↦ (err e, rt)
    | ok display ↦ start_traced i display (emit P (manifest_written i.fresh_id) rt)
  ]
