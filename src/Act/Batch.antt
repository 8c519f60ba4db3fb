-- ===== src/Act/Batch.antt =====
-- `act` of cu-runtime/src/runtime.rs: the run of the batch, its report, and the scope around it.
use oc_computer_use.Prelude.{
  ℕ, Option, none, some, Bool, true, false, ◌||◌, ◌&&◌, is_some, List, [], ◌∷◌, ◌++◌, nat_eq,
  insert, if◌then◌else◌,
}
use oc_computer_use.Errors.{Text, ok, err}
use oc_computer_use.Platform.{Platform}
use oc_computer_use.Session.{Session, SessionState, verify_control_token, begin_batch, end_batch}
use oc_computer_use.Policy.{TakeoverDetector, unwrap_or}
use oc_computer_use.Human.{HumanInputMonitor}
use oc_computer_use.Actions.{WaitPolicy}
use oc_computer_use.Frames.{change_score}
use oc_computer_use.Requests.{RequestKey, RequestRegistry, register, unregister}
use oc_computer_use.Queue.{Recorder, RunStatus, ActionRun}
use oc_computer_use.Queue.Run.{run}
use oc_computer_use.Screen.{fingerprint_snapshot}
use oc_computer_use.Screen.Stabilizer.{score_or_one}
use oc_computer_use.Runtime.{Runtime, get_session, gate_active}
use oc_computer_use.Exec.{Reply, answer, reads, checks, performs, ◌>>=◌, ◌>>◌}
use oc_computer_use.Act.{
  RuntimeConfig, Machine, ActParams, ActResult, ObserveParams, ObserveResult, TraceReport, Desk,
  Step, calls, awaits, changes,
}
use oc_computer_use.Act.Observe.{observe_inner}
use oc_computer_use.Act.Admit.{Admitted, admit, batch_of}
use oc_computer_use.Act.Wait.{after_batch}

abbrev pub is_success : RunStatus → Bool
is_success RunStatus.success = true
is_success _ = false

unfoldable pub any_success : List ActionRun → Bool
any_success [] = false
any_success (r ∷ rs) = is_success r.status || any_success rs

abbrev pub is_until_stable : WaitPolicy → Bool
is_until_stable WaitPolicy.until_stable = true
is_until_stable _ = false

abbrev pub is_active : SessionState → Bool
is_active SessionState.active = true
is_active _ = false

module _ (P : Platform) where
  open P use {of_ℕ, f64_lt, f64_le}

  -- `record_action` is called only with a recorder.
  abbrev pub recorder_of : Recorder P → Session P → Option (Recorder P)
  recorder_of f s = if is_some s.trace then some f else none

  module _ (config : RuntimeConfig P) (M : Machine P) where
    -- The detector's default, with the configured policy.
    abbrev pub detector : TakeoverDetector P
    detector = record {
      jump_threshold_points = of_ℕ 60;
      required_jumps = 2;
      policy = config.takeover_policy;
      consecutive_jumps = 0;
    }

    unfoldable pub run_queue : ActParams P → P.Token → Admitted P → Step P (List ActionRun)
    run_queue p token a = performs (λ d.
        let s = d.world.session in
        let (r, q) =
          run P M.driver token a.geometry (M.tap_active d.world) (recorder_of M.record_action s)
            s.display_id p.actions detector d.world in
        (r, record d { world = q.world; emitted = q.emitted ++ d.emitted }))

    unfoldable pub stamp_action : Step P (Unit {0})
    stamp_action = do
      now ← reads (λ d. M.utc_now d.world)
      changes P (λ s. record s { last_action_at = some now })

    abbrev pub reobserve : ActParams P → Text → ObserveParams P
    reobserve p display_id = record {
      session_id = some p.session_id;
      display_id = some display_id;
      observation_token = none;
      control_token = p.control_token;
      include_cursor = none;
      max_width = none;
      image_format = none;
      jpeg_quality = none;
      include_image = some true;
    }

    -- The screen after the batch, unless the session was paused or taken over meanwhile.
    unfoldable pub screenshot_after : ActParams P → Step P (Option (ObserveResult P))
    unfolding observe_inner
    screenshot_after p = do
      wanted ← reads (λ d. unwrap_or false p.return_screenshot && is_active d.world.session.state)
      display_id ← reads (λ d. d.world.session.display_id)
      if wanted
          then (do o ← observe_inner P config M (reobserve p display_id); answer (some o))
          else answer none

    unfoldable pub trace_report : Step P (Option TraceReport)
    trace_report = do
      traced ← reads (λ d. is_some d.world.session.trace)
      degraded ← reads (λ d. M.is_degraded d.world)
      if traced
          then (do
            ws ← awaits P M.warnings
            answer (some (record { mode = config.trace_mode; degraded = degraded; warnings = ws })))
          else answer none

    abbrev pub frame_id_of : Option (ObserveResult P) → Option Text
    frame_id_of none = none
    frame_id_of (some o) = some o.frame_id

    -- From the run of the queue on.
    unfoldable pub carry_batch : ActParams P → P.Token → Admitted P → Step P (ActResult P)
    unfolding run_queue stamp_action screenshot_after trace_report any_success after_batch
    carry_batch p token a = do
      let batch = batch_of P p
      runs ← run_queue p token a
      stamp_action
      (settled, stabilization) ←
          after_batch P config M batch.wait_policy batch.fixed_wait_ms token a.region a.before
      after ← calls P (fingerprint_snapshot P M.screen a.region)
      let change = score_or_one P (change_score P a.before after)
      screenshot ← screenshot_after p
      trace ← trace_report
      answer (record {
        executed = any_success runs;
        action_results = runs;
        screen_changed = f64_lt config.stale.threshold change;
        stable =
            if is_until_stable batch.wait_policy
            then settled
            else f64_le change config.stale.threshold;
        next_frame_id = frame_id_of screenshot;
        screenshot = screenshot;
        stabilization = stabilization;
        trace = trace;
      })

    abbrev pub register_if :
        Option RequestKey
        → Text
        → P.Token
        → RequestRegistry P
        → P.Store
        → RequestRegistry P × P.Store
    register_if none id token r st = (r, st)
    register_if (some key) id token r st = register P key id token r st

    -- The batch's token, registered under the request's key.
    abbrev pub begin_scope : Option RequestKey → Text → Desk P → P.Token × Desk P
    begin_scope key id d =
        let (token, s, st) = begin_batch P d.world.session d.world.store in
        let (requests, st') = register_if key id token d.runtime.requests st in
        (
          token,
          record d {
            world = record d.world { session = s; store = st' };
            runtime = record d.runtime { requests = requests };
          },
        )

    unfoldable pub open_scope : Option RequestKey → Text → Step P P.Token
    open_scope key id = performs (λ d. let (token, d') = begin_scope key id d in (ok token, d'))

    abbrev pub unregister_if : Option RequestKey → RequestRegistry P → RequestRegistry P
    unregister_if none r = r
    unregister_if (some key) r = unregister P key r

    -- `BatchScope::drop`.
    unfoldable pub close_scope : Option RequestKey → P.Token → Desk P → Desk P
    close_scope key token d = record d {
      world = record d.world { session = end_batch P token d.world.session };
      runtime = record d.runtime { requests = unregister_if key d.runtime.requests };
    }

    -- The scope is closed on every way out.
    unfoldable pub scoped :
        Option RequestKey → P.Token → Step P (ActResult P) → Step P (ActResult P)
    unfolding close_scope
    scoped key token m d = let (r, d') = m d in (r, close_scope key token d')

    unfoldable pub batch_body : ActParams P → P.Token → Step P (ActResult P)
    unfolding admit carry_batch
    batch_body p token = do a ← admit P config M p token; carry_batch p token a

    unfoldable pub in_scope : ActParams P → Option RequestKey → Step P (ActResult P)
    unfolding open_scope scoped batch_body
    in_scope p key = do token ← open_scope key p.session_id; scoped key token (batch_body p token)

    -- `act`, from the session that it found on.
    unfoldable pub act_session : ActParams P → Option RequestKey → Step P (ActResult P)
    unfolding in_scope
    act_session p key = do
      checks (λ d. verify_control_token P d.world.session p.control_token)
      checks (λ d. gate_active P d.world.session)
      in_scope p key

    abbrev pub desk_for : Session P → Option (HumanInputMonitor P) → ℕ → Runtime P → Desk P
    desk_for s h now rt = record {
      world = record { session = s; human = h; store = rt.store; now = now };
      runtime = rt;
      emitted = [];
    }

    -- The session and the tokens are written back.
    abbrev pub leave : Desk P → Runtime P
    leave d = record d.runtime {
      sessions = insert d.world.session.id d.world.session d.runtime.sessions;
      store = d.world.store;
    }

    unfoldable pub act :
        ActParams P
        → Option RequestKey
        → Option (HumanInputMonitor P)
        → ℕ
        → Runtime P
        → Reply (ActResult P) × Runtime P
    unfolding act_session
    act p key h now rt = elim (get_session P p.session_id rt) [
      | err e ↦ (some (err e), rt)
      | ok s ↦ (let (r, d) = act_session p key (desk_for s h now rt) in (r, leave d))
    ]
