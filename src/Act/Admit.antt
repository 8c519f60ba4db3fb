-- ===== src/Act/Admit.antt =====
-- `act` of cu-runtime/src/runtime.rs, up to the point where its batch may run.
use oc_computer_use.Prelude.{if◌then◌else◌}
use oc_computer_use.Prelude.{Option, none, some, Bool, true, false, not, is_some, List, [], ◌∷◌}
use oc_computer_use.Errors.{Text, ClientInfo, CuError, Result, ok, err}
use oc_computer_use.Platform.{Platform}
use oc_computer_use.Session.{Session, DisplayBounds}
use oc_computer_use.Session.Lock.{is_held_by}
use oc_computer_use.Policy.{
  ConfirmationPolicy, Authorization, allowed, requires, from_caller, authorize, confirmation_error,
  unwrap_or,
}
use oc_computer_use.Coordinates.{ImageGeometry}
use oc_computer_use.Actions.{
  ComputerAction, WaitPolicy, ActionBatch, validate, resolve_action_points, batch_in_bounds,
}
use oc_computer_use.Frames.{ScreenSnapshot, ScreenFrame, StoredFrame, get}
use oc_computer_use.Stale.{StaleFrameVerdict, check}
use oc_computer_use.Queue.{World}
use oc_computer_use.Screen.{
  CaptureRegion, refresh_resolved_target, target_crop_region, fingerprint_snapshot,
}
use oc_computer_use.Runtime.{Runtime, trace_event, stale_rejected_event}
use oc_computer_use.Prelude.{nat_eq, lookup}
use oc_computer_use.Exec.{answer, fail, reads, checks, fails_if, ◌>>=◌, ◌>>◌}
use oc_computer_use.Act.{RuntimeConfig, Machine, ActParams, Step, calls, traces, next_counter}
use oc_computer_use.Act.Observe.{wait_busy}

-- The empty string of `unwrap_or_default` is the one of index 0.
abbrev pub no_text : Text
no_text = 0

module _ (P : Platform) where
  abbrev pub owner_of : Option (Session P) → Option ClientInfo
  owner_of none = none
  owner_of (some s) = s.owner

  unfoldable pub control_locked_for : Runtime P → CuError
  control_locked_for rt =
      let holder = unwrap_or no_text rt.control_lock in
      CuError.control_locked holder (owner_of (lookup holder rt.sessions))

  abbrev pub batch_of : ActParams P → ActionBatch P
  batch_of p = record {
    actions = p.actions;
    wait_policy = unwrap_or WaitPolicy.no_wait p.wait_policy;
    fixed_wait_ms = p.fixed_wait_ms;
    return_screenshot = unwrap_or false p.return_screenshot;
  }

  abbrev pub policy_of : ActParams P → ConfirmationPolicy
  policy_of p = from_caller p.requires_confirmation p.risk_level p.policy_context p.actions

  abbrev pub authorization_result : Authorization → Result (Unit {0})
  authorization_result allowed = ok tt
  authorization_result (requires q) = err (confirmation_error q)

  abbrev pub known_frame : Text → Option (StoredFrame P) → Result (StoredFrame P)
  known_frame id none = err (CuError.unknown_frame id)
  known_frame id (some f) = ok f

  abbrev pub geometry_of : ScreenFrame P → ImageGeometry P
  geometry_of f = record {
    image_width_px = f.width;
    image_height_px = f.height;
    display_bounds = f.bounds;
  }

  -- The first action with a point that is not on the screen.
  unfoldable pub resolve_all : ImageGeometry P → List (ComputerAction P) → Result (Unit {0})
  resolve_all g [] = ok tt
  resolve_all g (a ∷ as_) =
      let rest = resolve_all g as_ in
      elim (resolve_action_points P a g) [ ok _ ↦ rest | err e ↦ err e ]

  abbrev pub bounds_result : ImageGeometry P → List (ComputerAction P) → Bool → Result (Unit {0})
  bounds_result g actions true = ok tt
  bounds_result g actions false = resolve_all g actions

  -- What the checks hand on to the run.
  pub record Admitted : Type 0 where
    pub geometry : ImageGeometry P
    pub region : Option (CaptureRegion P)
    pub before : ScreenSnapshot

  module _ (config : RuntimeConfig P) (M : Machine P) where
    -- The state of the runtime after the wait for the busy lock.
    unfoldable pub check_turn : ActParams P → P.Token → Step P (Unit {0})
    unfolding control_locked_for
    check_turn p token = do
      fails_if (λ d. P.is_cancelled token d.world.store) (λ _. CuError.cancelled)
      fails_if (λ d. not (is_held_by d.runtime.control_lock p.session_id))
          (λ d. control_locked_for d.runtime)

    unfoldable pub check_batch : ActParams P → Step P (Unit {0})
    check_batch p = do
      checks (λ _. validate P (batch_of p))
      checks (λ _. authorization_result (authorize (policy_of p) false))

    unfoldable pub find_frame : ActParams P → Step P (StoredFrame P)
    find_frame p = checks (λ d. known_frame p.frame_id (get P p.frame_id d.runtime.frames))

    unfoldable pub crop_of : Option (DisplayBounds P) → Step P (Option (CaptureRegion P))
    crop_of none = answer none
    crop_of (some b) = calls P (target_crop_region P M.screen b)

    -- The session's window as it is now, if the session has one.
    unfoldable pub target_region : Step P (Option (CaptureRegion P))
    unfolding crop_of
    target_region = do
      scoped ← reads (λ d. is_some d.world.session.resolved_target)
      if scoped
          then (do
            calls P (refresh_resolved_target P M.screen)
            bounds ← reads (λ d. d.world.session.target_bounds)
            crop_of bounds)
          else answer none

    -- The texts of the detail beside the frame: "unavailable" and the error.
    abbrev pub unavailable : Text → CuError
    unavailable frame_id =
        CuError.stale_frame (record { referenced_frame_id = frame_id; current_frame_id = no_text })

    abbrev pub or_stale : Text → Result ScreenSnapshot × World P → Result ScreenSnapshot × World P
    or_stale frame_id (ok s, w) = (ok s, w)
    or_stale frame_id (err _, w) = (err (unavailable frame_id), w)

    unfoldable pub frame_or_next : Option Text → Step P Text
    frame_or_next (some id) = answer id
    frame_or_next none = do n ← next_counter P; answer (M.new_frame_id n)

    unfoldable pub current_frame : Step P Text
    unfolding frame_or_next
    current_frame = do id ← reads (λ d. d.world.session.current_frame_id); frame_or_next id

    -- `StaleFrameChecker::to_error`.
    abbrev pub stale_error : StaleFrameVerdict P → CuError
    stale_error v = CuError.stale_frame (record {
      referenced_frame_id = v.referenced_frame_id;
      current_frame_id = v.current_frame_id;
    })

    unfoldable pub reject_stale : StaleFrameVerdict P → Step P (Unit {0})
    reject_stale v = do
      id ← reads (λ d. d.world.session.id)
      traces P (trace_event id stale_rejected_event)
      fail (stale_error v)

    unfoldable pub check_fresh : ActParams P → ScreenSnapshot → ScreenSnapshot → Step P (Unit {0})
    unfolding current_frame reject_stale
    check_fresh p referenced before = do
      current ← current_frame
      verdict ←
          reads (λ d. check P config.stale (M.utc_now d.world) referenced before p.frame_id current)
      if verdict.is_stale then reject_stale verdict else answer tt

    unfoldable pub check_bounds : ActParams P → ImageGeometry P → Step P (Unit {0})
    unfolding resolve_all
    check_bounds p g = checks (λ _. bounds_result g p.actions (batch_in_bounds P p.actions g))

    -- All that stands between a request's turn and its batch.
    unfoldable pub admit : ActParams P → P.Token → Step P Admitted
    unfolding wait_busy check_turn check_batch find_frame target_region check_fresh check_bounds
    admit p token = do
      wait_busy P config M
      check_turn p token
      check_batch p
      stored ← find_frame p
      region ← target_region
      before ← calls P (λ w. or_stale p.frame_id (fingerprint_snapshot P M.screen region w))
      check_fresh p stored.snapshot before
      check_bounds p (geometry_of stored.frame)
      answer (record { geometry = geometry_of stored.frame; region = region; before = before })
