-- ===== src/Act/Observe.antt =====
-- `observe_inner` and `observe` of cu-runtime/src/runtime.rs, expected_crop_output_size of
-- cu-driver/src/types.rs.
use oc_computer_use.Prelude.{
  ℕ, ◌==◌, leb, ltb, Option, none, some, Bool, true, false, not, ◌||◌, if◌then◌else◌,
}
use oc_computer_use.Errors.{Text, CuError, Result, ok, err}
use oc_computer_use.Platform.{Platform}
use oc_computer_use.Session.{DisplayBounds, ResolvedSessionTarget, verify_read_tokens}
use oc_computer_use.Policy.{unwrap_or}
use oc_computer_use.Frames.{ScreenSnapshot, ScreenFrame, insert_frame, abs_diff}
use oc_computer_use.Queue.{World}
use oc_computer_use.Screen.{
  CaptureRegion, refresh_resolved_target, fingerprint_snapshot, crop_on, is_scoped,
}
use oc_computer_use.Runtime.{gate_active, trace_event, observe_event}
use oc_computer_use.Exec.{answer, reads, checks, writes, fails_if, ◌>>=◌, ◌>>◌}
use oc_computer_use.Act.{
  RuntimeConfig, CaptureRequest, CapturedFrame, Machine, ObserveParams, ObserveResult, Step, calls,
  changes, traces, next_counter,
}

-- The string "png" is the one of index 1.
abbrev pub png : Text
png = 1

module _ (P : Platform) where
  open P use {F64, of_ℕ, f64_div, f64_mul, f64_trunc, f64_round, to_u32}

  unfoldable pub expected_crop_output_size : ℕ → ℕ → ℕ → ℕ × ℕ
  expected_crop_output_size crop_width crop_height max_width =
      if max_width == 0 || leb crop_width max_width then (crop_width, crop_height) else (
        max_width,
        to_u32
            (f64_trunc (f64_mul (of_ℕ crop_height) (f64_div (of_ℕ max_width) (of_ℕ crop_width)))),
      )

  -- The window that the observation is cropped to, and its id.
  abbrev pub Scope : Type 0
  Scope = Option (DisplayBounds P × ℕ)

  abbrev pub scope_of : ResolvedSessionTarget P → Scope
  scope_of r = with_id r.bounds
    where
      with_id : Option (DisplayBounds P) → Scope
      with_id none = none
      with_id (some b) = some (b, r.window_id)

  abbrev pub bounds_in : Scope → Option (DisplayBounds P)
  bounds_in none = none
  bounds_in (some (b, _)) = some b

  abbrev pub id_in : Scope → Option ℕ
  id_in none = none
  id_in (some (_, id)) = some id

  -- Whether the image has the size of the crop, give or take a pixel.
  unfoldable pub is_cropped : ℕ → CaptureRegion P → CapturedFrame P → Bool
  unfolding expected_crop_output_size
  is_cropped max_width r c =
      let (w, h) =
        expected_crop_output_size (to_u32 (f64_round r.width)) (to_u32 (f64_round r.height))
          max_width in
      not (ltb 1 (abs_diff c.width w) || ltb 1 (abs_diff c.height h))

  module _ (config : RuntimeConfig P) (M : Machine P) where
    unfoldable pub window_scope : Step P Scope
    window_scope = do
      scoped ← reads (λ d. is_scoped P M.screen d.world.session)
      if scoped
          then (do r ← calls P (refresh_resolved_target P M.screen); answer (scope_of r))
          else answer none

    unfoldable pub scope_region : Text → Scope → Step P (Option (CaptureRegion P))
    scope_region display_id none = answer none
    scope_region display_id (some (b, _)) = do
      displays ← calls P M.screen.list_displays
      checks (λ _. crop_on P M.screen b display_id (ok displays))

    abbrev pub renamed : {A : Type 0} → CuError → Result A × World P → Result A × World P
    renamed e (ok a, w) = (ok a, w)
    renamed e (err _, w) = (err e, w)

    -- Fails closed: an image that is not the crop is not shown.
    unfoldable pub check_crop : ℕ → Option (CaptureRegion P) → CapturedFrame P → Step P (Unit {0})
    check_crop max_width none c = answer tt
    check_crop max_width (some r) c =
        fails_if (λ _. not (is_cropped max_width r c)) (λ _. CuError.target_unavailable)

    abbrev pub request_of :
        ObserveParams P → Text → Text → ℕ → Text → Option (CaptureRegion P) → CaptureRequest P
    request_of p session_id display_id counter format region = record {
      display_id = display_id;
      output_session = session_id;
      output_counter = counter;
      include_cursor = unwrap_or true p.include_cursor;
      max_width = unwrap_or config.observe_max_width p.max_width;
      format = format;
      jpeg_quality = unwrap_or config.observe_jpeg_quality p.jpeg_quality;
      region = region;
    }

    -- A frame of a window has the window's bounds.
    abbrev pub frame_of : Text → Text → Scope → CapturedFrame P → ScreenFrame P
    frame_of frame_id session_id scope c = record {
      frame_id = frame_id;
      session_id = session_id;
      captured_at = c.captured_at;
      image = c.image;
      width = c.width;
      height = c.height;
      display_id = c.display_id;
      bounds = unwrap_or c.bounds (bounds_in scope);
      scale_factor = c.scale_factor;
    }

    unfoldable pub store_frame : ScreenFrame P → ScreenSnapshot → Step P (Unit {0})
    unfolding insert_frame
    store_frame f s = do
      writes (λ d. record d {
        runtime = record d.runtime { frames = insert_frame P f s d.runtime.frames };
      })
      now ← reads (λ d. M.utc_now d.world)
      changes P (λ s. record s { current_frame_id = some f.frame_id; last_action_at = some now })

    abbrev pub result_of :
        Bool → Bool → Text → Scope → ScreenFrame P → ScreenSnapshot → ObserveResult P
    result_of with_image is_png display_id scope f s = record {
      session_id = f.session_id;
      frame_id = f.frame_id;
      width = f.width;
      height = f.height;
      display_id = display_id;
      scale_factor = f.scale_factor;
      active_application = s.active_application;
      active_window = s.active_window_title;
      image = if with_image then some f.image else none;
      is_png = is_png;
      captured_at = f.captured_at;
      target_bounds = bounds_in scope;
      window_id = id_in scope;
    }

    -- From the capture on.
    unfoldable pub observe_scoped :
        ObserveParams P
        → Text
        → ℕ
        → Text
        → Scope
        → Option (CaptureRegion P)
        → Step P (ObserveResult P)
    unfolding check_crop store_frame
    observe_scoped p display_id counter format scope region = do
      session_id ← reads (λ d. d.world.session.id)
      let request = request_of p session_id display_id counter format region
      captured ← calls P (λ w. renamed CuError.capture_failed (M.capture request w))
      check_crop request.max_width region captured
      snapshot ← calls P (fingerprint_snapshot P M.screen region)
      let frame = frame_of (M.new_frame_id counter) session_id scope captured
      store_frame frame snapshot
      traces P (trace_event session_id observe_event)
      answer (
          result_of (unwrap_or false p.include_image) (format == png) display_id scope frame
            snapshot)

    -- Its counter is taken first, so that a failure uses a frame's name up.
    unfoldable pub observe_inner : ObserveParams P → Step P (ObserveResult P)
    unfolding window_scope scope_region observe_scoped
    observe_inner p = do
      display_id ← reads (λ d. unwrap_or d.world.session.display_id p.display_id)
      counter ← next_counter P
      let format = unwrap_or config.observe_format p.image_format
      calls P (λ w. renamed CuError.driver (M.create_frames_dir w))
      scope ← window_scope
      region ← scope_region display_id scope
      observe_scoped p display_id counter format scope region

    -- The busy lock is held from here on.
    unfoldable pub wait_busy : Step P (Unit {0})
    wait_busy =
        writes
          (λ d. let (w, rt) = M.others d.world d.runtime in record d { world = w; runtime = rt })

    -- `observe`, from the session that it found on.
    unfoldable pub observe_session : ObserveParams P → Step P (ObserveResult P)
    unfolding observe_inner wait_busy
    observe_session p = do
      checks (λ d. verify_read_tokens P d.world.session p.observation_token p.control_token)
      checks (λ d. gate_active P d.world.session)
      wait_busy
      observe_inner p
