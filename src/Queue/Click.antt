-- ===== src/Queue/Click.antt =====
-- cu-runtime/src/action_queue.rs: the click dispatcher.
pub mod Occlusion
use oc_computer_use.Prelude.{
  ℕ, ◌==◌, Option, none, some, Bool, true, false, not, ◌&&◌, ◌||◌, if◌then◌else◌,
}
use oc_computer_use.Errors.{Text, CuError, Result, ok, err}
use oc_computer_use.Platform.{Platform}
use oc_computer_use.Session.{Session, PointerPolicy, Point, ResolvedSessionTarget, SessionTarget}
use oc_computer_use.Actions.{MouseButton, resolved_click}
use oc_computer_use.Queue.{
  Driver, executed, pressed, Code, return, ◌>>=◌, ◌>>◌, look, call, emit, Detail, ActionResult,
  WindowAtPoint, OcclusionVerdict, unscoped, unobstructed, covered, no_window, unverifiable, label,
}
use oc_computer_use.Queue.Guards.{is_physical, generation, stamp_synthetic}
use oc_computer_use.Queue.Fallback.{
  fail, succeed, grabbed_since, fail_grabbed, ripple, physical_fallback_click,
}

-- The string "unknown" has index 0.
abbrev pub unknown_bundle : Text
unknown_bundle = 0

abbrev pub is_occluded : OcclusionVerdict → Bool
is_occluded unscoped = false
is_occluded unobstructed = false
is_occluded _ = true

abbrev pub is_covered : OcclusionVerdict → Bool
is_covered (covered _) = true
is_covered _ = false

module _ (P : Platform) (D : Driver P) (token : P.Token) (display_id : Text) where
  open P use {is_cancelled}
  open D use {
    execute_with_cancel, click_via_accessibility, physical_click_at, physical_double_click_at,
    pointer_click_ripple, pointer_visualized, pointer_hidden, pointer_location, window_at_point,
  }

  abbrev pub matches_target : ResolvedSessionTarget P → WindowAtPoint → Bool
  matches_target t top =
      top.window_id == t.window_id
      && top.pid == t.pid
      && (top.bundle_id == unknown_bundle
          || t.bundle_id == unknown_bundle
          || top.bundle_id == t.bundle_id)

  abbrev pub judge_window :
      ResolvedSessionTarget P → Result (Option WindowAtPoint) → OcclusionVerdict
  judge_window t (err _) = unverifiable
  judge_window t (ok none) = no_window
  judge_window t (ok (some top)) = if matches_target t top then unobstructed else covered top

  abbrev pub hit_test : Point P → Option (ResolvedSessionTarget P) → Code P OcclusionVerdict
  hit_test p none = return unscoped
  hit_test p (some t) = do top ← call (window_at_point p); return (judge_window t top)

  unfoldable pub occlusion_verdict : Point P → Code P OcclusionVerdict
  occlusion_verdict p = do target ← look (λ w. w.session.resolved_target); hit_test p target

  abbrev pub physical_or :
      PointerPolicy → MouseButton → Point P → Bool → Detail → Code P (Result ActionResult)
  physical_or policy button p double d =
      if is_physical policy
      then physical_fallback_click P D token display_id button p double
      else fail P D token display_id d

  abbrev pub after_press :
      Point P
      → Detail
      → Code P (Result ActionResult)
      → (CuError → Detail)
      → Result Bool
      → Code P (Result ActionResult)
  after_press p done unsupported failed (ok true) = do
    stamp_synthetic P
    ripple P D token display_id p
    succeed P D token display_id done
  after_press p done unsupported failed (ok false) = unsupported
  after_press p done unsupported failed (err e) = fail P D token display_id (failed e)

  -- A press through accessibility, unless the human has the machine.
  unfoldable pub press :
      Option ℕ
      → ℕ
      → Point P
      → Detail
      → Code P (Result ActionResult)
      → (CuError → Detail)
      → Code P (Result ActionResult)
  press gen pid p done unsupported failed = do
    grabbed ← grabbed_since P D token display_id gen
    if grabbed then fail_grabbed P D token display_id else (do
      result ← emit (pressed pid p) (click_via_accessibility pid p)
      after_press p done unsupported failed result)

  -- The target is not known to be on top.
  unfoldable pub click_occluded :
      OcclusionVerdict → Option ℕ → Option ℕ → Point P → Bool → Code P (Result ActionResult)
  click_occluded verdict gen none p double = fail P D token display_id Detail.target_occluded
  click_occluded verdict gen (some pid) p double =
      if is_covered verdict && not double
      then press gen pid p (Detail.accessibility (some (label verdict)))
          (fail P D token display_id Detail.target_occluded) Detail.ax_error
      else fail P D token display_id Detail.target_occluded

  abbrev pub press_or_physical :
      PointerPolicy → Option ℕ → Option ℕ → MouseButton → Point P → Code P (Result ActionResult)
  press_or_physical policy gen none button p =
      fail P D token display_id Detail.isolated_pointer_unavailable
  press_or_physical policy gen (some pid) button p =
      press gen pid p (Detail.accessibility none)
        (physical_or policy button p false Detail.isolated_pointer_unavailable) Detail.error_text

  -- The direct click was refused.
  unfoldable pub click_refused :
      PointerPolicy
      → Option ℕ
      → Option ℕ
      → MouseButton
      → Point P
      → Bool
      → Code P (Result ActionResult)
  unfolding press physical_fallback_click
  click_refused policy gen pid button p double = do
    grabbed ← grabbed_since P D token display_id gen
    if grabbed
        then (do if double then stamp_synthetic P else return tt; fail_grabbed P D token display_id)
        else if double
        then physical_or policy button p true Detail.ax_unsupported_for_double_click
        else press_or_physical policy gen pid button p

  abbrev pub after_direct :
      PointerPolicy
      → Option ℕ
      → Option ℕ
      → MouseButton
      → Point P
      → Bool
      → Result ActionResult
      → Code P (Result ActionResult)
  after_direct policy gen pid button p double (err e) =
      fail P D token display_id (Detail.error_text e)
  after_direct policy gen pid button p double (ok r) =
      if r.success
      then (do
        stamp_synthetic P
        ripple P D token display_id p
        succeed P D token display_id Detail.direct_cg_event)
      else click_refused policy gen pid button p double

  -- The target is on top, or there is none.
  unfoldable pub click_direct :
      PointerPolicy
      → Option ℕ
      → Option ℕ
      → MouseButton
      → Point P
      → Bool
      → Code P (Result ActionResult)
  unfolding click_refused
  click_direct policy gen pid button p double = do
    grabbed ← grabbed_since P D token display_id gen
    if grabbed then fail_grabbed P D token display_id else (do
      let r = resolved_click p button double
      result ← emit (executed r) (execute_with_cancel r token)
      after_direct policy gen pid button p double result)

  abbrev pub pid_of_target : Option SessionTarget → Option ℕ
  pid_of_target none = none
  pid_of_target (some t) = t.pid

  abbrev pub target_pid : Session P → Option ℕ
  target_pid s = chosen s.resolved_target
    where
      chosen : Option (ResolvedSessionTarget P) → Option ℕ
      chosen none = pid_of_target s.target
      chosen (some r) = some r.pid

  -- The backends that the hit test leaves.
  unfoldable pub with_verdict :
      PointerPolicy
      → Option ℕ
      → Option ℕ
      → MouseButton
      → Point P
      → Bool
      → OcclusionVerdict
      → Code P (Result ActionResult)
  unfolding click_occluded click_direct
  with_verdict policy gen pid button p double verdict =
      if is_occluded verdict
      then click_occluded verdict gen pid p double
      else click_direct policy gen pid button p double

  unfoldable pub dispatch_click : MouseButton → Point P → Bool → Code P (Result ActionResult)
  unfolding occlusion_verdict with_verdict
  dispatch_click button p double = do
    policy ← look (λ w. w.session.pointer_policy)
    gen ← look (generation P)
    pid ← look (λ w. target_pid w.session)
    verdict ← occlusion_verdict p
    with_verdict policy gen pid button p double verdict
