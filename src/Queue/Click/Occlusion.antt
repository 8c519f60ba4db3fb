-- ===== src/Queue/Click/Occlusion.antt =====
-- A click where the session's window is not known to be on top.
use oc_computer_use.Session.{PointerPolicy}
use oc_computer_use.Queue.Click.{with_verdict}
use oc_computer_use.Prelude.{
  ℕ, ◌≡◌, ◌≢◌, ◌==◌, arith, refl, inl, inr, Option, none, some, Bool, true, false, List, ◌∷◌, not,
  ◌&&◌, if◌then◌else◌, Bool-cases,
}
use oc_computer_use.Errors.{Text, CuError, Result, ok, err}
use oc_computer_use.Platform.{Platform}
use oc_computer_use.Session.{Point, ResolvedSessionTarget}
use oc_computer_use.Actions.{MouseButton}
use oc_computer_use.Queue.{
  World, Driver, Emission, pressed, QueueState, ActionResult, call, emit, Detail, OcclusionVerdict,
  label, WindowAtPoint,
}
use oc_computer_use.Queue.Guards.{human_grabbed, stamp_synthetic, generation}
use oc_computer_use.Queue.Fallback.{fail, fail_grabbed, succeeded}
use oc_computer_use.Queue.Click.{
  judge_window, hit_test, occlusion_verdict, after_press, press, click_occluded, target_pid,
  dispatch_click, is_occluded, is_covered, matches_target, unknown_bundle,
}

module _ (P : Platform) (D : Driver P) (token : P.Token) (display_id : Text) where
  -- The hit test did not find the window on top: it failed, found nothing, or found what differs from
  -- it in its window, its process or, where both are known, its application.
  pub data IsHidden (t : ResolvedSessionTarget P) : Result (Option WindowAtPoint) → Type 0 where
    test_failed : (e : CuError) → IsHidden t (err e)
    nothing_found : IsHidden t (ok none)
    other_window : (top : WindowAtPoint) → top.window_id ≢ t.window_id → IsHidden t (ok (some top))
    other_process : (top : WindowAtPoint) → top.pid ≢ t.pid → IsHidden t (ok (some top))
    other_application :
        (top : WindowAtPoint)
        → top.bundle_id ≢ unknown_bundle
        → t.bundle_id ≢ unknown_bundle
        → top.bundle_id ≢ t.bundle_id
        → IsHidden t (ok (some top))

  unequal : (a b : ℕ) → a ≢ b → (a == b) ≡ false
  unequal a b h = elim (Bool-cases (a == b)) [ inl e ↦ absurd (h (ground arith)) | inr e ↦ e ]

  found_other :
      (t : ResolvedSessionTarget P) (top : WindowAtPoint)
      → matches_target P D token display_id t top ≡ false
      → is_occluded (judge_window P D token display_id t (ok (some top))) ≡ true
  found_other t top h = rw h refl

  IsHidden-is_occluded :
      (t : ResolvedSessionTarget P) (r : Result (Option WindowAtPoint))
      → IsHidden t r
      → is_occluded (judge_window P D token display_id t r) ≡ true
  IsHidden-is_occluded t (err e) (test_failed _) = refl
  IsHidden-is_occluded t (ok none) nothing_found = refl
  IsHidden-is_occluded t (ok (some top)) (other_window _ h) =
      found_other t top (let e = unequal top.window_id t.window_id h in ground arith)
  IsHidden-is_occluded t (ok (some top)) (other_process _ h) =
      found_other t top (let e = unequal top.pid t.pid h in ground arith)
  IsHidden-is_occluded t (ok (some top)) (other_application _ a b h) = found_other t top (
      let ea = unequal top.bundle_id unknown_bundle a in
      let eb = unequal t.bundle_id unknown_bundle b in
      let eh = unequal top.bundle_id t.bundle_id h in ground arith)

  -- What a click left, by the verdict: no input and no success, or one press through accessibility, of a single
  -- click, on a window that is known to be another one.
  pub data HeldBack (q : Point P) (double : Bool) (v : OcclusionVerdict)
      (before : List (Emission P)) : Result ActionResult → List (Emission P) → Type 0 where
    nothing : {r : Result ActionResult} → succeeded r ≡ false → HeldBack q double v before r before
    press_only :
        {r : Result ActionResult} (pid : ℕ) (w : World P)
        → double ≡ false
        → is_covered v ≡ true
        → HeldBack q double v before r (record { input = pressed pid q; at = w } ∷ before)

  after_press_emitted :
      (q : Point P) (done : Detail) (failed : CuError → Detail) (r : Result Bool) (s : QueueState P)
      → (after_press P D token display_id q done
          (fail P D token display_id Detail.target_occluded)
          failed
          r
          s).1.emitted
        ≡ s.emitted
  unfolding stamp_synthetic
  after_press_emitted q done failed (ok true) s = refl
  after_press_emitted q done failed (ok false) s = refl
  after_press_emitted q done failed (err _) s = refl

  press_cases :
      (gen : Option ℕ) (pid : ℕ) (q : Point P) (double : Bool) (v : OcclusionVerdict)
      (done : Detail) (failed : CuError → Detail) (s : QueueState P)
      → double ≡ false
      → is_covered v ≡ true
      → let (r, s') =
          press P D token display_id gen pid q done
            (fail P D token display_id Detail.target_occluded)
            failed
            s in
        HeldBack q double v s.emitted r s'.emitted
  unfolding press fail_grabbed
  press_cases gen pid q double v done failed s d c =
      elim (Bool-cases (human_grabbed P token gen s.world)) [
        | inl e ↦ rw (e) (nothing refl)
        | inr e ↦
            (let (r, s1) = emit (pressed pid q) (D.click_via_accessibility pid q) s in
              rw (e, after_press_emitted q done failed r s1) (press_only pid s.world d c))
      ]

  occluded_cases :
      (v : OcclusionVerdict) (gen pid : Option ℕ) (q : Point P) (double : Bool) (s : QueueState P)
      → let (r, s') = click_occluded P D token display_id v gen pid q double s in
        HeldBack q double v s.emitted r s'.emitted
  unfolding click_occluded
  occluded_cases v gen none q double s = nothing refl
  occluded_cases v gen (some pid) q double s = go (is_covered v) double refl refl
    where
      go :
          (c d : Bool)
          → is_covered v ≡ c
          → double ≡ d
          → let (r, s') =
              (if c && not d
                  then press P D token display_id gen pid q
                      (Detail.accessibility (some (label v)))
                      (fail P D token display_id Detail.target_occluded)
                      Detail.ax_error
                  else fail P D token display_id Detail.target_occluded)
                s in
            HeldBack q double v s.emitted r s'.emitted
      go true false ec ed = press_cases gen pid q double v _ Detail.ax_error s ed ec
      go true true ec ed = nothing refl
      go false d ec ed = nothing refl

  with_verdict-HeldBack :
      (policy : PointerPolicy) (gen pid : Option ℕ) (b : MouseButton) (q : Point P) (double : Bool)
      (v : OcclusionVerdict) (s : QueueState P)
      → is_occluded v ≡ true
      → let (r, s') = with_verdict P D token display_id policy gen pid b q double v s in
        HeldBack q double v s.emitted r s'.emitted
  unfolding with_verdict
  with_verdict-HeldBack policy gen pid b q double v s o =
      rw (o) (occluded_cases v gen pid q double s)

  hit_test-HeldBack :
      (policy : PointerPolicy) (gen pid : Option ℕ) (b : MouseButton) (q : Point P) (double : Bool)
      (t : ResolvedSessionTarget P) (target : Option (ResolvedSessionTarget P)) (s : QueueState P)
      → target ≡ some t
      → is_occluded (judge_window P D token display_id t (D.window_at_point q s.world).0) ≡ true
      → let (v, s1) = hit_test P D token display_id q target s in
        let (r, s') = with_verdict P D token display_id policy gen pid b q double v s1 in
        HeldBack q double
          (judge_window P D token display_id t (D.window_at_point q s.world).0)
          s.emitted
          r
          s'.emitted
  hit_test-HeldBack policy gen pid b q double t none s e o = absurd (cc)
  hit_test-HeldBack policy gen pid b q double t (some u) s e o =
      (let same : u ≡ t = cc in
        let s1 = (call (D.window_at_point q) s).1 in
        rw (same) (with_verdict-HeldBack policy gen pid b q double _ s1 o))

  -- What a click left, of which the hit test found `found`: no input and no success, or one press
  -- through accessibility, of a single click, where it found a window.
  pub data IsHeldBack (q : Point P) (double : Bool) (found : Result (Option WindowAtPoint))
      (before : List (Emission P)) : Result ActionResult → List (Emission P) → Type 0 where
    nothing_put_in :
        {r : Result ActionResult} → succeeded r ≡ false → IsHeldBack q double found before r before
    one_press :
        {r : Result ActionResult} (pid : ℕ) (w : World P) (top : WindowAtPoint)
        → double ≡ false
        → found ≡ ok (some top)
        → IsHeldBack q double found before r (record { input = pressed pid q; at = w } ∷ before)

  covering :
      (t : ResolvedSessionTarget P) (r : Result (Option WindowAtPoint))
      → is_covered (judge_window P D token display_id t r) ≡ true
      → (top : WindowAtPoint) × (r ≡ ok (some top))
  covering t (err e) h = absurd (cc)
  covering t (ok none) h = absurd (cc)
  covering t (ok (some top)) h = (top, refl)

  held_back :
      (q : Point P) (double : Bool) (t : ResolvedSessionTarget P)
      (found : Result (Option WindowAtPoint)) (before after : List (Emission P))
      (r : Result ActionResult)
      → HeldBack q double (judge_window P D token display_id t found) before r after
      → IsHeldBack q double found before r after
  held_back q double t found before _ r (nothing h) = nothing_put_in h
  held_back q double t found before _ r (press_only pid w single c) =
      let (top, e) = covering t found c in one_press pid w top single e

  -- In a session with a resolved target, a click at a point where the hit test fails, finds nothing, or
  -- finds another window, process or known application, is held back, under every pointer policy:
  -- nothing is put in and the click does not succeed, or one press through accessibility is asked for.
  -- The latter happens for a single click only, and only where the hit test found a window.
  pub dispatch_click-HeldBack :
      (b : MouseButton) (q : Point P) (double : Bool) (t : ResolvedSessionTarget P)
      (s : QueueState P)
      → s.world.session.resolved_target ≡ some t
      → IsHidden t (D.window_at_point q s.world).0
      → let (r, s') = dispatch_click P D token display_id b q double s in
        IsHeldBack q double (D.window_at_point q s.world).0 s.emitted r s'.emitted
  unfolding dispatch_click occlusion_verdict
  dispatch_click-HeldBack b q double t s e hidden =
      let found = (D.window_at_point q s.world).0 in
      held_back q double t found s.emitted _ _ (
        hit_test-HeldBack s.world.session.pointer_policy (generation P s.world)
          (target_pid P D token display_id s.world.session) b q double t
          s.world.session.resolved_target s e (IsHidden-is_occluded t found hidden))
