-- ===== src/Queue/Lawful/Clicks.antt =====
-- The click dispatcher asks for lawful inputs only.
use oc_computer_use.Queue.Click.{with_verdict}
use oc_computer_use.Queue.{return}
use oc_computer_use.Prelude.{
  ℕ, ◌≡◌, refl, ◌∙◌, sym, Option, none, some, Bool, true, false, not, ◌&&◌,
}
use oc_computer_use.Errors.{Text, CuError, Result, ok, err}
use oc_computer_use.Platform.{Platform}
use oc_computer_use.Session.{PointerPolicy, Point, ResolvedSessionTarget}
use oc_computer_use.Actions.{MouseButton, resolved_click}
use oc_computer_use.Queue.{
  Driver, executed, pressed, QueueState, ActionResult, emit, Code, Detail, OcclusionVerdict,
}
use oc_computer_use.Queue.Guards.{is_physical, human_grabbed, stamp_synthetic, generation}
use oc_computer_use.Queue.Steady.{IsSteady, Holds, carry, carry_input, split, stamp-Holds}
use oc_computer_use.Queue.Fallback.{fail, fail_grabbed}
use oc_computer_use.Queue.Click.{
  hit_test, occlusion_verdict, physical_or, after_press, press, click_occluded, press_or_physical,
  click_refused, after_direct, click_direct, target_pid, dispatch_click, is_occluded, is_covered,
}
use oc_computer_use.Queue.Lawful.{
  IsLawful, borrows, grabbed-live, is_physical-true, physical_fallback_click-Holds,
}

module _ (P : Platform) (D : Driver P) (steady : IsSteady P D) (token : P.Token) (display_id : Text)
    (p : PointerPolicy) where
  abbrev Good : QueueState P → Type 0
  Good = Holds P (IsLawful P p token) p

  hit_test-Holds :
      (q : Point P) (t : Option (ResolvedSessionTarget P)) (s : QueueState P)
      → Good s
      → Good (hit_test P D token display_id q t s).1
  hit_test-Holds q none s h = h
  hit_test-Holds q (some t) s h = carry P {s = s} refl (steady.window q s.world) h

  -- Only a policy that is physical falls back.
  physical_or-Holds :
      (policy : PointerPolicy) (b : MouseButton) (q : Point P) (double : Bool) (d : Detail)
      (s : QueueState P)
      → policy ≡ p
      → Good s
      → Good (physical_or P D token display_id policy b q double d s).1
  physical_or-Holds policy b q double d s e h =
      split P (is_physical policy) _ _ s
        (λ t g.
          physical_fallback_click-Holds P D steady token display_id p
            (sym e ∙ is_physical-true policy t) b q double s g)
        (λ _ g. g) h

  after_press-Holds :
      (q : Point P) (done : Detail) (unsupported : Code P (Result ActionResult))
      (failed : CuError → Detail) (r : Result Bool) (s : QueueState P)
      → ((s' : QueueState P) → Good s' → Good (unsupported s').1)
      → Good s
      → Good (after_press P D token display_id q done unsupported failed r s).1
  unfolding stamp_synthetic
  after_press-Holds q done unsupported failed (ok true) s k h =
      carry P {s = s} refl (steady.ripple q _) h
  after_press-Holds q done unsupported failed (ok false) s k h = k s h
  after_press-Holds q done unsupported failed (err e) s k h = h

  press-Holds :
      (gen : Option ℕ) (pid : ℕ) (q : Point P) (done : Detail)
      (unsupported : Code P (Result ActionResult)) (failed : CuError → Detail) (s : QueueState P)
      → ((s' : QueueState P) → Good s' → Good (unsupported s').1)
      → Good s
      → Good (press P D token display_id gen pid q done unsupported failed s).1
  unfolding press fail_grabbed borrows
  press-Holds gen pid q done unsupported failed s k h =
      split P (human_grabbed P token gen s.world) _ _ s (λ _ g. g)
        (λ e g.
          (let (r, s1) = emit (pressed pid q) (D.click_via_accessibility pid q) s in
            after_press-Holds q done unsupported failed r s1 k (
              carry_input P {s = s} refl (steady.accessibility pid q s.world)
                (record {
                  permitted = λ f. absurd (cc);
                  live = λ _. grabbed-live P token gen s.world e;
                })
                g)))
        h

  click_occluded-Holds :
      (v : OcclusionVerdict) (gen pid : Option ℕ) (q : Point P) (double : Bool) (s : QueueState P)
      → Good s
      → Good (click_occluded P D token display_id v gen pid q double s).1
  unfolding click_occluded
  click_occluded-Holds v gen none q double s h = h
  click_occluded-Holds v gen (some pid) q double s h =
      split P (is_covered v && not double) _ _ s
        (λ _ g.
          press-Holds gen pid q _ (fail P D token display_id Detail.target_occluded) Detail.ax_error
            s (λ _ k. k) g)
        (λ _ g. g) h

  press_or_physical-Holds :
      (policy : PointerPolicy) (gen pid : Option ℕ) (b : MouseButton) (q : Point P)
      (s : QueueState P)
      → policy ≡ p
      → Good s
      → Good (press_or_physical P D token display_id policy gen pid b q s).1
  press_or_physical-Holds policy gen none b q s e h = h
  press_or_physical-Holds policy gen (some pid) b q s e h =
      press-Holds gen pid q _
        (physical_or P D token display_id policy b q false Detail.isolated_pointer_unavailable)
        Detail.error_text s (λ s' k. physical_or-Holds policy b q false _ s' e k) h

  click_refused-Holds :
      (policy : PointerPolicy) (gen pid : Option ℕ) (b : MouseButton) (q : Point P) (double : Bool)
      (s : QueueState P)
      → policy ≡ p
      → Good s
      → Good (click_refused P D token display_id policy gen pid b q double s).1
  unfolding click_refused fail_grabbed
  click_refused-Holds policy gen pid b q double s e h =
      split P (human_grabbed P token gen s.world) _ _ s
        (λ _ g.
          split P double (stamp_synthetic P) (return tt) s (λ _ k. stamp-Holds P s k) (λ _ k. k) g)
        (λ _ g.
          split P double _ _ s (λ _ k. physical_or-Holds policy b q true _ s e k)
            (λ _ k. press_or_physical-Holds policy gen pid b q s e k) g)
        h

  after_direct-Holds :
      (policy : PointerPolicy) (gen pid : Option ℕ) (b : MouseButton) (q : Point P) (double : Bool)
      (r : Result ActionResult) (s : QueueState P)
      → policy ≡ p
      → Good s
      → Good (after_direct P D token display_id policy gen pid b q double r s).1
  unfolding stamp_synthetic
  after_direct-Holds policy gen pid b q double (err _) s e h = h
  after_direct-Holds policy gen pid b q double (ok r) s e h =
      split P r.success _ _ s (λ _ g. carry P {s = s} refl (steady.ripple q _) g)
        (λ _ g. click_refused-Holds policy gen pid b q double s e g) h

  click_direct-Holds :
      (policy : PointerPolicy) (gen pid : Option ℕ) (b : MouseButton) (q : Point P) (double : Bool)
      (s : QueueState P)
      → policy ≡ p
      → Good s
      → Good (click_direct P D token display_id policy gen pid b q double s).1
  unfolding click_direct fail_grabbed borrows
  click_direct-Holds policy gen pid b q double s e h =
      split P (human_grabbed P token gen s.world) _ _ s (λ _ g. g)
        (λ f g.
          (let a = resolved_click q b double in
            let (r, s1) = emit (executed a) (D.execute_with_cancel a token) s in
            after_direct-Holds policy gen pid b q double r s1 e (
              carry_input P {s = s} refl (steady.execute a token s.world)
                (record {
                  permitted = λ t. absurd (cc);
                  live = λ _. grabbed-live P token gen s.world f;
                })
                g)))
        h

  pub dispatch_click-Holds :
      (b : MouseButton) (q : Point P) (double : Bool) (s : QueueState P)
      → Good s
      → Good (dispatch_click P D token display_id b q double s).1
  unfolding dispatch_click occlusion_verdict with_verdict
  dispatch_click-Holds b q double s h =
      (let gen = generation P s.world in
        let pid = target_pid P D token display_id s.world.session in
        let (v, s1) = hit_test P D token display_id q s.world.session.resolved_target s in
        split P (is_occluded v) _ _ s1 (λ _ g. click_occluded-Holds v gen pid q double s1 g)
          (λ _ g.
            click_direct-Holds s.world.session.pointer_policy gen pid b q double s1 h.policy g)
          (hit_test-Holds q s.world.session.resolved_target s h))
