-- ===== src/Queue/Lawful.antt =====
-- Which inputs the queue may ask for: the rule, and the physical fallback under it.
pub mod Clicks
use oc_computer_use.Queue.Guards.{set_pointer_mode}
use oc_computer_use.Queue.Fallback.{
  finish_click, post_click, ripple, click_unless, visualize, warp_to, succeeded, is_idle_less_than,
  idle_of, found,
}
use oc_computer_use.Prelude.{
  ℕ, ◌≡◌, refl, ◌∙◌, sym, Option, none, some, Bool, true, false, List, [], ◌∷◌, not, ◌&&◌, ◌||◌,
  arith,
}
use oc_computer_use.Errors.{Text, Result, ok, err}
use oc_computer_use.Platform.{Platform}
use oc_computer_use.Session.{PointerPolicy, PointerMode, Point}
use oc_computer_use.Actions.{
  MouseButton, ResolvedAction, resolved_click, resolved_move, resolved_type, resolved_key,
  resolved_scroll, resolved_drag, resolved_wait,
}
use oc_computer_use.Queue.{
  World, Driver, Emission, Input, executed, pressed, clicked, QueueState, ActionResult, call, put,
}
use oc_computer_use.Queue.Guards.{is_physical, human_grabbed, stamp_synthetic, generation}
use oc_computer_use.Queue.Steady.{IsSteady, Holds, carry, carry_input, split, stamp-Holds}
use oc_computer_use.Queue.Fallback.{
  fail, fail_grabbed, give_back, click_warped, borrow_pointer, fallback_from,
  physical_fallback_click,
}

pub is_physical-true :
    (p : PointerPolicy) → is_physical p ≡ true → p ≡ PointerPolicy.physical_allowed
is_physical-true PointerPolicy.physical_allowed h = refl
is_physical-true PointerPolicy.isolated_only h = absurd (cc)
is_physical-true PointerPolicy.isolated_preferred h = absurd (cc)

or_false : (a b : Bool) → (a || b) ≡ false → b ≡ false
or_false a b h = ground arith

module _ (P : Platform) where
  -- The inputs that move the real cursor: a move that the queue itself asks for, a drag, a scroll at
  -- a place, and a physical click.
  unfoldable pub borrows : Input P → Bool
  borrows (executed (resolved_move _ _ _)) = true
  borrows (executed (resolved_drag _ _ _)) = true
  borrows (executed (resolved_scroll (some _) _ _)) = true
  borrows (clicked _ _ _) = true
  borrows _ = false

  -- The clicks of every kind, the drags and the scrolls.
  unfoldable pub acts : Input P → Bool
  acts (executed (resolved_click _ _ _)) = true
  acts (executed (resolved_drag _ _ _)) = true
  acts (executed (resolved_scroll _ _ _)) = true
  acts (executed _) = false
  acts (pressed _ _) = true
  acts (clicked _ _ _) = true

  -- The real cursor is moved under the physical policy only, and clicks, drags and scrolls are asked
  -- for while the batch's token is live.
  pub record IsLawful (p : PointerPolicy) (token : P.Token) (e : Emission P) : Type 0 where
    pub permitted : borrows e.input ≡ true → p ≡ PointerPolicy.physical_allowed
    pub live : acts e.input ≡ true → P.is_cancelled token e.at.store ≡ false

  pub grabbed-live :
      (token : P.Token) (gen : Option ℕ) (w : World P)
      → human_grabbed P token gen w ≡ false
      → P.is_cancelled token w.store ≡ false
  unfolding human_grabbed
  grabbed-live token gen w h = ground arith

  module _ (D : Driver P) (steady : IsSteady P D) (token : P.Token) (display_id : Text)
      (p : PointerPolicy) (physical : p ≡ PointerPolicy.physical_allowed) where
    abbrev Good : QueueState P → Type 0
    Good = Holds P (IsLawful p token) p

    abbrev Live : QueueState P → Type 0
    Live s = P.is_cancelled token s.world.store ≡ false

    give_back-Holds :
        (home q : Point P) (result : Result Bool) (s : QueueState P)
        → Live s
        → Good s
        → Good (give_back P D token display_id home q result s).1
    unfolding give_back acts
    give_back-Holds home q result s l h =
        carry_input P refl (steady.visualized _ _ _ _ ∙ steady.execute _ _ _)
          (record { permitted = λ _. physical; live = λ _. l }) h

    finish_click-Holds :
        (home q : Point P) (result : Result Bool) (grabbed : Bool) (s : QueueState P)
        → (grabbed ≡ false → Live s)
        → Good s
        → Good (finish_click P D token display_id home q result grabbed s).1
    unfolding finish_click
    finish_click-Holds home q result true s l h = carry P refl (steady.hidden _) h
    finish_click-Holds home q result false s l h = give_back-Holds home q result s (l refl) h

    post_click_policy :
        (b : MouseButton) (q : Point P) (double : Bool) (s : QueueState P)
        → (post_click P D token display_id b q double s).1.world.session.pointer_policy
          ≡ s.world.session.pointer_policy
    post_click_policy b q true s = steady.physical_double b q s.world
    post_click_policy b q false s = steady.physical b q s.world

    click_warped-Holds :
        (b : MouseButton) (q : Point P) (double : Bool) (home : Point P) (gen : Option ℕ)
        (s : QueueState P)
        → Live s
        → Good s
        → Good (click_warped P D token display_id b q double home gen s).1
    unfolding click_warped stamp_synthetic acts
    click_warped-Holds b q double home gen s l h =
        (let s1 = (stamp_synthetic P s).1 in
          let (result, s2) = post_click P D token display_id b q double s1 in
          let s3 = (ripple P D token display_id q s2).1 in
          finish_click-Holds home q result (human_grabbed P token gen s3.world) s3
            (grabbed-live token gen s3.world)
            (carry_input P {s = s} refl (steady.ripple q s2.world ∙ post_click_policy b q double s1)
              (record { permitted = λ _. physical; live = λ _. l }) h))

    click_unless-Holds :
        (b : MouseButton) (q : Point P) (double : Bool) (home : Point P) (gen : Option ℕ)
        (stop : Bool) (s : QueueState P)
        → (stop ≡ false → Live s)
        → Good s
        → Good (click_unless P D token display_id b q double home gen stop s).1
    unfolding click_unless fail_grabbed
    click_unless-Holds b q double home gen true s l h = carry P refl (steady.hidden _) h
    click_unless-Holds b q double home gen false s l h =
        click_warped-Holds b q double home gen s (l refl) h

    borrow_pointer-Holds :
        (b : MouseButton) (q : Point P) (double : Bool) (home : Point P) (gen : Option ℕ)
        (s : QueueState P)
        → Good s
        → Good (borrow_pointer P D token display_id b q double home gen s).1
    unfolding borrow_pointer stamp_synthetic acts
    borrow_pointer-Holds b q double home gen s h =
        (let s1 =
            (visualize P D token display_id home PointerMode.physical_fallback
              (put (set_pointer_mode P PointerMode.physical_fallback) s).1).1 in
          let s2 = (stamp_synthetic P s1).1 in
          let (warp, s3) = warp_to P D token display_id home q s2 in
          let grabbed = human_grabbed P token gen s3.world in
          click_unless-Holds b q double home gen (not (succeeded warp) || grabbed) s3
            (λ e. grabbed-live token gen s3.world (or_false (not (succeeded warp)) grabbed e))
            (carry_input P {s = s} refl (steady.execute _ _ s2.world ∙ steady.visualized _ _ _ _)
              (record { permitted = λ _. physical; live = λ e. absurd (cc) }) h))

    fallback_from-Holds :
        (b : MouseButton) (q : Point P) (double : Bool) (gen : Option ℕ) (home : Option (Point P))
        (s : QueueState P)
        → Good s
        → Good (fallback_from P D token display_id b q double gen home s).1
    fallback_from-Holds b q double gen none s h = h
    fallback_from-Holds b q double gen (some home) s h =
        split P (is_idle_less_than P D token display_id 2 (idle_of P D token display_id s.world)) _
          _ s (λ _ g. g)
          (λ _ g.
            split P (human_grabbed P token gen s.world) _ _ s (λ _ k. k)
              (λ _ k. borrow_pointer-Holds b q double home gen s k) g)
          h

    pub physical_fallback_click-Holds :
        (b : MouseButton) (q : Point P) (double : Bool) (s : QueueState P)
        → Good s
        → Good (physical_fallback_click P D token display_id b q double s).1
    unfolding physical_fallback_click
    physical_fallback_click-Holds b q double s h =
        (let (before, s1) = call D.pointer_location s in
          fallback_from-Holds b q double (generation P s1.world) (found before) s1
            (carry P {s = s} refl (steady.location s.world) h))
