-- ===== src/Act/Captured.antt =====
-- What is captured by an observation: window_scope, scope_region and check_crop.
use oc_computer_use.Prelude.{
  ℕ, ◌≡◌, refl, ap, ◌∙◌, Option, none, some, Bool, true, false, List, Option-cases, inl, inr, ◌||◌,
  is_some, if◌then◌else◌,
}
use oc_computer_use.Errors.{Text, CuError, Result, ok, err}
use oc_computer_use.Platform.{Platform}
use oc_computer_use.Session.{SessionTarget, DisplayBounds, ResolvedSessionTarget}
use oc_computer_use.Queue.{World}
use oc_computer_use.Screen.{
  CaptureRegion, DisplayInfo, crop, find_display, refresh_resolved_target, is_scoped,
}
use oc_computer_use.Exec.{answer, performs, ◌>>=◌}
use oc_computer_use.Exec.Rules.{
  Success, Success-then, fails_if-Success, checks-Success, reads-then, answer-Success,
}
use oc_computer_use.Act.{RuntimeConfig, CapturedFrame, Machine, Desk, calls}
use oc_computer_use.Act.Observe.{
  Scope, is_cropped, scope_of, window_scope, scope_region, check_crop, renamed,
}
use oc_computer_use.Act.Cleared.{not-false}
use oc_computer_use.Act.Fresh.{at_world, calls-Success}

module _ (P : Platform) where
  -- The image of a window is the crop that was asked for, give or take a pixel.
  pub IsCropOf : ℕ → Scope P → Option (CaptureRegion P) → CapturedFrame P → Type 0
  IsCropOf max_width none region c = Unit
  IsCropOf max_width (some _) none c = ⊥
  IsCropOf max_width (some _) (some q) c = is_cropped P max_width q c ≡ true

  module _ (config : RuntimeConfig P) (M : Machine P) where
    -- The window of an observation, looked for in `w`: none in a session that is about no window, or
    -- whose window has no bounds; else the window that a refresh finds, with its bounds.
    pub data IsScope (w : World P) : Scope P → World P → Type 0 where
      unscoped : w.session.target ≡ none → w.session.resolved_target ≡ none → IsScope w none w
      without_bounds :
          {w1 : World P} (r : ResolvedSessionTarget P)
          → is_scoped P M.screen w.session ≡ true
          → refresh_resolved_target P M.screen w ≡ (ok r, w1)
          → r.bounds ≡ none
          → IsScope w none w1
      with_bounds :
          {w1 : World P} (r : ResolvedSessionTarget P) (b : DisplayBounds P)
          → is_scoped P M.screen w.session ≡ true
          → refresh_resolved_target P M.screen w ≡ (ok r, w1)
          → r.bounds ≡ some b
          → IsScope w (some (b, r.window_id)) w1

    -- The part of the display that is captured: all of it, or what the window covers.
    pub data IsRegion (id : Text) (w : World P)
        : Scope P → Option (CaptureRegion P) → World P → Type 0 where
      whole : IsRegion id w none none w
      part :
          {w1 : World P} (b : DisplayBounds P) (n : ℕ) (ds : List (DisplayInfo P))
          (q : CaptureRegion P)
          → M.screen.list_displays w ≡ (ok ds, w1)
          → crop P M.screen b (find_display P M.screen id ds) ≡ ok (some q)
          → IsRegion id w (some (b, n)) (some q) w1

    no_target :
        (a : Option SessionTarget) (b : Option (ResolvedSessionTarget P))
        → is_some a || is_some b ≡ false
        → (a ≡ none) × (b ≡ none)
    no_target none none h = (refl, refl)
    no_target none (some _) h = absurd (cc)
    no_target (some _) b h = absurd (cc)

    refreshed :
        (w w1 : World P) (r : ResolvedSessionTarget P) (b : Option (DisplayBounds P))
        → is_scoped P M.screen w.session ≡ true
        → refresh_resolved_target P M.screen w ≡ (ok r, w1)
        → r.bounds ≡ b
        → IsScope w (scope_of P r) w1
    refreshed w w1 r none h e k = rw k (without_bounds r h e k)
    refreshed w w1 r (some b) h e k = rw k (with_bounds r b h e k)

    pub window_scope-Success :
        (d : Desk P)
        → Success
            (λ sc s. (w : World P) × IsScope d.world sc w × (s ≡ at_world P w d))
            (window_scope P config M d)
    unfolding window_scope
    window_scope-Success d = reads-then _ _ _ d (go (is_scoped P M.screen d.world.session) refl)
      where
        go :
            (b : Bool)
            → is_scoped P M.screen d.world.session ≡ b
            → Success
                (λ sc s. (w : World P) × IsScope d.world sc w × (s ≡ at_world P w d))
                ((if b
                    then (calls P (refresh_resolved_target P M.screen)
                        >>= λ (r : ResolvedSessionTarget P). answer (scope_of P r))
                    else answer none)
                  d)
        go false e =
            (let (a, b) = no_target d.world.session.target d.world.session.resolved_target e in
              answer-Success _ _ d (d.world, unscoped a b, refl))
        go true e =
            Success-then _ _ _ _ d (calls-Success P (refresh_resolved_target P M.screen) d)
              λ r s (w1, found, same).
                answer-Success _ _ s (w1, refreshed d.world w1 r r.bounds e found refl, same)

    crop-some :
        (b : DisplayBounds P) (f : Option (DisplayInfo P)) (o : Option (CaptureRegion P))
        → crop P M.screen b f ≡ ok o
        → (q : CaptureRegion P) × (o ≡ some q)
    crop-some b none o e = absurd (cc)
    crop-some b (some i) o e = elim (Option-cases o) [ inl n ↦ absurd (cc) | inr found ↦ found ]

    pub scope_region-Success :
        (id : Text) (sc : Scope P) (d : Desk P)
        → Success
            (λ region s. (w : World P) × IsRegion id d.world sc region w × (s ≡ at_world P w d))
            (scope_region P config M id sc d)
    unfolding scope_region
    scope_region-Success id none d = answer-Success _ _ d (d.world, whole, refl)
    scope_region-Success id (some (b, n)) d =
        Success-then _ _ _ _ d (calls-Success P M.screen.list_displays d) λ ds s (w1, listed, same).
          checks-Success _ _ s λ o e.
            (let (q, k) = crop-some b (find_display P M.screen id ds) o e in
              (w1, rw k (part b n ds q listed (e ∙ ap ok k)), same))

    -- A capture that is not the crop is no success.
    pub check_crop-Success :
        (id : Text) (n : ℕ) (sc : Scope P) (region : Option (CaptureRegion P)) (c : CapturedFrame P)
        (w w1 : World P) (d : Desk P)
        → IsRegion id w sc region w1
        → Success (λ _ s. IsCropOf n sc region c × (s ≡ d)) (check_crop P config M n region c d)
    unfolding check_crop IsCropOf
    check_crop-Success id n none none c w _ d whole = answer-Success _ _ d (tt, refl)
    check_crop-Success id n none (some q) c w w1 d h = elim h [ ]
    check_crop-Success id n (some _) none c w w1 d h = elim h [ ]
    check_crop-Success id n (some _) (some q) c w _ d (part _ _ _ _ _ _) =
        fails_if-Success _ _ _ d λ e. (not-false _ e, refl)

    -- A call whose error is renamed.
    pub renamed-Success :
        {A : Type 0} (e : CuError) (f : World P → Result A × World P) (d : Desk P)
        → Success
            (λ a s. (w : World P) × (f d.world ≡ (ok a, w)) × (s ≡ at_world P w d))
            (calls P (λ w. renamed P config M e (f w)) d)
    unfolding calls performs
    renamed-Success {A = A} e f d = go (f d.world).0 (f d.world).1 refl
      where
        go :
            (r : Result A) (w : World P)
            → f d.world ≡ (r, w)
            → (let (q, v) = renamed P config M e (r, w) in
                Success
                  (λ a s. (u : World P) × (f d.world ≡ (ok a, u)) × (s ≡ at_world P u d))
                  (some q, at_world P v d))
        go (ok a) w k = (w, k, refl)
        go (err x) w k = tt
