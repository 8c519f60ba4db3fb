-- ===== src/Stale/Fresh.antt =====
-- Which frames pass the stale-frame check.
use oc_computer_use.Prelude.{ap}
use oc_computer_use.Stale.{judge}
use oc_computer_use.Prelude.{if◌then◌else◌}
use oc_computer_use.Stale.{Reason, content_changed, out_of_age_reason, Findings}
use oc_computer_use.Prelude.{
  ℕ, ◌≡◌, ◌↔◌, ◌⊎◌, inl, inr, ◌<◌, ◌+◌, ◌*◌, Option, none, some, Bool, true, false, not, ◌&&◌, List,
  [], ◌∷◌, ◌++◌, ◌==◌, ==_iff, arith, Bool-cases, ◌∙◌, sym, refl,
}
use oc_computer_use.Errors.{Text}
use oc_computer_use.Platform.{Platform}
use oc_computer_use.Frames.{ScreenSnapshot, change_score}
use oc_computer_use.Stale.{
  StaleFramePolicy, is_strict, second, out_of_age, apps_differ, StaleFrameConfig, check, check_app,
  check_pixels, check_age, found_difference, is_empty,
}

-- Neither application is unknown, and they are two.
abbrev pub SameApp : Option Text → Option Text → Type 0
SameApp (some a) (some b) = a ≡ b
SameApp _ _ = Unit {0}

apps_differ_iff : (a b : Option Text) → (apps_differ a b ≡ false) ↔ SameApp a b
apps_differ_iff none none = (λ _. tt, λ _. refl)
apps_differ_iff none (some b) = (λ _. tt, λ _. refl)
apps_differ_iff (some a) none = (λ _. tt, λ _. refl)
apps_differ_iff (some a) (some b) = (λ h. ground arith, λ h. ground arith)

-- The frame is from less than a second ahead of the clock, and less than a second over its age.
out_of_age_iff :
    (now captured max : ℕ)
    → (out_of_age now captured max ≡ false)
      ↔ ((captured < now + second) × (now < captured + (max + 1) * second))
unfolding out_of_age
out_of_age_iff now captured max = (λ h. ground arith, λ h. ground arith)

all_hold :
    (a b d e g : Bool)
    → not (not a && b && not d && not e && not g) ≡ false
    → (a ≡ false) × (b ≡ true) × (d ≡ false) × (e ≡ false) × (g ≡ false)
all_hold a b d e g h = ground arith

all_held :
    (a b d e g : Bool)
    → a ≡ false
    → b ≡ true
    → d ≡ false
    → e ≡ false
    → g ≡ false
    → not (not a && b && not d && not e && not g) ≡ false
all_held a b d e g ha hb hd he hg = ground arith

module _ (P : Platform) where
  open P use {F64, f64_lt}

  -- The pixels that can be compared differ by no more than the threshold.
  abbrev pub Close : F64 → Option F64 → Type 0
  Close threshold none = Unit {0}
  Close threshold (some d) = f64_lt threshold d ≡ false

  abbrev changed : F64 → Option F64 → Bool
  changed threshold none = false
  changed threshold (some d) = f64_lt threshold d

  changed_iff :
      (threshold : F64) (d : Option F64) → (changed threshold d ≡ false) ↔ Close threshold d
  changed_iff threshold none = (λ _. tt, λ _. refl)
  changed_iff threshold (some d) = (λ h. h, λ h. h)

  -- What the check asks of a frame, part by part.
  pub record IsFresh (config : StaleFrameConfig P) (now : ℕ) (referenced current : ScreenSnapshot)
      (referenced_id current_id : Text) : Type 0 where
    pub current_frame :
        (config.policy ≡ StaleFramePolicy.visual_match) ⊎ (referenced_id ≡ current_id)
    pub same_display : referenced.display_id ≡ current.display_id
    pub same_app :
        (config.app_change_is_stale ≡ false)
        ⊎ SameApp referenced.active_application current.active_application
    pub close : Close config.threshold (change_score P referenced current)
    pub not_ahead : referenced.captured_at < now + second
    pub not_old : now < referenced.captured_at + (config.max_age_secs + 1) * second

  is_empty-append : (rs : List Reason) (r : Reason) → is_empty (rs ++ r ∷ []) ≡ false
  is_empty-append [] r = refl
  is_empty-append (x ∷ rs) r = refl

  -- One step that may add a reason.
  adds :
      (b : Bool) (rs : List Reason) (r : Reason)
      → is_empty (if b then rs ++ r ∷ [] else rs) ≡ (is_empty rs && not b)
  adds true [] r = refl
  adds true (x ∷ rs) r = refl
  adds false [] r = refl
  adds false (x ∷ rs) r = refl

  check_age-adds :
      (config : StaleFrameConfig P) (now : ℕ) (referenced : ScreenSnapshot) (f : Findings P)
      → is_empty (check_age P config now referenced f).0
        ≡ (is_empty f.0 && not (out_of_age now referenced.captured_at config.max_age_secs))
  unfolding check_age
  check_age-adds config now referenced (rs, z) =
      elim (Bool-cases (out_of_age now referenced.captured_at config.max_age_secs)) [
        | inl h ↦ rw (h, check_age) (adds true rs out_of_age_reason)
        | inr h ↦ rw (h, check_age) (adds false rs out_of_age_reason)
      ]

  found_difference-adds :
      (config : StaleFrameConfig P) (d : Option F64) (f : Findings P)
      → is_empty (found_difference P config d f).0
        ≡ (is_empty f.0 && not (changed config.threshold d))
  found_difference-adds config none ([], z) = refl
  found_difference-adds config none (r ∷ rs, z) = refl
  found_difference-adds config (some d) (rs, z) =
      adds (f64_lt config.threshold d) rs content_changed

  check_app-adds :
      (config : StaleFrameConfig P) (referenced current : ScreenSnapshot) (z : F64)
      → is_empty (check_app P config referenced current ([], z)).0
        ≡ not (
            config.app_change_is_stale
            && apps_differ referenced.active_application current.active_application)
  unfolding check_app
  check_app-adds config referenced current z =
      elim (Bool-cases (
        config.app_change_is_stale
        && apps_differ referenced.active_application current.active_application)) [
          | inl h ↦ rw (h, check_app) refl
          | inr h ↦ rw (h, check_app) refl
        ]

  -- The three steps that collect reasons collect none just when each finds nothing.
  collected :
      (config : StaleFrameConfig P) (now : ℕ) (referenced current : ScreenSnapshot) (z : F64)
      → is_empty
          (check_age P config now referenced (
            check_pixels P config referenced current
              (check_app P config referenced current ([], z)))).0
        ≡ (not (
              config.app_change_is_stale
              && apps_differ referenced.active_application current.active_application)
            && not (changed config.threshold (change_score P referenced current))
            && not (out_of_age now referenced.captured_at config.max_age_secs))
  unfolding check_app check_pixels check_age
  collected config now referenced current z =
      (let f = check_app P config referenced current ([], z) in
        ground (
          arith,
          check_age-adds config now referenced (check_pixels P config referenced current f),
          found_difference-adds config (change_score P referenced current) f,
          check_app-adds config referenced current z,
        ))

  current_frame_iff :
      (p : StaleFramePolicy) (a b : Text)
      → ((is_strict p && not (a == b)) ≡ false) ↔ ((p ≡ StaleFramePolicy.visual_match) ⊎ (a ≡ b))
  current_frame_iff StaleFramePolicy.strict a b = (λ h. ground arith, λ h. ground arith)
  current_frame_iff StaleFramePolicy.visual_match a b = (λ h. inl refl, λ h. refl)

  SameApp-iff :
      (b : Bool) (x y : Option Text)
      → ((b && apps_differ x y) ≡ false) ↔ ((b ≡ false) ⊎ SameApp x y)
  SameApp-iff true x y = (
    λ h. inr ((apps_differ_iff x y).0 h),
    λ h. elim h [ inl e ↦ ground arith | inr e ↦ (apps_differ_iff x y).1 e ],
  )
  SameApp-iff false x y = (λ h. inl refl, λ h. refl)

  -- The five tests of the check, as the code evaluates them.
  abbrev suspect : StaleFrameConfig P → ℕ → ScreenSnapshot → ScreenSnapshot → Text → Text → Bool
  suspect config now referenced current referenced_id current_id =
      not (is_strict config.policy && not (referenced_id == current_id))
      && (referenced.display_id == current.display_id)
      && not (
          config.app_change_is_stale
          && apps_differ referenced.active_application current.active_application)
      && not (changed config.threshold (change_score P referenced current))
      && not (out_of_age now referenced.captured_at config.max_age_secs)

  check_judges :
      (config : StaleFrameConfig P) (now : ℕ) (r c : ScreenSnapshot) (r_id c_id : Text)
      → (is_strict config.policy && not (r_id == c_id)) ≡ false
      → (r.display_id == c.display_id) ≡ true
      → check P config now r c r_id c_id
        ≡ judge P r_id c_id (
            check_age P config now r
              (check_pixels P config r c (check_app P config r c ([], P.f64_zero))))
  unfolding check
  check_judges config now r c r_id c_id h d = rw (h, d, check) refl

  check_tests :
      (config : StaleFrameConfig P) (now : ℕ) (r c : ScreenSnapshot) (r_id c_id : Text)
      → (check P config now r c r_id c_id).is_stale ≡ not (suspect config now r c r_id c_id)
  unfolding check
  check_tests config now r c r_id c_id =
      elim (Bool-cases (is_strict config.policy && not (r_id == c_id))) [
        | inl h ↦ rw (h, check) refl
        | inr h ↦ elim (Bool-cases (r.display_id == c.display_id)) [
          | inr d ↦ rw (h, d, check) refl
          | inl d ↦
              ap (λ v. v.is_stale) (check_judges config now r c r_id c_id h d)
              ∙ ap not (collected config now r c P.f64_zero)
              ∙ rw (h, d) refl
        ]
      ]

  -- A frame is not stale just when it is the current one or the policy compares pictures, its
  -- display is still the same, no change of application counts against it, its pixels are close
  -- where they can be compared, it is less than a second ahead of the clock, and its age in whole
  -- seconds is within the limit.
  pub check_iff :
      (config : StaleFrameConfig P) (now : ℕ) (r c : ScreenSnapshot) (r_id c_id : Text)
      → ((check P config now r c r_id c_id).is_stale ≡ false) ↔ IsFresh config now r c r_id c_id
  check_iff config now r c r_id c_id =
      (let t = check_tests config now r c r_id c_id in
        let frame = current_frame_iff config.policy r_id c_id in
        let app =
          SameApp-iff config.app_change_is_stale r.active_application c.active_application in
        let pixels = changed_iff config.threshold (change_score P r c) in
        let age = out_of_age_iff now r.captured_at config.max_age_secs in
        (
          λ h.
              (let (a, b, d, e, g) = all_hold _ _ _ _ _ (sym t ∙ h) in
                record {
                  current_frame = frame.0 a;
                  same_display = (==_iff r.display_id c.display_id).0 b;
                  same_app = app.0 d;
                  close = pixels.0 e;
                  not_ahead = (age.0 g).0;
                  not_old = (age.0 g).1;
                }),
          λ x.
              t
              ∙ all_held _ _ _ _ _ (frame.1 x.current_frame)
                  ((==_iff r.display_id c.display_id).1 x.same_display) (app.1 x.same_app)
                  (pixels.1 x.close) (age.1 (x.not_ahead, x.not_old)),
        ))
