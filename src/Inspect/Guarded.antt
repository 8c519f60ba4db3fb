-- ===== src/Inspect/Guarded.antt =====
-- Who may inspect, and what is shown.
use oc_computer_use.Prelude.{
  ℕ, ◌≡◌, ◌≤◌, ◌<◌, refl, Option, none, some, Bool, true, false, ltb, arith, Bool-cases, inl, inr,
  if◌then◌else◌,
}
use oc_computer_use.Errors.{Result, ok, err}
use oc_computer_use.Platform.{Platform}
use oc_computer_use.Session.{verify_read_tokens, ResolvedSessionTarget, DisplayBounds}
use oc_computer_use.Policy.{unwrap_or}
use oc_computer_use.Queue.{World}
use oc_computer_use.Coordinates.{Region, PixelRect, ImageGeometry, to_image_pixels, at_least_one}
use oc_computer_use.Frames.{StoredFrame, get}
use oc_computer_use.Screen.{is_scoped, refresh_resolved_target}
use oc_computer_use.Exec.{checks, performs, answer, ◌>>=◌}
use oc_computer_use.Exec.Rules.{
  Success, Success-then, Success-at, checks-then, checks-Success, reads-then, answer-Success,
}
use oc_computer_use.Act.{Machine, Desk, calls}
use oc_computer_use.Act.Admit.{geometry_of}
use oc_computer_use.Act.Cleared.{is_known}
use oc_computer_use.Inspect.{
  Codec, InspectParams, InspectResult, Corners, global_corners, intersection, is_void, region_back,
  clamp_corners, clamp_to, clamp_region_to_window, saturating_mul, enlarge, render, allowed_region,
  inspect_session,
}

module _ (P : Platform) (M : Machine P) (codec : Codec) where
  open codec use {Image, decode, crop_imm, resize, encode}

  -- The corners of the part of both.
  abbrev pub overlap : Corners P → DisplayBounds P → Corners P
  overlap c w = record {
    x0 = P.f64_max c.x0 w.x;
    y0 = P.f64_max c.y0 w.y;
    x1 = P.f64_min c.x1 (P.f64_add w.x w.width);
    y1 = P.f64_min c.y1 (P.f64_add w.y w.height);
  }

  -- The region cut to a window: as it is, for a window that has no bounds; else the part between the
  -- greater of the near and the lesser of the far corners, which is not void, in the region's space.
  pub IsCut : ImageGeometry P → Region P → Option (DisplayBounds P) → Region P → Type 0
  IsCut g asked none shown = shown ≡ asked
  IsCut g asked (some w) shown =
      (c : Corners P) × (global_corners P asked.coordinate_space g asked ≡ ok c)
      × (is_void P (overlap c w) ≡ false)
      × (region_back P asked.coordinate_space g (overlap c w) ≡ ok shown)

  -- The region that is shown, of an inspection in `d`: what was asked for or, in a session with a
  -- target, what was asked for cut to the session's window as a refresh in `d` finds it.
  pub data IsAllowed (d : Desk P) (f : StoredFrame P) (asked : Region P)
      : Bool → Region P → Type 0 where
    unscoped : IsAllowed d f asked false asked
    cut :
        {shown : Region P} (window : ResolvedSessionTarget P)
        → (refresh_resolved_target P M.screen d.world).0 ≡ ok window
        → IsCut (geometry_of P f.frame) asked window.bounds shown
        → IsAllowed d f asked true shown

  -- The picture of the rectangle `q` of the image: its pixels, enlarged if a scale over one is asked for.
  pub data IsPicture (img : Image) (q : PixelRect P) (scale : ℕ) (picture : Image) : Type 0 where
    as_it_is :
        scale ≤ 1 → picture ≡ crop_imm q.x q.y q.width q.height img → IsPicture img q scale picture
    enlarged :
        1 < scale
        → picture
          ≡ resize
              (saturating_mul q.width scale)
              (saturating_mul q.height scale)
              (crop_imm q.x q.y q.width q.height img)
        → IsPicture img q scale picture

  -- The result `r` of an inspection that began in `d`.
  pub record IsInspected (p : InspectParams P) (d : Desk P) (r : InspectResult P) : Type 0 where
    pub permitted : verify_read_tokens P d.world.session p.observation_token p.control_token ≡ ok tt
    pub frame : StoredFrame P
    pub known : get P p.frame_id d.runtime.frames ≡ some frame
    pub shown : Region P
    pub allowed : IsAllowed d frame p.region (is_scoped P M.screen d.world.session) shown
    pub rect : to_image_pixels P shown (geometry_of P frame.frame) ≡ ok r.source_image_rect
    pub img : Image
    pub decoded : decode frame.frame.image ≡ ok img
    pub picture : Image
    pub drawn : IsPicture img r.source_image_rect (at_least_one (unwrap_or 1 p.scale)) picture
    pub encoded : encode picture ≡ ok r.image

  clamp_to-IsCut :
      (g : ImageGeometry P) (asked : Region P) (b : Option (DisplayBounds P)) (shown : Region P)
      → clamp_to P M codec g asked b ≡ ok shown
      → IsCut g asked b shown
  unfolding IsCut clamp_region_to_window intersection
  clamp_to-IsCut g asked none shown h = cc
  clamp_to-IsCut g asked (some w) shown h =
      go (global_corners P asked.coordinate_space g asked) refl h
    where
      go :
          (r : Result (Corners P))
          → global_corners P asked.coordinate_space g asked ≡ r
          → clamp_corners P asked.coordinate_space g w r ≡ ok shown
          → IsCut g asked (some w) shown
      go (err e) k h = absurd (cc)
      go (ok c) k h = elim (Bool-cases (is_void P (overlap c w))) [
        | inl void ↦ absurd (ground arith)
        | inr part ↦ (c, k, part, ground arith)
      ]

  calls-Success :
      {A : Type 0} (f : World P → Result A × World P) (d : Desk P)
      → Success (λ a _. (f d.world).0 ≡ ok a) (calls P f d)
  unfolding calls performs
  calls-Success f d = let (r, w) = f d.world in answered r (record d { world = w })
    where
      answered : {A : Type 0} (r : Result A) (d : Desk P) → Success (λ a _. r ≡ ok a) (some r, d)
      answered (ok a) d = refl
      answered (err e) d = tt

  allowed_region-Success :
      (f : StoredFrame P) (asked : Region P) (d : Desk P)
      → Success
          (λ shown _. IsAllowed d f asked (is_scoped P M.screen d.world.session) shown)
          (allowed_region P M codec (geometry_of P f.frame) asked d)
  unfolding allowed_region
  allowed_region-Success f asked d = reads-then _ _ _ d (go (is_scoped P M.screen d.world.session))
    where
      go :
          (b : Bool)
          → Success
              (λ shown _. IsAllowed d f asked b shown)
              ((if b
                  then (calls P (refresh_resolved_target P M.screen)
                      >>= λ (w : ResolvedSessionTarget P).
                          checks (λ _. clamp_to P M codec (geometry_of P f.frame) asked w.bounds))
                  else answer asked)
                d)
      go true =
          Success-then _ (λ w _. (refresh_resolved_target P M.screen d.world).0 ≡ ok w) _ _ d
            (calls-Success (refresh_resolved_target P M.screen) d)
            λ w d1 found.
              checks-Success _ _ d1 λ shown e. cut w found (clamp_to-IsCut _ asked w.bounds shown e)
      go false = answer-Success _ _ d unscoped

  IsRendered : InspectParams P → StoredFrame P → PixelRect P → ℕ → Type 0
  IsRendered p f q image =
      (img : Image) × (decode f.frame.image ≡ ok img)
      × (picture : Image) × IsPicture img q (at_least_one (unwrap_or 1 p.scale)) picture
      × (encode picture ≡ ok image)

  enlarge-IsPicture :
      (img : Image) (q : PixelRect P) (scale : ℕ)
      → IsPicture img q scale
          (enlarge P M codec scale q.width q.height (crop_imm q.x q.y q.width q.height img))
  unfolding enlarge
  enlarge-IsPicture img q scale = elim (Bool-cases (ltb 1 scale)) [
    | inl e ↦ enlarged (ground arith) (rw e refl)
    | inr e ↦ as_it_is (ground arith) (rw e refl)
  ]

  render-IsRendered :
      (p : InspectParams P) (f : StoredFrame P) (q : PixelRect P) (d : Desk P)
      → Success (λ image _. IsRendered p f q image) (render P M codec p f q d)
  unfolding render IsRendered
  render-IsRendered p f q d = checks-then _ _ _ d λ img decoded.
      checks-Success _ _ d λ image encoded.
        (img, decoded, _, enlarge-IsPicture img q (at_least_one (unwrap_or 1 p.scale)), encoded)

  inspect_session-Success :
      (p : InspectParams P) (d : Desk P)
      → Success (λ r _. IsInspected p d r) (inspect_session P M codec p d)
  unfolding inspect_session IsRendered
  inspect_session-Success p d = checks-then _ _ _ d λ _ permitted. checks-then _ _ _ d λ f known.
      Success-then _
        (λ shown _. IsAllowed d f p.region (is_scoped P M.screen d.world.session) shown) _ _ d
        (allowed_region-Success f p.region d)
        λ shown d1 allowed. checks-then _ _ _ d1 λ q rect.
          Success-then _ (λ image _. IsRendered p f q image) _ _ d1 (render-IsRendered p f q d1)
            λ image d2 (img, decoded, picture, drawn, encoded). answer-Success _ _ d2 (record {
              permitted = permitted;
              frame = f;
              known = is_known P _ _ f known;
              shown = shown;
              allowed = allowed;
              rect = rect;
              img = img;
              decoded = decoded;
              picture = picture;
              drawn = drawn;
              encoded = encoded;
            })

  -- An inspection that succeeds was permitted by a token of the session, and shows a part of the
  -- frame that it names: the pixels, enlarged by the scale that was asked for, of the region that was
  -- asked for or, in a session with a target, of that region cut to the bounds of the session's window
  -- as a refresh at that moment finds it, if it has bounds.
  pub inspect_session-IsInspected :
      (p : InspectParams P) (d : Desk P) {r : InspectResult P}
      → (inspect_session P M codec p d).0 ≡ some (ok r)
      → IsInspected p d r
  inspect_session-IsInspected p d h = Success-at _ _ (inspect_session-Success p d) h
