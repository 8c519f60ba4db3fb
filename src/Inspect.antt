-- ===== src/Inspect.antt =====
-- `inspect` of cu-runtime/src/runtime.rs with clamp_region_to_window, and
-- image_pixel_to_normalized_1000 of cu-core/src/coordinates.rs.
pub mod Guarded
use oc_computer_use.Prelude.{
  ℕ, ◌*◌, ltb, Option, none, some, Bool, true, false, ◌||◌, if◌then◌else◌,
}
use oc_computer_use.Errors.{Text, CuError, Result, ok, err}
use oc_computer_use.Platform.{Platform}
use oc_computer_use.Session.{Point, DisplayBounds, ResolvedSessionTarget, verify_read_tokens}
use oc_computer_use.Policy.{unwrap_or}
use oc_computer_use.Coordinates.{
  CoordinateSpace, ImageGeometry, Region, PixelRect, scale_factor, normalized_1000_to_global,
  image_pixel_to_global, global_to_image_pixel, to_image_pixels, at_least_one,
}
use oc_computer_use.Frames.{StoredFrame, get}
use oc_computer_use.Screen.{refresh_resolved_target, is_scoped}
use oc_computer_use.Exec.{answer, reads, checks, ◌>>=◌, ◌>>◌}
use oc_computer_use.Act.{Machine, Desk, Step, calls}
use oc_computer_use.Act.Admit.{geometry_of, known_frame}

-- The `image` crate, on images of a type of its own: decoding, cropping, resizing, and the encoded
-- crop.
pub record Codec : Type 1 where
  pub Image : Type 0
  pub decode : ℕ → Result Image
  pub crop_imm : ℕ → ℕ → ℕ → ℕ → Image → Image
  pub resize : ℕ → ℕ → Image → Image
  pub encode : Image → Result ℕ

-- `saturating_mul` on `u32`.
abbrev pub saturating_mul : ℕ → ℕ → ℕ
saturating_mul a b = if ltb (a * b) 4294967296 then a * b else 4294967295

module _ (P : Platform) where
  open P use {
    F64, of_ℕ, f64_div, f64_mul, f64_add, f64_sub, f64_max, f64_min, f64_le, f64_round, f64_epsilon,
    to_u32,
  }

  unfoldable pub image_pixel_to_normalized_1000 : ImageGeometry P → ℕ → ℕ → Point P
  image_pixel_to_normalized_1000 g px py = record {
    x = f64_div (f64_mul (of_ℕ px) (of_ℕ 1000)) (of_ℕ (at_least_one g.image_width_px));
    y = f64_div (f64_mul (of_ℕ py) (of_ℕ 1000)) (of_ℕ (at_least_one g.image_height_px));
  }

  -- Two opposite corners, in global points or in the image.
  pub record Corners : Type 0 where
    pub x0 : F64
    pub y0 : F64
    pub x1 : F64
    pub y1 : F64

  abbrev pub corners : Point P → Point P → Corners
  corners a b = record { x0 = a.x; y0 = a.y; x1 = b.x; y1 = b.y }

  abbrev pub both_corners : Result (Point P) → Result (Point P) → Result Corners
  both_corners (err e) _ = err e
  both_corners (ok a) (err e) = err e
  both_corners (ok a) (ok b) = ok (corners a b)

  unfoldable pub global_corners : CoordinateSpace → ImageGeometry P → Region P → Result Corners
  global_corners CoordinateSpace.normalized_1000 g r =
      both_corners (normalized_1000_to_global P g r.x r.y)
        (normalized_1000_to_global P g (f64_add r.x r.width) (f64_add r.y r.height))
  global_corners CoordinateSpace.image_pixels g r = ok (
      corners (image_pixel_to_global P g (to_u32 (f64_round r.x)) (to_u32 (f64_round r.y))) (
        image_pixel_to_global P g (to_u32 (f64_round (f64_add r.x r.width)))
          (to_u32 (f64_round (f64_add r.y r.height)))))

  unfoldable pub intersection : Corners → DisplayBounds P → Corners
  intersection c w = record {
    x0 = f64_max c.x0 w.x;
    y0 = f64_max c.y0 w.y;
    x1 = f64_min c.x1 (f64_add w.x w.width);
    y1 = f64_min c.y1 (f64_add w.y w.height);
  }

  abbrev pub is_void : Corners → Bool
  is_void c = f64_le c.x1 c.x0 || f64_le c.y1 c.y0

  abbrev pub region_between : CoordinateSpace → Point P → Point P → Region P
  region_between space a b = record {
    x = a.x;
    y = a.y;
    width = f64_sub b.x a.x;
    height = f64_sub b.y a.y;
    coordinate_space = space;
  }

  abbrev pub normalized_between :
      ImageGeometry P → Option (ℕ × ℕ) → Option (ℕ × ℕ) → Result (Region P)
  normalized_between g none _ = err CuError.out_of_bounds
  normalized_between g (some a) none = err CuError.out_of_bounds
  normalized_between g (some (ax, ay)) (some (bx, by)) = ok (
      region_between CoordinateSpace.normalized_1000 (image_pixel_to_normalized_1000 g ax ay)
        (image_pixel_to_normalized_1000 g bx by))

  abbrev pub pixel_at : ImageGeometry P → F64 → F64 → Point P
  pixel_at g x y =
      let s = f64_max (scale_factor P g) f64_epsilon in
      record {
        x = f64_round (f64_mul (f64_sub x g.display_bounds.x) s);
        y = f64_round (f64_mul (f64_sub y g.display_bounds.y) s);
      }

  -- The corners, back in the space of the region.
  unfoldable pub region_back : CoordinateSpace → ImageGeometry P → Corners → Result (Region P)
  unfolding image_pixel_to_normalized_1000
  region_back CoordinateSpace.normalized_1000 g c =
      normalized_between g (global_to_image_pixel P g (record { x = c.x0; y = c.y0 }))
        (global_to_image_pixel P g (record { x = c.x1; y = c.y1 }))
  region_back CoordinateSpace.image_pixels g c =
      ok (region_between CoordinateSpace.image_pixels (pixel_at g c.x0 c.y0) (pixel_at g c.x1 c.y1))

  abbrev pub clamp_corners :
      CoordinateSpace → ImageGeometry P → DisplayBounds P → Result Corners → Result (Region P)
  clamp_corners space g w (err e) = err e
  clamp_corners space g w (ok c) =
      if is_void (intersection c w)
      then err CuError.out_of_bounds
      else region_back space g (intersection c w)

  unfoldable pub clamp_region_to_window :
      ImageGeometry P → Region P → DisplayBounds P → Result (Region P)
  unfolding global_corners intersection region_back
  clamp_region_to_window g r w =
      clamp_corners r.coordinate_space g w (global_corners r.coordinate_space g r)

  pub record InspectParams : Type 0 where
    pub session_id : Text
    pub frame_id : Text
    pub region : Region P
    pub observation_token : Option Text
    pub control_token : Option Text
    pub scale : Option ℕ

  -- The rectangle of the image that is shown, and where its corner lies.
  pub record InspectResult : Type 0 where
    pub session_id : Text
    pub frame_id : Text
    pub width : ℕ
    pub height : ℕ
    pub image : ℕ
    pub source_image_rect : PixelRect P
    pub global_origin : Point P
    pub normalized_1000_origin : Point P

  module _ (M : Machine P) (codec : Codec) where
    open codec use {Image, decode, crop_imm, resize, encode}

    abbrev pub clamp_to : ImageGeometry P → Region P → Option (DisplayBounds P) → Result (Region P)
    clamp_to g r none = ok r
    clamp_to g r (some w) = clamp_region_to_window g r w

    -- The region inside of the session's window as it is now, if the session has one.
    unfoldable pub allowed_region : ImageGeometry P → Region P → Step P (Region P)
    unfolding clamp_region_to_window
    allowed_region g r = do
      scoped ← reads (λ d. is_scoped P M.screen d.world.session)
      if scoped
          then (do
            target ← calls P (refresh_resolved_target P M.screen)
            checks (λ _. clamp_to g r target.bounds))
          else answer r

    unfoldable pub enlarge : ℕ → ℕ → ℕ → Image → Image
    enlarge scale w h crop =
        if ltb 1 scale then resize (saturating_mul w scale) (saturating_mul h scale) crop else crop

    -- The pixels. A stored frame always has its image, as `observe` stored it.
    unfoldable pub render : InspectParams → StoredFrame P → PixelRect P → Step P ℕ
    unfolding enlarge
    render p f q = do
      img ← checks (λ _. decode f.frame.image)
      let scale = at_least_one (unwrap_or 1 p.scale)
      checks (λ _. encode (enlarge scale q.width q.height (crop_imm q.x q.y q.width q.height img)))

    abbrev pub inspected : InspectParams → ImageGeometry P → PixelRect P → ℕ → InspectResult
    inspected p g q image = record {
      session_id = p.session_id;
      frame_id = p.frame_id;
      width = q.width;
      height = q.height;
      image = image;
      source_image_rect = q;
      global_origin = image_pixel_to_global P g q.x q.y;
      normalized_1000_origin = image_pixel_to_normalized_1000 g q.x q.y;
    }

    -- `inspect`, from the session that it found on.
    unfoldable pub inspect_session : InspectParams → Step P InspectResult
    unfolding allowed_region render image_pixel_to_normalized_1000
    inspect_session p = do
      checks (λ d. verify_read_tokens P d.world.session p.observation_token p.control_token)
      stored ← checks (λ d. known_frame P p.frame_id (get P p.frame_id d.runtime.frames))
      region ← allowed_region (geometry_of P stored.frame) p.region
      rect ← checks (λ _. to_image_pixels P region (geometry_of P stored.frame))
      image ← render p stored rect
      answer (inspected p (geometry_of P stored.frame) rect image)
