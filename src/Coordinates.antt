-- ===== src/Coordinates.antt =====
-- cu-core/src/coordinates.rs: the spaces that a caller gives a location in, and the conversions
-- between them and the desktop's global points.
pub mod Inside
use oc_computer_use.Prelude.{
  ℕ, ◌+◌, ◌-◌, ◌<◌, ◌%◌, Option, none, some, Bool, true, false, not, ◌&&◌, ◌||◌, ltb, leb,
  if◌then◌else◌, ℤ, pos, negsuc,
}
use oc_computer_use.Errors.{CuError, Result, ok, err}
use oc_computer_use.Platform.{Platform}
use oc_computer_use.Session.{Point, DisplayBounds}

pub data CoordinateSpace : Type 0 where
  normalized_1000 image_pixels : CoordinateSpace

-- The cast `as u32` of an `i64`.
abbrev pub as_u32 : ℤ → ℕ
as_u32 (pos n) = n % 4294967296
as_u32 (negsuc n) = 4294967295 - n % 4294967296

-- What is negative or not below the bound.
abbrev pub off_axis : ℤ → ℕ → Bool
off_axis (pos n) bound = leb bound n
off_axis (negsuc n) bound = true

-- `+` of two `i64`, which wraps in a release build. Both arguments are in range.
abbrev pub add_i64 : ℤ → ℤ → ℤ
add_i64 (pos a) (pos b) =
    if ltb (a + b) 9223372036854775808 then pos (a + b) else negsuc (18446744073709551615 - (a + b))
add_i64 (pos a) (negsuc b) = if ltb b a then pos (a - b - 1) else negsuc (b - a)
add_i64 (negsuc a) (pos b) = if ltb a b then pos (b - a - 1) else negsuc (a - b)
add_i64 (negsuc a) (negsuc b) =
    if ltb (a + b + 1) 9223372036854775808
    then negsuc (a + b + 1)
    else pos (18446744073709551614 - (a + b))

abbrev pub past : ℤ → ℕ → Bool
past (pos e) bound = ltb bound e
past (negsuc e) bound = false

-- Whether a span from `x` of `w` is off the axis: it starts below zero or ends past the bound.
abbrev pub off_span : ℤ → ℤ → ℕ → Bool
off_span (negsuc n) w bound = true
off_span (pos n) w bound = past (add_i64 (pos n) w) bound

abbrev pub at_least_one : ℕ → ℕ
at_least_one n = if ltb n 1 then 1 else n

module _ (P : Platform) where
  open P use {
    F64, f64_zero, f64_one, of_ℕ, f64_div, f64_max, f64_lt, f64_le, f64_add, f64_sub, f64_mul,
    f64_round, f64_clamp, f64_epsilon, to_u32, to_i64,
  }

  -- The pixel counts are `u32`.
  pub record ImageGeometry : Type 0 where
    pub image_width_px : ℕ
    pub image_height_px : ℕ
    pub display_bounds : DisplayBounds P

  pub record Region : Type 0 where
    pub x : F64
    pub y : F64
    pub width : F64
    pub height : F64
    pub coordinate_space : CoordinateSpace

  pub record PixelRect : Type 0 where
    pub x : ℕ
    pub y : ℕ
    pub width : ℕ
    pub height : ℕ

  unfoldable pub contains_global : DisplayBounds P → Point P → Bool
  contains_global b p =
      f64_le b.x p.x
      && f64_le p.x (f64_add b.x b.width)
      && f64_le b.y p.y
      && f64_le p.y (f64_add b.y b.height)

  unfoldable pub scale_factor : ImageGeometry → F64
  scale_factor g =
      if f64_lt f64_zero g.display_bounds.width
      then f64_div (of_ℕ g.image_width_px) g.display_bounds.width
      else f64_one

  abbrev pub thousand : F64
  thousand = of_ℕ 1000

  abbrev pub in_thousand : F64 → Bool
  in_thousand v = f64_le f64_zero v && f64_le v thousand

  unfoldable pub normalized_1000_in_bounds : F64 → F64 → Bool
  normalized_1000_in_bounds x y = in_thousand x && in_thousand y

  -- One axis: the pixel that is nearest, kept inside the image.
  unfoldable pub nearest_pixel : F64 → ℕ → ℕ
  nearest_pixel v size =
      to_u32 (
        f64_clamp (f64_round (f64_mul (f64_div v thousand) (of_ℕ size))) f64_zero (of_ℕ (size - 1)))

  unfoldable pub normalized_1000_to_image_pixel : ImageGeometry → F64 → F64 → Result (ℕ × ℕ)
  unfolding normalized_1000_in_bounds
  normalized_1000_to_image_pixel g x y =
      if normalized_1000_in_bounds x y
      then ok (nearest_pixel x g.image_width_px, nearest_pixel y g.image_height_px)
      else err CuError.out_of_bounds

  unfoldable pub image_pixel_to_global : ImageGeometry → ℕ → ℕ → Point P
  unfolding scale_factor
  image_pixel_to_global g px py =
      let s = f64_max (scale_factor g) f64_epsilon in
      record {
        x = f64_add g.display_bounds.x (f64_div (of_ℕ px) s);
        y = f64_add g.display_bounds.y (f64_div (of_ℕ py) s);
      }

  abbrev pub pixel_point : ImageGeometry → Result (ℕ × ℕ) → Result (Point P)
  pixel_point g (err e) = err e
  pixel_point g (ok (px, py)) = ok (image_pixel_to_global g px py)

  unfoldable pub normalized_1000_to_global : ImageGeometry → F64 → F64 → Result (Point P)
  normalized_1000_to_global g x y = pixel_point g (normalized_1000_to_image_pixel g x y)

  unfoldable pub global_to_image_pixel : ImageGeometry → Point P → Option (ℕ × ℕ)
  global_to_image_pixel g p =
      let s = f64_max (scale_factor g) f64_epsilon in
      let px = f64_round (f64_mul (f64_sub p.x g.display_bounds.x) s) in
      let py = f64_round (f64_mul (f64_sub p.y g.display_bounds.y) s) in
      if not (contains_global g.display_bounds p)
      then none
      else if f64_lt px f64_zero
          || f64_lt py f64_zero
          || f64_le (of_ℕ g.image_width_px) px
          || f64_le (of_ℕ g.image_height_px) py
      then none
      else some (to_u32 px, to_u32 py)

  unfoldable pub to_global : ImageGeometry → CoordinateSpace → Point P → Result (Point P)
  to_global g CoordinateSpace.normalized_1000 p = normalized_1000_to_global g p.x p.y
  to_global g CoordinateSpace.image_pixels p =
      let px = to_i64 (f64_round p.x) in
      let py = to_i64 (f64_round p.y) in
      if off_axis px g.image_width_px || off_axis py g.image_height_px
      then err CuError.out_of_bounds
      else ok (image_pixel_to_global g (as_u32 px) (as_u32 py))

  abbrev pub corners_rect : Result (ℕ × ℕ) → Result (ℕ × ℕ) → Result PixelRect
  corners_rect (err e) _ = err e
  corners_rect (ok a) (err e) = err e
  corners_rect (ok (px, py)) (ok (px2, py2)) =
      ok (record {
        x = px;
        y = py;
        width = at_least_one (px2 - px);
        height = at_least_one (py2 - py);
      })

  abbrev pub pixels_rect : ℤ → ℤ → ℤ → ℤ → ImageGeometry → Result PixelRect
  pixels_rect x y w h g =
      if off_span x w g.image_width_px || off_span y h g.image_height_px
      then err CuError.out_of_bounds
      else ok (record { x = as_u32 x; y = as_u32 y; width = as_u32 w; height = as_u32 h })

  abbrev pub region_pixels : CoordinateSpace → Region → ImageGeometry → Result PixelRect
  region_pixels CoordinateSpace.normalized_1000 r g =
      let x2 = f64_add r.x r.width in
      let y2 = f64_add r.y r.height in
      if not (normalized_1000_in_bounds r.x r.y) || not (normalized_1000_in_bounds x2 y2)
      then err CuError.out_of_bounds
      else corners_rect (normalized_1000_to_image_pixel g r.x r.y)
          (normalized_1000_to_image_pixel g x2 y2)
  region_pixels CoordinateSpace.image_pixels r g =
      pixels_rect (to_i64 (f64_round r.x)) (to_i64 (f64_round r.y))
        (to_i64 (f64_max (f64_round r.width) f64_one))
        (to_i64 (f64_max (f64_round r.height) f64_one)) g

  unfoldable pub to_image_pixels : Region → ImageGeometry → Result PixelRect
  to_image_pixels r g = region_pixels r.coordinate_space r g
