-- ===== src/Coordinates/Inside.antt =====
-- What the conversions accept lies inside the image.
use oc_computer_use.Prelude.{
  ℕ, suc, ◌+◌, ◌-◌, ◌<◌, ◌≤◌, ◌≡◌, sym, ap, ◌∙◌, not, refl, ◌||◌, Bool, if◌then◌else◌, true, false,
  ℤ, pos, negsuc, arith,
}
use oc_computer_use.Errors.{CuError, Result, ok, err}
use oc_computer_use.Platform.{Platform}
use oc_computer_use.Session.{Point}
use oc_computer_use.Coordinates.{
  CoordinateSpace, ImageGeometry, Region, PixelRect, normalized_1000_in_bounds, nearest_pixel,
  normalized_1000_to_image_pixel, normalized_1000_to_global, image_pixel_to_global, to_global,
  to_image_pixels, pixel_point, off_axis, off_span, as_u32, pixels_rect, corners_rect, at_least_one,
  region_pixels,
}

-- What a guarded result says when it is a success.
pub let_through :
    {A : Type 0} (b : Bool) (e : CuError) {x y : A}
    → (if b then err e else ok x) ≡ ok y
    → (b ≡ false) × (x ≡ y)
let_through true _ h = absurd (cc)
let_through false _ h = (refl, cc)

pub admitted :
    {A : Type 0} (b : Bool) (e : CuError) {x y : A}
    → (if b then ok x else err e) ≡ ok y
    → (b ≡ true) × (x ≡ y)
admitted true _ h = (refl, cc)
admitted false _ h = absurd (cc)

-- A guarded success is the success of what is guarded.
refused_or :
    {A : Type 0} (b : Bool) (e : CuError) (m : Result A) {y : A}
    → (if b then err e else m) ≡ ok y
    → m ≡ ok y
refused_or true _ m h = absurd (cc)
refused_or false _ m h = h

pub neither : (a b : Bool) → (a || b) ≡ false → (a ≡ false) × (b ≡ false)
neither a b h = ground arith

pub on_axis : (z : ℤ) (n : ℕ) → n < 4294967296 → off_axis z n ≡ false → as_u32 z < n
on_axis (pos m) n s h = ground arith
on_axis (negsuc m) n s h = absurd (cc)

-- A span that the test lets through, when the sum does not wrap.
pub on_span :
    (z : ℤ) (w n : ℕ)
    → n < 4294967296
    → ((m : ℕ) → z ≡ pos m → m + suc w < 9223372036854775808)
    → off_span z (pos (suc w)) n ≡ false
    → as_u32 z + as_u32 (pos (suc w)) ≤ n
on_span (pos m) w n s fits h = ground (arith, fits m refl)
on_span (negsuc m) w n s fits h = absurd (cc)

module _ (P : Platform) where
  open P use {
    F64, f64_one, f64_mul, f64_div, f64_add, f64_round, f64_max, f64_clamp, f64_zero, of_ℕ,
    clamp_u32, to_i64, to_i64_max,
  }

  nearest_pixel-IsBelow : (v : F64) (n : ℕ) → 0 < n → n < 4294967296 → nearest_pixel P v n < n
  unfolding nearest_pixel
  nearest_pixel-IsBelow v n h s =
      (let c = f64_round (f64_mul (f64_div v (of_ℕ 1000)) (of_ℕ n)) in
        let le = clamp_u32 c (n - 1) (omega arith) in ground (arith, le))

  -- The pixel of a location on the canvas of a thousand is inside the image.
  pub canvas_pixel :
      (g : ImageGeometry P) (x y : F64) {a : ℕ × ℕ}
      → 0 < g.image_width_px
      → g.image_width_px < 4294967296
      → 0 < g.image_height_px
      → g.image_height_px < 4294967296
      → normalized_1000_to_image_pixel P g x y ≡ ok a
      → (a.0 < g.image_width_px) × (a.1 < g.image_height_px)
  unfolding normalized_1000_to_image_pixel
  canvas_pixel g x y {a} w0 w1 h0 h1 e =
      let nx = nearest_pixel-IsBelow x g.image_width_px w0 w1 in
      let ny = nearest_pixel-IsBelow y g.image_height_px h0 h1 in
      rw (← (admitted (normalized_1000_in_bounds P x y) _ e).1) (nx, ny)

  pub pixels_inside :
      (x y : ℤ) (w h : ℕ) (g : ImageGeometry P) {r : PixelRect P}
      → g.image_width_px < 4294967296
      → g.image_height_px < 4294967296
      → ((m : ℕ) → x ≡ pos m → m + suc w < 9223372036854775808)
      → ((m : ℕ) → y ≡ pos m → m + suc h < 9223372036854775808)
      → pixels_rect P x y (pos (suc w)) (pos (suc h)) g ≡ ok r
      → (r.x + r.width ≤ g.image_width_px) × (r.y + r.height ≤ g.image_height_px)
  pixels_inside x y w h g {r} ws hs fx fy e =
      (let (free, same) =
          let_through
            (off_span x (pos (suc w)) g.image_width_px
              || off_span y (pos (suc h)) g.image_height_px)
            _ e in
        let (fw, fh) =
          neither (off_span x (pos (suc w)) g.image_width_px)
            (off_span y (pos (suc h)) g.image_height_px) free in
        rw (← same) (on_span x w g.image_width_px ws fx fw, on_span y h g.image_height_px hs fy fh))

  -- Two pixels of the image span a rectangle of it.
  corners_inside :
      (g : ImageGeometry P) (a b : ℕ × ℕ) {r : PixelRect P}
      → (a.0 < g.image_width_px) × (a.1 < g.image_height_px)
      → (b.0 < g.image_width_px) × (b.1 < g.image_height_px)
      → corners_rect P (ok a) (ok b) ≡ ok r
      → (r.x + r.width ≤ g.image_width_px) × (r.y + r.height ≤ g.image_height_px)
  corners_inside g (ax, ay) (bx, by_) {r} ha hb e =
      (let y : PixelRect P = record {
        x = ax;
        y = ay;
        width = at_least_one (bx - ax);
        height = at_least_one (by_ - ay);
      } in
        let same : y ≡ r = cc in
        rw (← same) (ground (arith, ha.0, hb.0), ground (arith, ha.1, hb.1)))

  point_inside :
      (g : ImageGeometry P) (x y : F64) (m : Result (ℕ × ℕ)) {q : Point P}
      → ((a : ℕ × ℕ) → m ≡ ok a → (a.0 < g.image_width_px) × (a.1 < g.image_height_px))
      → pixel_point P g m ≡ ok q
      → (px : ℕ) × (py : ℕ) × (px < g.image_width_px)
        × (py < g.image_height_px)
        × (q ≡ image_pixel_to_global P g px py)
  point_inside g x y (err _) h e = absurd (cc)
  point_inside g x y (ok (px, py)) h e = (let (hx, hy) = h (px, py) refl in (px, py, hx, hy, cc))

  -- In an image that is not empty, and whose sides fit into 32 bits, a location that is accepted
  -- becomes the global point of a pixel of the image.
  pub to_global_inside :
      (g : ImageGeometry P) (space : CoordinateSpace) (p : Point P) {q : Point P}
      → 0 < g.image_width_px
      → g.image_width_px < 4294967296
      → 0 < g.image_height_px
      → g.image_height_px < 4294967296
      → to_global P g space p ≡ ok q
      → (px : ℕ) × (py : ℕ) × (px < g.image_width_px)
        × (py < g.image_height_px)
        × (q ≡ image_pixel_to_global P g px py)
  unfolding to_global normalized_1000_to_global
  to_global_inside g CoordinateSpace.normalized_1000 p {q} w0 w1 h0 h1 e =
      point_inside g p.x p.y (normalized_1000_to_image_pixel P g p.x p.y)
        (λ a. canvas_pixel g p.x p.y w0 w1 h0 h1) e
  to_global_inside g CoordinateSpace.image_pixels p {q} w0 w1 h0 h1 e =
      (let px = to_i64 (f64_round p.x) in
        let py = to_i64 (f64_round p.y) in
        let (free, same) =
          let_through (off_axis px g.image_width_px || off_axis py g.image_height_px) _ e in
        let (fx, fy) =
          neither (off_axis px g.image_width_px) (off_axis py g.image_height_px) free in
        (
          as_u32 px,
          as_u32 py,
          on_axis px g.image_width_px w1 fx,
          on_axis py g.image_height_px h1 fy,
          sym same,
        ))

  rect_inside :
      (g : ImageGeometry P) (m n : Result (ℕ × ℕ)) {r : PixelRect P}
      → ((a : ℕ × ℕ) → m ≡ ok a → (a.0 < g.image_width_px) × (a.1 < g.image_height_px))
      → ((a : ℕ × ℕ) → n ≡ ok a → (a.0 < g.image_width_px) × (a.1 < g.image_height_px))
      → corners_rect P m n ≡ ok r
      → (r.x + r.width ≤ g.image_width_px) × (r.y + r.height ≤ g.image_height_px)
  rect_inside g (err _) n hm hn e = absurd (cc)
  rect_inside g (ok a) (err _) hm hn e = absurd (cc)
  rect_inside g (ok a) (ok b) hm hn e = corners_inside g a b (hm a refl) (hn b refl) e

  -- The ends of the region, in pixels, are `i64` values.
  unfoldable pub HasEnds : Region P → Type 0
  HasEnds r =
      ((m n : ℕ)
        → to_i64 (f64_round r.x) ≡ pos m
        → to_i64 (f64_max (f64_round r.width) f64_one) ≡ pos n
        → m + n < 9223372036854775808)
      × ((m n : ℕ)
          → to_i64 (f64_round r.y) ≡ pos m
          → to_i64 (f64_max (f64_round r.height) f64_one) ≡ pos n
          → m + n < 9223372036854775808)

  region_inside :
      (space : CoordinateSpace) (r : Region P) (g : ImageGeometry P) {q : PixelRect P}
      → 0 < g.image_width_px
      → g.image_width_px < 4294967296
      → 0 < g.image_height_px
      → g.image_height_px < 4294967296
      → HasEnds r
      → region_pixels P space r g ≡ ok q
      → (q.x + q.width ≤ g.image_width_px) × (q.y + q.height ≤ g.image_height_px)
  unfolding HasEnds
  region_inside CoordinateSpace.normalized_1000 r g {q} w0 w1 h0 h1 ends e =
      (let x2 = f64_add r.x r.width in
        let y2 = f64_add r.y r.height in
        rect_inside g (normalized_1000_to_image_pixel P g r.x r.y)
          (normalized_1000_to_image_pixel P g x2 y2) (λ a. canvas_pixel g r.x r.y w0 w1 h0 h1)
          (λ a. canvas_pixel g x2 y2 w0 w1 h0 h1)
          (refused_or
            (not (normalized_1000_in_bounds P r.x r.y) || not (normalized_1000_in_bounds P x2 y2)) _
            _ e))
  region_inside CoordinateSpace.image_pixels r g {q} w0 w1 h0 h1 ends e =
      (let (w, ew) = to_i64_max (f64_round r.width) in
        let (h, eh) = to_i64_max (f64_round r.height) in
        let x = to_i64 (f64_round r.x) in
        let y = to_i64 (f64_round r.y) in
        let zw = to_i64 (f64_max (f64_round r.width) f64_one) in
        pixels_inside x y w h g w1 h1 (λ m em. ends.0 m (suc w) em ew)
          (λ m em. ends.1 m (suc h) em eh)
          (sym (ap (λ z. pixels_rect P x y z (pos (suc h)) g) ew)
            ∙ sym (ap (λ z. pixels_rect P x y zw z g) eh)
            ∙ e))

  -- The rectangle of pixels for a region that is accepted lies inside the image, if the image is
  -- not empty and the region's ends do not overflow.
  pub to_image_pixels_inside :
      (r : Region P) (g : ImageGeometry P) {q : PixelRect P}
      → 0 < g.image_width_px
      → g.image_width_px < 4294967296
      → 0 < g.image_height_px
      → g.image_height_px < 4294967296
      → HasEnds r
      → to_image_pixels P r g ≡ ok q
      → (q.x + q.width ≤ g.image_width_px) × (q.y + q.height ≤ g.image_height_px)
  unfolding to_image_pixels
  to_image_pixels_inside r g w0 w1 h0 h1 ends e =
      region_inside r.coordinate_space r g w0 w1 h0 h1 ends e
