-- ===== src/Frames.antt =====
-- cu-core/src/frames.rs and cu-runtime/src/frames.rs: captured frames, their fingerprints, and the
-- bounded store by which `act` and `inspect` name them.
pub mod Mirror
pub mod Eviction
use oc_computer_use.Prelude.{
  ℕ, zero, suc, ◌+◌, ◌-◌, Option, none, some, Bool, true, false, not, ◌||◌, List, [], ◌∷◌, ◌++◌,
  ◌==◌, ltb, if◌then◌else◌, is_some, length, retain, nat_eq, lookup, insert, remove,
}
use oc_computer_use.Errors.{Text}
use oc_computer_use.Platform.{Platform}
use oc_computer_use.Session.{DisplayBounds}

-- Instants are counted in nanoseconds.
pub record ScreenSnapshot : Type 0 where
  pub thumbnail : List ℕ
  pub thumb_width : ℕ
  pub thumb_height : ℕ
  pub active_application : Option Text
  pub active_window_title : Option Text
  pub display_id : Text
  pub captured_at : ℕ

-- `u8::abs_diff`.
abbrev pub abs_diff : ℕ → ℕ → ℕ
abs_diff a b = (a - b) + (b - a)

unfoldable pub sum_abs_diff : List ℕ → List ℕ → ℕ
sum_abs_diff [] bs = 0
sum_abs_diff (a ∷ as_) [] = 0
sum_abs_diff (a ∷ as_) (b ∷ bs) = abs_diff a b + sum_abs_diff as_ bs

unfoldable pub comparable : ScreenSnapshot → ScreenSnapshot → Bool
comparable a b = not (
    not (a.display_id == b.display_id)
    || not (a.thumb_width == b.thumb_width)
    || not (a.thumb_height == b.thumb_height)
    || not (length a.thumbnail == length b.thumbnail))

module _ (P : Platform) where
  open P use {F64, f64_zero, of_ℕ, f64_div}

  -- `n == 0.0` holds of a length just when the list is empty.
  unfoldable pub change_score : ScreenSnapshot → ScreenSnapshot → Option F64
  unfolding comparable
  change_score a b =
      if not (comparable a b)
      then none
      else if length a.thumbnail == 0
      then some f64_zero
      else some (
          f64_div
            (f64_div (of_ℕ (sum_abs_diff a.thumbnail b.thumbnail)) (of_ℕ (length a.thumbnail)))
            (of_ℕ 255))

  -- The image bytes, the path, the title and the hash are kept by the store and read by nothing
  -- that is modelled; `image` stands for them.
  pub record ScreenFrame : Type 0 where
    pub frame_id : Text
    pub session_id : Text
    pub captured_at : ℕ
    pub image : ℕ
    pub width : ℕ
    pub height : ℕ
    pub display_id : Text
    pub bounds : DisplayBounds P
    pub scale_factor : F64

  pub record StoredFrame : Type 0 where
    pub frame : ScreenFrame
    pub snapshot : ScreenSnapshot
    pub ordinal : ℕ

  pub record FrameStore : Type 0 where
    pub by_id : List (Text × StoredFrame)
    pub order : List Text
    pub limit : ℕ
    pub ordinal_counter : ℕ

  unfoldable pub new : ℕ → FrameStore
  new limit = record {
    by_id = [];
    order = [];
    limit = if limit == 0 then 1 else limit;
    ordinal_counter = 0;
  }

  -- The loop of `enforce_limit`: it pops from the front of `order`.
  unfoldable pub enforce :
      ℕ → List (Text × StoredFrame) → List Text → List (Text × StoredFrame) × List Text
  enforce limit m [] = (m, [])
  enforce limit m (oldest ∷ os) =
      let rest = enforce limit (remove oldest m) os in
      if ltb limit (length m)
      then (if is_some (lookup oldest m) then rest else (m, os))
      else (m, oldest ∷ os)

  unfoldable pub enforce_limit : FrameStore → FrameStore
  unfolding enforce
  enforce_limit s =
      let (m, os) = enforce s.limit s.by_id s.order in record s { by_id = m; order = os }

  unfoldable pub insert_frame : ScreenFrame → ScreenSnapshot → FrameStore → FrameStore
  unfolding enforce_limit
  insert_frame frame snapshot s =
      let n = s.ordinal_counter + 1 in
      let id = frame.frame_id in
      let order =
        if is_some (lookup id s.by_id) then retain (λ x. not (x == id)) s.order else s.order in
      enforce_limit (record s {
        by_id = insert id (record { frame = frame; snapshot = snapshot; ordinal = n }) s.by_id;
        order = order ++ id ∷ [];
        ordinal_counter = n;
      })

  unfoldable pub get : Text → FrameStore → Option StoredFrame
  get id s = lookup id s.by_id

  unfoldable pub clear : FrameStore → FrameStore
  clear s = record s { by_id = []; order = [] }
