-- ===== src/Stale.antt =====
-- cu-runtime/src/stale_frame.rs: whether a frame that an action refers to still shows the screen.
pub mod Fresh
use oc_computer_use.Prelude.{
  ℕ, ◌+◌, ◌-◌, ◌*◌, ◌/◌, Option, none, some, Bool, true, false, not, ◌&&◌, List, [], ◌∷◌, ◌++◌,
  ◌==◌, ltb, leb, if◌then◌else◌,
}
use oc_computer_use.Errors.{Text}
use oc_computer_use.Platform.{Platform}
use oc_computer_use.Frames.{ScreenSnapshot, change_score}

pub data StaleFramePolicy : Type 0 where
  strict visual_match : StaleFramePolicy

abbrev pub is_strict : StaleFramePolicy → Bool
is_strict StaleFramePolicy.strict = true
is_strict StaleFramePolicy.visual_match = false

abbrev pub second : ℕ
second = 1000000000

-- Step 4 of `check`: `num_seconds` cuts the age off towards zero, and `now` is what the clock says.
unfoldable pub out_of_age : ℕ → ℕ → ℕ → Bool
out_of_age now captured max =
    if leb captured now
    then ltb max ((now - captured) / second)
    else ltb 0 ((captured - now) / second)

abbrev pub apps_differ : Option Text → Option Text → Bool
apps_differ (some a) (some b) = not (a == b)
apps_differ _ _ = false

-- A text of the source, by what it says; the numbers that it repeats are left out.
pub data Reason : Type 0 where
  app_changed content_changed out_of_age_reason : Reason

pub data StaleReason : Type 0 where
  not_current : Text → Text → StaleReason
  display_changed : Text → Text → StaleReason
  no_change : StaleReason
  several : List Reason → StaleReason

unfoldable pub joined : List Reason → StaleReason
joined [] = StaleReason.no_change
joined (r ∷ rs) = several (r ∷ rs)

abbrev pub is_empty : List Reason → Bool
is_empty [] = true
is_empty (r ∷ rs) = false

module _ (P : Platform) where
  open P use {F64, f64_zero, f64_half, f64_one, f64_max, f64_lt}

  pub record StaleFrameConfig : Type 0 where
    pub threshold : F64
    pub max_age_secs : ℕ
    pub app_change_is_stale : Bool
    pub policy : StaleFramePolicy

  pub record StaleFrameVerdict : Type 0 where
    pub is_stale : Bool
    pub score : F64
    pub referenced_frame_id : Text
    pub current_frame_id : Text
    pub reason : StaleReason

  -- The reasons so far and the score so far.
  abbrev pub Findings : Type 0
  Findings = List Reason × F64

  -- Step 2.
  unfoldable pub check_app :
      StaleFrameConfig → ScreenSnapshot → ScreenSnapshot → Findings → Findings
  check_app config referenced current (reasons, score) =
      if config.app_change_is_stale
        && apps_differ referenced.active_application current.active_application
      then (reasons ++ app_changed ∷ [], f64_max score f64_half)
      else (reasons, score)

  abbrev pub found_difference : StaleFrameConfig → Option F64 → Findings → Findings
  found_difference config none (reasons, score) = (reasons, score)
  found_difference config (some diff) (reasons, score) = (
    if f64_lt config.threshold diff then reasons ++ content_changed ∷ [] else reasons,
    f64_max score diff,
  )

  -- Step 3.
  unfoldable pub check_pixels :
      StaleFrameConfig → ScreenSnapshot → ScreenSnapshot → Findings → Findings
  unfolding change_score
  check_pixels config referenced current f =
      found_difference config (change_score P referenced current) f

  -- Step 4.
  unfoldable pub check_age : StaleFrameConfig → ℕ → ScreenSnapshot → Findings → Findings
  unfolding out_of_age
  check_age config now referenced (reasons, score) =
      if out_of_age now referenced.captured_at config.max_age_secs
      then (reasons ++ out_of_age_reason ∷ [], f64_max score f64_one)
      else (reasons, score)

  abbrev pub judge : Text → Text → Findings → StaleFrameVerdict
  judge referenced_id current_id (reasons, score) = record {
    is_stale = not (is_empty reasons);
    score = score;
    referenced_frame_id = referenced_id;
    current_frame_id = current_id;
    reason = joined reasons;
  }

  unfoldable pub check :
      StaleFrameConfig → ℕ → ScreenSnapshot → ScreenSnapshot → Text → Text → StaleFrameVerdict
  unfolding check_app check_pixels check_age joined
  check config now referenced current referenced_id current_id =
      if is_strict config.policy && not (referenced_id == current_id)
      then record {
        is_stale = true;
        score = f64_one;
        referenced_frame_id = referenced_id;
        current_frame_id = current_id;
        reason = not_current referenced_id current_id;
      }
      else if not (referenced.display_id == current.display_id)
      then record {
        is_stale = true;
        score = f64_one;
        referenced_frame_id = referenced_id;
        current_frame_id = current_id;
        reason = display_changed referenced.display_id current.display_id;
      }
      else (let f = check_app config referenced current ([], f64_zero) in
          judge referenced_id current_id
            (check_age config now referenced (check_pixels config referenced current f)))
