-- ===== src/Actions/Limits.antt =====
-- What the validation of a batch lets by.
use oc_computer_use.Prelude.{
  ℕ, ◌≤◌, ◌<◌, ◌≡◌, ◌≢◌, ◌↔◌, refl, false, not, ltb, List, [], ◌∷◌, All, length, arith,
  if◌then◌else◌,
}
use oc_computer_use.Errors.{CuError, Result, ok, err}
use oc_computer_use.Platform.{Platform}
use oc_computer_use.Actions.{
  ComputerAction, click, double_click, move, type_text, key, scroll, drag, wait, ActionBatch,
  has_nul, is_nonempty, validate, validate_action, validate_all, and_then,
}

nul_none : (bs : List ℕ) → has_nul bs ≡ false → All (λ b. b ≢ 0) bs
nul_none [] h = tt
nul_none (b ∷ bs) h = (ground arith, nul_none bs (ground arith))

none_nul : (bs : List ℕ) → All (λ b. b ≢ 0) bs → has_nul bs ≡ false
none_nul [] h = refl
none_nul (b ∷ bs) h = let rest = none_nul bs h.1 in let first = h.0 in ground arith

module _ (P : Platform) where
  -- The limits of one action.
  pub IsAllowed : ComputerAction P → Type 0
  IsAllowed (type_text text _) = (length text ≤ 4096) × All (λ b. b ≢ 0) text
  IsAllowed (key keys) = (0 < length keys) × (length keys ≤ 8)
  IsAllowed (wait duration_ms) = duration_ms ≤ 600000
  IsAllowed _ = Unit

  validate_action-IsAllowed : (a : ComputerAction P) → validate_action P a ≡ ok tt → IsAllowed a
  unfolding validate_action IsAllowed
  validate_action-IsAllowed (type_text text m) h = (ground arith, nul_none text (ground arith))
  validate_action-IsAllowed (key []) h = ground arith
  validate_action-IsAllowed (key (k ∷ ks)) h = (ground arith, ground arith)
  validate_action-IsAllowed (wait ms) h = ground arith
  validate_action-IsAllowed (click _ _ _ _) h = tt
  validate_action-IsAllowed (double_click _ _ _ _) h = tt
  validate_action-IsAllowed (move _ _ _ _) h = tt
  validate_action-IsAllowed (scroll _ _ _ _ _) h = tt
  validate_action-IsAllowed (drag _ _ _ _) h = tt

  validate_action_lem : (a : ComputerAction P) → IsAllowed a → validate_action P a ≡ ok tt
  unfolding validate_action IsAllowed
  validate_action_lem (type_text text m) h =
      let small = h.0 in let clean = none_nul text h.1 in ground arith
  validate_action_lem (key []) h = let some_key = h.0 in ground arith
  validate_action_lem (key (k ∷ ks)) h = let few = h.1 in ground arith
  validate_action_lem (wait ms) h = ground arith
  validate_action_lem (click _ _ _ _) h = refl
  validate_action_lem (double_click _ _ _ _) h = refl
  validate_action_lem (move _ _ _ _) h = refl
  validate_action_lem (scroll _ _ _ _ _) h = refl
  validate_action_lem (drag _ _ _ _) h = refl

  both_pass : (r s : Result (Unit {0})) → and_then P r s ≡ ok tt → (r ≡ ok tt) × (s ≡ ok tt)
  both_pass (err e) s h = absurd (cc)
  both_pass (ok _) s h = (refl, h)

  validate_all-IsAllowed :
      (as_ : List (ComputerAction P)) → validate_all P as_ ≡ ok tt → All IsAllowed as_
  unfolding validate_all
  validate_all-IsAllowed [] h = tt
  validate_all-IsAllowed (a ∷ as_) h =
      let both = both_pass (validate_action P a) (validate_all P as_) h in
      (validate_action-IsAllowed a both.0, validate_all-IsAllowed as_ both.1)

  validate_all_lem :
      (as_ : List (ComputerAction P)) → All IsAllowed as_ → validate_all P as_ ≡ ok tt
  unfolding validate_all
  validate_all_lem [] h = refl
  validate_all_lem (a ∷ as_) h = rw (validate_action_lem a h.0, validate_all_lem as_ h.1) refl

  -- The limits of a batch.
  pub IsWithinLimits : List (ComputerAction P) → Type 0
  IsWithinLimits as_ = (0 < length as_) × (length as_ ≤ 64) × All IsAllowed as_

  validate_list : List (ComputerAction P) → Result (Unit {0})
  unfolding validate_all
  validate_list as_ =
      if not (is_nonempty as_)
      then err CuError.invalid_params
      else if ltb 64 (length as_)
      then err CuError.invalid_params
      else validate_all P as_

  passes_only : (as_ : List (ComputerAction P)) → validate_list as_ ≡ ok tt → IsWithinLimits as_
  unfolding validate_list IsWithinLimits
  passes_only [] h = absurd (cc)
  passes_only (a ∷ as_) h =
      (ground arith, ground arith, validate_all-IsAllowed (a ∷ as_) (ground arith))

  within_passes : (as_ : List (ComputerAction P)) → IsWithinLimits as_ → validate_list as_ ≡ ok tt
  unfolding validate_list IsWithinLimits
  within_passes [] h = let some_action = h.0 in ground arith
  within_passes (a ∷ as_) h =
      let few = h.1 in let rest = validate_all_lem (a ∷ as_) h.2 in ground arith

  -- `validate` passes a batch exactly if it has between 1 and 64 actions and each action is
  -- within its limits: a text of at most 4096 bytes without a NUL byte, between 1 and 8 keys, a
  -- wait of at most 600000 milliseconds.
  pub validate_iff : (b : ActionBatch P) → (validate P b ≡ ok tt) ↔ IsWithinLimits b.actions
  unfolding validate validate_list
  validate_iff b = (passes_only b.actions, within_passes b.actions)
