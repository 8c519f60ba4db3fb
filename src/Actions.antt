-- ===== src/Actions.antt =====
-- cu-core/src/actions.rs, cu-policy/src/bounds.rs and the driver's `ResolvedAction`: the actions
-- that a caller asks for, the checks of a batch, and what an action becomes in global points.
pub mod Bounds
pub mod Limits
use oc_computer_use.Prelude.{
  ℕ, Option, none, some, Bool, true, false, not, ◌&&◌, ◌||◌, List, [], ◌∷◌, ltb, ◌==◌, length,
  if◌then◌else◌,
}
use oc_computer_use.Errors.{Text, CuError, Result, ok, err, RiskLevel}
use oc_computer_use.Platform.{Platform}
use oc_computer_use.Session.{Point, DisplayBounds}
use oc_computer_use.Coordinates.{CoordinateSpace, ImageGeometry, to_global, contains_global}

pub data MouseButton : Type 0 where
  left right middle : MouseButton

unfoldable pub cg_button : MouseButton → ℕ
cg_button MouseButton.left = 0
cg_button MouseButton.right = 1
cg_button MouseButton.middle = 2

pub data TextInputMethod : Type 0 where
  keyboard clipboard : TextInputMethod

pub data WaitPolicy : Type 0 where
  no_wait fixed until_stable : WaitPolicy

abbrev pub is_nonempty {ℓ} : {A : Type ℓ} → List A → Bool
is_nonempty [] = false
is_nonempty (a ∷ as_) = true

-- `text.contains('\0')`, on the bytes of the text.
abbrev pub has_nul : List ℕ → Bool
has_nul [] = false
has_nul (b ∷ bs) = b == 0 || has_nul bs

module _ (P : Platform) where
  open P use {F64}

  -- The text to type is the list of its UTF-8 bytes, the names of keys are indices.
  pub data ComputerAction : Type 0 where
    click : F64 → F64 → MouseButton → CoordinateSpace → ComputerAction
    double_click : F64 → F64 → MouseButton → CoordinateSpace → ComputerAction
    move : F64 → F64 → CoordinateSpace → Option ℕ → ComputerAction
    type_text : List ℕ → TextInputMethod → ComputerAction
    key : List Text → ComputerAction
    scroll : Option F64 → Option F64 → F64 → F64 → CoordinateSpace → ComputerAction
    drag : Point P → Point P → CoordinateSpace → Option ℕ → ComputerAction
    wait : ℕ → ComputerAction

  -- The points are global. A click has its button and whether it is double.
  pub data ResolvedAction : Type 0 where
    resolved_click : Point P → MouseButton → Bool → ResolvedAction
    resolved_move : Point P → Point P → Option ℕ → ResolvedAction
    resolved_type : List ℕ → TextInputMethod → ResolvedAction
    resolved_key : List Text → ResolvedAction
    resolved_scroll : Option (Point P) → F64 → F64 → ResolvedAction
    resolved_drag : Point P → Point P → Option ℕ → ResolvedAction
    resolved_wait : ℕ → ResolvedAction

  pub record ActionBatch : Type 0 where
    pub actions : List ComputerAction
    pub wait_policy : WaitPolicy
    pub fixed_wait_ms : Option ℕ
    pub return_screenshot : Bool

  unfoldable pub risk_level : ComputerAction → RiskLevel
  risk_level (move _ _ _ _) = RiskLevel.low
  risk_level (wait _) = RiskLevel.low
  risk_level _ = RiskLevel.medium

  -- What the loop of `validate` returns for one action.
  unfoldable pub validate_action : ComputerAction → Result (Unit {0})
  validate_action (type_text text _) =
      if ltb 4096 (length text)
      then err CuError.invalid_params
      else if has_nul text
      then err CuError.invalid_params
      else ok tt
  validate_action (key keys) =
      if not (is_nonempty keys) || ltb 8 (length keys) then err CuError.invalid_params else ok tt
  validate_action (wait duration_ms) =
      if ltb 600000 duration_ms then err CuError.invalid_params else ok tt
  validate_action _ = ok tt

  abbrev pub and_then : Result (Unit {0}) → Result (Unit {0}) → Result (Unit {0})
  and_then (err e) _ = err e
  and_then (ok _) r = r

  unfoldable pub validate_all : List ComputerAction → Result (Unit {0})
  validate_all [] = ok tt
  validate_all (a ∷ as_) = and_then (validate_action a) (validate_all as_)

  unfoldable pub validate : ActionBatch → Result (Unit {0})
  unfolding validate_all
  validate b =
      if not (is_nonempty b.actions)
      then err CuError.invalid_params
      else if ltb 64 (length b.actions)
      then err CuError.invalid_params
      else validate_all b.actions

  abbrev pub one_point : Result (Point P) → Result (List (Point P))
  one_point (err e) = err e
  one_point (ok p) = ok (p ∷ [])

  abbrev pub two_points : Result (Point P) → Result (Point P) → Result (List (Point P))
  two_points (err e) _ = err e
  two_points (ok p) (err e) = err e
  two_points (ok p) (ok q) = ok (p ∷ q ∷ [])

  abbrev pub point_at : F64 → F64 → Point P
  point_at x y = record { x = x; y = y }

  unfoldable pub resolve_action_points : ComputerAction → ImageGeometry P → Result (List (Point P))
  resolve_action_points (click x y _ space) g = one_point (to_global P g space (point_at x y))
  resolve_action_points (double_click x y _ space) g =
      one_point (to_global P g space (point_at x y))
  resolve_action_points (move x y space _) g = one_point (to_global P g space (point_at x y))
  resolve_action_points (scroll (some x) (some y) _ _ space) g =
      one_point (to_global P g space (point_at x y))
  resolve_action_points (drag from to space _) g =
      two_points (to_global P g space from) (to_global P g space to)
  resolve_action_points _ g = ok []

  abbrev pub is_ok : Result (List (Point P)) → Bool
  is_ok (ok _) = true
  is_ok (err _) = false

  unfoldable pub batch_in_bounds : List ComputerAction → ImageGeometry P → Bool
  batch_in_bounds [] g = true
  batch_in_bounds (a ∷ as_) g = is_ok (resolve_action_points a g) && batch_in_bounds as_ g

  abbrev pub with_point : (Point P → ResolvedAction) → Result (Point P) → Result ResolvedAction
  with_point f (err e) = err e
  with_point f (ok p) = ok (f p)

  abbrev pub with_points :
      (Point P → Point P → ResolvedAction)
      → Result (Point P)
      → Result (Point P)
      → Result ResolvedAction
  with_points f (err e) _ = err e
  with_points f (ok p) (err e) = err e
  with_points f (ok p) (ok q) = ok (f p q)

  -- `ActionQueue::to_resolved`.
  unfoldable pub to_resolved : ComputerAction → ImageGeometry P → Point P → Result ResolvedAction
  to_resolved (click x y button space) g here =
      with_point (λ p. resolved_click p button false) (to_global P g space (point_at x y))
  to_resolved (double_click x y button space) g here =
      with_point (λ p. resolved_click p button true) (to_global P g space (point_at x y))
  to_resolved (move x y space duration_ms) g here =
      with_point (λ p. resolved_move here p duration_ms) (to_global P g space (point_at x y))
  to_resolved (type_text text method) g here = ok (resolved_type text method)
  to_resolved (key keys) g here = ok (resolved_key keys)
  to_resolved (scroll (some x) (some y) delta_x delta_y space) g here =
      with_point (λ p. resolved_scroll (some p) delta_x delta_y)
        (to_global P g space (point_at x y))
  to_resolved (scroll _ _ delta_x delta_y space) g here = ok (resolved_scroll none delta_x delta_y)
  to_resolved (drag from to space duration_ms) g here =
      with_points (λ p q. resolved_drag p q duration_ms) (to_global P g space from)
        (to_global P g space to)
  to_resolved (wait duration_ms) g here = ok (resolved_wait duration_ms)

  unfoldable pub resolved_location : ResolvedAction → Option (Point P)
  resolved_location (resolved_click p _ _) = some p
  resolved_location (resolved_move _ p _) = some p
  resolved_location (resolved_drag _ p _) = some p
  resolved_location (resolved_scroll (some p) _ _) = some p
  resolved_location _ = none

  abbrev pub inside_or_nowhere : DisplayBounds P → Option (Point P) → Bool
  inside_or_nowhere b none = true
  inside_or_nowhere b (some p) = contains_global P b p

  unfoldable pub resolved_within_bounds : ResolvedAction → DisplayBounds P → Bool
  resolved_within_bounds (resolved_drag from to _) b =
      contains_global P b from && contains_global P b to
  resolved_within_bounds r b = inside_or_nowhere b (resolved_location r)

  unfoldable pub action_moves_pointer : ComputerAction → Bool
  action_moves_pointer (move _ _ _ _) = true
  action_moves_pointer (click _ _ _ _) = true
  action_moves_pointer (double_click _ _ _ _) = true
  action_moves_pointer (drag _ _ _ _) = true
  action_moves_pointer (scroll (some _) (some _) _ _ _) = true
  action_moves_pointer _ = false
