-- ===== src/Actions/Bounds.antt =====
-- The points that the bounds checks look at are the points that the action touches.
use oc_computer_use.Prelude.{◌≡◌, refl, ap, ◌∙◌, some, none, Bool, true, false, ◌&&◌, List, [], ◌∷◌}
use oc_computer_use.Errors.{Result, ok, err}
use oc_computer_use.Platform.{Platform}
use oc_computer_use.Session.{Point, DisplayBounds}
use oc_computer_use.Coordinates.{ImageGeometry, to_global, contains_global}
use oc_computer_use.Actions.{
  ComputerAction, click, double_click, move, type_text, key, scroll, drag, wait, ResolvedAction,
  resolved_click, resolved_move, resolved_type, resolved_key, resolved_scroll, resolved_drag,
  resolved_wait, resolve_action_points, to_resolved, resolved_within_bounds, resolved_location,
  one_point, two_points, with_point, with_points, point_at,
}

and_true : (b : Bool) → (b && true) ≡ b
and_true true = refl
and_true false = refl

module _ (P : Platform) where
  -- The points that the driver acts on: both ends of a drag, the end of a move.
  pub touched : ResolvedAction P → List (Point P)
  touched (resolved_click p _ _) = p ∷ []
  touched (resolved_move _ p _) = p ∷ []
  touched (resolved_type _ _) = []
  touched (resolved_key _) = []
  touched (resolved_scroll none _ _) = []
  touched (resolved_scroll (some p) _ _) = p ∷ []
  touched (resolved_drag p q _) = p ∷ q ∷ []
  touched (resolved_wait _) = []

  pub every_inside : DisplayBounds P → List (Point P) → Bool
  every_inside b [] = true
  every_inside b (p ∷ ps) = contains_global P b p && every_inside b ps

  within_lem :
      (r : ResolvedAction P) (b : DisplayBounds P)
      → resolved_within_bounds P r b ≡ every_inside b (touched r)
  unfolding resolved_within_bounds resolved_location every_inside touched
  within_lem (resolved_click p _ _) b = rw (and_true) refl
  within_lem (resolved_move _ p _) b = rw (and_true) refl
  within_lem (resolved_type _ _) b = refl
  within_lem (resolved_key _) b = refl
  within_lem (resolved_scroll none _ _) b = refl
  within_lem (resolved_scroll (some p) _ _) b = rw (and_true) refl
  within_lem (resolved_drag p q _) b = rw (and_true) refl
  within_lem (resolved_wait _) b = refl

  abbrev points_of : Result (ResolvedAction P) → Result (List (Point P))
  points_of (err e) = err e
  points_of (ok r) = ok (touched r)

  one_lem :
      (f : Point P → ResolvedAction P)
      → ((p : Point P) → touched (f p) ≡ p ∷ [])
      → (m : Result (Point P)) → one_point P m ≡ points_of (with_point P f m)
  one_lem f h (err e) = refl
  one_lem f h (ok p) = rw (h p) refl

  two_lem :
      (f : Point P → Point P → ResolvedAction P)
      → ((p q : Point P) → touched (f p q) ≡ p ∷ q ∷ [])
      → (m n : Result (Point P)) → two_points P m n ≡ points_of (with_points P f m n)
  two_lem f h (err e) n = refl
  two_lem f h (ok p) (err e) = refl
  two_lem f h (ok p) (ok q) = rw (h p q) refl

  points_lem :
      (a : ComputerAction P) (g : ImageGeometry P) (here : Point P)
      → resolve_action_points P a g ≡ points_of (to_resolved P a g here)
  unfolding resolve_action_points to_resolved touched
  points_lem (click x y button space) g here =
      one_lem (λ p. resolved_click p button false) (λ p. refl)
        (to_global P g space (point_at P x y))
  points_lem (double_click x y button space) g here =
      one_lem (λ p. resolved_click p button true) (λ p. refl) (to_global P g space (point_at P x y))
  points_lem (move x y space ms) g here =
      one_lem (λ p. resolved_move here p ms) (λ p. refl) (to_global P g space (point_at P x y))
  points_lem (type_text _ _) g here = refl
  points_lem (key _) g here = refl
  points_lem (scroll (some x) (some y) dx dy space) g here =
      one_lem (λ p. resolved_scroll (some p) dx dy) (λ p. refl)
        (to_global P g space (point_at P x y))
  points_lem (scroll (some x) none dx dy space) g here = refl
  points_lem (scroll none y dx dy space) g here = refl
  points_lem (drag from to space ms) g here =
      two_lem (λ p q. resolved_drag p q ms) (λ p q. refl) (to_global P g space from)
        (to_global P g space to)
  points_lem (wait _) g here = refl

  -- The points that the policy checks for an action are exactly those that the resolved action
  -- touches, and the check against a window's bounds looks at each of them.
  pub resolve_action_points-to_resolved :
      (a : ComputerAction P) (g : ImageGeometry P) (here : Point P) (b : DisplayBounds P)
      {r : ResolvedAction P}
      → to_resolved P a g here ≡ ok r
      → (resolve_action_points P a g ≡ ok (touched r))
        × (resolved_within_bounds P r b ≡ every_inside b (touched r))
  resolve_action_points-to_resolved a g here b {r} h =
      (points_lem a g here ∙ ap points_of h, within_lem r b)
