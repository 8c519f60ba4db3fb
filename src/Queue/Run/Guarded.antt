-- ===== src/Queue/Run/Guarded.antt =====
-- What the guards know of an action from its resolved form.
use oc_computer_use.Prelude.{◌≡◌, refl, none, some, Bool, true, false}
use oc_computer_use.Errors.{Result, ok, err}
use oc_computer_use.Platform.{Platform}
use oc_computer_use.Session.{Point}
use oc_computer_use.Coordinates.{ImageGeometry, to_global}
use oc_computer_use.Actions.{
  ComputerAction, click, double_click, move, type_text, key, scroll, drag, wait, ResolvedAction,
  resolved_click, resolved_move, resolved_type, resolved_key, resolved_scroll, resolved_drag,
  resolved_wait, to_resolved, with_point, with_points, point_at,
}
use oc_computer_use.Queue.Guards.{needs_physical, needs_focus}

-- An action that needs the real cursor, and one that acts at a place or scrolls.
abbrev pub drags : {P : Platform} → ResolvedAction P → Bool
drags (resolved_drag _ _ _) = true
drags (resolved_scroll (some _) _ _) = true
drags _ = false

abbrev pub travels : {P : Platform} → ResolvedAction P → Bool
travels (resolved_drag _ _ _) = true
travels (resolved_scroll _ _ _) = true
travels _ = false

module _ (P : Platform) where
  -- What an action asks of its guards, once it is resolved.
  pub record IsGuarded (a : ComputerAction P) (r : ResolvedAction P) : Type 0 where
    pub cursor : drags r ≡ true → needs_physical P a ≡ true
    pub place : travels r ≡ true → needs_focus P a ≡ false

  one-IsGuarded :
      (a : ComputerAction P) (f : Point P → ResolvedAction P) (m : Result (Point P))
      {r : ResolvedAction P}
      → ((q : Point P) → IsGuarded a (f q))
      → with_point P f m ≡ ok r
      → IsGuarded a r
  one-IsGuarded a f (err _) k h = absurd (cc)
  one-IsGuarded a f (ok q) {r} k h = let e : f q ≡ r = cc in rw (← e) (k q)

  two-IsGuarded :
      (a : ComputerAction P) (f : Point P → Point P → ResolvedAction P) (m n : Result (Point P))
      {r : ResolvedAction P}
      → ((q q' : Point P) → IsGuarded a (f q q'))
      → with_points P f m n ≡ ok r
      → IsGuarded a r
  two-IsGuarded a f (err _) n k h = absurd (cc)
  two-IsGuarded a f (ok q) (err _) k h = absurd (cc)
  two-IsGuarded a f (ok q) (ok q') {r} k h = let e : f q q' ≡ r = cc in rw (← e) (k q q')

  still :
      (a : ComputerAction P) (r : ResolvedAction P)
      → drags r ≡ false
      → travels r ≡ false
      → IsGuarded a r
  still a r d t = record { cursor = λ e. absurd (cc); place = λ e. absurd (cc) }

  pub to_resolved-IsGuarded :
      (a : ComputerAction P) (g : ImageGeometry P) (here : Point P) {r : ResolvedAction P}
      → to_resolved P a g here ≡ ok r
      → IsGuarded a r
  unfolding to_resolved needs_physical
  to_resolved-IsGuarded (click x y b space) g here h =
      one-IsGuarded _ (λ q. resolved_click q b false) (to_global P g space (point_at P x y))
        (λ q. still _ _ refl refl) h
  to_resolved-IsGuarded (double_click x y b space) g here h =
      one-IsGuarded _ (λ q. resolved_click q b true) (to_global P g space (point_at P x y))
        (λ q. still _ _ refl refl) h
  to_resolved-IsGuarded (move x y space ms) g here h =
      one-IsGuarded _ (λ q. resolved_move here q ms) (to_global P g space (point_at P x y))
        (λ q. still _ _ refl refl) h
  to_resolved-IsGuarded (type_text t m) g here {r} h =
      let e : resolved_type t m ≡ r = cc in rw (← e) (still _ _ refl refl)
  to_resolved-IsGuarded (key ks) g here {r} h =
      let e : resolved_key ks ≡ r = cc in rw (← e) (still _ _ refl refl)
  to_resolved-IsGuarded (scroll (some x) (some y) dx dy space) g here h =
      one-IsGuarded _ (λ q. resolved_scroll (some q) dx dy) (to_global P g space (point_at P x y))
        (λ q. record { cursor = λ _. refl; place = λ _. refl }) h
  to_resolved-IsGuarded (scroll (some x) none dx dy space) g here {r} h =
      let e : resolved_scroll none dx dy ≡ r = cc in
      rw (← e) (record { cursor = λ f. absurd (cc); place = λ _. refl })
  to_resolved-IsGuarded (scroll none y dx dy space) g here {r} h =
      let e : resolved_scroll none dx dy ≡ r = cc in
      rw (← e) (record { cursor = λ f. absurd (cc); place = λ _. refl })
  to_resolved-IsGuarded (drag from to space ms) g here h =
      two-IsGuarded _ (λ q q'. resolved_drag q q' ms) (to_global P g space from)
        (to_global P g space to) (λ q q'. record { cursor = λ _. refl; place = λ _. refl }) h
  to_resolved-IsGuarded (wait ms) g here {r} h =
      let e : resolved_wait ms ≡ r = cc in rw (← e) (still _ _ refl refl)
