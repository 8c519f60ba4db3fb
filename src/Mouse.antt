-- ===== src/Mouse.antt =====
-- The clicks and the drag of crates/cu-driver-macos/src/mouse.rs. The events are the list that is
-- posted, in order; the world outside, with the token, may change at each of them and in each wait.
pub mod Releases
use oc_computer_use.Prelude.{
  ℕ, ltb, Option, none, some, Bool, true, false, not, List, [], ◌∷◌, ◌++◌, if◌then◌else◌,
}
use Prim.Native.Nat.{min}
use oc_computer_use.Platform.{Platform}
use oc_computer_use.Session.{Point}
use oc_computer_use.Actions.{MouseButton}
use oc_computer_use.Policy.{unwrap_or}

module _ (P : Platform) where
  pub data MouseOp : Type 0 where
    move : Point P → MouseOp
    down : MouseButton → Point P → ℕ → MouseOp
    up : MouseButton → Point P → ℕ → MouseOp
    dragged : Point P → MouseOp

  -- What the code asks of its surroundings: whether the token has fired (never, when there is none),
  -- what becomes of the world while an event is posted, and a wait, which the token ends early with
  -- `false`. The points of a drag are those of `coordinates::drag_path`, each with its wait.
  pub record Surroundings : Type 1 where
    pub World : Type 0
    pub is_cancelled : World → Bool
    pub after_post : MouseOp → World → World
    pub sleep : ℕ → World → Bool × World
    pub drag_path : Point P → Point P → ℕ → List (Point P × ℕ)

  module _ (O : Surroundings) where
    open O use {World}

    pub record Posted : Type 0 where
      pub ops : List MouseOp
      pub world : World

    unfoldable pub post : MouseOp → Posted → Posted
    post op s = record { ops = s.ops ++ op ∷ []; world = O.after_post op s.world }

    abbrev pub press_pair : MouseButton → Point P → ℕ → Posted → Posted
    press_pair button p n s = post (up button p n) (post (down button p n) s)

    unfoldable pub click_direct_core : MouseButton → Point P → Posted → Posted
    unfolding post
    click_direct_core button p s = press_pair button p 1 s

    unfoldable pub double_click_direct_core : MouseButton → Point P → Posted → Posted
    unfolding post
    double_click_direct_core button p s = press_pair button p 2 (press_pair button p 1 s)

    abbrev pub second_pair : MouseButton → Point P → Posted → Bool × Posted
    second_pair button p s =
        if O.is_cancelled s.world then (false, s) else (true, press_pair button p 2 s)

    unfoldable pub double_click_direct_cancel_core : MouseButton → Point P → Posted → Bool × Posted
    unfolding post
    double_click_direct_cancel_core button p s =
        if O.is_cancelled s.world
        then (false, s)
        else second_pair button p (press_pair button p 1 s)

    unfoldable pub drag_up_position : Bool → Point P → Point P → Point P
    drag_up_position cancelled to last_actual = if cancelled then last_actual else to

    -- Whether the loop was aborted, the last point reached, and what was posted.
    abbrev pub Dragged : Type 0
    Dragged = Bool × Point P × Posted

    abbrev pub wait_step : ℕ → Posted → Bool × Posted
    wait_step wait s =
        if ltb 0 wait
        then (let (woke, w) = O.sleep wait s.world in (woke, record s { world = w }))
        else (true, s)

    abbrev pub unless_woken : Bool × Posted → Point P → (Posted → Dragged) → Dragged
    unless_woken (true, s) p next = next s
    unless_woken (false, s) p next = (true, p, s)

    unfoldable pub drag_loop : List (Point P × ℕ) → Point P → Posted → Dragged
    unfolding post
    drag_loop [] last_actual s = (false, last_actual, s)
    drag_loop ((p, wait) ∷ path) last_actual s =
        if O.is_cancelled s.world
        then (true, last_actual, s)
        else unless_woken (wait_step wait (post (dragged p) s)) p (λ s'. drag_loop path p s')

    -- The button goes up on every way out of the loop.
    abbrev pub released : Point P → Dragged → Bool × Posted
    released to (aborted, last_actual, s) =
        (not aborted, post (up MouseButton.left (drag_up_position aborted to last_actual) 1) s)

    abbrev pub pressed_drag : Point P → Point P → ℕ → Posted → Bool × Posted
    pressed_drag from to duration s =
        released to
          (drag_loop (O.drag_path from to duration) from (post (down MouseButton.left from 1) s))

    abbrev pub moved_drag : Point P → Point P → ℕ → Posted → Bool × Posted
    moved_drag from to duration s =
        if O.is_cancelled s.world then (false, s) else pressed_drag from to duration s

    unfoldable pub drag_core : Point P → Point P → Option ℕ → Posted → Bool × Posted
    unfolding post drag_loop drag_up_position
    drag_core from to duration_ms s =
        if O.is_cancelled s.world
        then (false, s)
        else moved_drag from to (min (unwrap_or 400 duration_ms) 10000) (post (move from) s)
