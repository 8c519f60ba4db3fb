-- ===== src/Mouse/Releases.antt =====
-- A drag releases the button it presses.
use mathlib.Core.List.{append-nil, append_assoc}
use oc_computer_use.Prelude.{
  ℕ, ◌≡◌, refl, sym, ap, ◌∙◌, Option, Bool, true, false, List, [], ◌∷◌, ◌++◌, map, if◌then◌else◌,
  ltb,
}
use Prim.Native.Nat.{min}
use oc_computer_use.Platform.{Platform}
use oc_computer_use.Session.{Point}
use oc_computer_use.Actions.{MouseButton}
use oc_computer_use.Policy.{unwrap_or}
use oc_computer_use.Mouse.{
  MouseOp, move, down, up, dragged, Surroundings, Posted, Dragged, post, wait_step, unless_woken,
  drag_loop, drag_up_position, released, pressed_drag, moved_drag, drag_core,
}

module _ (P : Platform) where
  -- The last of some points, or the first of all.
  abbrev pub last_of : Point P → List (Point P) → Point P
  last_of p [] = p
  last_of p (q ∷ qs) = last_of q qs

  module _ (O : Surroundings P) where
    -- The loop went through `done` of the path and `left_` is what is left of it.
    pub record IsTraced (path : List (Point P × ℕ)) (start : Point P) (s : Posted P O)
        (d : Dragged P O) : Type 0 where
      pub done : List (Point P)
      pub left_ : List (Point P)
      pub split : map (λ x. x.0) path ≡ done ++ left_
      pub ops : d.2.ops ≡ s.ops ++ map dragged done
      pub reached : d.1 ≡ last_of start done
      pub finished : d.0 ≡ false → left_ ≡ []

    wait_step-ops : (wait : ℕ) (s : Posted P O) → (wait_step P O wait s).1.ops ≡ s.ops
    wait_step-ops wait s = go (ltb 0 wait) _ refl
      where
        go :
            (c : Bool) (r : Bool × Posted P O)
            → r.1.ops ≡ s.ops
            → (let after : Bool × Posted P O = if c then r else (true, s) in after.1.ops ≡ s.ops)
        go true r e = e
        go false r e = refl

    drag_loop-IsTraced :
        (path : List (Point P × ℕ)) (start : Point P) (s : Posted P O)
        → IsTraced path start s (drag_loop P O path start s)
    unfolding drag_loop post
    drag_loop-IsTraced [] start s = record {
      done = [];
      left_ = [];
      split = refl;
      ops = sym (append-nil s.ops);
      reached = refl;
      finished = λ _. refl;
    }
    drag_loop-IsTraced ((p, wait) ∷ path) start s =
        step (O.is_cancelled s.world) (wait_step P O wait (post P O (dragged p) s))
          (wait_step-ops wait (post P O (dragged p) s)) (λ s'. drag_loop-IsTraced path p s')
      where
        step :
            (c : Bool) (r : Bool × Posted P O)
            → r.1.ops ≡ s.ops ++ dragged p ∷ []
            → ((s' : Posted P O) → IsTraced path p s' (drag_loop P O path p s'))
            → IsTraced ((p, wait) ∷ path) start s (
                if c
                then (true, start, s)
                else unless_woken P O r p (λ s'. drag_loop P O path p s'))
        step true r e later = record {
          done = [];
          left_ = p ∷ map (λ x. x.0) path;
          split = refl;
          ops = sym (append-nil s.ops);
          reached = refl;
          finished = λ h. absurd (cc);
        }
        step false (false, s') e later = record {
          done = p ∷ [];
          left_ = map (λ x. x.0) path;
          split = refl;
          ops = e;
          reached = refl;
          finished = λ h. absurd (cc);
        }
        step false (true, s') e later =
            let t = later s' in
            record {
              done = p ∷ t.done;
              left_ = t.left_;
              split = ap (λ ps. p ∷ ps) t.split;
              ops =
                  t.ops
                  ∙ ap (λ os. os ++ map dragged t.done) e
                  ∙ append_assoc s.ops (dragged p ∷ []) (map dragged t.done);
              reached = t.reached;
              finished = t.finished;
            }

    -- The events of a drag. Before the button is down: none, or the move to the start. Else the button
    -- goes down at the start, through a part of the path, and up: at `to` if all of it was gone through,
    -- and at the last point that was reached if not.
    pub data IsDrag (from to : Point P) (path : List (Point P × ℕ))
        : Bool → List (MouseOp P) → Type 0 where
      untouched : IsDrag from to path false []
      moved : IsDrag from to path false (move from ∷ [])
      dropped :
          (done left_ : List (Point P))
          → map (λ x. x.0) path ≡ done ++ left_
          → IsDrag from to path false (
              move from ∷ down MouseButton.left from 1 ∷ map dragged done
              ++ up MouseButton.left (last_of from done) 1 ∷ [])
      completed : IsDrag from to path true (
          move from ∷ down MouseButton.left from 1 ∷ map dragged (map (λ x. x.0) path)
          ++ up MouseButton.left to 1 ∷ [])

    closing :
        (from to : Point P) (path : List (Point P × ℕ)) (s : Posted P O) (d : Dragged P O)
        → IsTraced path from s d
        → s.ops ≡ move from ∷ down MouseButton.left from 1 ∷ []
        → (let (finished, s') = released P O to d in IsDrag from to path finished s'.ops)
    unfolding post drag_up_position
    closing from to path s (true, last, s') t e =
        rw (t.ops, e, t.reached) (dropped t.done t.left_ t.split)
    closing from to path s (false, last, s') t e = rw (t.ops, e, sym all) completed
      where
        all : map (λ x. x.0) path ≡ t.done
        all = t.split ∙ ap (λ qs. t.done ++ qs) (t.finished refl) ∙ append-nil t.done

    branch :
        (from to : Point P) (path : List (Point P × ℕ)) (c : Bool) (s : Posted P O)
        (r : Bool × Posted P O)
        → IsDrag from to path false s.ops
        → IsDrag from to path r.0 r.1.ops
        → (let q : Bool × Posted P O = if c then (false, s) else r in
            IsDrag from to path q.0 q.1.ops)
    branch from to path true s r first second = first
    branch from to path false s r first second = second

    -- What a drag posts and answers, from when nothing is posted, whatever the token and the world do
    -- meanwhile: the button that goes down goes up exactly once, as the last event, at `to` when the
    -- whole path was gone through (and the answer is `true`), else at the last point reached.
    pub drag_core-IsDrag :
        (from to : Point P) (duration_ms : Option ℕ) (w : O.World)
        → (let (finished, s) = drag_core P O from to duration_ms (record { ops = []; world = w }) in
            IsDrag from to
              (O.drag_path from to (min (unwrap_or 400 duration_ms) 10000))
              finished
              s.ops)
    unfolding drag_core post drag_loop drag_up_position
    drag_core-IsDrag from to duration_ms w =
        let path : List (Point P × ℕ) =
          O.drag_path from to (min (unwrap_or 400 duration_ms) 10000) in
        let start : Posted P O = record { ops = []; world = w } in
        let at_start : Posted P O = post P O (move from) start in
        let held : Posted P O = post P O (down MouseButton.left from 1) at_start in
        branch from to path (O.is_cancelled w) start
          (moved_drag P O from to (min (unwrap_or 400 duration_ms) 10000) at_start) untouched
          (branch from to path (O.is_cancelled at_start.world) at_start
            (pressed_drag P O from to (min (unwrap_or 400 duration_ms) 10000) at_start) moved
            (closing from to path held (drag_loop P O path from held)
              (drag_loop-IsTraced path from held) refl))
