-- ===== src/Examples/Drags.antt =====
-- Concrete inputs for the theorem on drags: the token fires while the second point is posted.
use Prim.Native.Nat.{min}
use oc_computer_use.Prelude.{ℕ, suc, ltb, ◌≡◌, refl, none, true, [], ◌∷◌}
use oc_computer_use.Platform.Sample.{sample}
use oc_computer_use.Session.{Point}
use oc_computer_use.Actions.{MouseButton}
use oc_computer_use.Policy.{unwrap_or}
use oc_computer_use.Mouse.{
  move, down, up, dragged, Surroundings, Posted, post, drag_loop, drag_up_position, drag_core,
}
use oc_computer_use.Mouse.Releases.{IsDrag, drag_core-IsDrag}

-- The world is the number of the events.
abbrev surroundings : Surroundings sample
surroundings = record {
  World = ℕ;
  is_cancelled = λ n. ltb 3 n;
  after_post = λ op n. suc n;
  sleep = λ wait n. (true, n);
  drag_path = λ from to duration. (from, 10) ∷ (record { x = 5; y = 5 }, 10) ∷ (to, 10) ∷ [];
}

abbrev from_point : Point sample
from_point = record { x = 1; y = 1 }

abbrev to_point : Point sample
to_point = record { x = 9; y = 9 }

abbrev idle : Posted sample surroundings
idle = record { ops = []; world = 0 }

released_midway :
    (drag_core sample surroundings from_point to_point none idle).1.ops
    ≡ move from_point
      ∷ down MouseButton.left from_point 1
      ∷ dragged from_point
      ∷ dragged (record { x = 5; y = 5 })
      ∷ up MouseButton.left (record { x = 5; y = 5 }) 1
      ∷ []
unfolding drag_core post drag_loop drag_up_position
released_midway = refl

drag_core-IsDrag_example :
    (let (finished, s) = drag_core sample surroundings from_point to_point none idle in
      IsDrag sample surroundings from_point to_point
        (surroundings.drag_path from_point to_point (min (unwrap_or 400 none) 10000))
        finished
        s.ops)
drag_core-IsDrag_example = drag_core-IsDrag sample surroundings from_point to_point none 0
