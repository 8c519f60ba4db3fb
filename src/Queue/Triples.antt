-- ===== src/Queue/Triples.antt =====
-- Triples of a condition, code and what holds of its value and state afterwards.
use oc_computer_use.Prelude.{◌≡◌, refl, Bool, true, false, if◌then◌else◌}
use oc_computer_use.Platform.{Platform}
use oc_computer_use.Queue.{QueueState, Code}

-- Whenever the condition holds, the code leaves a value and a state with the second property.
abbrev pub Triple :
    {P : Platform} {A : Type 0}
    → (QueueState P → Type 0)
    → Code P A
    → (A → QueueState P → Type 0)
    → Type 0
Triple {P} Pre m Post = (s : QueueState P) → Pre s → Post (m s).0 (m s).1

-- Code that branches, with what either branch may assume. A sequence needs no rule: the triple of
-- what comes next is applied to the value and the state of what comes first.
pub choose :
    {P : Platform} {A : Type 0} {Pre : QueueState P → Type 0} (Post : A → QueueState P → Type 0)
    (b : Bool) (m n : Code P A)
    → (b ≡ true → Triple Pre m Post)
    → (b ≡ false → Triple Pre n Post)
    → Triple Pre (if b then m else n) Post
choose Post true m n hm hn = hm refl
choose Post false m n hm hn = hn refl
