-- ===== src/Frames/Mirror.antt =====
-- The two halves of the frame store, the map and the queue, hold the same ids.
use oc_computer_use.Prelude.{
  suc, ◌+◌, ◌≡◌, ap, refl, inl, inr, none, Bool, true, false, not, List, [], ◌∷◌, ◌++◌, arith, ◌==◌,
  if◌then◌else◌, is_some, length, retain, nat_eq, contains, lookup, insert, remove,
  lookup-remove_self, Bool-cases,
}
use oc_computer_use.Errors.{Text}

-- No key twice.
abbrev pub Distinct {ℓ} : {V : Type ℓ} → List (Text × V) → Type ℓ
Distinct [] = Unit
Distinct ((k, v) ∷ m) = (lookup k m ≡ none) × Distinct m

abbrev pub NoRepeat : List Text → Type 0
NoRepeat [] = Unit
NoRepeat (x ∷ xs) = (contains x xs ≡ false) × NoRepeat xs

abbrev pub has {ℓ} : {V : Type ℓ} → Text → List (Text × V) → Bool
has k m = is_some (lookup k m)

module _ {ℓ} {V : Type ℓ} where
  lookup-remove-none :
      (k j : Text) (m : List (Text × V)) → lookup j m ≡ none → lookup j (remove k m) ≡ none
  unfolding lookup remove
  lookup-remove-none k j [] h = refl
  lookup-remove-none k j ((i, v) ∷ m) h = ground (arith, lookup-remove-none k j m)

  pub remove-Distinct : (k : Text) (m : List (Text × V)) → Distinct m → Distinct (remove k m)
  unfolding remove
  remove-Distinct k [] d = tt
  remove-Distinct k ((j, v) ∷ m) d =
      ground (arith, remove-Distinct k m d.1, lookup-remove-none k j m d.0)

  pub insert-Distinct :
      (k : Text) (v : V) (m : List (Text × V)) → Distinct m → Distinct (insert k v m)
  unfolding insert
  insert-Distinct k v m d = (lookup-remove_self k m, remove-Distinct k m d)

  length-remove_absent :
      (k : Text) (m : List (Text × V)) → lookup k m ≡ none → length (remove k m) ≡ length m
  unfolding lookup remove
  length-remove_absent k [] h = refl
  length-remove_absent k ((j, v) ∷ m) h = ground (arith, length-remove_absent k m)

  pub length-remove_present :
      (k : Text) (m : List (Text × V))
      → Distinct m
      → has k m ≡ true
      → length (remove k m) + 1 ≡ length m
  unfolding lookup remove
  length-remove_present k [] d h = cc
  length-remove_present k ((j, v) ∷ m) d h =
      ground (arith, length-remove_present k m d.1, length-remove_absent k m)

  pub length-insert :
      (k : Text) (v : V) (m : List (Text × V))
      → Distinct m
      → length (insert k v m) ≡ (if has k m then length m else suc (length m))
  unfolding insert
  length-insert k v m d = elim (Bool-cases (has k m)) [
    | inl h ↦ rw h (omega (arith, length-remove_present k m d h))
    | inr h ↦ rw h (ap suc (length-remove_absent k m (ground arith)))
  ]

  -- The queue lists the keys of the map, each once.
  pub record Mirrors (m : List (Text × V)) (os : List Text) : Type ℓ where
    pub distinct : Distinct m
    pub norepeat : NoRepeat os
    pub size : length m ≡ length os
    pub members : (k : Text) → contains k os ≡ has k m

-- `order.retain(|x| x != &id)`.
abbrev pub without : Text → List Text → List Text
without k = retain (λ x. not (x == k))

pub contains-without :
    (k j : Text) (os : List Text)
    → contains j (without k os) ≡ (if k == j then false else contains j os)
unfolding contains retain
contains-without k j [] = ground arith
contains-without k j (x ∷ os) = ground (arith, contains-without k j os)

pub without-NoRepeat : (k : Text) (os : List Text) → NoRepeat os → NoRepeat (without k os)
unfolding retain
without-NoRepeat k [] h = tt
without-NoRepeat k (x ∷ os) h = ground (arith, without-NoRepeat k os h.1, contains-without k x os)

pub without_absent : (k : Text) (os : List Text) → contains k os ≡ false → without k os ≡ os
unfolding contains retain
without_absent k [] h = refl
without_absent k (x ∷ os) h = ground (arith, without_absent k os)

pub length-without :
    (k : Text) (os : List Text)
    → NoRepeat os
    → length os ≡ (if contains k os then suc (length (without k os)) else length (without k os))
unfolding contains retain
length-without k [] h = refl
length-without k (x ∷ os) h = ground (arith, length-without k os h.1, without_absent k os)

pub contains-append :
    (j : Text) (xs : List Text) (k : Text)
    → contains j (xs ++ k ∷ []) ≡ (if k == j then true else contains j xs)
unfolding contains
contains-append j [] k = ground arith
contains-append j (x ∷ xs) k = ground (arith, contains-append j xs k)

pub append-NoRepeat :
    (xs : List Text) (k : Text) → NoRepeat xs → contains k xs ≡ false → NoRepeat (xs ++ k ∷ [])
unfolding contains
append-NoRepeat [] k h n = (refl, tt)
append-NoRepeat (x ∷ xs) k h n =
    (ground (arith, contains-append x xs k), append-NoRepeat xs k h.1 (ground arith))
