-- ===== src/Prelude/Map.antt =====
-- Equality tests as an interface, and maps and sets as lists of entries over them. The order of a
-- list is not the iteration order of the source's `HashMap` and `HashSet`: where the source
-- iterates, the order is a parameter of the model.
use Prim.Native.Nat.{ℕ, ◌+◌, ◌≤◌}
use mathlib.Core.Path.{◌≡◌, refl}
use mathlib.Core.List.{List, [], ◌∷◌}
use mathlib.Core.Bool.{Bool, true, false}
use mathlib.Core.Option.{Option, none, some}
use mathlib.Core.Logic.{◌↔◌}
use native.Mathlib.Omega.{arith}
use oc_computer_use.Prelude.Tests.{◌==◌ as nat_beq, ==_iff, if◌then◌else◌}
use oc_computer_use.Prelude.Lists.{length}

pub record Eq {ℓ} (A : Type ℓ) : Type ℓ where
  pub beq : A → A → Bool
  pub beq_iff : (a b : A) → (beq a b ≡ true) ↔ (a ≡ b)

instance abbrev pub nat_eq : Eq ℕ
nat_eq = record { beq = nat_beq; beq_iff = ==_iff }

module _ {ℓ} {K : Type ℓ} ⦃e : Eq K⦄ where
  pub beq_self : (k : K) → e.beq k k ≡ true
  beq_self k = (e.beq_iff k k).1 refl

  unfoldable pub contains : K → List K → Bool
  contains k [] = false
  contains k (x ∷ xs) = let rest = contains k xs in if e.beq x k then true else rest

  unfoldable pub erase : K → List K → List K
  erase k [] = []
  erase k (x ∷ xs) = let rest = erase k xs in if e.beq x k then rest else x ∷ rest

  -- `HashSet::insert`.
  unfoldable pub add : K → List K → List K
  add k xs = if contains k xs then xs else k ∷ xs

  pub contains-add : (k j : K) (xs : List K) → contains j xs ≡ true → contains j (add k xs) ≡ true
  unfolding contains add
  contains-add k j xs h = ground arith

  pub contains-add_self : (k : K) (xs : List K) → contains k (add k xs) ≡ true
  unfolding contains add
  contains-add_self k xs = ground (arith, beq_self k)

  pub contains-erase_self : (k : K) (xs : List K) → contains k (erase k xs) ≡ false
  unfolding contains erase
  contains-erase_self k [] = refl
  contains-erase_self k (x ∷ xs) = ground (arith, contains-erase_self k xs)

  pub contains-erase_other :
      (k j : K) (xs : List K) → e.beq k j ≡ false → contains j (erase k xs) ≡ contains j xs
  unfolding contains erase
  contains-erase_other k j [] h = refl
  contains-erase_other k j (x ∷ xs) h =
      ground (arith, contains-erase_other k j xs h, e.beq_iff x k, e.beq_iff x j, e.beq_iff k j)

  pub length-erase-le : (k : K) (xs : List K) → length (erase k xs) ≤ length xs
  unfolding erase
  length-erase-le k [] = omega arith
  length-erase-le k (x ∷ xs) = ground (arith, length-erase-le k xs)

  pub length-erase_mem :
      (k : K) (xs : List K) → contains k xs ≡ true → length (erase k xs) + 1 ≤ length xs
  unfolding contains erase
  length-erase_mem k [] h = absurd (cc)
  length-erase_mem k (x ∷ xs) h = ground (arith, length-erase-le k xs, length-erase_mem k xs)

  pub length-add-le : (k : K) (xs : List K) → length (add k xs) ≤ length xs + 1
  unfolding add
  length-add-le k xs = ground arith

module _ {ℓ κ} {K : Type ℓ} {V : Type κ} ⦃e : Eq K⦄ where
  unfoldable pub lookup : K → List (K × V) → Option V
  lookup k [] = none
  lookup k ((j, v) ∷ m) = let rest = lookup k m in if e.beq j k then some v else rest

  unfoldable pub remove : K → List (K × V) → List (K × V)
  remove k [] = []
  remove k ((j, v) ∷ m) = let rest = remove k m in if e.beq j k then rest else (j, v) ∷ rest

  -- `HashMap::insert`.
  unfoldable pub insert : K → V → List (K × V) → List (K × V)
  unfolding remove
  insert k v m = (k, v) ∷ remove k m

  pub lookup-remove_self : (k : K) (m : List (K × V)) → lookup k (remove k m) ≡ none
  unfolding lookup remove
  lookup-remove_self k [] = refl
  lookup-remove_self k ((j, v) ∷ m) = ground (arith, lookup-remove_self k m)

  pub lookup-remove_other :
      (k j : K) (m : List (K × V)) → e.beq k j ≡ false → lookup j (remove k m) ≡ lookup j m
  unfolding lookup remove
  lookup-remove_other k j [] h = refl
  lookup-remove_other k j ((i, v) ∷ m) h =
      ground (arith, lookup-remove_other k j m h, e.beq_iff i k, e.beq_iff i j, e.beq_iff k j)

  pub lookup-insert_self : (k : K) (v : V) (m : List (K × V)) → lookup k (insert k v m) ≡ some v
  unfolding lookup insert
  lookup-insert_self k v m = ground (arith, beq_self k)

  pub lookup-insert_other :
      (k j : K) (v : V) (m : List (K × V))
      → e.beq k j ≡ false
      → lookup j (insert k v m) ≡ lookup j m
  unfolding lookup insert
  lookup-insert_other k j v m h = rw h (lookup-remove_other k j m h)

  pub length-remove-le : (k : K) (m : List (K × V)) → length (remove k m) ≤ length m
  unfolding remove
  length-remove-le k [] = omega arith
  length-remove-le k ((j, v) ∷ m) = ground (arith, length-remove-le k m)
