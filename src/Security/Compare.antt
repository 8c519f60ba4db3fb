-- ===== src/Security/Compare.antt =====
-- The constant-time comparison decides equality of digests.
use Prim.Native.Nat.{bit_or, bit_xor}
use oc_computer_use.Prelude.{
  ℕ, zero, suc, ◌<◌, ◌≡◌, refl, ◌↔◌, inl, inr, Bool, true, false, ◌&&◌, List, [], ◌∷◌, arith, ◌==◌,
  ltb, if◌then◌else◌, length, All, Bool-cases,
}
use oc_computer_use.Security.{accumulate, same_digest}

-- A test passed by each of the numbers `0`, …, `n - 1`.
passed_upto : (ℕ → Bool) → ℕ → Bool
passed_upto test zero = true
passed_upto test (suc n) = if test n then passed_upto test n else false

passed_upto_lem : (test : ℕ → Bool) (n k : ℕ) → k < n → passed_upto test n ≡ true → test k ≡ true
unfolding passed_upto
passed_upto_lem test zero k small h = absurd (omega arith)
passed_upto_lem test (suc n) k small h = ground (arith, passed_upto_lem test n k)

-- What the loop needs to know of `^` and `|` on two bytes.
abbrev bytes_ok : ℕ → ℕ → Bool
bytes_ok a b =
    (if bit_xor a b == 0 then a == b else true)
    && bit_xor a a == 0
    && ltb (bit_xor a b) 256
    && (if bit_or a b == 0 then a == 0 && b == 0 else true)
    && ltb (bit_or a b) 256

bytes_table : passed_upto (λ a. passed_upto (λ b. bytes_ok a b) 256) 256 ≡ true
unfolding passed_upto
bytes_table = refl

bytes_lem : (a b : ℕ) → a < 256 → b < 256 → bytes_ok a b ≡ true
bytes_lem a b ha hb =
    let row = passed_upto_lem (λ a. passed_upto (λ b. bytes_ok a b) 256) 256 a ha bytes_table in
    passed_upto_lem (λ b. bytes_ok a b) 256 b hb row

abbrev pub IsByte : ℕ → Type 0
IsByte b = b < 256

xor_small : (a b : ℕ) → a < 256 → b < 256 → bit_xor a b < 256
xor_small a b ha hb = ground (arith, bytes_lem a b ha hb)

xor_self : (a : ℕ) → a < 256 → bit_xor a a ≡ 0
xor_self a h = ground (arith, bytes_lem a a h h)

or_small : (a b : ℕ) → a < 256 → b < 256 → bit_or a b < 256
or_small a b ha hb = ground (arith, bytes_lem a b ha hb)

xor_zero : (a b : ℕ) → a < 256 → b < 256 → bit_xor a b ≡ 0 → a ≡ b
xor_zero a b ha hb e = ground (arith, bytes_lem a b ha hb)

or_zero : (a b : ℕ) → a < 256 → b < 256 → bit_or a b ≡ 0 → (a ≡ 0) × (b ≡ 0)
or_zero a b ha hb e = ground (arith, bytes_lem a b ha hb)

accumulate_step :
    (acc a b : ℕ) (as_ bs : List ℕ)
    → acc < 256
    → a < 256
    → b < 256
    → (bit_or acc (bit_xor a b) ≡ 0) × (as_ ≡ bs)
    → (acc ≡ 0) × (a ∷ as_ ≡ b ∷ bs)
accumulate_step acc a b as_ bs h ha hb r =
    let z = or_zero acc (bit_xor a b) h (xor_small a b ha hb) r.0 in
    (z.0, cc (xor_zero a b ha hb z.1, r.1))

accumulate-zero :
    (acc : ℕ) (as_ bs : List ℕ)
    → acc < 256
    → All IsByte as_
    → All IsByte bs
    → length as_ ≡ length bs
    → accumulate acc as_ bs ≡ 0
    → (acc ≡ 0) × (as_ ≡ bs)
unfolding accumulate
accumulate-zero acc [] [] h ha hb l e = (e, refl)
accumulate-zero acc [] (b ∷ bs) h ha hb l e = absurd (omega arith)
accumulate-zero acc (a ∷ as_) [] h ha hb l e = absurd (omega arith)
accumulate-zero acc (a ∷ as_) (b ∷ bs) h ha hb l e = accumulate_step acc a b as_ bs h ha.0 hb.0 (
    accumulate-zero (bit_or acc (bit_xor a b)) as_ bs
      (or_small acc (bit_xor a b) h (xor_small a b ha.0 hb.0)) ha.1 hb.1 (omega arith) e)

accumulate_self : (as_ : List ℕ) → All IsByte as_ → accumulate 0 as_ as_ ≡ 0
unfolding accumulate
accumulate_self [] h = refl
accumulate_self (a ∷ as_) h = rw (xor_self a h.0) (accumulate_self as_ h.1)

-- Of two byte strings, the comparison that never leaves its loop early accepts exactly the equal
-- ones.
pub same_digest_iff :
    (a b : List ℕ) → All IsByte a → All IsByte b → (same_digest a b ≡ true) ↔ (a ≡ b)
unfolding same_digest
same_digest_iff a b ha hb = (forth, back)
  where
    forth : same_digest a b ≡ true → a ≡ b
    forth e = elim (Bool-cases (length a == length b)) [
      | inl l ↦ ground (arith, accumulate-zero 0 a b (omega arith) ha hb)
      | inr l ↦ ground arith
    ]

    back : a ≡ b → same_digest a b ≡ true
    back e = rw (← e) (ground (arith, accumulate_self a ha))
