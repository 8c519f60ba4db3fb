-- ===== src/Platform/Sample.antt =====
-- A platform that meets the laws: handles are numbers, given out in order, and a number of type
-- `F64` counts thousandths.
use oc_computer_use.Prelude.{◌≤◌, ℤ, pos, leb, ◌+◌, ◌-◌}
use Prim.Native.Nat.{max, min}
use oc_computer_use.Prelude.{
  ◌*◌, ◌/◌, ltb, All, ℕ, suc, ◌≡◌, ◌<◌, Bool, true, false, List, [], ◌∷◌, refl, arith, ◌==◌,
  if◌then◌else◌, ==_iff,
}
use oc_computer_use.Errors.{Text}
use oc_computer_use.Platform.{Platform}

abbrev pub mark : ℕ → Bool → (ℕ → Bool) → ℕ → Bool
mark t b f u = if t == u then b else f u

abbrev pub Flags : Type 0
Flags = ℕ × (ℕ → Bool)

abbrev fresh : Flags → ℕ × Flags
fresh (n, f) = (n, (suc n, mark n false f))

abbrev cancel_flag : ℕ → Flags → Flags
cancel_flag t (n, f) = (n, mark t true f)

abbrev flag : ℕ → Flags → Bool
flag t (n, f) = f t

pub mark_self : (t : ℕ) (b : Bool) (f : ℕ → Bool) → mark t b f t ≡ b
mark_self t b f = ground arith

pub mark_other : (t u : ℕ) (b : Bool) (f : ℕ → Bool) → (t == u) ≡ false → mark t b f u ≡ f u
mark_other t u b f h = ground arith

abbrev pub clamp : ℕ → ℕ → ℕ → ℕ
clamp x lo hi = if ltb x lo then lo else if ltb hi x then hi else x

pub clamp_lem : (x n : ℕ) → n < 4294967296 → clamp x 0 (n * 1000) / 1000 ≤ n
clamp_lem x n h = ground arith

abbrev pub to_int : ℕ → ℤ
to_int a = pos (if ltb (a / 1000) 9223372036854775808 then a / 1000 else 9223372036854775807)

pub to_int_below : (a n : ℕ) → to_int a ≡ pos n → n < 9223372036854775808
to_int_below a n e = ground arith

-- The greater of a value and one.
pub to_int-max : (a : ℕ) → (n : ℕ) × (to_int (max a 1000) ≡ pos (suc n))
to_int-max a =
    let k =
      if ltb (max a 1000 / 1000) 9223372036854775808
      then max a 1000 / 1000
      else 9223372036854775807 in
    let big : suc (k - 1) ≡ k = ground arith in (k - 1, rw big refl)

-- A digest of one byte, enough to tell some tokens apart.
abbrev pub digest : Text → List ℕ
digest t = (if t == 0 then 0 else if t == 1 then 1 else if t == 2 then 2 else 3) ∷ []

pub digest_bytes : (t : Text) → All (λ b. b < 256) (digest t)
digest_bytes t = ground arith

abbrev pub sample : Platform
sample = record {
  F64 = ℕ;
  f64_zero = 0;
  f64_half = 500;
  f64_one = 1000;
  of_ℕ = λ n. n * 1000;
  f64_div = λ a b. a * 1000 / b;
  f64_max = max;
  f64_lt = ltb;
  f64_le = leb;
  f64_add = ◌+◌;
  f64_sub = ◌-◌;
  f64_mul = λ a b. a * b / 1000;
  f64_sqrt = λ a. a;
  f64_round = λ a. (a + 500) / 1000 * 1000;
  f64_trunc = λ a. a / 1000 * 1000;
  f64_min = min;
  f64_clamp = clamp;
  f64_epsilon = 1;
  to_u32 = λ a. a / 1000;
  to_i64 = to_int;
  to_i64_below = to_int_below;
  to_i64_max = to_int-max;
  clamp_u32 = clamp_lem;
  Token = ℕ;
  Store = Flags;
  child_token = fresh;
  cancel = cancel_flag;
  is_cancelled = flag;
  same = ◌==◌;
  same_iff = ==_iff;
  cancel_self = λ t s. mark_self t true s.1;
  cancel_other = λ t u s h. mark_other t u true s.1 h;
  child_live = λ s. mark_self s.0 false s.1;
  child_other = λ t s h. mark_other s.0 t false s.1 h;
  sha256 = digest;
  sha256_bytes = digest_bytes;
}

abbrev pub no_tokens : Flags
no_tokens = (0, λ t. false)
