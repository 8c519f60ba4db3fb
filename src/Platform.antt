-- ===== src/Platform.antt =====
-- What the program takes from outside the repository: `tokio_util::sync::CancellationToken`,
-- SHA-256 of the `sha2` crate, and `f64`. Each field named after a method stands for it;
-- the laws are what the documentation of these says and the code relies on.
pub mod Sample
use oc_computer_use.Prelude.{◌≤◌, ℤ, pos, suc}
use oc_computer_use.Prelude.{All, ℕ, ◌≡◌, ◌↔◌, ◌<◌, Bool, true, false, List}
use oc_computer_use.Errors.{Text}

pub record Platform : Type 1 where
  -- `f64`: literals, conversion from an integer, and the operations that the models call.
  pub F64 : Type 0
  pub f64_zero : F64
  pub f64_half : F64
  pub f64_one : F64
  pub of_ℕ : ℕ → F64
  pub f64_div : F64 → F64 → F64
  pub f64_max : F64 → F64 → F64
  pub f64_lt : F64 → F64 → Bool
  pub f64_le : F64 → F64 → Bool
  pub f64_add : F64 → F64 → F64
  pub f64_sub : F64 → F64 → F64
  pub f64_mul : F64 → F64 → F64
  pub f64_sqrt : F64 → F64
  pub f64_round : F64 → F64
  pub f64_trunc : F64 → F64
  pub f64_min : F64 → F64 → F64
  pub f64_clamp : F64 → F64 → F64 → F64
  pub f64_epsilon : F64
  -- The casts `as u32` and `as i64`.
  pub to_u32 : F64 → ℕ
  pub to_i64 : F64 → ℤ
  -- The cast to `i64` saturates, and a value that is at least one casts to one that is.
  pub to_i64_below : (x : F64) (n : ℕ) → to_i64 x ≡ pos n → n < 9223372036854775808
  pub to_i64_max : (x : F64) → (n : ℕ) × (to_i64 (f64_max x f64_one) ≡ pos (suc n))
  -- A value clamped between zero and an integer below 2^32 casts to one that is not above it.
  pub clamp_u32 : (x : F64) (n : ℕ) → n < 4294967296 → to_u32 (f64_clamp x f64_zero (of_ℕ n)) ≤ n
  -- `Token` is a handle and `Store` says of every handle whether it is cancelled.
  pub Token : Type 0
  pub Store : Type 0
  pub child_token : Store → Token × Store
  pub cancel : Token → Store → Store
  pub is_cancelled : Token → Store → Bool
  -- `PartialEq` of handles.
  pub same : Token → Token → Bool
  pub same_iff : (t u : Token) → (same t u ≡ true) ↔ (t ≡ u)
  pub cancel_self : (t : Token) (s : Store) → is_cancelled t (cancel t s) ≡ true
  pub cancel_other :
      (t u : Token) (s : Store) → same t u ≡ false → is_cancelled u (cancel t s) ≡ is_cancelled u s
  pub child_live : (s : Store) → is_cancelled (child_token s).0 (child_token s).1 ≡ false
  pub child_other :
      (t : Token) (s : Store)
      → same (child_token s).0 t ≡ false
      → is_cancelled t (child_token s).1 ≡ is_cancelled t s
  -- The digest of a token's bytes.
  pub sha256 : Text → List ℕ
  pub sha256_bytes : (t : Text) → All (λ b. b < 256) (sha256 t)
