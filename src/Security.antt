-- ===== src/Security.antt =====
-- cu-core/src/security.rs: verification of a presented token against its stored hash.
-- SHA-256 is a parameter; a digest is its list of bytes.
pub mod Compare
pub mod Redact
pub mod Keys
pub mod Redacted
use Prim.Native.Nat.{bit_or, bit_xor}
use oc_computer_use.Prelude.{ℕ, Bool, false, List, [], ◌∷◌, ◌==◌, length, if◌then◌else◌}

-- The loop of `verify`: `acc |= a[i] ^ b[i]`, never left early. It is called at equal lengths.
unfoldable pub accumulate : ℕ → List ℕ → List ℕ → ℕ
accumulate acc [] bs = acc
accumulate acc (a ∷ as_) [] = acc
accumulate acc (a ∷ as_) (b ∷ bs) = accumulate (bit_or acc (bit_xor a b)) as_ bs

-- The body of `SecretTokenHash::verify` at the digest of the presented token.
unfoldable pub same_digest : List ℕ → List ℕ → Bool
unfolding accumulate
same_digest a b = if length a == length b then accumulate 0 a b == 0 else false
