-- ===== src/Session/Verify.antt =====
-- Who passes the token checks of a session.
use oc_computer_use.Prelude.{
  ℕ, ◌≡◌, refl, ◌↔◌, ◌⊎◌, ◌≢◌, inl, inr, Option, none, some, true, List, arith, All,
}
use oc_computer_use.Errors.{Text, CuError, ok, err}
use oc_computer_use.Security.Compare.{IsByte, same_digest_iff}
use oc_computer_use.Platform.{Platform}
use oc_computer_use.Session.{Session, verify, verify_control_token, verify_read_tokens}

module _ (P : Platform) where
  open P use {sha256, sha256_bytes}

  pub verify_iff :
      (hash : List ℕ) (t : Text) → All IsByte hash → (verify P hash t ≡ true) ↔ (sha256 t ≡ hash)
  unfolding verify
  verify_iff hash t h = same_digest_iff (sha256 t) hash (sha256_bytes t) h

  -- The control check passes exactly for a presented token whose digest is the stored control hash.
  pub verify_control_token_iff :
      (s : Session P) (t : Option Text)
      → All IsByte s.control_token_hash
      → (verify_control_token P s t ≡ ok tt)
        ↔ ((u : Text) × (t ≡ some u) × (sha256 u ≡ s.control_token_hash))
  unfolding verify_control_token
  verify_control_token_iff s none h = (λ e. cc, λ r. cc r.1)
  verify_control_token_iff s (some u) h =
      let accepts = verify_iff s.control_token_hash u h in
      (λ e. (u, refl, ground (arith, accepts)), λ r. ground (arith, accepts, r.1, r.2))

  -- Control includes observation: what passes the control check passes the read check, whatever
  -- stands in the observation slot.
  pub verify_read_tokens_of_control :
      (s : Session P) (observation control : Option Text)
      → verify_control_token P s control ≡ ok tt
      → verify_read_tokens P s observation control ≡ ok tt
  unfolding verify_control_token verify_read_tokens
  verify_read_tokens_of_control s observation control h = ground arith

  -- A refused read says only whether any token was presented at all.
  pub verify_read_tokens_refusal :
      (s : Session P) (observation control : Option Text) (e : CuError)
      → verify_read_tokens P s observation control ≡ err e
      → ((observation ≡ none) × (control ≡ none) × (e ≡ CuError.observation_token_required))
        ⊎ ((e ≡ CuError.invalid_observation_token) × ((observation ≢ none) ⊎ (control ≢ none)))
  unfolding verify_read_tokens
  verify_read_tokens_refusal s none none e h = inl (refl, refl, ground arith)
  verify_read_tokens_refusal s (some o) c e h = inr (ground arith, inl (λ q. cc))
  verify_read_tokens_refusal s none (some c) e h = inr (ground arith, inr (λ q. cc))
