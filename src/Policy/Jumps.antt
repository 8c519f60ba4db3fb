-- ===== src/Policy/Jumps.antt =====
-- What the takeover detector counts.
use oc_computer_use.Prelude.{ℕ, ◌+◌, ◌≡◌, refl, ◌≤◌, ◌↔◌, true, List, [], ◌∷◌, arith, if◌then◌else◌}
use oc_computer_use.Platform.{Platform}
use oc_computer_use.Policy.{TakeoverDetector, observe_jump}

module _ (P : Platform) where
  open P use {F64, f64_lt}

  -- Samples, the latest first, fed to the detector from the oldest on.
  pub feed : List F64 → TakeoverDetector P → TakeoverDetector P
  feed [] d = d
  feed (x ∷ xs) d = (observe_jump P x (feed xs d)).1

  -- How many of the latest samples are jumps, up to the first that is none.
  pub streak : F64 → List F64 → ℕ
  streak threshold [] = 0
  streak threshold (x ∷ xs) =
      let rest = streak threshold xs in if f64_lt threshold x then rest + 1 else 0

  feed-streak :
      (xs : List F64) (d : TakeoverDetector P)
      → d.consecutive_jumps ≡ 0
      → ((feed xs d).consecutive_jumps ≡ streak d.jump_threshold_points xs)
        × ((feed xs d).jump_threshold_points ≡ d.jump_threshold_points)
        × ((feed xs d).required_jumps ≡ d.required_jumps)
  unfolding feed streak observe_jump
  feed-streak [] d h = (h, refl, refl)
  feed-streak (x ∷ xs) d h = let (a, b, c) = feed-streak xs d h in (rw (a, b) refl, b, c)

  -- After any samples, fed to a detector that starts without a streak, the next one makes it react
  -- just when that sample and those right before it, all of them jumps, are as many as required.
  pub observe_jump_iff :
      (x : F64) (xs : List F64) (d : TakeoverDetector P)
      → d.consecutive_jumps ≡ 0
      → ((observe_jump P x (feed xs d)).0 ≡ true)
        ↔ (d.required_jumps ≤ streak d.jump_threshold_points (x ∷ xs))
  unfolding streak observe_jump
  observe_jump_iff x xs d h =
      let (a, b, c) = feed-streak xs d h in rw (a, b, c) (λ e. ground arith, λ e. ground arith)
