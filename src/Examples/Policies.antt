-- ===== src/Examples/Policies.antt =====
-- The theorems about the policies and about failed starts, at concrete inputs.
use oc_computer_use.Prelude.{
  ℕ, Option, none, some, Bool, true, false, [], ◌∷◌, ◌≡◌, ◌↔◌, ◌⊎◌, refl, nat_eq, lookup,
}
use oc_computer_use.Errors.{CuError, RiskLevel, err}
use oc_computer_use.Platform.Sample.{sample}
use oc_computer_use.Session.{SessionState}
use oc_computer_use.Session.Lock.{try_acquire}
use oc_computer_use.Policy.{
  TakeoverDetector, TakeoverPolicy, from_caller, authorize, requires, has_actions,
}
use oc_computer_use.Policy.Confirmation.{authorize_iff}
use oc_computer_use.Runtime.Start.{session_start, with_holder_owner}
use oc_computer_use.Runtime.Starts.{SameButLog, start_failed}
use oc_computer_use.Examples.{runtime_of, start_input}

authorize_iff_example :
    let p = from_caller {A = ℕ} none RiskLevel.high none (8 ∷ []) in
    (authorize p false ≡ requires p) ↔ (
      (◌≡◌ {A = Bool} false false)
      × ((◌≡◌ {A = Option Bool} none (some true))
          ⊎ ((RiskLevel.high ≡ RiskLevel.high) × (has_actions {A = ℕ} (8 ∷ []) ≡ true))))
authorize_iff_example = authorize_iff {A = ℕ} none RiskLevel.high none (8 ∷ []) false

abbrev detector : TakeoverDetector sample
detector = record {
  jump_threshold_points = 60;
  required_jumps = 2;
  policy = TakeoverPolicy.auto_pause;
  consecutive_jumps = 0;
}

-- Another session holds the lock; its owner is unknown.
locked_out :
    (session_start sample (record start_input { fresh_id = 9 }) (runtime_of SessionState.active)).0
    ≡ err (CuError.control_locked 7 none)
unfolding session_start try_acquire with_holder_owner lookup
locked_out = refl

start_failed_example :
    SameButLog sample
      (runtime_of SessionState.active)
      (session_start sample
        (record start_input { fresh_id = 9 })
        (runtime_of SessionState.active)).1
start_failed_example =
    start_failed sample (record start_input { fresh_id = 9 }) (runtime_of SessionState.active)
      locked_out
