-- ===== src/Policy/Confirmation.antt =====
-- Which batches run without a confirmation.
use oc_computer_use.Prelude.{◌≡◌, ◌↔◌, ◌⊎◌, Option, some, Bool, true, false, List, arith}
use oc_computer_use.Errors.{Text, RiskLevel}
use oc_computer_use.Policy.{from_caller, authorize, requires, has_actions}

-- A batch is turned away just when nobody confirmed it, and the caller asked for a confirmation or
-- declared a high risk for at least one action; the policy that says so goes with the refusal.
pub authorize_iff :
    {A : Type 0} (asked : Option Bool) (risk : RiskLevel) (context : Option Text) (actions : List A)
    (confirmed : Bool)
    → let p = from_caller asked risk context actions in
      (authorize p confirmed ≡ requires p) ↔ (
        (confirmed ≡ false)
        × ((asked ≡ some true) ⊎ ((risk ≡ RiskLevel.high) × (has_actions actions ≡ true))))
unfolding authorize from_caller
authorize_iff asked risk context actions confirmed = (λ h. ground arith, λ h. ground arith)
