-- ===== src/Policy.antt =====
-- cu-policy/src/confirmation.rs and takeover.rs: which batches need a confirmation, and when the
-- pointer's jumps count as the human's.
pub mod Confirmation
pub mod Jumps
use oc_computer_use.Prelude.{
  ℕ, ◌+◌, Option, none, some, Bool, true, false, not, ◌&&◌, ◌||◌, List, [], ◌∷◌, leb, if◌then◌else◌,
}
use oc_computer_use.Errors.{Text, CuError, RiskLevel, ConfirmationDetail}
use oc_computer_use.Platform.{Platform}

abbrev pub is_high : RiskLevel → Bool
is_high RiskLevel.high = true
is_high _ = false

abbrev pub unwrap_or {ℓ} : {A : Type ℓ} → A → Option A → A
unwrap_or a none = a
unwrap_or a (some b) = b

abbrev pub has_actions {ℓ} : {A : Type ℓ} → List A → Bool
has_actions [] = false
has_actions (a ∷ as_) = true

-- What the three texts of `reason` say.
pub data PolicyReason : Type 0 where
  marked_by_caller declared_high_risk no_reason : PolicyReason

pub record ConfirmationPolicy : Type 0 where
  pub requires_confirmation : Bool
  pub risk_level : RiskLevel
  pub reason : PolicyReason
  pub policy_context : Option Text

-- The text of the risk level is parsed already.
unfoldable pub from_caller {ℓ} :
    {A : Type ℓ} → Option Bool → RiskLevel → Option Text → List A → ConfirmationPolicy
from_caller requires risk context actions =
    let explicit = unwrap_or false requires in
    let auto_high = not explicit && is_high risk && has_actions actions in
    record {
      requires_confirmation = explicit || auto_high;
      risk_level = risk;
      reason =
          if explicit
          then marked_by_caller
          else if auto_high
          then declared_high_risk
          else no_reason;
      policy_context = context;
    }

unfoldable pub confirmation_error : ConfirmationPolicy → CuError
confirmation_error p = CuError.confirmation_required (record {
  risk_level = p.risk_level;
  requires_confirmation = p.requires_confirmation;
  policy_context = p.policy_context;
})

pub data Authorization : Type 0 where
  allowed : Authorization
  requires : ConfirmationPolicy → Authorization

unfoldable pub authorize : ConfirmationPolicy → Bool → Authorization
authorize p confirmed =
    if p.requires_confirmation && not confirmed then Authorization.requires p else allowed

pub data TakeoverPolicy : Type 0 where
  ignore auto_pause immediate_takeover : TakeoverPolicy

module _ (P : Platform) where
  open P use {F64, f64_lt, f64_add, f64_mul, f64_sqrt}

  -- The streak stays below 2^32.
  pub record TakeoverDetector : Type 0 where
    pub jump_threshold_points : F64
    pub required_jumps : ℕ
    pub policy : TakeoverPolicy
    pub consecutive_jumps : ℕ

  -- `observe`, from the length of the move on.
  unfoldable pub observe_jump : F64 → TakeoverDetector → Bool × TakeoverDetector
  observe_jump dist d =
      let n = if f64_lt d.jump_threshold_points dist then d.consecutive_jumps + 1 else 0 in
      (leb d.required_jumps n, record d { consecutive_jumps = n })

  unfoldable pub observe : F64 → F64 → TakeoverDetector → Bool × TakeoverDetector
  unfolding observe_jump
  observe dx dy d = observe_jump (f64_sqrt (f64_add (f64_mul dx dx) (f64_mul dy dy))) d

  unfoldable pub reset : TakeoverDetector → TakeoverDetector
  reset d = record d { consecutive_jumps = 0 }
