-- ===== src/SelfHealing/Results.antt =====
-- What a result of the self-healing chain says of itself.
use crucible_ai.SelfHealing.Model.{HealState, SelfHealingResult, SelfHealingStatus}
use crucible_ai.Recovery.Report.{RecoveryResult}
use crucible_ai.Pipeline.Runtime.{Runtime, State}
use crucible_ai.Repair.Sandbox.{SandboxResult}
use crucible_ai.Recovery.Validator.{ValidationResult, validate_checkpoint}
use crucible_ai.Prelude.{Bool, Option, false, is_some, none, some, true, ◌&&◌, ◌≡◌, ◌⊎◌}
use crucible_ai.Pipeline.Model.{Checkpoint}
use crucible_ai.Recovery.Actions.{exists_in}
use crucible_ai.SelfHealing.Model.{no_fault, resumed}

abbrev is_well : SelfHealingStatus → Bool
is_well no_fault = true
is_well resumed = true
is_well _ = false

abbrev is_rolled_back : SelfHealingStatus → Bool
is_rolled_back SelfHealingStatus.rolled_back = true
is_rolled_back _ = false

abbrev is_resumed : SelfHealingStatus → Bool
is_resumed resumed = true
is_resumed _ = false

abbrev has_succeeded : Option SandboxResult → Bool
has_succeeded none = false
has_succeeded (some r) = r.success

abbrev has_passed : Option ValidationResult → Bool
has_passed none = true
has_passed (some v) = v.passed

-- Whether the recovery executor was asked and reports a success.
abbrev has_recovered : Option RecoveryResult → Bool
has_recovered none = false
has_recovered (some r) = r.success

-- The repair is known to be good: the sandbox succeeded, and the validation passed where there was
-- one.
abbrev is_proven : SelfHealingResult → Bool
is_proven r = has_succeeded r.sandbox_result && has_passed r.validation_result

pub record IsHonest (r : SelfHealingResult) : Type 0 where
  pub verdict : r.success ≡ is_well r.final_status
  pub rolled : is_some r.rolled_back_to_checkpoint ≡ is_rolled_back r.final_status
  pub recovered : is_some r.rolled_back_to_checkpoint ≡ has_recovered r.recovery_result
  pub proven : is_resumed r.final_status ≡ is_proven r
  pub diagnosed : is_some r.recovery_decision ≡ is_some r.root_cause

abbrev Honest : {V W : Type 0} → SelfHealingResult × HealState V W → Type 0
Honest m = IsHonest m.0

-- A rollback is tried where the sandbox has failed, or else the checkpoint is not valid.
abbrev Unproven : {V W : Type 0} → SandboxResult → Option Checkpoint → State V W → Type 0
Unproven x none s = x.success ≡ false
Unproven x (some c) s = (x.success ≡ false) ⊎ ((validate_checkpoint (exists_in s) c).passed ≡ false)
