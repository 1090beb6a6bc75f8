-- ===== src/SelfHealing/Model.antt =====
-- app/engine/core/self_healing/models.py. Timestamps, audit references (which stay empty) and the
-- texts of errors are left out.
use crucible_ai.Prelude.{Bool, List, Option, String, ℕ}
use crucible_ai.Pipeline.Model.{Checkpoint}
use crucible_ai.Pipeline.Runtime.{State}
use crucible_ai.Fault.Model.{FaultReport, FaultLocalization}
use crucible_ai.Repair.RootCause.{RootCauseReport}
use crucible_ai.Repair.Planner.{RepairPlan}
use crucible_ai.Repair.Sandbox.{SandboxResult, Handlers}
use crucible_ai.Recovery.Decision.{RecoveryDecision}
use crucible_ai.Recovery.Report.{RecoveryResult}
use crucible_ai.Recovery.Validator.{ValidationResult}

pub data SelfHealingStatus : Type 0 where
  detected localized diagnosed planned safety_checked : SelfHealingStatus
  sandbox_executing validating : SelfHealingStatus
  resumed rolled_back quarantined manual_review aborted failed no_fault : SelfHealingStatus

-- A `NodeEvent` that the orchestrator emits, without its texts.
pub record HealingEvent : Type 0 where
  pub event_type : String
  pub status : String

pub record SelfHealingResult : Type 0 where
  pub execution_id : String
  pub success : Bool
  pub final_status : SelfHealingStatus
  pub fault_report : Option FaultReport
  pub localization : Option FaultLocalization
  pub root_cause : Option RootCauseReport
  pub recovery_decision : Option RecoveryDecision
  pub repair_plan : Option RepairPlan
  pub sandbox_result : Option SandboxResult
  pub recovery_result : Option RecoveryResult
  pub validation_result : Option ValidationResult
  pub resumed_from_node : Option String
  pub rolled_back_to_checkpoint : Option String
  pub events : List HealingEvent

-- The state of the pipeline's objects, and the events of the running call.
pub record HealState (V W : Type 0) : Type 0 where
  pub base : State V W
  pub events : List HealingEvent

-- What the constructor is given: the policy, the handlers of the sandbox, and the attempts of the
-- recovery executor.
pub record Setup (V W : Type 0) : Type 0 where
  pub auto_approve_low_risk : Bool
  pub handlers : Handlers V W
  pub max_attempts : ℕ

-- What the first four steps find, with the checkpoint to fall back to.
pub record Diagnosis : Type 0 where
  pub execution_id : String
  pub fault : FaultReport
  pub localization : FaultLocalization
  pub root_cause : RootCauseReport
  pub decision : RecoveryDecision
  pub checkpoint : Option Checkpoint
