-- ===== src/SelfHealing/Repairing.antt =====
-- Steps 7 to 9a of `handle_failure` of app/engine/core/self_healing/orchestrator.py: the sandbox, its validation
-- and the resumption.
use crucible_ai.Prelude.{Bool, Option, false, if◌then◌else◌, none, some, true}
use crucible_ai.Pipeline.Model.{Checkpoint, get_key}
use crucible_ai.Pipeline.Runtime.{Runtime}
use crucible_ai.Recovery.Decision.{RecoveryActionType, rerun_from_node, rollback}
use crucible_ai.Recovery.Validator.{ValidationResult, validate_checkpoint}
use crucible_ai.Recovery.Actions.{exists_in}
use crucible_ai.Repair.Planner.{RepairPlan}
use crucible_ai.Repair.Sandbox.{SandboxResult, execute_plan}
use crucible_ai.SelfHealing.Model.{
  SelfHealingStatus, SelfHealingResult, HealState, Setup, Diagnosis,
}
use crucible_ai.SelfHealing.Fallback.{heal_emit, healing_result, roll_back}

-- The actions for which the checkpoint is validated after the sandbox.
abbrev pub restores : RecoveryActionType → Bool
restores rollback = true
restores rerun_from_node = true
restores _ = false

module _ {V W : Type 0} where
  -- Step 9a
  unfoldable pub resume :
      Diagnosis
      → RepairPlan
      → SandboxResult
      → Option ValidationResult
      → HealState V W
      → SelfHealingResult × HealState V W
  unfolding heal_emit
  resume d p sandbox validation s =
      let t =
        heal_emit "pipeline_resumed" "success" (heal_emit "repair_validation_passed" "success" s) in
      (
        record (healing_result d SelfHealingStatus.resumed true t) {
          repair_plan = some p;
          sandbox_result = some sandbox;
          validation_result = validation;
          resumed_from_node = p.root_node;
        },
        t,
      )

  -- The checkpoint's validation of step 8, where one is due.
  unfoldable pub checkpoint_validation :
      RecoveryActionType → Option Checkpoint → HealState V W → Option ValidationResult
  unfolding get_key
  checkpoint_validation action none s = none
  checkpoint_validation action (some c) s =
      if restores action then some (validate_checkpoint (exists_in s.base) c) else none

module _ {V W : Type 0} (rt : Runtime V W) (o : Setup V W) where
  unfoldable pub start_rollback :
      Diagnosis → RepairPlan → SandboxResult → HealState V W → SelfHealingResult × HealState V W
  unfolding roll_back heal_emit
  start_rollback d p sandbox s =
      roll_back rt o d p sandbox d.checkpoint (heal_emit "pipeline_rollback_started" "running" s)

  unfoldable pub judge_checkpoint :
      Diagnosis
      → RepairPlan
      → SandboxResult
      → Option ValidationResult
      → HealState V W
      → SelfHealingResult × HealState V W
  unfolding resume start_rollback heal_emit
  judge_checkpoint d p sandbox none s = resume d p sandbox none s
  judge_checkpoint d p sandbox (some v) s =
      if v.passed
      then resume d p sandbox (some v) s
      else start_rollback d p sandbox (heal_emit "repair_validation_failed" "failed" s)

  -- Step 8
  unfoldable pub validate_repair :
      Diagnosis → RepairPlan → SandboxResult → HealState V W → SelfHealingResult × HealState V W
  unfolding judge_checkpoint start_rollback checkpoint_validation heal_emit
  validate_repair d p sandbox s =
      let t = heal_emit "repair_validation_started" "running" s in
      if sandbox.success
      then judge_checkpoint d p sandbox (checkpoint_validation d.decision.action d.checkpoint t) t
      else start_rollback d p sandbox t

  -- Step 7
  unfoldable pub run_sandbox :
      Diagnosis → RepairPlan → HealState V W → SelfHealingResult × HealState V W
  unfolding validate_repair heal_emit
  run_sandbox d p s =
      let (sandbox, after) = execute_plan o.handlers rt.none_value p s.base.world in
      let t = heal_emit "repair_sandbox_started" "running" s in
      validate_repair d p sandbox (
        heal_emit "repair_sandbox_completed" (if sandbox.success then "success" else "failed")
          (record t { base = record t.base { world = after } }))
