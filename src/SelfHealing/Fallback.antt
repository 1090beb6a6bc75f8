-- ===== src/SelfHealing/Fallback.antt =====
-- Step 9b of `handle_failure` of app/engine/core/self_healing/orchestrator.py: the rollback after a repair that
-- did not validate.
use crucible_ai.Prelude.{
  Bool, List, Option, String, [], false, if◌then◌else◌, is_some, none, some, ◌++◌, ◌∷◌,
}
use crucible_ai.Pipeline.Model.{Checkpoint, get_key}
use crucible_ai.Pipeline.Runtime.{Result, ok, raise, Runtime}
use crucible_ai.Pipeline.Steps.{truthy}
use crucible_ai.Recovery.Decision.{RecoveryDecision, id_of, rollback}
use crucible_ai.Recovery.Validator.{validate_checkpoint}
use crucible_ai.Recovery.Report.{RecoveryResult, RecoveryState}
use crucible_ai.Recovery.Actions.{exists_in}
use crucible_ai.Recovery.Executor.{execute}
use crucible_ai.Repair.Planner.{RepairPlan}
use crucible_ai.Repair.Sandbox.{SandboxResult}
use crucible_ai.SelfHealing.Model.{
  SelfHealingStatus, SelfHealingResult, HealingEvent, HealState, Setup, Diagnosis,
}

-- `_emit`
unfoldable pub heal_emit : {V W : Type 0} → String → String → HealState V W → HealState V W
heal_emit event_type status s = record s {
  events = s.events ++ record { event_type = event_type; status = status } ∷ [];
}

-- A result of a diagnosis, with what it has beyond that set by the caller.
abbrev pub healing_result :
    {V W : Type 0} → Diagnosis → SelfHealingStatus → Bool → HealState V W → SelfHealingResult
healing_result d status success s = record {
  execution_id = d.execution_id;
  success = success;
  final_status = status;
  fault_report = some d.fault;
  localization = some d.localization;
  root_cause = some d.root_cause;
  recovery_decision = some d.decision;
  repair_plan = none;
  sandbox_result = none;
  recovery_result = none;
  validation_result = none;
  resumed_from_node = none;
  rolled_back_to_checkpoint = none;
  events = s.events;
}

-- The decision that a failed repair is rolled back by.
unfoldable pub rollback_decision : String → Option String → RecoveryDecision
rollback_decision execution_id checkpoint_id = record {
  execution_id = execution_id;
  action = rollback;
  requires_approval = false;
  target_node = none;
  checkpoint_id = checkpoint_id;
  confidence = 100;
}

module _ {V W : Type 0} where
  -- The end after a sandbox that did not validate: which checkpoint was rolled back to, if any.
  unfoldable pub conclude_rollback :
      Diagnosis
      → RepairPlan
      → SandboxResult
      → Option String
      → Option RecoveryResult
      → HealState V W
      → SelfHealingResult × HealState V W
  unfolding heal_emit
  conclude_rollback d p sandbox rolled_back_to recovery s =
      let status =
        if is_some rolled_back_to
        then SelfHealingStatus.rolled_back
        else SelfHealingStatus.failed in
      let t =
        if is_some (truthy rolled_back_to)
        then heal_emit "pipeline_rollback_completed" "success" s
        else heal_emit "self_healing_aborted" "failed" s in
      (
        record (healing_result d status false t) {
          repair_plan = some p;
          sandbox_result = some sandbox;
          recovery_result = recovery;
          rolled_back_to_checkpoint = rolled_back_to;
        },
        t,
      )

  -- `self._recovery_executor.execute(rollback_decision)`, and what its result means.
  unfoldable pub after_recovery :
      Diagnosis
      → RepairPlan
      → SandboxResult
      → Option String
      → Result RecoveryResult × RecoveryState V W
      → List HealingEvent
      → SelfHealingResult × HealState V W
  unfolding conclude_rollback heal_emit
  after_recovery d p sandbox id (raise e, t) events =
      conclude_rollback d p sandbox none none (record { base = t.base; events = events })
  after_recovery d p sandbox id (ok r, t) events =
      let s : HealState V W = record { base = t.base; events = events } in
      if r.success
      then conclude_rollback d p sandbox id (some r)
          (heal_emit "pipeline_rollback_completed" "success" s)
      else conclude_rollback d p sandbox none (some r) s

module _ {V W : Type 0} (rt : Runtime V W) (o : Setup V W) where
  -- Step 9b: back to the checkpoint, where there is one that can be trusted.
  unfoldable pub roll_back :
      Diagnosis
      → RepairPlan
      → SandboxResult
      → Option Checkpoint
      → HealState V W
      → SelfHealingResult × HealState V W
  unfolding after_recovery rollback_decision heal_emit get_key
  roll_back d p sandbox none s = conclude_rollback d p sandbox none none s
  roll_back d p sandbox (some c) s =
      let trust = validate_checkpoint (exists_in s.base) c in
      let id = id_of d.checkpoint in
      let t = heal_emit "manual_review_required" "pending" s in
      if trust.passed
      then after_recovery d p sandbox id
          (execute rt (rollback_decision d.execution_id id)
            (record { max_attempts = o.max_attempts; nodes = none; pipeline_callable = none })
            (record { base = s.base; events = [] }))
          s.events
      else (
        record (healing_result d SelfHealingStatus.manual_review false t) {
          repair_plan = some p;
          sandbox_result = some sandbox;
          validation_result = some trust;
        },
        t,
      )
