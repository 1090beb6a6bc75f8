-- ===== src/SelfHealing/Orchestrator.antt =====
-- `SelfHealingOrchestrator.handle_failure` of app/engine/core/self_healing/orchestrator.py: the diagnosis, the
-- decision and the safety check. The analysis steps cannot raise in the model, so the results for
-- an exception of theirs are not reached.
use crucible_ai.Prelude.{
  Bool, List, Option, String, [], all, any, false, if◌then◌else◌, none, not, or_else, some, true,
  ◌&&◌, ◌||◌,
}
use crucible_ai.Pipeline.Model.{Checkpoint, PipelineExecution}
use crucible_ai.Pipeline.Runtime.{Runtime, State}
use crucible_ai.Pipeline.Checkpoints.{last_known_good}
use crucible_ai.Fault.Model.{FaultReport}
use crucible_ai.Fault.Detector.{detect}
use crucible_ai.Fault.Localizer.{NodeEvent, localize}
use crucible_ai.Recovery.Decision.{
  RecoveryActionType, decide, id_of, rerun_from_node, rollback, retry, abort, quarantine,
}
use crucible_ai.Repair.RootCause.{analyze}
use crucible_ai.Repair.Planner.{RepairPlan, RepairStep, RiskLevel, is_manual, plan}
use crucible_ai.SelfHealing.Model.{
  SelfHealingStatus, SelfHealingResult, HealState, Setup, Diagnosis,
}
use crucible_ai.SelfHealing.Fallback.{heal_emit, healing_result}
use crucible_ai.SelfHealing.Repairing.{run_sandbox}

abbrev pub is_modest : RiskLevel → Bool
is_modest RiskLevel.low = true
is_modest RiskLevel.medium = true
is_modest _ = false

abbrev pub has_manual_step : RepairPlan → Bool
has_manual_step p = any (λ (s : RepairStep). is_manual s.action_type) p.steps

abbrev pub is_modest_plan : RepairPlan → Bool
is_modest_plan p = all (λ (s : RepairStep). is_modest s.risk_level) p.steps

-- Step 6: whether a plan is carried out without a person.
unfoldable pub is_auto_safe : Bool → RepairPlan → Bool
is_auto_safe auto_approve p =
    (not p.requires_approval && not (has_manual_step p))
    || (auto_approve && (not (has_manual_step p) && is_modest_plan p))

module _ {V W : Type 0} where
  -- The end of a decision that is not carried out automatically.
  unfoldable pub give_up :
      Diagnosis
      → SelfHealingStatus
      → String
      → String
      → HealState V W
      → SelfHealingResult × HealState V W
  unfolding heal_emit
  give_up d status event_type event_status s =
      let t = heal_emit event_type event_status s in (healing_result d status false t, t)

  -- Steps 1 to 4: the diagnosis of a run, with the checkpoint that is given or the last good one.
  unfoldable pub diagnose :
      PipelineExecution → List NodeEvent → Option Checkpoint → State V W → Diagnosis
  diagnose execution events checkpoint s =
      let c = or_else checkpoint (last_known_good (some execution.execution_id) s.checkpoints) in
      let fault = detect execution in
      let localization = localize execution fault events in
      record {
        execution_id = execution.execution_id;
        fault = fault;
        localization = localization;
        root_cause = analyze execution fault localization events;
        decision = decide execution fault localization c;
        checkpoint = c;
      }

  unfoldable pub healthy : String → FaultReport → HealState V W → SelfHealingResult × HealState V W
  unfolding heal_emit
  healthy execution_id fault s =
      let t = heal_emit "self_healing_completed" "success" s in
      (
        record {
          execution_id = execution_id;
          success = true;
          final_status = SelfHealingStatus.no_fault;
          fault_report = some fault;
          localization = none;
          root_cause = none;
          recovery_decision = none;
          repair_plan = none;
          sandbox_result = none;
          recovery_result = none;
          validation_result = none;
          resumed_from_node = none;
          rolled_back_to_checkpoint = none;
          events = t.events;
        },
        t,
      )

  abbrev emit_running : String → HealState V W → HealState V W
  emit_running event_type s = heal_emit event_type "running" s

  -- The events up to the detection, and from there to the decision.
  abbrev pub after_detection : State V W → HealState V W
  after_detection s =
      emit_running "fault_detected"
        (emit_running "self_healing_started" (record { base = s; events = [] }))

  abbrev pub after_decision : HealState V W → HealState V W
  after_decision s =
      emit_running "recovery_decision_made"
        (emit_running "root_cause_analyzed" (emit_running "fault_localized" s))

module _ {V W : Type 0} (rt : Runtime V W) (o : Setup V W) where
  -- Steps 5 and 6
  unfoldable pub plan_repair : Diagnosis → HealState V W → SelfHealingResult × HealState V W
  unfolding run_sandbox is_auto_safe heal_emit
  plan_repair d s =
      let p = plan d.root_cause (id_of d.checkpoint) in
      let t =
        heal_emit "repair_safety_checked" "running" (heal_emit "repair_plan_created" "running" s) in
      let u = heal_emit "manual_review_required" "pending" t in
      if is_auto_safe o.auto_approve_low_risk p then run_sandbox rt o d p t else (
        record (healing_result d SelfHealingStatus.manual_review false u) { repair_plan = some p },
        u,
      )

  -- After step 4
  unfoldable pub follow_decision :
      RecoveryActionType → Diagnosis → HealState V W → SelfHealingResult × HealState V W
  unfolding plan_repair give_up
  follow_decision RecoveryActionType.manual_review d s =
      give_up d SelfHealingStatus.manual_review "manual_review_required" "pending" s
  follow_decision abort d s = give_up d SelfHealingStatus.aborted "self_healing_aborted" "aborted" s
  follow_decision quarantine d s =
      give_up d SelfHealingStatus.quarantined "self_healing_quarantined" "quarantined" s
  follow_decision retry d s = plan_repair d s
  follow_decision rerun_from_node d s = plan_repair d s
  follow_decision rollback d s = plan_repair d s

  -- `handle_failure`
  unfoldable pub handle_failure :
      PipelineExecution
      → List NodeEvent
      → Option Checkpoint
      → State V W
      → SelfHealingResult × HealState V W
  unfolding healthy follow_decision diagnose heal_emit
  handle_failure execution events checkpoint s =
      let d = diagnose execution events checkpoint s in
      let started = after_detection s in
      if not d.fault.detected
      then healthy d.execution_id d.fault started
      else follow_decision d.decision.action d (after_decision started)
