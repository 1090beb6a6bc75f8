-- ===== src/SelfHealing/Performed.antt =====
-- What stands behind the sandbox result and the recovery result of the self-healing chain.
use crucible_ai.Prelude.{List, Option, String, if_split, if◌then◌else◌, none, not, refl, some, ◌≡◌}
use crucible_ai.Pipeline.Model.{Checkpoint, PipelineExecution}
use crucible_ai.Pipeline.Runtime.{Result, Runtime, State, ok, raise}
use crucible_ai.Fault.Detector.{detect}
use crucible_ai.Fault.Localizer.{NodeEvent}
use crucible_ai.Recovery.Actions.{exists_in}
use crucible_ai.Recovery.Decision.{RecoveryActionType, abort, id_of, quarantine}
use crucible_ai.Recovery.Executor.{execute}
use crucible_ai.Recovery.Report.{RecoveryResult, RecoveryState}
use crucible_ai.Recovery.Executor.{Request}
use crucible_ai.Recovery.Validator.{ValidationResult, validate_checkpoint}
use crucible_ai.Repair.Planner.{RepairPlan, plan}
use crucible_ai.Repair.Sandbox.{SandboxResult, execute_plan}
use crucible_ai.SelfHealing.Fallback.{
  after_recovery, conclude_rollback, roll_back, rollback_decision,
}
use crucible_ai.SelfHealing.Model.{Diagnosis, HealState, HealingEvent, SelfHealingResult, Setup}
use crucible_ai.SelfHealing.Orchestrator.{
  after_decision, after_detection, diagnose, follow_decision, give_up, handle_failure, healthy,
  is_auto_safe, plan_repair,
}
use crucible_ai.SelfHealing.Repairing.{
  judge_checkpoint, resume, run_sandbox, start_rollback, validate_repair,
}

module _ {V W : Type 0} (rt : Runtime V W) (o : Setup V W) where
  -- A run of the plan by the sandbox ended with the result.
  abbrev pub Carried : RepairPlan → SandboxResult → Type 0
  Carried p x = (w : W) × (w' : W) × (execute_plan o.handlers rt.none_value p w ≡ (x, w'))

  abbrev pub Tried : Option RepairPlan → Option SandboxResult → Type 0
  Tried p none = Unit
  Tried none (some x) = ⊥
  Tried (some p) (some x) = Carried p x

  -- A rollback of the run by the recovery executor ended with the result, and the checkpoint that is
  -- named is the one that it was asked for, where that was a success.
  abbrev pub Restored : String → Option String → Option RecoveryResult → Type 0
  Restored e to none = to ≡ none
  Restored e to (some r) =
      (id : Option String) × (q : Request V W) × (s : RecoveryState V W) × (t : RecoveryState V W)
      × (execute rt (rollback_decision e id) q s ≡ (ok r, t))
      × (to ≡ (if r.success then id else none))

  abbrev pub IsPerformed : SelfHealingResult → Type 0
  IsPerformed r =
      Tried r.repair_plan r.sandbox_result
      × Restored r.execution_id r.rolled_back_to_checkpoint r.recovery_result

  abbrev Performed : SelfHealingResult × HealState V W → Type 0
  Performed m = IsPerformed m.0

  conclude_rollback-Performed :
      (d : Diagnosis) (p : RepairPlan) (x : SandboxResult) (id : Option String)
      (r : Option RecoveryResult) (s : HealState V W)
      → Carried p x
      → Restored d.execution_id id r
      → Performed (conclude_rollback d p x id r s)
  unfolding conclude_rollback
  conclude_rollback-Performed d p x id r s h k = (h, k)

  after_recovery-Performed :
      (d : Diagnosis) (p : RepairPlan) (x : SandboxResult) (id : Option String) (q : Request V W)
      (s : RecoveryState V W) (m : Result RecoveryResult × RecoveryState V W)
      (events : List HealingEvent)
      → Carried p x
      → execute rt (rollback_decision d.execution_id id) q s ≡ m
      → Performed (after_recovery d p x id m events)
  unfolding after_recovery
  after_recovery-Performed d p x id q s (raise e, t) events h k =
      conclude_rollback-Performed d p x none none (record { base = t.base; events = events }) h refl
  after_recovery-Performed d p x id q s (ok r, t) events h k =
      let u : HealState V W = record { base = t.base; events = events } in
      if_split Performed r.success
        (λ z. conclude_rollback-Performed d p x id (some r) u h (id, q, s, t, k, rw z refl))
        (λ z. conclude_rollback-Performed d p x none (some r) u h (id, q, s, t, k, rw z refl))

  roll_back-Performed :
      (d : Diagnosis) (p : RepairPlan) (x : SandboxResult) (c : Option Checkpoint)
      (s : HealState V W)
      → Carried p x
      → Performed (roll_back rt o d p x c s)
  unfolding roll_back
  roll_back-Performed d p x none s h = conclude_rollback-Performed d p x none none s h refl
  roll_back-Performed d p x (some c) s h =
      if_split Performed (validate_checkpoint (exists_in s.base) c).passed
        (λ _. after_recovery-Performed d p x (id_of d.checkpoint) _ _ _ s.events h refl)
        (λ _. (h, refl))

  start_rollback-Performed :
      (d : Diagnosis) (p : RepairPlan) (x : SandboxResult) (s : HealState V W)
      → Carried p x
      → Performed (start_rollback rt o d p x s)
  unfolding start_rollback
  start_rollback-Performed d p x s h = roll_back-Performed d p x d.checkpoint _ h

  resume-Performed :
      (d : Diagnosis) (p : RepairPlan) (x : SandboxResult) (v : Option ValidationResult)
      (s : HealState V W)
      → Carried p x
      → Performed (resume d p x v s)
  unfolding resume
  resume-Performed d p x v s h = (h, refl)

  judge_checkpoint-Performed :
      (d : Diagnosis) (p : RepairPlan) (x : SandboxResult) (v : Option ValidationResult)
      (s : HealState V W)
      → Carried p x
      → Performed (judge_checkpoint rt o d p x v s)
  unfolding judge_checkpoint
  judge_checkpoint-Performed d p x none s h = resume-Performed d p x none s h
  judge_checkpoint-Performed d p x (some v) s h =
      if_split Performed v.passed (λ _. resume-Performed d p x (some v) s h)
        (λ _. start_rollback-Performed d p x _ h)

  validate_repair-Performed :
      (d : Diagnosis) (p : RepairPlan) (x : SandboxResult) (s : HealState V W)
      → Carried p x
      → Performed (validate_repair rt o d p x s)
  unfolding validate_repair
  validate_repair-Performed d p x s h =
      if_split Performed x.success (λ _. judge_checkpoint-Performed d p x _ _ h)
        (λ _. start_rollback-Performed d p x _ h)

  plan_repair-Performed : (d : Diagnosis) (s : HealState V W) → Performed (plan_repair rt o d s)
  unfolding plan_repair run_sandbox
  plan_repair-Performed d s =
      if_split Performed
        (is_auto_safe o.auto_approve_low_risk (plan d.root_cause (id_of d.checkpoint)))
        (λ _. validate_repair-Performed d _ _ _ (_, _, refl)) (λ _. (tt, refl))

  follow_decision-Performed :
      (a : RecoveryActionType) (d : Diagnosis) (s : HealState V W)
      → Performed (follow_decision rt o a d s)
  unfolding follow_decision give_up
  follow_decision-Performed RecoveryActionType.manual_review d s = (tt, refl)
  follow_decision-Performed abort d s = (tt, refl)
  follow_decision-Performed quarantine d s = (tt, refl)
  follow_decision-Performed _ d s = plan_repair-Performed d s

  pub handle_failure-Performed :
      (e : PipelineExecution) (events : List NodeEvent) (c : Option Checkpoint) (s : State V W)
      → Performed (handle_failure rt o e events c s)
  unfolding handle_failure healthy
  handle_failure-Performed e events c s =
      if_split Performed (not (detect e).detected) (λ _. (tt, refl))
        (λ _.
          follow_decision-Performed (diagnose e events c s).decision.action (diagnose e events c s)
            (after_decision (after_detection s)))
