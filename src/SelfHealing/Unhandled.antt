-- ===== src/SelfHealing/Unhandled.antt =====
-- The self-healing chain with a sandbox in which no handler is registered.
use mathlib.Core.Bool.{false≢true}
use crucible_ai.Pipeline.Model.{Checkpoint}
use crucible_ai.SelfHealing.Model.{Diagnosis, HealState, SelfHealingResult, Setup, resumed}
use crucible_ai.Recovery.Decision.{RecoveryActionType, id_of}
use crucible_ai.Repair.Planner.{RepairActionType, RepairPlan, plan}
use crucible_ai.Pipeline.Runtime.{Runtime, State}
use crucible_ai.Repair.Sandbox.{SandboxResult, completed_result}
use crucible_ai.Recovery.Validator.{ValidationResult, validate_checkpoint}
use crucible_ai.SelfHealing.Repairing.{
  checkpoint_validation, judge_checkpoint, restores, run_sandbox, validate_repair, resume,
}
use crucible_ai.Repair.Runs.{execute_plan-unhandled}
use crucible_ai.Recovery.Actions.{exists_in}
use crucible_ai.SelfHealing.Fallback.{heal_emit}
use crucible_ai.SelfHealing.Orchestrator.{is_auto_safe, plan_repair}
use crucible_ai.Recovery.Rollback.{is_sound, validate-is_sound}
use crucible_ai.Prelude.{
  Bool, Bool-cases, Option, all, if_split, inl, inr, none, refl, some, sym, true, ◌∙◌, ◌≡◌,
}

module _ {V W : Type 0} where
  -- There is no checkpoint, or one whose validation passes.
  abbrev pub is_usable : State V W → Option Checkpoint → Bool
  is_usable s none = true
  is_usable s (some c) = is_sound s c

  -- A resumption that has carried out no step and changed nothing.
  abbrev pub Vacuous : State V W → SelfHealingResult × HealState V W → Type 0
  Vacuous s (r, t) =
      (r.final_status ≡ resumed)
      × (r.success ≡ true)
      × (t.base ≡ s)
      × ((x : SandboxResult) × (r.sandbox_result ≡ some x) × (x.steps_succeeded ≡ 0))

  resume-Vacuous :
      (d : Diagnosis) (p : RepairPlan) (x : SandboxResult) (v : Option ValidationResult)
      (s : HealState V W)
      → x.steps_succeeded ≡ 0
      → Vacuous s.base (resume d p x v s)
  unfolding resume heal_emit
  resume-Vacuous d p x v s h = (refl, refl, refl, (x, refl, h))

module _ {V W : Type 0} (rt : Runtime V W) (o : Setup V W) where
  judge_checkpoint-Vacuous :
      (d : Diagnosis) (p : RepairPlan) (x : SandboxResult) (s : HealState V W)
      (a : RecoveryActionType) (c : Option Checkpoint)
      → x.steps_succeeded ≡ 0
      → is_usable s.base c ≡ true
      → Vacuous s.base (judge_checkpoint rt o d p x (checkpoint_validation a c s) s)
  unfolding judge_checkpoint checkpoint_validation heal_emit
  judge_checkpoint-Vacuous d p x s a none e h = resume-Vacuous d p x none s e
  judge_checkpoint-Vacuous d p x s a (some c) e h = elim (Bool-cases (restores a)) [
    | inl q ↦ rw q (
        if_split (Vacuous s.base) (validate_checkpoint (exists_in s.base) c).passed
          (λ _. resume-Vacuous d p x (some (validate_checkpoint (exists_in s.base) c)) s e)
          (λ f. absurd (false≢true (sym f ∙ (validate-is_sound s.base c ∙ h)))))
    | inr q ↦ rw q (resume-Vacuous d p x none s e)
  ]

  run_sandbox-Vacuous :
      (d : Diagnosis) (p : RepairPlan) (s : HealState V W)
      → ((a : RepairActionType) → o.handlers a ≡ none)
      → is_usable s.base d.checkpoint ≡ true
      → Vacuous s.base (run_sandbox rt o d p s)
  unfolding run_sandbox validate_repair heal_emit completed_result
  run_sandbox-Vacuous d p s h k =
      let (all, e) = execute_plan-unhandled o.handlers rt.none_value p s.base.world h in
      rw e (judge_checkpoint-Vacuous d p _ _ d.decision.action d.checkpoint refl k)

  -- With no handler registered, which is how the executor is made by default, a plan that the safety
  -- check accepts is reported as a success and the pipeline as resumed, where the checkpoint is
  -- usable or there is none, though no step was carried out and nothing has changed.
  pub plan_repair-Vacuous :
      (d : Diagnosis) (s : HealState V W)
      → ((a : RepairActionType) → o.handlers a ≡ none)
      → is_auto_safe o.auto_approve_low_risk (plan d.root_cause (id_of d.checkpoint)) ≡ true
      → is_usable s.base d.checkpoint ≡ true
      → Vacuous s.base (plan_repair rt o d s)
  unfolding plan_repair heal_emit
  plan_repair-Vacuous d s h k l = rw k (run_sandbox-Vacuous d _ _ h l)
