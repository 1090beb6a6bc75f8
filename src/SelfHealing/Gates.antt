-- ===== src/SelfHealing/Gates.antt =====
-- What the self-healing chain changes, and what has to be the case before it does.
use mathlib.Core.Path.{subst}
use crucible_ai.Prelude.{
  Bool, Bool-cases, List, Option, String, [], all, arith, false, if_split, inl, inr, is_some, none,
  not, refl, some, sym, true, ◌∙◌, ◌∷◌, ◌≡◌, ◌⊎◌,
}
use crucible_ai.Pipeline.Runtime.{Delivers, Result, State, raise, ok, Runtime}
use crucible_ai.SelfHealing.Model.{Diagnosis, HealState, HealingEvent, SelfHealingResult, Setup}
use crucible_ai.Recovery.Report.{RecoveryResult, RecoveryState}
use crucible_ai.Repair.Planner.{plan_needs_approval, RepairPlan, plan, RepairStep}
use crucible_ai.Repair.Sandbox.{SandboxResult, execute_plan}
use crucible_ai.SelfHealing.Fallback.{
  after_recovery, conclude_rollback, heal_emit, roll_back, rollback_decision,
}
use crucible_ai.Pipeline.Steps.{truthy}
use crucible_ai.Pipeline.Model.{Checkpoint, PipelineExecution}
use crucible_ai.Fault.Localizer.{NodeEvent}
use crucible_ai.Recovery.Decision.{RecoveryActionType, abort, id_of, quarantine}
use crucible_ai.Recovery.Validator.{ValidationResult, validate_checkpoint}
use crucible_ai.SelfHealing.Orchestrator.{
  after_decision, after_detection, diagnose, follow_decision, give_up, handle_failure, healthy,
  is_auto_safe, plan_repair, has_manual_step, is_modest, is_modest_plan,
}
use crucible_ai.SelfHealing.Repairing.{
  checkpoint_validation, judge_checkpoint, run_sandbox, start_rollback, validate_repair, resume,
}
use crucible_ai.Recovery.Actions.{exists_in}
use crucible_ai.Recovery.Rollback.{restorable, rollback-Exact}

modest_step :
    (steps : List RepairStep)
    → plan_needs_approval steps ≡ false
    → all (λ (s : RepairStep). is_modest s.risk_level) steps ≡ true
modest_step [] h = refl
modest_step (s ∷ steps) h = ground (arith, modest_step steps, h)

auto_safe_plan :
    (auto : Bool) (p : RepairPlan)
    → p.requires_approval ≡ plan_needs_approval p.steps
    → is_auto_safe auto p ≡ true
    → ((has_manual_step p ≡ false) × (is_modest_plan p ≡ true))
      × ((p.requires_approval ≡ false) ⊎ (auto ≡ true))
unfolding is_auto_safe
auto_safe_plan auto p h k = ground (arith, modest_step p.steps, h, k)

module _ {V W : Type 0} (rt : Runtime V W) where
  -- The plan, the outcome of the sandbox and the state of the pipeline are in the end those given.
  abbrev Kept : RepairPlan → SandboxResult → State V W → SelfHealingResult × HealState V W → Type 0
  Kept p x s (r, t) = (r.repair_plan ≡ some p) × (r.sandbox_result ≡ some x) × (t.base ≡ s)

  -- Nothing was rolled back to, or a checkpoint that can be restored.
  abbrev pub Restorable : SelfHealingResult × HealState V W → Type 0
  Restorable (r, t) =
      (r.rolled_back_to_checkpoint ≡ none)
      ⊎ (restorable rt r.rolled_back_to_checkpoint t.base ≡ true)

  abbrev Tame : RepairPlan → SandboxResult → State V W → SelfHealingResult × HealState V W → Type 0
  Tame p x s m = Kept p x s m × Restorable m

  conclude_rollback-Kept :
      (d : Diagnosis) (p : RepairPlan) (x : SandboxResult) (id : Option String)
      (r : Option RecoveryResult) (s : HealState V W)
      → (id ≡ none) ⊎ (restorable rt id s.base ≡ true)
      → Tame p x s.base (conclude_rollback d p x id r s)
  unfolding conclude_rollback heal_emit
  conclude_rollback-Kept d p x id r s h = elim (Bool-cases (is_some (truthy id))) [
    | inl q ↦ rw q ((refl, refl, refl), h)
    | inr q ↦ rw q ((refl, refl, refl), h)
  ]

  after_recovery-Kept :
      (d : Diagnosis) (p : RepairPlan) (x : SandboxResult) (id : Option String) (s : State V W)
      (m : Result RecoveryResult × RecoveryState V W) (events : List HealingEvent)
      → Delivers (λ r t. (r.success ≡ restorable rt id s) × (t.base ≡ s)) m
      → Tame p x s (after_recovery d p x id m events)
  unfolding after_recovery
  after_recovery-Kept d p x id s (raise e, t) events h = absurd h
  after_recovery-Kept d p x id s (ok r, t) events h =
      let u : HealState V W = record { base = t.base; events = events } in
      let v = heal_emit "pipeline_rollback_completed" "success" u in
      if_split (Tame p x s) r.success
        (λ q.
          subst (λ b. Tame p x b (conclude_rollback d p x id (some r) v)) h.1
            (conclude_rollback-Kept d p x id (some r) v
              (inr (subst (λ b. restorable rt id b ≡ true) (sym h.1) (sym h.0 ∙ q)))))
        (λ q.
          subst (λ b. Tame p x b (conclude_rollback d p x none (some r) u)) h.1
            (conclude_rollback-Kept d p x none (some r) u (inl refl)))

module _ {V W : Type 0} (rt : Runtime V W) (o : Setup V W) where
  roll_back-Kept :
      (d : Diagnosis) (p : RepairPlan) (x : SandboxResult) (c : Option Checkpoint)
      (s : HealState V W)
      → Tame rt p x s.base (roll_back rt o d p x c s)
  unfolding roll_back heal_emit rollback_decision
  roll_back-Kept d p x none s = conclude_rollback-Kept rt d p x none none s (inl refl)
  roll_back-Kept d p x (some c) s =
      if_split (Tame rt p x s.base) (validate_checkpoint (exists_in s.base) c).passed
        (λ q.
          after_recovery-Kept rt d p x _ s.base _ _
            (rollback-Exact rt (rollback_decision d.execution_id (id_of d.checkpoint)) _ _ refl))
        (λ q. ((refl, refl, refl), inl refl))

  start_rollback-Kept :
      (d : Diagnosis) (p : RepairPlan) (x : SandboxResult) (s : HealState V W)
      → Tame rt p x s.base (start_rollback rt o d p x s)
  unfolding start_rollback heal_emit
  start_rollback-Kept d p x s =
      roll_back-Kept d p x d.checkpoint (heal_emit "pipeline_rollback_started" "running" s)

  resume-Kept :
      (d : Diagnosis) (p : RepairPlan) (x : SandboxResult) (v : Option ValidationResult)
      (s : HealState V W)
      → Tame rt p x s.base (resume d p x v s)
  unfolding resume heal_emit
  resume-Kept d p x v s = ((refl, refl, refl), inl refl)

  judge_checkpoint-Kept :
      (d : Diagnosis) (p : RepairPlan) (x : SandboxResult) (v : Option ValidationResult)
      (s : HealState V W)
      → Tame rt p x s.base (judge_checkpoint rt o d p x v s)
  unfolding judge_checkpoint heal_emit
  judge_checkpoint-Kept d p x none s = resume-Kept d p x none s
  judge_checkpoint-Kept d p x (some v) s =
      if_split (Tame rt p x s.base) v.passed (λ _. resume-Kept d p x (some v) s)
        (λ _. start_rollback-Kept d p x (heal_emit "repair_validation_failed" "failed" s))

  validate_repair-Kept :
      (d : Diagnosis) (p : RepairPlan) (x : SandboxResult) (s : HealState V W)
      → Tame rt p x s.base (validate_repair rt o d p x s)
  unfolding validate_repair heal_emit
  validate_repair-Kept d p x s =
      let t = heal_emit "repair_validation_started" "running" s in
      if_split (Tame rt p x s.base) x.success
        (λ _.
          judge_checkpoint-Kept d p x (checkpoint_validation d.decision.action d.checkpoint t) t)
        (λ _. start_rollback-Kept d p x t)

  -- A plan was carried out: it has no manual review and no step of high risk, a person is not asked
  -- or low risk is approved automatically, and nothing but the world that its steps act on differs.
  abbrev Executed : State V W → RepairPlan → SelfHealingResult × HealState V W → Type 0
  Executed s p m =
      ((has_manual_step p ≡ false) × (is_modest_plan p ≡ true))
      × ((p.requires_approval ≡ false) ⊎ (o.auto_approve_low_risk ≡ true))
      × Kept rt p (execute_plan o.handlers rt.none_value p s.world).0
          (record s { world = (execute_plan o.handlers rt.none_value p s.world).1 }) m

  abbrev Untouched : State V W → SelfHealingResult × HealState V W → Type 0
  Untouched s (r, t) = (r.sandbox_result ≡ none) × (t.base ≡ s)

  abbrev pub Gated : State V W → SelfHealingResult × HealState V W → Type 0
  Gated s m = (Untouched s m ⊎ ((p : RepairPlan) × Executed s p m)) × Restorable rt m

  plan_repair-Gated : (d : Diagnosis) (s : HealState V W) → Gated s.base (plan_repair rt o d s)
  unfolding plan_repair run_sandbox heal_emit plan
  plan_repair-Gated d s =
      let p = plan d.root_cause (id_of d.checkpoint) in
      if_split (Gated s.base) (is_auto_safe o.auto_approve_low_risk p)
        (λ q.
          let h = validate_repair-Kept d p _ _ in
          let a = auto_safe_plan o.auto_approve_low_risk p refl q in
          (inr (p, (a.0, a.1, h.0)), h.1))
        (λ _. (inl (refl, refl), inl refl))

  follow_decision-Gated :
      (a : RecoveryActionType) (d : Diagnosis) (s : HealState V W)
      → Gated s.base (follow_decision rt o a d s)
  unfolding follow_decision give_up heal_emit
  follow_decision-Gated RecoveryActionType.manual_review d s = (inl (refl, refl), inl refl)
  follow_decision-Gated abort d s = (inl (refl, refl), inl refl)
  follow_decision-Gated quarantine d s = (inl (refl, refl), inl refl)
  follow_decision-Gated _ d s = plan_repair-Gated d s

  -- `handle_failure` leaves the pipeline's state as it was, or else carries out a plan that its
  -- safety check accepts, and then nothing but the world that the handlers of the plan's steps act on
  -- has changed; and the checkpoint that it says to have rolled back to, if any, is one that the
  -- manager holds, that is sound and whose artifact can be read.
  pub handle_failure-Gated :
      (e : PipelineExecution) (events : List NodeEvent) (c : Option Checkpoint) (s : State V W)
      → Gated s (handle_failure rt o e events c s)
  unfolding handle_failure healthy heal_emit
  handle_failure-Gated e events c s =
      let d = diagnose e events c s in
      if_split (Gated s) (not d.fault.detected) (λ _. (inl (refl, refl), inl refl))
        (λ _. follow_decision-Gated d.decision.action d (after_decision (after_detection s)))
