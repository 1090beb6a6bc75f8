-- ===== src/SelfHealing/Examples.antt =====
-- The theorems on the self-healing chain at concrete data.
use crucible_ai.Fault.Detector.{detect, classify}
use crucible_ai.Pipeline.Runtime.{ok}
use crucible_ai.SelfHealing.Gates.{Gated, handle_failure-Gated}
use crucible_ai.Repair.Sandbox.{Handlers, execute_plan}
use crucible_ai.Pipeline.Model.{PipelineExecution, failed_node}
use crucible_ai.Repair.Planner.{RepairActionType}
use crucible_ai.SelfHealing.Model.{Setup, Diagnosis, HealState}
use crucible_ai.Samples.{failed_with, python, stored}
use crucible_ai.SelfHealing.Orchestrator.{handle_failure, diagnose, is_auto_safe, plan_repair}
use crucible_ai.Fault.Localizer.{
  localize, has_validation_event, lacks_checkpoint, metadata_failed, preceding,
}
use crucible_ai.Recovery.Decision.{decide, id_of}
use crucible_ai.Pipeline.Checkpoints.{last_known_good}
use crucible_ai.Repair.Planner.{plan}
use crucible_ai.Repair.RootCause.{analyze, fault_to_hypothesis, secondary_hypotheses}
use crucible_ai.SelfHealing.Unhandled.{Vacuous, is_usable, plan_repair-Vacuous}
use crucible_ai.Recovery.Rollback.{is_sound}
use crucible_ai.Recovery.Validator.{validate_checkpoint}
use crucible_ai.Prelude.{[], contains, false, lower, none, refl, some, true, ℕ, ◌+◌, ◌≡◌}

abbrev mismatch : PipelineExecution
mismatch = failed_with "KeyError" "column missing"

abbrev missing_file : PipelineExecution
missing_file = failed_with "FileNotFoundError" "no such file"

-- Every step but a manual review is carried out.
abbrev carry_out : Handlers ℕ ℕ
carry_out RepairActionType.manual_review = none
carry_out _ =
    some (λ step context w. (ok (record { success = some true; validation_passed = none }), w + 1))

abbrev setup : Handlers ℕ ℕ → Setup ℕ ℕ
setup handlers = record { auto_approve_low_risk = false; handlers = handlers; max_attempts = 3 }

handle_failure-Gated_example :
    Gated python
      (setup carry_out)
      stored
      (handle_failure python (setup carry_out) missing_file [] none stored)
handle_failure-Gated_example =
    handle_failure-Gated python (setup carry_out) missing_file [] none stored

abbrev diagnosis : Diagnosis
diagnosis = diagnose missing_file [] none stored

abbrev begun : HealState ℕ ℕ
begun = record { base = stored; events = [] }

-- The plan is safe and the checkpoint usable, the decision requires approval, and its plan is carried
-- out nevertheless.
diagnosis_facts :
    (is_auto_safe false (plan diagnosis.root_cause (id_of diagnosis.checkpoint)) ≡ true)
    × (is_usable stored diagnosis.checkpoint ≡ true)
    × (diagnosis.decision.requires_approval ≡ true)
    × ((plan_repair python (setup carry_out) diagnosis begun).1.base.world ≡ 2)
unfolding plan_repair diagnose detect failed_node classify contains lower decide last_known_good
    plan analyze secondary_hypotheses localize preceding has_validation_event metadata_failed
    lacks_checkpoint fault_to_hypothesis execute_plan validate_checkpoint is_auto_safe is_sound
diagnosis_facts = (refl, refl, refl, refl)

plan_repair-Vacuous_example :
    Vacuous stored (plan_repair python (setup (λ _. none)) diagnosis begun)
plan_repair-Vacuous_example =
    plan_repair-Vacuous python (setup (λ _. none)) diagnosis begun (λ _. refl) diagnosis_facts.0
      diagnosis_facts.1
