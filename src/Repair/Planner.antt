-- ===== src/Repair/Planner.antt =====
-- app/engine/core/repair/planner.py. Reasons, rationales and the metadata of a step are texts and are
-- left out; so is the target artifact, which no step has.
use crucible_ai.Prelude.{
  Bool, List, Option, String, [], any, false, if◌then◌else◌, is_some, none, some, true, ℕ, ◌&&◌,
  ◌||◌, ◌∷◌,
}
use crucible_ai.Pipeline.Steps.{truthy}
use crucible_ai.Repair.RootCause.{
  HypothesisCategory, invalid_transformation, resource_failure, configuration_failure,
  data_quality_failure, RootCauseReport, RootCauseHypothesis, top_hypothesis,
}

pub data RepairActionType : Type 0 where
  rerun_node rerun_from_checkpoint restore_checkpoint : RepairActionType
  restore_configuration rebuild_artifact remap_schema : RepairActionType
  use_validated_preprocessing switch_model_candidate manual_review : RepairActionType

pub data RiskLevel : Type 0 where
  low medium high critical : RiskLevel

pub record RepairStep : Type 0 where
  pub step_index : ℕ
  pub action_type : RepairActionType
  pub target_node : Option String
  pub required_checkpoint : Option String
  pub risk_level : RiskLevel
  pub requires_validation : Bool

pub record RepairPlan : Type 0 where
  pub execution_id : String
  pub hypothesis_category : HypothesisCategory
  pub steps : List RepairStep
  pub root_node : Option String
  pub requires_approval : Bool

abbrev pub is_manual : RepairActionType → Bool
is_manual manual_review = true
is_manual _ = false

abbrev is_risky : RiskLevel → Bool
is_risky RiskLevel.high = true
is_risky RiskLevel.critical = true
is_risky _ = false

abbrev make_step :
    ℕ → RepairActionType → Option String → Option String → RiskLevel → Bool → RepairStep
make_step i action node checkpoint risk validation = record {
  step_index = i;
  action_type = action;
  target_node = node;
  required_checkpoint = checkpoint;
  risk_level = risk;
  requires_validation = validation;
}

-- A manual review at an index, with its risk.
abbrev review : ℕ → Option String → RiskLevel → RepairStep
review i root risk = make_step i manual_review root none risk false

-- A truthy string
abbrev given : Option String → Bool
given s = is_some (truthy s)

unfoldable pub steps_schema_mismatch : Option String → Option String → List RepairStep
steps_schema_mismatch root lkg =
    if given root && given lkg
    then make_step 0 remap_schema root lkg RiskLevel.low true
      ∷ (make_step 1 rerun_from_checkpoint root lkg RiskLevel.medium true ∷ [])
    else review 0 root RiskLevel.high ∷ []

unfoldable pub steps_missing_artifact : Option String → Option String → List RepairStep
steps_missing_artifact root lkg =
    if given lkg
    then make_step 0 restore_checkpoint root lkg RiskLevel.medium true
      ∷ (make_step 1 rebuild_artifact root lkg RiskLevel.medium true ∷ [])
    else make_step 0 rebuild_artifact root lkg RiskLevel.medium true ∷ []

unfoldable pub steps_corrupted_artifact : Option String → Option String → List RepairStep
steps_corrupted_artifact root lkg =
    if given lkg
    then make_step 0 restore_checkpoint root lkg RiskLevel.high true
      ∷ (review 1 root RiskLevel.critical ∷ [])
    else review 0 root RiskLevel.critical ∷ []

unfoldable pub steps_invalid_transformation : Option String → Option String → List RepairStep
steps_invalid_transformation root lkg =
    make_step 0 use_validated_preprocessing root lkg RiskLevel.low true
    ∷ (if given lkg
        then make_step 1 rerun_from_checkpoint root lkg RiskLevel.medium true ∷ []
        else [])

unfoldable pub steps_dependency_failure : Option String → Option String → List RepairStep
steps_dependency_failure root lkg =
    if given lkg
    then make_step 0 restore_checkpoint root lkg RiskLevel.medium true
      ∷ (make_step 1 rerun_from_checkpoint root lkg RiskLevel.medium true ∷ [])
    else review 0 root RiskLevel.high ∷ []

unfoldable pub steps_resource_failure : Option String → List RepairStep
steps_resource_failure root = review 0 root RiskLevel.high ∷ []

unfoldable pub steps_configuration_failure : Option String → List RepairStep
steps_configuration_failure root =
    make_step 0 restore_configuration root none RiskLevel.medium true
    ∷ (make_step 1 rerun_node root none RiskLevel.medium true ∷ [])

unfoldable pub steps_data_quality_failure : Option String → Option String → List RepairStep
steps_data_quality_failure root lkg =
    make_step 0 use_validated_preprocessing root lkg RiskLevel.low true
    ∷ (make_step 1 rerun_node root lkg RiskLevel.medium true ∷ [])

unfoldable pub steps_execution_error : Option String → Option String → List RepairStep
steps_execution_error root lkg =
    if given lkg
    then make_step 0 restore_checkpoint root lkg RiskLevel.medium true
      ∷ (review 1 root RiskLevel.high ∷ [])
    else review 0 root RiskLevel.high ∷ []

unfoldable pub steps_timeout : Option String → List RepairStep
steps_timeout root = review 0 root RiskLevel.medium ∷ []

unfoldable pub steps_unknown : Option String → List RepairStep
steps_unknown root = review 0 root RiskLevel.critical ∷ []

-- `_build_steps`
unfoldable pub build_steps : HypothesisCategory → Option String → Option String → List RepairStep
unfolding steps_schema_mismatch steps_missing_artifact steps_corrupted_artifact
    steps_invalid_transformation steps_dependency_failure steps_resource_failure
    steps_configuration_failure steps_data_quality_failure steps_execution_error steps_timeout
    steps_unknown
build_steps HypothesisCategory.schema_mismatch root lkg = steps_schema_mismatch root lkg
build_steps HypothesisCategory.missing_artifact root lkg = steps_missing_artifact root lkg
build_steps HypothesisCategory.corrupted_artifact root lkg = steps_corrupted_artifact root lkg
build_steps invalid_transformation root lkg = steps_invalid_transformation root lkg
build_steps HypothesisCategory.dependency_failure root lkg = steps_dependency_failure root lkg
build_steps resource_failure root lkg = steps_resource_failure root
build_steps configuration_failure root lkg = steps_configuration_failure root
build_steps data_quality_failure root lkg = steps_data_quality_failure root lkg
build_steps HypothesisCategory.execution_error root lkg = steps_execution_error root lkg
build_steps HypothesisCategory.timeout root lkg = steps_timeout root
build_steps HypothesisCategory.unknown root lkg = steps_unknown root

-- `top.category if top else "UNKNOWN"`
abbrev category_of : Option RootCauseHypothesis → HypothesisCategory
category_of none = HypothesisCategory.unknown
category_of (some h) = h.category

abbrev pub plan_needs_approval : List RepairStep → Bool
plan_needs_approval steps =
    any (λ (s : RepairStep). is_risky s.risk_level || is_manual s.action_type) steps

-- `RepairPlanner.plan`
unfoldable pub plan : RootCauseReport → Option String → RepairPlan
unfolding build_steps top_hypothesis
plan report checkpoint =
    let category = category_of (top_hypothesis report) in
    let steps = build_steps category report.root_node checkpoint in
    record {
      execution_id = report.execution_id;
      hypothesis_category = category;
      steps = steps;
      root_node = report.root_node;
      requires_approval = plan_needs_approval steps;
    }
