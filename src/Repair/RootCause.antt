-- ===== src/Repair/RootCause.antt =====
-- app/engine/core/analysis/root_cause.py. A confidence is a number of thousandths, which all that
-- the source computes are; explanations and evidence are texts and are left out.
use crucible_ai.Prelude.{
  List, Option, String, [], get_or, if◌then◌else◌, is_some, leb, ltb, none, some, suc, ℕ, ◌&&◌, ◌*◌,
  ◌+◌, ◌-◌, ◌/◌, ◌∷◌,
}
use crucible_ai.Pipeline.Model.{PipelineExecution}
use crucible_ai.Pipeline.Steps.{truthy}
use crucible_ai.Fault.Model.{
  FaultType, validation_error, FaultReport, FaultLocalization, resource_error,
}
use crucible_ai.Fault.Localizer.{NodeEvent}

pub data HypothesisCategory : Type 0 where
  schema_mismatch missing_artifact corrupted_artifact : HypothesisCategory
  invalid_transformation dependency_failure resource_failure : HypothesisCategory
  configuration_failure data_quality_failure execution_error : HypothesisCategory
  timeout unknown : HypothesisCategory

-- `_FAULT_TO_HYPOTHESIS`
unfoldable pub fault_to_hypothesis : FaultType → HypothesisCategory
fault_to_hypothesis FaultType.schema_mismatch = HypothesisCategory.schema_mismatch
fault_to_hypothesis FaultType.missing_artifact = HypothesisCategory.missing_artifact
fault_to_hypothesis FaultType.corrupted_artifact = HypothesisCategory.corrupted_artifact
fault_to_hypothesis validation_error = invalid_transformation
fault_to_hypothesis FaultType.dependency_failure = HypothesisCategory.dependency_failure
fault_to_hypothesis resource_error = resource_failure
fault_to_hypothesis FaultType.timeout = HypothesisCategory.timeout
fault_to_hypothesis FaultType.execution_error = HypothesisCategory.execution_error
fault_to_hypothesis FaultType.unknown = HypothesisCategory.unknown

-- `_SECONDARY_HYPOTHESES`
unfoldable pub secondary_hypotheses : FaultType → List HypothesisCategory
secondary_hypotheses FaultType.schema_mismatch =
    invalid_transformation ∷ (configuration_failure ∷ [])
secondary_hypotheses FaultType.missing_artifact =
    HypothesisCategory.dependency_failure ∷ (invalid_transformation ∷ [])
secondary_hypotheses FaultType.corrupted_artifact =
    data_quality_failure ∷ (HypothesisCategory.dependency_failure ∷ [])
secondary_hypotheses validation_error =
    HypothesisCategory.schema_mismatch ∷ (data_quality_failure ∷ [])
secondary_hypotheses FaultType.dependency_failure =
    HypothesisCategory.missing_artifact ∷ (configuration_failure ∷ [])
secondary_hypotheses FaultType.execution_error =
    HypothesisCategory.dependency_failure ∷ (configuration_failure ∷ (resource_failure ∷ []))
secondary_hypotheses resource_error = HypothesisCategory.timeout ∷ (configuration_failure ∷ [])
secondary_hypotheses FaultType.timeout = resource_failure ∷ (configuration_failure ∷ [])
secondary_hypotheses FaultType.unknown =
    HypothesisCategory.execution_error ∷ (configuration_failure ∷ [])

-- `_REPAIR_CATEGORIES`
unfoldable pub repair_categories : HypothesisCategory → List String
repair_categories HypothesisCategory.schema_mismatch =
    "remap_schema" ∷ ("rerun_from_transformation_node" ∷ [])
repair_categories HypothesisCategory.missing_artifact =
    "restore_checkpoint" ∷ ("rebuild_intermediate_artifact" ∷ [])
repair_categories HypothesisCategory.corrupted_artifact =
    "restore_checkpoint" ∷ ("quarantine_artifact" ∷ ("rebuild_intermediate_artifact" ∷ []))
repair_categories invalid_transformation =
    "rerun_from_node" ∷ ("use_validated_preprocessing_config" ∷ [])
repair_categories HypothesisCategory.dependency_failure =
    "rerun_from_root_node" ∷ ("restore_checkpoint" ∷ [])
repair_categories resource_failure = "retry_with_reduced_load" ∷ ("manual_review" ∷ [])
repair_categories configuration_failure = "restore_configuration" ∷ ("manual_review" ∷ [])
repair_categories data_quality_failure = "rerun_preprocessing" ∷ ("apply_data_quality_guard" ∷ [])
repair_categories HypothesisCategory.execution_error =
    "rollback_to_checkpoint" ∷ ("rerun_from_node" ∷ ("manual_review" ∷ []))
repair_categories HypothesisCategory.timeout = "retry_with_reduced_load" ∷ ("manual_review" ∷ [])
repair_categories HypothesisCategory.unknown = "manual_review" ∷ []

pub record RootCauseHypothesis : Type 0 where
  pub category : HypothesisCategory
  pub confidence : ℕ
  pub repair_categories : List String

pub record RootCauseReport : Type 0 where
  pub execution_id : String
  pub root_node : Option String
  pub primary_fault_type : FaultType
  pub hypotheses : List RootCauseHypothesis
  pub confidence : ℕ
  pub recommended_repair_categories : List String

abbrev head {ℓ} : {A : Type ℓ} → List A → Option A
head [] = none
head (x ∷ _) = some x

-- `top_hypothesis`
unfoldable pub top_hypothesis : RootCauseReport → Option RootCauseHypothesis
top_hypothesis r = head r.hypotheses

-- `_base_confidence`
unfoldable pub base_confidence : FaultType → ℕ
base_confidence FaultType.schema_mismatch = 750
base_confidence FaultType.missing_artifact = 750
base_confidence FaultType.corrupted_artifact = 750
base_confidence validation_error = 750
base_confidence FaultType.execution_error = 550
base_confidence FaultType.dependency_failure = 600
base_confidence _ = 400

-- `_localization_boost`; the confidence of a localization is a percentage.
unfoldable pub localization_boost : FaultLocalization → ℕ
localization_boost l =
    if is_some (truthy l.probable_root_node) && leb 85 l.confidence
    then 100
    else if is_some (truthy l.probable_root_node) && leb 60 l.confidence
    then 50
    else 0

unfoldable pub event_boost : List NodeEvent → ℕ
event_boost [] = 0
event_boost (_ ∷ _) = 50

abbrev min : ℕ → ℕ → ℕ
min a b = if ltb b a then b else a

abbrev max : ℕ → ℕ → ℕ
max a b = if ltb a b then b else a

unfoldable pub primary_confidence : FaultReport → FaultLocalization → List NodeEvent → ℕ
unfolding base_confidence localization_boost event_boost
primary_confidence fault localization events =
    min ((base_confidence fault.fault_type + localization_boost localization) + event_boost events)
      950

-- `primary * (0.60 - i * 0.10)`, between 0.05 and the largest confidence
unfoldable pub secondary_confidence : ℕ → ℕ → ℕ
secondary_confidence primary i = max (min (primary * (6 - i) / 10) 950) 50

abbrev pub hypothesis : HypothesisCategory → ℕ → RootCauseHypothesis
hypothesis category confidence = record {
  category = category;
  confidence = confidence;
  repair_categories = repair_categories category;
}

-- The loop over the secondary categories, from an index.
unfoldable pub secondaries : ℕ → ℕ → List HypothesisCategory → List RootCauseHypothesis
unfolding secondary_confidence
secondaries primary i [] = []
secondaries primary i (c ∷ cs) =
    hypothesis c (secondary_confidence primary i) ∷ secondaries primary (suc i) cs

-- `hypotheses.sort(key=confidence, reverse=True)`, which is stable.
unfoldable pub insert_ranked :
    RootCauseHypothesis → List RootCauseHypothesis → List RootCauseHypothesis
insert_ranked h [] = h ∷ []
insert_ranked h (k ∷ ks) =
    let rest = insert_ranked h ks in
    if ltb h.confidence k.confidence then k ∷ rest else h ∷ (k ∷ ks)

unfoldable pub sort_ranked : List RootCauseHypothesis → List RootCauseHypothesis
unfolding insert_ranked
sort_ranked [] = []
sort_ranked (h ∷ hs) = insert_ranked h (sort_ranked hs)

unfoldable pub report_of :
    PipelineExecution
    → FaultReport
    → FaultLocalization
    → RootCauseHypothesis
    → List RootCauseHypothesis
    → RootCauseReport
report_of execution fault localization primary hypotheses =
    let top = get_or (head hypotheses) primary in
    record {
      execution_id = execution.execution_id;
      root_node = localization.probable_root_node;
      primary_fault_type = fault.fault_type;
      hypotheses = hypotheses;
      confidence = top.confidence;
      recommended_repair_categories = top.repair_categories;
    }

-- `RootCauseAnalyzer.analyze`
unfoldable pub analyze :
    PipelineExecution → FaultReport → FaultLocalization → List NodeEvent → RootCauseReport
unfolding report_of sort_ranked secondaries primary_confidence
analyze execution fault localization events =
    let p = primary_confidence fault localization events in
    let primary = hypothesis (fault_to_hypothesis fault.fault_type) p in
    report_of execution fault localization primary
      (sort_ranked (primary ∷ secondaries p 0 (secondary_hypotheses fault.fault_type)))
