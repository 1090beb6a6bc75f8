-- ===== src/Recovery/Decision.antt =====
-- app/engine/core/recovery/decision.py: the rules of `RecoveryDecisionEngine.decide`, each a
-- function that is `none` where the rule does not apply. The `reason` and the evidence of a decision
-- are left out: they are copied into texts only. Confidences are percentages.
use crucible_ai.Prelude.{
  Bool, List, Option, String, [], any, contains, false, get_or, if◌then◌else◌, is_eq_some, is_some,
  lower, none, not, or_else, some, true, ℕ, ◌==◌, ◌||◌, ◌∷◌,
}
use crucible_ai.Pipeline.Model.{Checkpoint, PipelineExecution}
use crucible_ai.Pipeline.Steps.{truthy}
use crucible_ai.Fault.Model.{
  FaultSeverity, low, critical, FaultType, validation_error, schema_mismatch, missing_artifact,
  corrupted_artifact, dependency_failure, execution_error, timeout, resource_error, unknown,
  FaultReport, FaultLocalization,
}

pub data RecoveryActionType : Type 0 where
  retry rerun_from_node rollback quarantine manual_review abort : RecoveryActionType

pub record RecoveryDecision : Type 0 where
  pub execution_id : String
  pub action : RecoveryActionType
  pub requires_approval : Bool
  pub target_node : Option String
  pub checkpoint_id : Option String
  pub confidence : ℕ

abbrev pub security_keywords : List String
security_keywords = "integrity" ∷ "tamper" ∷ "corrupt" ∷ "security" ∷ "breach" ∷ "unauthori" ∷ []

unfoldable pub has_security_hint : FaultReport → Bool
has_security_hint fault =
    (fault.evidence.error_type == "SecurityError" || fault.evidence.error_type == "IntegrityError")
    || any (λ kw. contains kw (lower fault.evidence.error_message)) security_keywords

abbrev is_low : FaultSeverity → Bool
is_low low = true
is_low _ = false

abbrev is_critical : FaultSeverity → Bool
is_critical critical = true
is_critical _ = false

-- What every rule reads: `checkpoint_id` is that of the last known good checkpoint, if any.
pub record Case : Type 0 where
  pub execution_id : String
  pub fault : FaultReport
  pub localization : FaultLocalization
  pub checkpoint_id : Option String

abbrev make :
    Case → RecoveryActionType → Bool → Option String → Option String → ℕ → RecoveryDecision
make c action approval target checkpoint confidence = record {
  execution_id = c.execution_id;
  action = action;
  requires_approval = approval;
  target_node = target;
  checkpoint_id = checkpoint;
  confidence = confidence;
}

-- Rules 0 and 1
unfoldable pub rule_retry : Case → Option RecoveryDecision
rule_retry c =
    if not c.fault.detected
    then some (make c retry false none none 100)
    else if is_low c.fault.severity
    then some (make c retry false none none 90)
    else none

-- Rule 2, for a corrupted artifact
unfoldable pub quarantine_or_rollback : Case → RecoveryDecision
quarantine_or_rollback c =
    if has_security_hint c.fault
    then make c quarantine true c.fault.observed_node none 95
    else if is_some c.checkpoint_id
    then make c rollback true c.localization.probable_root_node c.checkpoint_id 80
    else make c abort true c.fault.observed_node none 90

unfoldable pub rule_corrupted : FaultType → Case → Option RecoveryDecision
unfolding quarantine_or_rollback
rule_corrupted corrupted_artifact c = some (quarantine_or_rollback c)
rule_corrupted _ c = none

-- Rule 3, for a validation error or a schema mismatch, where a node is localized
unfoldable pub rerun_root : Case → Option RecoveryDecision
rerun_root c = elim (or_else (truthy c.localization.probable_root_node) c.fault.observed_node) [
  | none ↦ none
  | some root ↦
      some (make c rerun_from_node false (some root) c.checkpoint_id c.localization.confidence)
]

unfoldable pub rule_invalid : FaultType → Case → Option RecoveryDecision
unfolding rerun_root
rule_invalid validation_error c = rerun_root c
rule_invalid schema_mismatch c = rerun_root c
rule_invalid _ c = none

-- Rule 4
unfoldable pub rule_missing : FaultType → Case → Option RecoveryDecision
rule_missing missing_artifact c = some (
    if is_some c.checkpoint_id
    then make c rollback true c.localization.probable_root_node c.checkpoint_id 85
    else make c abort true c.fault.observed_node none 90)
rule_missing _ c = none

rollback_or_review : Case → RecoveryDecision
rollback_or_review c =
    if is_some c.checkpoint_id
    then make c rollback true none c.checkpoint_id 70
    else make c manual_review true none none 60

-- Rule 5
unfoldable pub rerun_upstream : Case → RecoveryDecision
unfolding rollback_or_review
rerun_upstream c = elim (truthy c.localization.probable_root_node) [
  | none ↦ rollback_or_review c
  | some root ↦
      if is_eq_some root c.fault.observed_node
      then rollback_or_review c
      else make c rerun_from_node false (some root) c.checkpoint_id c.localization.confidence
]

unfoldable pub rule_dependency : FaultType → Case → Option RecoveryDecision
unfolding rerun_upstream
rule_dependency dependency_failure c = some (rerun_upstream c)
rule_dependency _ c = none

-- Rule 6
unfoldable pub rule_critical : Case → Option RecoveryDecision
rule_critical c =
    if is_critical c.fault.severity
    then some (make c manual_review true c.fault.observed_node none 90)
    else none

-- Rule 7
rollback_or_abort : Case → RecoveryDecision
rollback_or_abort c =
    if is_some c.checkpoint_id
    then make c rollback true c.localization.probable_root_node c.checkpoint_id 70
    else make c abort true c.fault.observed_node none 80

unfoldable pub rule_error : FaultType → Case → Option RecoveryDecision
unfolding rollback_or_abort
rule_error execution_error c = some (rollback_or_abort c)
rule_error unknown c = some (rollback_or_abort c)
rule_error _ c = none

-- Rule 8
rollback_resources : Case → RecoveryDecision
rollback_resources c =
    if is_some c.checkpoint_id
    then make c rollback true none c.checkpoint_id 75
    else make c manual_review true c.fault.observed_node none 65

unfoldable pub rule_resource : FaultType → Case → Option RecoveryDecision
unfolding rollback_resources
rule_resource timeout c = some (rollback_resources c)
rule_resource resource_error c = some (rollback_resources c)
rule_resource _ c = none

unfoldable pub fallback : Case → RecoveryDecision
fallback c = make c abort true c.fault.observed_node none 50

-- The rules in their order; the first that applies decides.
unfoldable pub decide_case : Case → RecoveryDecision
unfolding rule_retry rule_corrupted rule_invalid rule_missing rule_dependency rule_critical
    rule_error rule_resource fallback
decide_case c =
    let t = c.fault.fault_type in
    get_or
      (or_else (rule_retry c) (
        or_else (rule_corrupted t c) (
          or_else (rule_invalid t c) (
            or_else (rule_missing t c) (
              or_else (rule_dependency t c)
                (or_else (rule_critical c) (or_else (rule_error t c) (rule_resource t c))))))))
      (fallback c)

abbrev pub id_of : Option Checkpoint → Option String
id_of none = none
id_of (some c) = some c.checkpoint_id

-- `decide`
unfoldable pub decide :
    PipelineExecution → FaultReport → FaultLocalization → Option Checkpoint → RecoveryDecision
unfolding decide_case
decide execution fault localization checkpoint = decide_case (record {
  execution_id = execution.execution_id;
  fault = fault;
  localization = localization;
  checkpoint_id = id_of checkpoint;
})
