-- ===== src/Fault/Detector.antt =====
-- app/engine/core/fault/detector.py. `classify` is the ladder of `_classify`, whose rungs with
-- several tests are functions of their own.
use crucible_ai.Prelude.{
  Bool, List, Option, String, [], any, contains, false, get_or, if◌then◌else◌, lower, none, some,
  true, ℕ, ◌==◌, ◌||◌, ◌∷◌,
}
use crucible_ai.Pipeline.Model.{NodeExecution, PipelineExecution, PipelineStatus, failed_node}
use crucible_ai.Fault.Model.{
  FaultSeverity, low, medium, high, critical, FaultType, validation_error, schema_mismatch,
  missing_artifact, corrupted_artifact, dependency_failure, execution_error, timeout,
  resource_error, unknown, FaultReport,
}

abbrev pub Verdict : Type 0
Verdict = FaultType × FaultSeverity

abbrev pub permission_keywords : List String
permission_keywords = "integrity" ∷ "tamper" ∷ "corrupt" ∷ "security" ∷ []

unfoldable pub classify_key_error : List ℕ → Verdict
classify_key_error msg_lower =
    if contains "column" msg_lower then (schema_mismatch, high) else (schema_mismatch, medium)

unfoldable pub classify_value_error : List ℕ → Verdict
classify_value_error msg_lower =
    if contains "output validation" msg_lower
    then (validation_error, high)
    else if contains "validation" msg_lower
    then (validation_error, medium)
    else (execution_error, medium)

unfoldable pub classify_permission_error : List ℕ → Verdict
classify_permission_error msg_lower =
    if any (λ kw. contains kw msg_lower) permission_keywords
    then (corrupted_artifact, critical)
    else (missing_artifact, high)

unfoldable pub classify_runtime_error : List ℕ → Verdict
classify_runtime_error msg_lower =
    if contains "dependency" msg_lower
    then (dependency_failure, high)
    else (execution_error, medium)

unfoldable pub classify : String → List ℕ → Verdict
unfolding classify_key_error classify_value_error classify_permission_error classify_runtime_error
classify error_type msg_lower =
    if error_type == "KeyError"
    then classify_key_error msg_lower
    else if error_type == "FileNotFoundError"
    then (missing_artifact, high)
    else if error_type == "ValueError"
    then classify_value_error msg_lower
    else if error_type == "TimeoutError"
    then (timeout, high)
    else if error_type == "MemoryError"
    then (resource_error, critical)
    else if error_type == "PermissionError"
    then classify_permission_error msg_lower
    else if error_type == "SecurityError" || error_type == "IntegrityError"
    then (corrupted_artifact, critical)
    else if error_type == "RuntimeError"
    then classify_runtime_error msg_lower
    else if error_type == ""
    then (unknown, medium)
    else (execution_error, medium)

-- The report on a failed node.
unfoldable pub report_failed : String → NodeExecution → FaultReport
report_failed eid node =
    let error_type = get_or node.error_type "" in
    let error_message = get_or node.error_message "" in
    let (fault_type, severity) = classify error_type (lower error_message) in
    record {
      execution_id = eid;
      detected = true;
      observed_node = some node.node_id;
      fault_type = fault_type;
      severity = severity;
      evidence = record { error_type = error_type; error_message = error_message };
    }

-- The report where no node, or no failed node, is to be had.
unfoldable pub report_bare : String → Bool → FaultSeverity → FaultReport
report_bare eid detected severity = record {
  execution_id = eid;
  detected = detected;
  observed_node = none;
  fault_type = unknown;
  severity = severity;
  evidence = record { error_type = ""; error_message = "" };
}

unfoldable pub detect_failure : String → Option NodeExecution → FaultReport
unfolding report_failed report_bare
detect_failure eid none = report_bare eid true high
detect_failure eid (some node) = report_failed eid node

abbrev pub is_pipeline_success : PipelineStatus → Bool
is_pipeline_success PipelineStatus.success = true
is_pipeline_success _ = false

-- `FaultDetector.detect`
unfoldable pub detect : PipelineExecution → FaultReport
unfolding detect_failure
detect execution =
    if is_pipeline_success execution.status
    then report_bare execution.execution_id false low
    else detect_failure execution.execution_id (failed_node execution)
