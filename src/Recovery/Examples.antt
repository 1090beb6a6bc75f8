-- ===== src/Recovery/Examples.antt =====
-- The theorems on recovery at concrete data.
use crucible_ai.Prelude.{
  Option, String, [], arith, contains, lower, none, refl, some, true, ℕ, ◌∷◌, ◌≡◌, ◌≢◌, ◌⊎◌,
}
use crucible_ai.Pipeline.Model.{failed_node, PipelineExecution, PipelineStatus}
use crucible_ai.Fault.Model.{FaultLocalization, corrupted_artifact, critical, resource_error}
use crucible_ai.Fault.Detector.{detect, classify}
use crucible_ai.Recovery.Executor.{Request, execute}
use crucible_ai.Recovery.Decision.{
  RecoveryDecision, RecoveryActionType, rerun_from_node, rollback, abort, quarantine, manual_review,
  decide,
}
use crucible_ai.Pipeline.Runtime.{Delivers, Returns}
use crucible_ai.Recovery.Rollback.{Exact, restorable, rollback-Exact}
use crucible_ai.Recovery.Resume.{Idle, rerun_zero_attempts}
use crucible_ai.Recovery.Report.{RecoveryState}
use crucible_ai.Recovery.Walks.{Supplied}
use crucible_ai.Recovery.Rerun.{accepted, examine, rerun_node_id}
use crucible_ai.Recovery.Policy.{decide-detect-ne-abort, decide-detect_critical}
use crucible_ai.Recovery.Gate.{examine_accepts, execute-without_checks, without_checks}
use crucible_ai.Samples.{python, load_node, broken_node, saved, stored, failed_with}

abbrev breach : PipelineExecution
breach = failed_with "PermissionError" "security breach"

abbrev exhausted : PipelineExecution
exhausted = failed_with "MemoryError" "out of memory"

abbrev mismatch : PipelineExecution
mismatch = failed_with "KeyError" "column missing"

abbrev located : FaultLocalization
located = record {
  execution_id = "run";
  observed_node = some "train";
  probable_root_node = some "load";
  confidence = 90;
}

abbrev decision : RecoveryActionType → Option String → RecoveryDecision
decision action checkpoint_id = record {
  execution_id = "run";
  action = action;
  requires_approval = true;
  target_node = some "load";
  checkpoint_id = checkpoint_id;
  confidence = 80;
}

abbrev request : ℕ → Request ℕ ℕ
request max_attempts = record {
  max_attempts = max_attempts;
  nodes = some (load_node ∷ broken_node ∷ []);
  pipeline_callable = none;
}

abbrev held : RecoveryState ℕ ℕ
held = record { base = stored; events = [] }

-- A failed error that is rolled back
abbrev unknown_error : PipelineExecution
unknown_error = failed_with "ZeroDivisionError" "division by zero"

is_rollback : (decide unknown_error (detect unknown_error) located (some saved)).action ≡ rollback
unfolding decide detect failed_node classify contains lower
is_rollback = refl

is_failure : PipelineStatus.failed ≢ PipelineStatus.success
is_failure h = ground arith

breach_corrupted : (detect breach).fault_type ≡ corrupted_artifact
unfolding detect failed_node classify contains lower
breach_corrupted = refl

exhausted_critical : (detect exhausted).severity ≡ critical
unfolding detect failed_node classify contains lower
exhausted_critical = refl

decide-detect_critical_example :
    (((detect exhausted).fault_type ≡ corrupted_artifact)
      × ((decide exhausted (detect exhausted) located (some saved)).action ≡ quarantine))
    ⊎ (((detect exhausted).fault_type ≡ resource_error)
        × ((decide exhausted (detect exhausted) located (some saved)).action ≡ manual_review))
decide-detect_critical_example =
    decide-detect_critical exhausted located (some saved) is_failure exhausted_critical

decide-detect-ne-abort_example :
    (decide mismatch (detect mismatch) located (some saved)).action ≢ abort
decide-detect-ne-abort_example = decide-detect-ne-abort mismatch located saved

examine_accepts_example :
    Returns (λ o t. o ≡ accepted 0) (examine python (decision rerun_from_node none) "load" 0 held)
examine_accepts_example = examine_accepts python (decision rerun_from_node none) "load" 0 held

execute-without_checks_example :
    execute python (decision rerun_from_node none) (without_checks python (request 3)) held
    ≡ execute python (decision rerun_from_node none) (request 3) held
execute-without_checks_example =
    execute-without_checks python (decision rerun_from_node none) (request 3) held

load-Supplied : Supplied python (decision rerun_from_node none) (request 0).nodes
unfolding rerun_node_id
load-Supplied = refl

rerun_zero_attempts_example :
    Delivers (Idle python held) (execute python (decision rerun_from_node none) (request 0) held)
rerun_zero_attempts_example =
    rerun_zero_attempts python (decision rerun_from_node none) (request 0) held refl refl refl
      load-Supplied

rollback-Exact_example :
    Delivers
      (Exact python (restorable python (some "first") stored) held)
      (execute python (decision rollback (some "first")) (request 3) held)
rollback-Exact_example =
    rollback-Exact python (decision rollback (some "first")) (request 3) held refl
