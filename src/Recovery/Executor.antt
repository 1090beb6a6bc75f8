-- ===== src/Recovery/Executor.antt =====
-- `RecoveryExecutor.execute` of app/engine/core/recovery/executor.py, and
-- `PipelineExecutor.analyze_failure` of app/engine/core/pipeline/executor.py, which feeds it.
use crucible_ai.Prelude.{List, Option, [], ℕ}
use crucible_ai.Pipeline.Model.{PipelineExecution}
use crucible_ai.Pipeline.Runtime.{Result, ok, raise, Node, Runtime, State, Exec, ◌>>◌}
use crucible_ai.Pipeline.Executor.{last_known_good_checkpoint}
use crucible_ai.Fault.Model.{FaultReport, FaultLocalization}
use crucible_ai.Fault.Detector.{detect}
use crucible_ai.Fault.Localizer.{NodeEvent, localize}
use crucible_ai.Recovery.Decision.{
  RecoveryDecision, RecoveryActionType, retry, rerun_from_node, rollback, abort, manual_review,
  quarantine, decide,
}
use crucible_ai.Recovery.Report.{
  RecoveryResult, RecoveryState, recovery_started, recovery_failed, target_or, emit, failed_result,
}
use crucible_ai.Recovery.Actions.{
  execute_retry, execute_rollback, execute_abort, execute_manual_review, execute_quarantine,
}
use crucible_ai.Recovery.Rerun.{execute_rerun}

-- `max_attempts` of the constructor, and the keyword arguments of `execute`.
pub record Request (V W : Type 0) : Type 0 where
  pub max_attempts : ℕ
  pub nodes : Option (List (Node V W))
  pub pipeline_callable : Option (Exec (State V W) (Unit {0}))

module _ {V W : Type 0} where
  -- The two `except` clauses, which differ in their texts only.
  unfoldable pub handle :
      RecoveryDecision
      → Result RecoveryResult × RecoveryState V W
      → Result RecoveryResult × RecoveryState V W
  unfolding emit failed_result
  handle d (ok r, s) = (ok r, s)
  handle d (raise e, s) = (do emit (target_or "pipeline" d) recovery_failed; failed_result d) s

module _ {V W : Type 0} (rt : Runtime V W) where
  unfoldable pub dispatch :
      RecoveryActionType → RecoveryDecision → Request V W → Exec (RecoveryState V W) RecoveryResult
  unfolding execute_retry execute_rerun execute_rollback execute_abort execute_manual_review
      execute_quarantine
  dispatch retry d q = execute_retry d q.pipeline_callable
  dispatch rerun_from_node d q = execute_rerun rt d q.max_attempts q.nodes
  dispatch rollback d q = execute_rollback rt d
  dispatch abort d q = execute_abort d
  dispatch manual_review d q = execute_manual_review d
  dispatch quarantine d q = execute_quarantine d

  -- `execute`, on a state whose events are cleared first.
  unfoldable pub execute : RecoveryDecision → Request V W → Exec (RecoveryState V W) RecoveryResult
  unfolding dispatch handle emit
  execute d q s = handle d (
      (do emit (target_or "pipeline" d) recovery_started; dispatch d.action d q)
        (record s { events = [] }))

-- `analyze_failure`
unfoldable pub analyze_failure :
    {V W : Type 0}
    → PipelineExecution
    → List NodeEvent
    → State V W
    → FaultReport × FaultLocalization × RecoveryDecision
unfolding detect localize decide
analyze_failure execution events s =
    let fault = detect execution in
    let localization = localize execution fault events in
    let checkpoint = last_known_good_checkpoint execution.execution_id s in
    (fault, localization, decide execution fault localization checkpoint)
