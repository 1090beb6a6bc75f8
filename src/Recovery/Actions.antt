-- ===== src/Recovery/Actions.antt =====
-- The actions of `RecoveryExecutor` (app/engine/core/recovery/executor.py) but the rerun.
use crucible_ai.Prelude.{Bool, Option, String, false, if◌then◌else◌, is_some, none, some, true}
use crucible_ai.Pipeline.Model.{get_key, Checkpoint}
use crucible_ai.Pipeline.Runtime.{Result, ok, raise, Runtime, State, Exec, ◌>>=◌, ◌>>◌}
use crucible_ai.Pipeline.Checkpoints.{get, restore}
use crucible_ai.Recovery.Decision.{RecoveryDecision}
use crucible_ai.Recovery.Validator.{validate_checkpoint}
use crucible_ai.Recovery.Report.{
  recovery_retry, recovery_completed, recovery_failed, recovery_validation_started,
  recovery_validation_failed, recovery_validation_passed, recovery_checkpoint_restored,
  recovery_rollback, recovery_aborted, recovery_manual_review, recovery_quarantined, RecoveryStatus,
  aborted, pending_review, quarantined, skipped, RecoveryResult, RecoveryState, not_found,
  not_valid, target_or, emit, report, failed_result,
}

module _ {V W : Type 0} where
  -- `_execute_abort`
  unfoldable pub execute_abort : RecoveryDecision → Exec (RecoveryState V W) RecoveryResult
  unfolding emit report
  execute_abort d = do
    emit (target_or "pipeline" d) recovery_aborted
    report d aborted false none none false false

  -- `_execute_manual_review`
  unfoldable pub execute_manual_review : RecoveryDecision → Exec (RecoveryState V W) RecoveryResult
  unfolding emit report
  execute_manual_review d = do
    emit (target_or "pipeline" d) recovery_manual_review
    report d pending_review false none none false false

  -- `_execute_quarantine`, with `ArtifactQuarantine.quarantine`, which only builds a record
  unfoldable pub execute_quarantine : RecoveryDecision → Exec (RecoveryState V W) RecoveryResult
  unfolding emit report
  execute_quarantine d = do
    emit (target_or "pipeline" d) recovery_quarantined
    report d quarantined false none none false false

  unfoldable pub retried :
      RecoveryDecision → Result (Unit {0}) → Exec (RecoveryState V W) RecoveryResult
  unfolding emit report failed_result
  retried d (ok _) = do
    emit "pipeline" recovery_completed
    report d RecoveryStatus.success true none none false true
  retried d (raise e) = do emit "pipeline" recovery_failed; failed_result d

  unfoldable pub retry_with :
      RecoveryDecision
      → Option (Exec (State V W) (Unit {0}))
      → Exec (RecoveryState V W) RecoveryResult
  unfolding retried
  retry_with d none s =
      (do emit "pipeline" recovery_completed; report d skipped false none none false false) s
  retry_with d (some run) s = let (r, t) = run s.base in retried d r (record s { base = t })

  -- `_execute_retry`
  unfoldable pub execute_retry :
      RecoveryDecision
      → Option (Exec (State V W) (Unit {0}))
      → Exec (RecoveryState V W) RecoveryResult
  unfolding retry_with
  execute_retry d pipeline_callable = do
    emit "pipeline" recovery_retry
    retry_with d pipeline_callable

  -- Whether a path exists on the disk.
  abbrev pub exists_in : State V W → String → Bool
  exists_in s path = is_some (get_key path s.artifacts)

  unfoldable pub check_checkpoint : Option Checkpoint → Exec (RecoveryState V W) Checkpoint
  unfolding get_key
  check_checkpoint none s = (raise not_found, s)
  check_checkpoint (some c) s =
      if (validate_checkpoint (exists_in s.base) c).passed then (ok c, s) else (raise not_valid, s)

  -- `_load_and_validate_checkpoint`
  unfoldable pub load_and_validate_checkpoint : String → Exec (RecoveryState V W) Checkpoint
  unfolding check_checkpoint get
  load_and_validate_checkpoint checkpoint_id s =
      check_checkpoint (get checkpoint_id s.base.checkpoints) s

module _ {V W : Type 0} (rt : Runtime V W) where
  -- `self.checkpoint_manager.restore(...)`, whose exceptions become `CheckpointNotFoundError`.
  unfoldable pub restored : String → Exec (RecoveryState V W) V
  restored checkpoint_id s = elim (restore rt checkpoint_id s.base) [
    | ok x ↦ (ok x, s)
    | raise e ↦ (raise not_found, s)
  ]

  -- What follows the restore of a rollback.
  unfoldable pub accept_rollback :
      RecoveryDecision → Checkpoint → Exec (RecoveryState V W) RecoveryResult
  unfolding emit report failed_result get_key
  accept_rollback d c s =
      if (validate_checkpoint (exists_in s.base) c).passed
      then (do
        emit c.node_id recovery_validation_passed
        emit c.node_id recovery_rollback
        emit c.node_id recovery_completed
        report d RecoveryStatus.success true d.checkpoint_id none true true)
          s
      else (do emit c.node_id recovery_validation_failed; failed_result d) s

  unfoldable pub rollback_to :
      RecoveryDecision → Option String → Exec (RecoveryState V W) RecoveryResult
  unfolding load_and_validate_checkpoint restored accept_rollback emit failed_result
  rollback_to d none = failed_result d
  rollback_to d (some checkpoint_id) = do
    emit (target_or "pipeline" d) recovery_checkpoint_restored
    checkpoint ← load_and_validate_checkpoint checkpoint_id
    restored checkpoint_id
    emit checkpoint.node_id recovery_validation_started
    accept_rollback d checkpoint

  -- `_execute_rollback`
  unfoldable pub execute_rollback : RecoveryDecision → Exec (RecoveryState V W) RecoveryResult
  unfolding rollback_to
  execute_rollback d = rollback_to d d.checkpoint_id
