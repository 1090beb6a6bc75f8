-- ===== src/Recovery/Results.antt =====
-- What a `RecoveryResult` says of itself and of its decision, action by action.
use crucible_ai.Prelude.{
  Bool, Option, String, [], arith, false, is_some, none, some, true, ◌++◌, ◌∷◌, ◌≡◌,
}
use crucible_ai.Pipeline.Runtime.{Result, ok, raise, State, Exec, Returns, Runtime}
use crucible_ai.Recovery.Decision.{
  RecoveryDecision, RecoveryActionType, retry, rerun_from_node, rollback,
}
use crucible_ai.Recovery.Report.{
  RecoveryStatus, RecoveryResult, RecoveryState, failed_result, recovery_failed, target_or, emit,
  recovery_retry,
}
use crucible_ai.Recovery.Actions.{
  execute_retry, execute_abort, accept_rollback, retried, execute_manual_review, execute_quarantine,
}
use crucible_ai.Pipeline.Model.{Checkpoint}
use crucible_ai.Recovery.Executor.{handle}

abbrev pub is_ok : RecoveryStatus → Bool
is_ok RecoveryStatus.success = true
is_ok _ = false

abbrev pub acts : RecoveryActionType → Bool
acts retry = true
acts rerun_from_node = true
acts rollback = true
acts _ = false

-- A result agrees with itself and with its decision.
pub record IsConsistent (d : RecoveryDecision) (r : RecoveryResult) : Type 0 where
  pub same_run : r.execution_id ≡ d.execution_id
  pub same_action : r.action ≡ d.action
  pub status_agrees : is_ok r.status ≡ r.success
  pub validated : r.validation_passed ≡ r.success
  pub rollback_agrees : r.rollback_performed ≡ is_some r.recovered_from_checkpoint
  pub only_on_success : r.rollback_performed ≡ true → r.success ≡ true
  pub from_decision : r.rollback_performed ≡ true → r.recovered_from_checkpoint ≡ d.checkpoint_id

module _ {V W : Type 0} where
  abbrev pub Fine : RecoveryDecision → RecoveryResult → RecoveryState V W → Type 0
  Fine d r s = IsConsistent d r

  pub failed_result-IsConsistent :
      (d : RecoveryDecision) (s : RecoveryState V W) → Returns (Fine d) (failed_result d s)
  unfolding failed_result
  failed_result-IsConsistent d s = ground arith

  pub execute_abort-IsConsistent :
      (d : RecoveryDecision) (s : RecoveryState V W) → Returns (Fine d) (execute_abort d s)
  unfolding execute_abort
  execute_abort-IsConsistent d s = ground arith

  pub execute_manual_review-IsConsistent :
      (d : RecoveryDecision) (s : RecoveryState V W) → Returns (Fine d) (execute_manual_review d s)
  unfolding execute_manual_review
  execute_manual_review-IsConsistent d s = ground arith

  pub execute_quarantine-IsConsistent :
      (d : RecoveryDecision) (s : RecoveryState V W) → Returns (Fine d) (execute_quarantine d s)
  unfolding execute_quarantine
  execute_quarantine-IsConsistent d s = ground arith

  pub handle-IsConsistent :
      (d : RecoveryDecision) (m : Result RecoveryResult × RecoveryState V W)
      → Returns (Fine d) m
      → Returns (Fine d) (handle d m)
  unfolding handle
  handle-IsConsistent d (ok r, s) h = h
  handle-IsConsistent d (raise e, s) h =
      failed_result-IsConsistent d (emit (target_or "pipeline" d) recovery_failed s).1

  pub retried-IsConsistent :
      (d : RecoveryDecision) (r : Result (Unit {0})) (s : RecoveryState V W)
      → Returns (Fine d) (retried d r s)
  unfolding retried
  retried-IsConsistent d (ok _) s = ground arith
  retried-IsConsistent d (raise e) s = ground arith

  pub execute_retry-IsConsistent :
      (d : RecoveryDecision) (c : Option (Exec (State V W) (Unit {0}))) (s : RecoveryState V W)
      → Returns (Fine d) (execute_retry d c s)
  unfolding execute_retry
  execute_retry-IsConsistent d none s = ground arith
  execute_retry-IsConsistent d (some run) s =
      let (r, t) = run s.base in
      retried-IsConsistent d r (record {
        base = t;
        events = s.events ++ record { node_id = "pipeline"; event_type = recovery_retry } ∷ [];
      })

module _ {V W : Type 0} (rt : Runtime V W) where
  pub accept_rollback-IsConsistent :
      (d : RecoveryDecision) (c : Checkpoint) (k : String) (s : RecoveryState V W)
      → d.checkpoint_id ≡ some k
      → Returns (Fine d) (accept_rollback rt d c s)
  unfolding accept_rollback
  accept_rollback-IsConsistent d c k s h = ground arith
