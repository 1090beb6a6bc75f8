-- ===== src/Recovery/Report.antt =====
-- The records of app/engine/core/recovery/models.py, and how `RecoveryExecutor` (executor.py beside
-- it) emits events and builds results. Messages, the evidence of a result and the metadata of an
-- event are left out: they are texts for people.
use crucible_ai.Prelude.{Bool, List, Option, String, [], false, get_or, none, ◌++◌, ◌∷◌}
use crucible_ai.Pipeline.Runtime.{Exception, ok, State, Exec, ◌>>◌}
use crucible_ai.Pipeline.Steps.{truthy}
use crucible_ai.Recovery.Decision.{RecoveryDecision, RecoveryActionType}

pub data EventType : Type 0 where
  recovery_started recovery_retry recovery_completed recovery_failed : EventType
  recovery_rerun_started recovery_validation_started recovery_validation_failed : EventType
  recovery_validation_passed recovery_checkpoint_restored recovery_rollback : EventType
  recovery_aborted recovery_manual_review recovery_quarantined : EventType

pub record RecoveryEvent : Type 0 where
  pub node_id : String
  pub event_type : EventType

pub data RecoveryStatus : Type 0 where
  success failed aborted pending_review quarantined skipped : RecoveryStatus

pub record RecoveryResult : Type 0 where
  pub execution_id : String
  pub action : RecoveryActionType
  pub status : RecoveryStatus
  pub success : Bool
  pub recovered_from_checkpoint : Option String
  pub resumed_from_node : Option String
  pub rollback_performed : Bool
  pub validation_passed : Bool
  pub events : List RecoveryEvent

-- The checkpoint manager's state, and the events of the running `execute` call.
pub record RecoveryState (V W : Type 0) : Type 0 where
  pub base : State V W
  pub events : List RecoveryEvent

abbrev pub not_found : Exception
not_found = record { type_name = "CheckpointNotFoundError"; message = "" }

abbrev pub not_valid : Exception
not_valid = record { type_name = "CheckpointValidationError"; message = "" }

abbrev pub not_runnable : Exception
not_runnable = record {
  type_name = "TypeError";
  message = "must provide run(context) or be callable";
}

-- `decision.target_node or "pipeline"`
abbrev pub target_or : String → RecoveryDecision → String
target_or default d = get_or (truthy d.target_node) default

module _ {V W : Type 0} where
  abbrev pub lift : {A : Type 0} → Exec (State V W) A → Exec (RecoveryState V W) A
  lift m s = let (r, t) = m s.base in (r, record s { base = t })

  -- `_emit`
  unfoldable pub emit : String → EventType → Exec (RecoveryState V W) (Unit {0})
  emit node_id event_type s = (
    ok tt,
    record s { events = s.events ++ record { node_id = node_id; event_type = event_type } ∷ [] },
  )

  -- A result with the events so far.
  unfoldable pub report :
      RecoveryDecision
      → RecoveryStatus
      → Bool
      → Option String
      → Option String
      → Bool
      → Bool
      → Exec (RecoveryState V W) RecoveryResult
  report d outcome done checkpoint node rolled_back validated s = (
    ok (record {
      execution_id = d.execution_id;
      action = d.action;
      status = outcome;
      success = done;
      recovered_from_checkpoint = checkpoint;
      resumed_from_node = node;
      rollback_performed = rolled_back;
      validation_passed = validated;
      events = s.events;
    }),
    s,
  )

  -- `_failed_result`
  unfoldable pub failed_result : RecoveryDecision → Exec (RecoveryState V W) RecoveryResult
  unfolding emit report
  failed_result d = do
    emit (target_or "pipeline" d) recovery_failed
    report d RecoveryStatus.failed false none none false false
