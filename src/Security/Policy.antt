-- ===== src/Security/Policy.antt =====
-- The decision of `SecurityRecoveryManager` in app/engine/core/security/recovery.py and what the manager
-- runs on. What its events say in words is a parameter, `Wording`; uuid4, the clock and the disk give
-- their answers by the number of the event.
use crucible_ai.Integrity.Checker.{select_trusted_checkpoint}
use crucible_ai.Pipeline.Model.{Checkpoint}
use crucible_ai.Recovery.Validator.{IntegrityStatus, artifact_missing, failed, no_manifest, passed}
use crucible_ai.Security.Audit.{Json, Write}
use crucible_ai.Security.Events.{SecuritySeverity, critical, high, info, warning}
use crucible_ai.Prelude.{
  Bool, List, Option, String, [], false, if◌then◌else◌, keep, none, not, some, true, ℕ, ◌==◌, ◌∷◌,
}

pub record QuarantineRecord : Type 0 where
  pub artifact_id : String
  pub artifact_path : String
  pub quarantine_reason : String
  pub execution_id : String
  pub integrity_status : String
  pub audit_event_id : String

pub record SecurityRecoveryDecision : Type 0 where
  pub execution_id : String
  pub recommended_action : String
  pub artifact_id : String
  pub trusted_checkpoint_id : Option String
  pub rationale : String
  pub requires_human_review : Bool
  pub audit_event_id : String

-- The texts that are formatted from an artifact, a checkpoint or an action.
pub record Wording : Type 0 where
  pub failed_action : String → String
  pub quarantined_action : String → String
  pub quarantined_reason : String
  pub decided_action : String → String
  pub rationale_of : IntegrityStatus → String → Option String → String
  pub selected_action : String → String
  pub selected_reason : String
  pub rejected_action : String
  pub rejected_reason : String

pub record Deployment (J : Type 0) : Type 0 where
  pub json : Json J
  pub wording : Wording
  pub stamp : ℕ → String × ℕ
  pub disk : ℕ → Write json
  -- None, and what a Boolean or a number is in json
  pub null : J
  pub of_bool : Bool → J
  pub of_number : ℕ → J

-- What is known of the failed check.
pub record Failure : Type 0 where
  pub status : IntegrityStatus
  pub reason : String
  pub artifact_path : String
  pub expected_checksum : Option String
  pub actual_checksum : Option String

unfoldable pub status_value : IntegrityStatus → String
status_value passed = "passed"
status_value failed = "failed"
status_value no_manifest = "no_manifest"
status_value artifact_missing = "artifact_missing"

unfoldable pub map_severity : IntegrityStatus → SecuritySeverity
map_severity failed = critical
map_severity no_manifest = warning
map_severity artifact_missing = high
map_severity passed = info

-- Whether an identifier is there and not empty.
abbrev pub has_text : Option String → Bool
has_text none = false
has_text (some s) = not (s == "")

unfoldable pub choose_action : IntegrityStatus → Option String → String
choose_action failed trusted =
    if has_text trusted then "quarantine_and_rollback" else "quarantine_manual_review"
choose_action no_manifest trusted =
    if has_text trusted then "rollback_to_trusted" else "block_and_review"
choose_action artifact_missing trusted = "block_and_review"
choose_action passed trusted = "block_and_review"

-- `_make_decision`
unfoldable pub make_decision :
    Wording → Failure → String → String → Option String → String → SecurityRecoveryDecision
make_decision w f execution artifact trusted event = record {
  execution_id = execution;
  recommended_action = choose_action f.status trusted;
  artifact_id = artifact;
  trusted_checkpoint_id = trusted;
  rationale = w.rationale_of f.status artifact trusted;
  requires_human_review = true;
  audit_event_id = event;
}

abbrev pub id_of : Option Checkpoint → Option String
id_of none = none
id_of (some c) = some c.checkpoint_id

abbrev pub or_all : List Checkpoint → List Checkpoint → List Checkpoint
or_all [] known = known
or_all (c ∷ cs) known = c ∷ cs

unfoldable pub candidates_of : List Checkpoint → String → List Checkpoint
candidates_of known execution =
    or_all (keep (λ (c : Checkpoint). c.execution_id == execution) known) known

-- `_find_trusted_checkpoint`
unfoldable pub find_trusted_checkpoint : List Checkpoint → String → Option String
find_trusted_checkpoint known execution =
    id_of (select_trusted_checkpoint (candidates_of known execution))

abbrev pub trusted_of : Option (List Checkpoint) → String → Option String
trusted_of none execution = none
trusted_of (some known) execution = find_trusted_checkpoint known execution
