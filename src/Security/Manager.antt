-- ===== src/Security/Manager.antt =====
-- The operations of `SecurityRecoveryManager` in app/engine/core/security/recovery.py. The time of a
-- quarantine is left out.
use crucible_ai.Security.Policy.{
  Failure, QuarantineRecord, SecurityRecoveryDecision, Deployment, make_decision, map_severity,
  status_value, trusted_of,
}
use crucible_ai.Integrity.Checker.{select_trusted_checkpoint}
use crucible_ai.Pipeline.Model.{Checkpoint}
use crucible_ai.Security.Audit.{
  AuditLog, Recording, quiet, record_event, runtime_warning, type_error, value_error,
}
use crucible_ai.Security.Events.{
  Item, SecurityAuditEvent, SecurityEventType, SecuritySeverity, artifact_quarantined, high, info,
  integrity_check_failed, other, security_audit_recorded, text, trusted_checkpoint_selected,
  untrusted_checkpoint_rejected, warning,
}
use crucible_ai.Prelude.{List, Option, String, [], length, none, some, suc, ℕ, ◌++◌, ◌∷◌}

module _ {J : Type 0} (s : Deployment J) where
  pub record Manager : Type 0 where
    pub audit_logger : AuditLog s.json
    pub quarantine_records : List QuarantineRecord
    pub drawn : ℕ

  abbrev pub none_if_raised :
      Recording s.json → SecurityAuditEvent J → Option (SecurityAuditEvent J)
  none_if_raised quiet e = some e
  none_if_raised runtime_warning e = some e
  none_if_raised type_error e = none
  none_if_raised value_error e = none

  -- A new event with its identifier and time.
  unfoldable pub new_event :
      SecurityEventType
      → String
      → SecuritySeverity
      → String
      → String
      → List (String × Item J)
      → ℕ
      → SecurityAuditEvent J
  new_event type execution severity action reason metadata k = record {
    event_type = type;
    execution_id = execution;
    component = "SecurityRecoveryManager";
    severity = severity;
    action = action;
    reason = reason;
    event_id = (s.stamp k).0;
    timestamp = (s.stamp k).1;
    metadata = metadata;
  }

  -- `self.audit_logger.record(e)`, with `none` where it raises
  unfoldable pub audit : SecurityAuditEvent J → Manager → Option (SecurityAuditEvent J) × Manager
  audit e m =
      let (r, log) = record_event s.json (s.disk m.drawn) (some e) m.audit_logger in
      (none_if_raised r e, record m { audit_logger = log; drawn = suc m.drawn })

  abbrev pub nullable : Option String → Item J
  nullable none = other s.null
  nullable (some t) = text t

  unfoldable pub failed_event : Failure → String → String → ℕ → SecurityAuditEvent J
  failed_event f execution artifact =
      new_event integrity_check_failed execution (map_severity f.status)
        (s.wording.failed_action artifact) f.reason
        (("artifact_id", text artifact)
          ∷ ("artifact_path", text f.artifact_path)
          ∷ ("status", text (status_value f.status))
          ∷ ("expected_checksum", nullable f.expected_checksum)
          ∷ ("actual_checksum", nullable f.actual_checksum)
          ∷ [])

  unfoldable pub quarantined_event : QuarantineRecord → ℕ → SecurityAuditEvent J
  quarantined_event r =
      new_event artifact_quarantined r.execution_id high
        (s.wording.quarantined_action r.artifact_id) s.wording.quarantined_reason
        (("artifact_id", text r.artifact_id)
          ∷ ("artifact_path", text r.artifact_path)
          ∷ ("integrity_status", text r.integrity_status)
          ∷ ("quarantine_audit_event_id", text r.audit_event_id)
          ∷ [])

  unfoldable pub decided_event :
      SecurityRecoveryDecision → QuarantineRecord → ℕ → SecurityAuditEvent J
  decided_event d r =
      new_event security_audit_recorded d.execution_id info
        (s.wording.decided_action d.recommended_action) d.rationale
        (("artifact_id", text d.artifact_id)
          ∷ ("recommended_action", text d.recommended_action)
          ∷ ("trusted_checkpoint_id", nullable d.trusted_checkpoint_id)
          ∷ ("requires_human_review", other (s.of_bool d.requires_human_review))
          ∷ ("quarantine_audit_event_id", text r.audit_event_id)
          ∷ [])

  -- Steps 4 and 5
  unfoldable pub decide_and_log :
      Failure
      → String
      → String
      → Option (List Checkpoint)
      → QuarantineRecord
      → Manager
      → Option SecurityRecoveryDecision × Manager
  decide_and_log f execution artifact checkpoints r m =
      let d =
        make_decision s.wording f execution artifact (trusted_of checkpoints execution)
          r.audit_event_id in
      let (o, out) = audit (decided_event d r m.drawn) m in
      elim o [ none ↦ (none, out) | some e ↦ (some d, out) ]

  -- Step 2: the record, then its event
  unfoldable pub quarantine_and_go :
      Failure
      → String
      → String
      → Option (List Checkpoint)
      → SecurityAuditEvent J
      → Manager
      → Option SecurityRecoveryDecision × Manager
  quarantine_and_go f execution artifact checkpoints fail m =
      let r : QuarantineRecord = record {
        artifact_id = artifact;
        artifact_path = f.artifact_path;
        quarantine_reason = f.reason;
        execution_id = execution;
        integrity_status = status_value f.status;
        audit_event_id = fail.event_id;
      } in
      let (o, out) =
        audit (quarantined_event r m.drawn)
          (record m { quarantine_records = m.quarantine_records ++ r ∷ [] }) in
      elim o [ none ↦ (none, out) | some e ↦ decide_and_log f execution artifact checkpoints r out ]

  -- `checkpoints` is what the list of the checkpoint manager gives, if one is passed.
  unfoldable pub handle_integrity_failure :
      Failure
      → String
      → String
      → Option (List Checkpoint)
      → Manager
      → Option SecurityRecoveryDecision × Manager
  handle_integrity_failure f execution artifact checkpoints m =
      let (o, out) = audit (failed_event f execution artifact m.drawn) m in
      elim o [
        | none ↦ (none, out)
        | some e ↦ quarantine_and_go f execution artifact checkpoints e out
      ]

  unfoldable pub selection_event : Option Checkpoint → ℕ → String → ℕ → SecurityAuditEvent J
  selection_event (some c) count execution =
      new_event trusted_checkpoint_selected execution info
        (s.wording.selected_action c.checkpoint_id) s.wording.selected_reason
        (("checkpoint_id", text c.checkpoint_id) ∷ [])
  selection_event none count execution =
      new_event untrusted_checkpoint_rejected execution warning s.wording.rejected_action
        s.wording.rejected_reason (("candidate_count", other (s.of_number count)) ∷ [])

  -- `select_trusted_checkpoint`, with `none` where the audit raises
  unfoldable pub select_and_log :
      List Checkpoint → String → Manager → Option (Option Checkpoint) × Manager
  unfolding selection_event
  select_and_log checkpoints execution m =
      let c = select_trusted_checkpoint checkpoints in
      let (o, out) = audit (selection_event c (length checkpoints) execution m.drawn) m in
      (elim o [ none ↦ none | some e ↦ some c ], out)
