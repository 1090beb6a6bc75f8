-- ===== src/Security/Response.antt =====
-- What `handle_integrity_failure` records and decides.
use mathlib.Core.List.{append-nil, append_assoc}
use crucible_ai.Pipeline.Model.{Checkpoint, get_key}
use crucible_ai.Security.Audit.{to_dict}
use crucible_ai.Security.Events.{
  SecurityAuditEvent, artifact_quarantined, integrity_check_failed, security_audit_recorded, text,
}
use crucible_ai.Security.Manager.{
  Manager, audit, decide_and_log, decided_event, failed_event, quarantine_and_go, quarantined_event,
  handle_integrity_failure, new_event,
}
use crucible_ai.Security.Policy.{
  QuarantineRecord, Deployment, has_text, trusted_of, status_value, Failure,
  SecurityRecoveryDecision, make_decision,
}
use crucible_ai.Prelude.{
  All, map, List, Option, String, [], ap, is_some, none, refl, some, suc, sym, true, ◌&&◌, ◌++◌,
  ◌∙◌, ◌∷◌, ◌≡◌,
}
use crucible_ai.Security.Grounds.{
  proposes_rollback, is_unverified, choose_action-proposes, IsGrounded, trusted_of-IsGrounded,
}
use crucible_ai.Security.Audited.{audit-Audited, go_on}

abbrev pub first : {A : Type 0} → List A → List A
first [] = []
first (x ∷ xs) = x ∷ []

module _ {J : Type 0} (s : Deployment J)
    (total : (e : SecurityAuditEvent J) → is_some (s.json.dumps (to_dict s.json e)) ≡ true) where
  -- The record of the quarantine of an artifact.
  abbrev record_of : Failure → String → String → String → QuarantineRecord
  record_of f execution artifact event = record {
    artifact_id = artifact;
    artifact_path = f.artifact_path;
    quarantine_reason = f.reason;
    execution_id = execution;
    integrity_status = status_value f.status;
    audit_event_id = event;
  }

  abbrev decision_of :
      Failure → String → String → Option (List Checkpoint) → String → SecurityRecoveryDecision
  decision_of f execution artifact cs event =
      make_decision s.wording f execution artifact (trusted_of cs execution) event

  -- The events of a response tell of the failure, the quarantine and the decision, in this order, and
  -- each names the execution and the artifact; the first has the identifier that the decision names.
  pub record IsTold (execution artifact event : String) (es : List (SecurityAuditEvent J))
      : Type 0 where
    pub kinds :
        map (λ (e : SecurityAuditEvent J). e.event_type) es
        ≡ integrity_check_failed ∷ artifact_quarantined ∷ security_audit_recorded ∷ []
    pub opening : map (λ (e : SecurityAuditEvent J). e.event_id) (first es) ≡ event ∷ []
    pub named :
        All
          (λ (e : SecurityAuditEvent J).
            (e.execution_id ≡ execution)
            × (get_key "artifact_id" e.metadata ≡ some (text artifact)))
          es

  abbrev pub Responds :
      Failure
      → String
      → String
      → Option (List Checkpoint)
      → Manager s
      → Option SecurityRecoveryDecision × Manager s
      → Type 0
  Responds f execution artifact cs m (o, out) =
      (d : SecurityRecoveryDecision) × (r : QuarantineRecord) × (es : List (SecurityAuditEvent J))
      × (o ≡ some d)
      × (d.requires_human_review ≡ true)
      × (proposes_rollback d.recommended_action
          ≡ is_unverified f.status && has_text d.trusted_checkpoint_id)
      × IsGrounded cs execution d.trusted_checkpoint_id
      × (out.quarantine_records ≡ m.quarantine_records ++ r ∷ [])
      × (r.artifact_id ≡ artifact)
      × (r.audit_event_id ≡ d.audit_event_id)
      × (out.audit_logger.memory ≡ m.audit_logger.memory ++ es)
      × IsTold execution artifact d.audit_event_id es

  -- The decision is returned, and the log and the quarantine records gain these entries.
  abbrev Gains :
      SecurityRecoveryDecision
      → List QuarantineRecord
      → List (SecurityAuditEvent J)
      → Manager s
      → Option SecurityRecoveryDecision × Manager s
      → Type 0
  Gains d rs es m (o, out) =
      (o ≡ some d)
      × (out.quarantine_records ≡ m.quarantine_records ++ rs)
      × (out.audit_logger.memory ≡ m.audit_logger.memory ++ es)

  module _ (f : Failure) (execution artifact : String) (cs : Option (List Checkpoint)) where
    decide_and_log-Gains :
        (event : String) (m : Manager s)
        → Gains
            (decision_of f execution artifact cs event)
            []
            (decided_event s
                (decision_of f execution artifact cs event)
                (record_of f execution artifact event)
                m.drawn
              ∷ [])
            m
            (decide_and_log s f execution artifact cs (record_of f execution artifact event) m)
    unfolding decide_and_log
    decide_and_log-Gains event m =
        let d = decision_of f execution artifact cs event in
        let e = decided_event s d (record_of f execution artifact event) m.drawn in
        go_on s total (Gains d [] (e ∷ []) m) e m (audit s e m) (λ out. (none, out))
          (λ x out. (some d, out)) (audit-Audited s total e m)
          (λ out a. (refl, a.2 ∙ sym (append-nil m.quarantine_records), a.1))

    quarantine_and_go-Gains :
        (fail : SecurityAuditEvent J) (m : Manager s)
        → Gains
            (decision_of f execution artifact cs fail.event_id)
            (record_of f execution artifact fail.event_id ∷ [])
            (quarantined_event s (record_of f execution artifact fail.event_id) m.drawn
              ∷ decided_event s
                  (decision_of f execution artifact cs fail.event_id)
                  (record_of f execution artifact fail.event_id)
                  (suc m.drawn)
              ∷ [])
            m
            (quarantine_and_go s f execution artifact cs fail m)
    unfolding quarantine_and_go
    quarantine_and_go-Gains fail m =
        let r = record_of f execution artifact fail.event_id in
        let d = decision_of f execution artifact cs fail.event_id in
        let m' : Manager s = record m { quarantine_records = m.quarantine_records ++ r ∷ [] } in
        let e = quarantined_event s r m.drawn in
        go_on s total (Gains d (r ∷ []) (e ∷ decided_event s d r (suc m.drawn) ∷ []) m) e m'
          (audit s e m') (λ out. (none, out))
          (λ x out. decide_and_log s f execution artifact cs r out) (audit-Audited s total e m')
          (λ out a.
            let (o, q, l) = decide_and_log-Gains fail.event_id out in
            (
              o,
              q ∙ append-nil out.quarantine_records ∙ a.2,
              l
                  ∙ ap (λ n. out.audit_logger.memory ++ decided_event s d r n ∷ []) a.3
                  ∙ ap (λ x. x ++ decided_event s d r (suc m.drawn) ∷ []) a.1
                  ∙ append_assoc m.audit_logger.memory (e ∷ [])
                      (decided_event s d r (suc m.drawn) ∷ []),
            ))

    -- Where json can write every event, a response always ends with a decision, whatever the disk
    -- does. The decision asks for a human review. It proposes a rollback exactly where the artifact
    -- does not match its manifest or has none and a trusted checkpoint is named; the named one is the
    -- newest trusted checkpoint of the execution, or of all where the execution has none. The
    -- quarantine records gain one of this artifact, and the memory of the log gains the failure, the
    -- quarantine and the decision, in this order, each with the execution and the artifact.
    pub handle_integrity_failure-Responds :
        (m : Manager s)
        → Responds f execution artifact cs m (handle_integrity_failure s f execution artifact cs m)
    unfolding handle_integrity_failure make_decision failed_event quarantined_event decided_event
        new_event get_key
    handle_integrity_failure-Responds m =
        let e = failed_event s f execution artifact m.drawn in
        let r = record_of f execution artifact e.event_id in
        let d = decision_of f execution artifact cs e.event_id in
        let q = quarantined_event s r (suc m.drawn) in
        let c = decided_event s d r (suc (suc m.drawn)) in
        go_on s total (Responds f execution artifact cs m) e m (audit s e m) (λ out. (none, out))
          (λ x out. quarantine_and_go s f execution artifact cs x out) (audit-Audited s total e m)
          (λ out a.
            let (o, rs, l) = quarantine_and_go-Gains e out in
            (
              d,
              r,
              e ∷ q ∷ c ∷ [],
              o,
              refl,
              choose_action-proposes f.status (trusted_of cs execution),
              trusted_of-IsGrounded cs execution,
              rs ∙ ap (λ x. x ++ r ∷ []) a.2,
              refl,
              refl,
              l
                  ∙ ap
                      (λ k.
                        out.audit_logger.memory
                        ++ quarantined_event s r k ∷ decided_event s d r (suc k) ∷ [])
                      a.3
                  ∙ ap (λ x. x ++ q ∷ c ∷ []) a.1
                  ∙ append_assoc m.audit_logger.memory (e ∷ []) (q ∷ c ∷ []),
              (record {
                kinds = refl;
                opening = refl;
                named = ((refl, refl), ((refl, refl), ((refl, refl), tt)));
              }),
            ))
