-- ===== src/Security/Selection.antt =====
-- What `select_trusted_checkpoint` of the security manager returns and records.
use crucible_ai.Integrity.Checker.{select_trusted_checkpoint}
use crucible_ai.Integrity.Trust.{Selected, select_trusted_checkpoint-Selected}
use crucible_ai.Pipeline.Model.{Checkpoint}
use crucible_ai.Security.Audit.{to_dict}
use crucible_ai.Security.Audited.{Audited, audit-Audited}
use crucible_ai.Security.Events.{
  SecurityAuditEvent, SecurityEventType, trusted_checkpoint_selected, untrusted_checkpoint_rejected,
}
use crucible_ai.Security.Manager.{Manager, audit, new_event, select_and_log, selection_event}
use crucible_ai.Security.Policy.{Deployment}
use crucible_ai.Prelude.{
  List, Option, String, [], is_some, length, none, refl, some, true, ℕ, ◌++◌, ◌∷◌, ◌≡◌,
}

abbrev pub kind_of : Option Checkpoint → SecurityEventType
kind_of none = untrusted_checkpoint_rejected
kind_of (some c) = trusted_checkpoint_selected

module _ {J : Type 0} (s : Deployment J)
    (total : (e : SecurityAuditEvent J) → is_some (s.json.dumps (to_dict s.json e)) ≡ true) where
  pub Selects :
      List Checkpoint → String → Manager s → Option (Option Checkpoint) × Manager s → Type 0
  Selects known execution m (o, out) =
      (c : Option Checkpoint) × (e : SecurityAuditEvent J) × (o ≡ some c)
      × Selected known c
      × (e.event_type ≡ kind_of c)
      × (e.execution_id ≡ execution)
      × (out.audit_logger.memory ≡ m.audit_logger.memory ++ e ∷ [])
      × (out.quarantine_records ≡ m.quarantine_records)

  selection_event_lem :
      (c : Option Checkpoint) (n : ℕ) (execution : String) (k : ℕ)
      → ((selection_event s c n execution k).event_type ≡ kind_of c)
        × ((selection_event s c n execution k).execution_id ≡ execution)
  unfolding selection_event new_event
  selection_event_lem none n execution k = (refl, refl)
  selection_event_lem (some c) n execution k = (refl, refl)

  -- Where json can write every event, a selection always ends: it returns the newest trusted one of
  -- the checkpoints, or none only where none is trusted, and the memory of the log gains one event of
  -- the execution, which tells which of the two it was; no artifact is quarantined.
  pub select_and_log-Selects :
      (known : List Checkpoint) (execution : String) (m : Manager s)
      → Selects known execution m (select_and_log s known execution m)
  unfolding select_and_log Selects
  select_and_log-Selects known execution m =
      let c = select_trusted_checkpoint known in
      let e = selection_event s c (length known) execution m.drawn in
      let a : Audited s total e m (audit s e m) = audit-Audited s total e m in
      let (k, x) = selection_event_lem c (length known) execution m.drawn in
      (
        c,
        e,
        rw (a.0, select_and_log) refl,
        select_trusted_checkpoint-Selected known,
        k,
        x,
        a.1,
        a.2,
      )
