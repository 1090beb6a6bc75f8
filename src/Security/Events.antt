-- ===== src/Security/Events.antt =====
-- The events of app/engine/core/security/models.py. Times are microseconds since the epoch. A value
-- of the metadata is a text or, as a parameter, another value that json knows.
use crucible_ai.Prelude.{List, String, ℕ}

pub data SecurityEventType : Type 0 where
  integrity_check_started integrity_check_passed integrity_check_failed : SecurityEventType
  artifact_quarantined security_review_required trusted_checkpoint_selected : SecurityEventType
  untrusted_checkpoint_rejected recovery_blocked_integrity : SecurityEventType
  security_audit_recorded artifact_loaded_unverified artifact_load_blocked : SecurityEventType

pub data SecuritySeverity : Type 0 where
  info warning high critical : SecuritySeverity

pub data Item (J : Type 0) : Type 0 where
  text : String → Item J
  other : J → Item J

pub record SecurityAuditEvent (J : Type 0) : Type 0 where
  pub event_type : SecurityEventType
  pub execution_id : String
  pub component : String
  pub severity : SecuritySeverity
  pub action : String
  pub reason : String
  pub event_id : String
  pub timestamp : ℕ
  pub metadata : List (String × Item J)

-- `.value` of the enumerations
unfoldable pub type_value : SecurityEventType → String
type_value integrity_check_started = "integrity_check_started"
type_value integrity_check_passed = "integrity_check_passed"
type_value integrity_check_failed = "integrity_check_failed"
type_value artifact_quarantined = "artifact_quarantined"
type_value security_review_required = "security_review_required"
type_value trusted_checkpoint_selected = "trusted_checkpoint_selected"
type_value untrusted_checkpoint_rejected = "untrusted_checkpoint_rejected"
type_value recovery_blocked_integrity = "recovery_blocked_by_integrity"
type_value security_audit_recorded = "security_audit_recorded"
type_value artifact_loaded_unverified = "artifact_loaded_unverified"
type_value artifact_load_blocked = "artifact_load_blocked"

unfoldable pub severity_value : SecuritySeverity → String
severity_value info = "info"
severity_value warning = "warning"
severity_value high = "high"
severity_value critical = "critical"
