-- ===== src/Governance/Store.antt =====
-- The tables of the governance schema that app/api/core/decision_store.py writes, and `transaction`
-- of app/api/core/db.py. The columns that only hold texts and figures for people are left out.
use crucible_ai.Prelude.{Bool, List, Option, String, [], if◌then◌else◌, ℕ, ◌++◌, ◌+◌, ◌∷◌}
use crucible_ai.Pipeline.Runtime.{Exception, Result, ok, raise, Exec}

-- A row of gov.response_plans
pub record Plan : Type 0 where
  pub id : ℕ
  pub plan_ref : String
  pub lifecycle_state : String
  pub incident_id : Option ℕ

-- A row of gov.response_plan_actions
pub record PlanAction : Type 0 where
  pub plan_id : ℕ
  pub position : ℕ
  pub key : String

-- A row of gov.decision_approvals
pub record Approval : Type 0 where
  pub plan_id : ℕ
  pub decision : String
  pub actor_id : String
  pub actor_role : String

-- `AuditEntry`, of whose payload the two ends of a transition are kept.
pub record AuditEntry : Type 0 where
  pub event_type : String
  pub actor_id : String
  pub actor_role : String
  pub entity_type : String
  pub entity_id : String
  pub edge : Option (String × String)

-- A row of ops.incident_events
pub record IncidentEvent : Type 0 where
  pub incident_id : ℕ
  pub event_type : String
  pub actor_id : String

pub record Tables : Type 0 where
  pub plans : List Plan
  pub plan_actions : List PlanAction
  pub approvals : List Approval
  pub audit_log : List AuditEntry
  pub incident_events : List IncidentEvent

-- The database server: whether the n-th statement succeeds, the identifier that it gives to a new
-- row, and how Python prints a reference.
pub record Database : Type 0 where
  pub succeeds : ℕ → Bool
  pub serial : ℕ → ℕ
  pub reference : ℕ → String

pub record Session : Type 0 where
  pub tables : Tables
  pub statements : ℕ

abbrev pub database_error : Exception
database_error = record { type_name = "DatabaseError"; message = "" }

module _ (db : Database) where
  -- `tx.query` and `tx.execute`: the rows that are read, and the tables that are left.
  unfoldable pub statement : {A : Type 0} → (Tables → A) → (Tables → Tables) → Exec Session A
  statement read write s =
      if db.succeeds s.statements
      then (ok (read s.tables), record { tables = write s.tables; statements = s.statements + 1 })
      else (raise database_error, record s { statements = s.statements + 1 })

  -- The end of the `with` block: a commit, which may fail, or a rollback.
  unfoldable pub finish : {A : Type 0} → Tables → Result A × Session → Result A × Session
  finish before (ok a, s) =
      if db.succeeds s.statements
      then (ok a, record s { statements = s.statements + 1 })
      else (raise database_error, record { tables = before; statements = s.statements + 1 })
  finish before (raise e, s) = (raise e, record s { tables = before })

  -- `with transaction() as tx`
  unfoldable pub transaction : {A : Type 0} → Exec Session A → Exec Session A
  unfolding finish
  transaction body s = finish s.tables (body s)

  -- `_write_audit`
  unfoldable pub write_audit : AuditEntry → Exec Session (Unit {0})
  unfolding statement
  write_audit entry = statement (λ _. tt) (λ t. record t { audit_log = t.audit_log ++ entry ∷ [] })
