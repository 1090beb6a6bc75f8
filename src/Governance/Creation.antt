-- ===== src/Governance/Creation.antt =====
-- `create_plan` of app/api/core/decision_store.py.
use crucible_ai.Prelude.{
  List, Option, String, [], if◌then◌else◌, ltb, none, some, ℕ, ◌++◌, ◌+◌, ◌∷◌,
}
use crucible_ai.Pipeline.Runtime.{Exception, throw, Exec, pure, ◌>>=◌, ◌>>◌}
use crucible_ai.Governance.Lifecycle.{simulated, value}
use crucible_ai.Governance.Store.{
  Plan, AuditEntry, Database, Session, statement, transaction, write_audit,
}
use crucible_ai.Governance.Plans.{notify}

-- The keyword arguments of `create_plan`; of an action, its key, where it has the keys `key` and
-- `title`.
pub record Proposal : Type 0 where
  pub incident_id : Option ℕ
  pub created_by : String
  pub actor_role : String
  pub actions : List (Option String)

abbrev missing_key : Exception
missing_key = record { type_name = "KeyError"; message = "" }

-- `COALESCE(MAX(id), 0)`
unfoldable pub max_id : List Plan → ℕ
max_id [] = 0
max_id (p ∷ ps) = let rest = max_id ps in if ltb rest p.id then p.id else rest

abbrev pub creation_row : Proposal → Plan → AuditEntry
creation_row o p = record {
  event_type = "response_plan.created";
  actor_id = o.created_by;
  actor_role = o.actor_role;
  entity_type = "response_plan";
  entity_id = p.plan_ref;
  edge = none;
}

module _ (db : Database) where
  -- `next_plan_ref`
  unfoldable pub next_plan_ref : Exec Session String
  unfolding statement max_id
  next_plan_ref = statement db (λ t. db.reference (max_id t.plans + 1)) (λ t. t)

  -- `INSERT INTO gov.response_plans ... RETURNING`
  unfoldable pub insert_plan : Proposal → String → Exec Session Plan
  unfolding statement
  insert_plan o plan_ref s =
      let p : Plan = record {
        id = db.serial s.statements;
        plan_ref = plan_ref;
        lifecycle_state = value simulated;
        incident_id = o.incident_id;
      } in
      statement db (λ _. p) (λ t. record t { plans = t.plans ++ p ∷ [] }) s

  -- `for position, action in enumerate(actions, start=1)`, from a position
  unfoldable pub insert_actions : ℕ → ℕ → List (Option String) → Exec Session (Unit {0})
  unfolding statement
  insert_actions plan_id position [] = pure tt
  insert_actions plan_id position (none ∷ rest) = throw missing_key
  insert_actions plan_id position (some key ∷ rest) = do
    statement db (λ _. tt)
        (λ t. record t {
          plan_actions =
              t.plan_actions ++ record { plan_id = plan_id; position = position; key = key } ∷ [];
        })
    insert_actions plan_id (position + 1) rest

  unfoldable pub record_creation : Proposal → Plan → Exec Session Plan
  unfolding insert_actions write_audit notify
  record_creation o p = do
    insert_actions p.id 1 o.actions
    write_audit db (creation_row o p)
    notify db o.created_by o.incident_id (some "PLAN_GENERATED")
    pure p

  -- `create_plan`
  unfoldable pub create_plan : Proposal → Exec Session Plan
  unfolding next_plan_ref insert_plan record_creation transaction
  create_plan o =
      transaction db (do plan_ref ← next_plan_ref; p ← insert_plan o plan_ref; record_creation o p)
