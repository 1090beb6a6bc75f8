-- ===== src/Governance/Plans.antt =====
-- `transition_plan` of app/api/core/decision_store.py.
use crucible_ai.Prelude.{
  Bool, List, Option, String, [], false, if◌then◌else◌, keep, leb, map, none, some, true, ℕ, ◌&&◌,
  ◌++◌, ◌∷◌,
}
use crucible_ai.Pipeline.Runtime.{Exception, Exec, pure, throw, ◌>>=◌, ◌>>◌}
use crucible_ai.Governance.Lifecycle.{
  LifecycleState, draft, simulated, ready_for_review, approved, rejected, executing, completed,
  measured, learned, value, parse, can_transition,
}
use crucible_ai.Governance.Store.{
  Plan, Approval, AuditEntry, Database, Session, statement, transaction, write_audit,
}

abbrev pub illegal_transition : Exception
illegal_transition = record { type_name = "IllegalStateTransition"; message = "" }

abbrev pub unknown_state : Exception
unknown_state = record { type_name = "ValueError"; message = "not a valid LifecycleState" }

-- The keyword arguments of `transition_plan`; `modified` tells whether modifications is truthy.
pub record Order : Type 0 where
  pub plan_id : ℕ
  pub target : LifecycleState
  pub actor_id : String
  pub actor_role : String
  pub modified : Bool

pub record Receipt : Type 0 where
  pub plan_id : ℕ
  pub plan_ref : String
  pub from_state : String
  pub to_state : String

abbrev pub same_id : ℕ → ℕ → Bool
same_id a b = leb a b && leb b a

-- `WHERE id = %s`
abbrev pub has_id : ℕ → Plan → Bool
has_id id p = same_id p.id id

-- `f"response_plan.{target.value.lower()}"`
unfoldable pub audit_event : LifecycleState → String
audit_event draft = "response_plan.draft"
audit_event simulated = "response_plan.simulated"
audit_event ready_for_review = "response_plan.ready_for_review"
audit_event approved = "response_plan.approved"
audit_event rejected = "response_plan.rejected"
audit_event executing = "response_plan.executing"
audit_event completed = "response_plan.completed"
audit_event measured = "response_plan.measured"
audit_event learned = "response_plan.learned"

unfoldable pub incident_event : LifecycleState → Option String
incident_event approved = some "PLAN_APPROVED"
incident_event rejected = some "PLAN_REJECTED"
incident_event executing = some "ACTION_STARTED"
incident_event completed = some "ACTION_COMPLETED"
incident_event measured = some "OUTCOME_RECORDED"
incident_event _ = none

-- `target in (APPROVED, REJECTED)`
abbrev pub is_ruling : LifecycleState → Bool
is_ruling approved = true
is_ruling rejected = true
is_ruling _ = false

-- The row of `UPDATE ... SET lifecycle_state = %s`
abbrev pub set_state : ℕ → LifecycleState → Plan → Plan
set_state id target p = if has_id id p then record p { lifecycle_state = value target } else p

unfoldable pub approval_row : Order → Approval
approval_row o = record {
  plan_id = o.plan_id;
  decision = if o.modified then "MODIFIED" else value o.target;
  actor_id = o.actor_id;
  actor_role = o.actor_role;
}

unfoldable pub audit_row : Order → Plan → LifecycleState → AuditEntry
audit_row o p current = record {
  event_type = audit_event o.target;
  actor_id = o.actor_id;
  actor_role = o.actor_role;
  entity_type = "response_plan";
  entity_id = p.plan_ref;
  edge = some (value current, value o.target);
}

module _ (db : Database) where
  unfoldable pub record_ruling : Order → Exec Session (Unit {0})
  unfolding statement
  record_ruling o =
      if is_ruling o.target
      then statement db (λ _. tt) (λ t. record t { approvals = t.approvals ++ approval_row o ∷ [] })
      else pure tt

  unfoldable pub notify : String → Option ℕ → Option String → Exec Session (Unit {0})
  unfolding statement
  notify actor (some incident) (some event) =
      statement db (λ _. tt)
        (λ t. record t {
          incident_events =
              t.incident_events
              ++ record { incident_id = incident; event_type = event; actor_id = actor } ∷ [];
        })
  notify actor _ _ = pure tt

  -- What follows the guard.
  unfoldable pub apply : Order → Plan → LifecycleState → Exec Session Receipt
  unfolding statement record_ruling write_audit notify
  apply o p current = do
    statement db (λ _. tt) (λ t. record t { plans = map (set_state o.plan_id o.target) t.plans })
    record_ruling o
    write_audit db (audit_row o p current)
    notify o.actor_id p.incident_id (incident_event o.target)
    pure (record {
      plan_id = o.plan_id;
      plan_ref = p.plan_ref;
      from_state = value current;
      to_state = value o.target;
    })

  unfoldable pub guard : Order → Plan → Option LifecycleState → Exec Session Receipt
  unfolding apply
  guard o p none = throw unknown_state
  guard o p (some current) =
      if can_transition current o.target then apply o p current else throw illegal_transition

  -- The first of the rows that were selected.
  unfoldable pub with_first : Order → List Plan → Exec Session Receipt
  unfolding guard
  with_first o [] = throw illegal_transition
  with_first o (p ∷ _) = guard o p (parse p.lifecycle_state)

  unfoldable pub select_plan : Order → Exec Session (List Plan)
  unfolding statement
  select_plan o = statement db (λ t. keep (has_id o.plan_id) t.plans) (λ t. t)

  -- `transition_plan`
  unfoldable pub transition_plan : Order → Exec Session Receipt
  unfolding with_first select_plan transaction
  transition_plan o = transaction db (do rows ← select_plan o; with_first o rows)
