-- ===== src/Governance/Effects.antt =====
-- What a transaction of the decision store leaves in the tables, where it commits and where not.
use mathlib.Core.List.{append-nil}
use crucible_ai.Prelude.{
  Bool-cases, List, Option, String, [], if◌then◌else◌, inl, inr, keep, map, none, refl, some, sym,
  true, ℕ, ◌++◌, ◌∷◌, ◌≡◌,
}
use crucible_ai.Pipeline.Runtime.{Result, ok, raise, Exec, Returns, Returns-continue, ◌>>=◌}
use crucible_ai.Governance.Lifecycle.{value, LifecycleState, parse, can_transition}
use crucible_ai.Governance.Store.{
  Plan, Approval, Tables, Database, Session, statement, finish, transaction, write_audit,
}
use crucible_ai.Governance.Plans.{
  record_ruling, notify, apply, Order, set_state, is_ruling, approval_row, audit_row, Receipt,
  incident_event, has_id, select_plan, transition_plan, with_first, guard,
}

-- The rows that a transition from a state leaves in the tables that govern.
abbrev pub rulings : Order → List Approval
rulings o = if is_ruling o.target then approval_row o ∷ [] else []

pub record IsMoved (o : Order) (p : Plan) (current : LifecycleState) (before after : Tables)
    : Type 0 where
  pub parsed : parse p.lifecycle_state ≡ some current
  pub permitted : can_transition current o.target ≡ true
  pub plans : after.plans ≡ map (set_state o.plan_id o.target) before.plans
  pub approvals : after.approvals ≡ before.approvals ++ rulings o
  pub audited : after.audit_log ≡ before.audit_log ++ audit_row o p current ∷ []
  pub actions : after.plan_actions ≡ before.plan_actions

module _ (db : Database) where
  -- A statement that returns has read and written the tables.
  pub statement-Returns :
      {A : Type 0} (P : A → Session → Type 0) (read : Tables → A) (write : Tables → Tables)
      (s : Session)
      → ((t : Session) → t.tables ≡ write s.tables → P (read s.tables) t)
      → Returns P (statement db read write s)
  unfolding statement
  statement-Returns P read write s h = elim (Bool-cases (db.succeeds s.statements)) [
    | inl p ↦ rw p (h _ refl)
    | inr p ↦ rw p tt
  ]

  -- What a transaction does to the tables, by what its body does: a body that returns may also be
  -- rolled back, and where the transaction raises nothing is changed.
  abbrev pub Commits : {A : Type 0} → Tables → (A → Tables → Type 0) → Result A × Session → Type 0
  Commits before P (ok a, t) = P a t.tables
  Commits before P (raise e, t) = t.tables ≡ before

  finish-Commits :
      {A : Type 0} (P : A → Tables → Type 0) (before : Tables) (m : Result A × Session)
      → Returns (λ a t. P a t.tables) m
      → Commits before P (finish db before m)
  unfolding finish
  finish-Commits P before (raise e, t) h = refl
  finish-Commits P before (ok a, t) h = elim (Bool-cases (db.succeeds t.statements)) [
    | inl p ↦ rw p h
    | inr p ↦ rw p refl
  ]

  pub transaction-Commits :
      {A : Type 0} (P : A → Tables → Type 0) (body : Exec Session A) (s : Session)
      → Returns (λ a t. P a t.tables) (body s)
      → Commits s.tables P (transaction db body s)
  unfolding transaction
  transaction-Commits P body s h = finish-Commits P s.tables (body s) h

  Returns-map :
      {A : Type 0} (P Q : A → Session → Type 0) (m : Result A × Session)
      → ((a : A) (t : Session) → P a t → Q a t)
      → Returns P m
      → Returns Q m
  Returns-map P Q (ok a, t) f h = f a t h
  Returns-map P Q (raise e, t) f h = tt

  pub write-Returns :
      (write : Tables → Tables) (s : Session)
      → Returns (λ _ t. t.tables ≡ write s.tables) (statement db (λ _. tt) write s)
  write-Returns write s =
      statement-Returns (λ _ t. t.tables ≡ write s.tables) (λ _. tt) write s (λ t e. e)

  record_ruling-Returns :
      (o : Order) (s : Session)
      → Returns
          (λ _ t. t.tables ≡ record s.tables { approvals = s.tables.approvals ++ rulings o })
          (record_ruling db o s)
  unfolding record_ruling
  record_ruling-Returns o s = elim (Bool-cases (is_ruling o.target)) [
    | inl p ↦
        rw p (write-Returns (λ t. record t { approvals = t.approvals ++ approval_row o ∷ [] }) s)
    | inr p ↦ rw p (rw append-nil refl)
  ]

  -- The tables that govern are the same.
  abbrev pub Governs : Tables → Tables → Type 0
  Governs t u =
      (u.plans ≡ t.plans)
      × (u.approvals ≡ t.approvals)
      × (u.audit_log ≡ t.audit_log)
      × (u.plan_actions ≡ t.plan_actions)

  pub notify-Governs :
      (actor : String) (incident : Option ℕ) (event : Option String) (s : Session)
      → Returns (λ _ t. Governs s.tables t.tables) (notify db actor incident event s)
  unfolding notify
  notify-Governs actor (some i) (some e) s =
      statement-Returns (λ _ t. Governs s.tables t.tables) (λ _. tt)
        (λ t. record t {
          incident_events =
              t.incident_events
              ++ record { incident_id = i; event_type = e; actor_id = actor } ∷ [];
        })
        s (λ t p. rw p (refl, refl, refl, refl))
  notify-Governs actor (some i) none s = (refl, refl, refl, refl)
  notify-Governs actor none e s = (refl, refl, refl, refl)

  abbrev Moves : Order → Plan → LifecycleState → Tables → Receipt → Session → Type 0
  Moves o p current before r t = IsMoved o p current before t.tables × (r.to_state ≡ value o.target)

  apply-Moves :
      (o : Order) (p : Plan) (current : LifecycleState) (s : Session)
      → parse p.lifecycle_state ≡ some current
      → can_transition current o.target ≡ true
      → Returns (Moves o p current s.tables) (apply db o p current s)
  unfolding apply write_audit
  apply-Moves o p current s parsed permitted =
      let R = Moves o p current s.tables in
      Returns-continue R
        (λ _ t.
          t.tables ≡ record s.tables { plans = map (set_state o.plan_id o.target) s.tables.plans })
        (statement db (λ _. tt)
          (λ t. record t { plans = map (set_state o.plan_id o.target) t.plans }) s)
        _ (write-Returns (λ t. record t { plans = map (set_state o.plan_id o.target) t.plans }) s)
        (λ _ t e.
          Returns-continue R
            (λ _ u. u.tables ≡ record t.tables { approvals = t.tables.approvals ++ rulings o })
            (record_ruling db o t) _ (record_ruling-Returns o t)
            (λ _ u f.
              Returns-continue R
                (λ _ v. v.tables ≡ record u.tables {
                  audit_log = u.tables.audit_log ++ audit_row o p current ∷ [];
                })
                (write_audit db (audit_row o p current) u) _
                (write-Returns
                  (λ t. record t { audit_log = t.audit_log ++ audit_row o p current ∷ [] }) u)
                (λ _ v g.
                  Returns-continue R (λ _ w. Governs v.tables w.tables)
                    (notify db o.actor_id p.incident_id (incident_event o.target) v) _
                    (notify-Governs o.actor_id p.incident_id (incident_event o.target) v)
                    (λ _ w h. (
                      record {
                        parsed = parsed;
                        permitted = permitted;
                        plans = simp (h.0, g, f, e);
                        approvals = simp (h.1, g, f, e);
                        audited = simp (h.2, g, f, e);
                        actions = simp (h.3, g, f, e);
                      },
                      refl,
                    )))))

  guard-Moves :
      (o : Order) (p : Plan) (current : Option LifecycleState) (s : Session)
      → parse p.lifecycle_state ≡ current
      → Returns (λ r t. (c : LifecycleState) × Moves o p c s.tables r t) (guard db o p current s)
  unfolding guard
  guard-Moves o p none s e = tt
  guard-Moves o p (some c) s e = elim (Bool-cases (can_transition c o.target)) [
    | inl h ↦ rw h (Returns-map _ _ (apply db o p c s) (λ r t m. (c, m)) (apply-Moves o p c s e h))
    | inr h ↦ rw h tt
  ]

  -- What a transition that commits did: it moved the first plan with the identifier, along an edge.
  abbrev pub Transitioned : Order → Tables → Receipt → Tables → Type 0
  Transitioned o before r after =
      (p : Plan) × (c : LifecycleState) × (ps : List Plan) × (keep (has_id o.plan_id) before.plans
        ≡ p ∷ ps)
      × IsMoved o p c before after
      × (r.to_state ≡ value o.target)

  with_first-Transitioned :
      (o : Order) (before : Tables) (rows : List Plan) (s : Session)
      → keep (has_id o.plan_id) before.plans ≡ rows
      → s.tables ≡ before
      → Returns (λ r t. Transitioned o before r t.tables) (with_first db o rows s)
  unfolding with_first
  with_first-Transitioned o before [] s e b = tt
  with_first-Transitioned o before (p ∷ ps) s e b =
      Returns-map _ _ (guard db o p (parse p.lifecycle_state) s)
        (λ r t m. (p, m.0, ps, e, rw (sym b) m.1.0, m.1.1))
        (guard-Moves o p (parse p.lifecycle_state) s refl)

  -- A transition that commits moved the plan along an edge of `TRANSITIONS`: every row with its
  -- identifier is in the target state, an approval or a rejection added its ruling, and the audit log
  -- gained exactly the entry of this edge. A transition that raises, at a guard or at any statement
  -- that the server refuses, the commit included, leaves every table as it was.
  pub transition_plan-Commits :
      (o : Order) (s : Session)
      → Commits s.tables (Transitioned o s.tables) (transition_plan db o s)
  unfolding transition_plan select_plan
  transition_plan-Commits o s =
      transaction-Commits (Transitioned o s.tables)
        (do rows ← select_plan db o; with_first db o rows) s
        (Returns-continue (λ r t. Transitioned o s.tables r t.tables)
          (λ rows t. (keep (has_id o.plan_id) s.tables.plans ≡ rows) × (t.tables ≡ s.tables))
          (select_plan db o s) _
          (statement-Returns
            (λ rows t. (keep (has_id o.plan_id) s.tables.plans ≡ rows) × (t.tables ≡ s.tables))
            (λ t. keep (has_id o.plan_id) t.plans) (λ t. t) s (λ t e. (refl, e)))
          (λ rows t h. with_first-Transitioned o s.tables rows t h.0 h.1))
