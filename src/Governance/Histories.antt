-- ===== src/Governance/Histories.antt =====
-- Whole histories of the decision store: calls of `create_plan` and `transition_plan` in any order.
use mathlib.Core.List.{append-nil, append_assoc}
use crucible_ai.Prelude.{
  All, All-append, is_some, List, Option, String, [], ap, arith, none, refl, some, sym, true, ℕ,
  ◌++◌, ◌+◌, ◌∙◌, ◌∷◌, ◌≡◌,
}
use crucible_ai.Pipeline.Runtime.{Result, ok, raise, Returns, Returns-continue, ◌>>=◌}
use crucible_ai.Governance.Lifecycle.{value}
use crucible_ai.Governance.Store.{
  Plan, PlanAction, Tables, Database, Session, statement, write_audit,
}
use crucible_ai.Governance.Plans.{Order, notify, transition_plan}
use crucible_ai.Governance.Creation.{
  Proposal, creation_row, next_plan_ref, insert_plan, insert_actions, record_creation, create_plan,
  max_id,
}
use crucible_ai.Governance.Approvals.{IsAuthorised, IsGranted, transition_plan-IsAuthorised}
use crucible_ai.Governance.Edges.{governed, governed_simulated}
use crucible_ai.Governance.Effects.{
  Commits, statement-Returns, write-Returns, notify-Governs, transaction-Commits,
}

-- The rows of a list of actions, from a position.
abbrev pub action_rows : ℕ → ℕ → List (Option String) → List PlanAction
action_rows id position [] = []
action_rows id position (none ∷ ks) = action_rows id (position + 1) ks
action_rows id position (some k ∷ ks) =
    record { plan_id = id; position = position; key = k } ∷ action_rows id (position + 1) ks

-- What a creation that commits adds: one simulated plan, a row for each of its actions, all of which
-- have a key, in their order, and one audit entry.
abbrev pub Created : Proposal → Tables → Plan → Tables → Type 0
Created o before p after =
    (after.plans ≡ before.plans ++ p ∷ [])
    × (p.lifecycle_state ≡ "SIMULATED")
    × (after.approvals ≡ before.approvals)
    × (after.audit_log ≡ before.audit_log ++ creation_row o p ∷ [])
    × All (λ k. is_some k ≡ true) o.actions
    × (after.plan_actions ≡ before.plan_actions ++ action_rows p.id 1 o.actions)

-- A call of the store.
pub data Call : Type 0 where
  create_call : Proposal → Call
  transition_call : Order → Call

module _ (db : Database) where
  -- Everything but the actions stays, and these gain rows.
  abbrev Keeps : List PlanAction → Tables → Tables → Type 0
  Keeps rows t u =
      (u.plans ≡ t.plans)
      × (u.approvals ≡ t.approvals)
      × (u.audit_log ≡ t.audit_log)
      × (u.plan_actions ≡ t.plan_actions ++ rows)

  -- The rows of actions that all have a key.
  abbrev Gains : ℕ → ℕ → List (Option String) → Tables → Tables → Type 0
  Gains id position ks t u = All (λ k. is_some k ≡ true) ks × Keeps (action_rows id position ks) t u

  insert_actions-Gains :
      (id position : ℕ) (keys : List (Option String)) (s : Session)
      → Returns
          (λ _ t. Gains id position keys s.tables t.tables)
          (insert_actions db id position keys s)
  unfolding insert_actions
  insert_actions-Gains id position [] s =
      (tt, (refl, refl, refl, sym (append-nil s.tables.plan_actions)))
  insert_actions-Gains id position (none ∷ ks) s = tt
  insert_actions-Gains id position (some k ∷ ks) s =
      let row : PlanAction = record { plan_id = id; position = position; key = k } in
      Returns-continue (λ _ t. Gains id position (some k ∷ ks) s.tables t.tables)
        (λ _ t. Keeps (row ∷ []) s.tables t.tables)
        (statement db (λ _. tt) (λ t. record t { plan_actions = t.plan_actions ++ row ∷ [] }) s) _
        (statement-Returns db (λ _ t. Keeps (row ∷ []) s.tables t.tables) (λ _. tt)
          (λ t. record t { plan_actions = t.plan_actions ++ row ∷ [] }) s
          (λ t e. rw e (refl, refl, refl, refl)))
        (λ _ t h.
          rest_Gains row t h (insert_actions db id (position + 1) ks t)
            (insert_actions-Gains id (position + 1) ks t))
    where
      rest_Gains :
          (row : PlanAction) (t : Session)
          → Keeps (row ∷ []) s.tables t.tables
          → (m : Result (Unit {0}) × Session)
          → Returns (λ _ u. Gains id (position + 1) ks t.tables u.tables) m
          → Returns
              (λ _ u.
                ((is_some (some k) ≡ true) × All (λ k. is_some k ≡ true) ks)
                × Keeps (row ∷ action_rows id (position + 1) ks) s.tables u.tables)
              m
      rest_Gains row t h (ok a, u) (b, k) = (
        (refl, b),
        (
          k.0 ∙ h.0,
          k.1 ∙ h.1,
          k.2 ∙ h.2,
          k.3
              ∙ ap (λ x. x ++ action_rows id (position + 1) ks) h.3
              ∙ append_assoc s.tables.plan_actions (row ∷ []) (action_rows id (position + 1) ks),
        ),
      )
      rest_Gains row t h (raise e, u) k = tt

  abbrev Makes : Proposal → Tables → Plan → Session → Type 0
  Makes o before p t = Created o before p t.tables

  abbrev Inserted : Tables → Plan → Session → Type 0
  Inserted before p t =
      (p.lifecycle_state ≡ "SIMULATED")
      × (t.tables ≡ record before { plans = before.plans ++ p ∷ [] })

  insert_plan-Inserted :
      (o : Proposal) (ref : String) (before : Tables) (s : Session)
      → s.tables ≡ before
      → Returns (Inserted before) (insert_plan db o ref s)
  unfolding insert_plan value
  insert_plan-Inserted o ref before s e =
      let p : Plan = record {
        id = db.serial s.statements;
        plan_ref = ref;
        lifecycle_state = "SIMULATED";
        incident_id = o.incident_id;
      } in
      statement-Returns db (Inserted before) (λ _. p) (λ t. record t { plans = t.plans ++ p ∷ [] })
        s (λ u f. (refl, rw (f, e) refl))

  record_creation-Returns :
      (o : Proposal) (p : Plan) (before : Tables) (s : Session)
      → s.tables.plans ≡ before.plans ++ p ∷ []
      → p.lifecycle_state ≡ "SIMULATED"
      → s.tables.approvals ≡ before.approvals
      → s.tables.audit_log ≡ before.audit_log
      → s.tables.plan_actions ≡ before.plan_actions
      → Returns (λ q t. Created o before q t.tables) (record_creation db o p s)
  unfolding record_creation write_audit
  record_creation-Returns o p before s a b c d acts =
      let R = Makes o before in
      Returns-continue R (λ _ t. Gains p.id 1 o.actions s.tables t.tables)
        (insert_actions db p.id 1 o.actions s) _ (insert_actions-Gains p.id 1 o.actions s)
        (λ _ t (keyed, e).
          Returns-continue R
            (λ _ u.
              u.tables
              ≡ record t.tables { audit_log = t.tables.audit_log ++ creation_row o p ∷ [] })
            (write_audit db (creation_row o p) t) _
            (write-Returns db (λ x. record x { audit_log = x.audit_log ++ creation_row o p ∷ [] })
              t)
            (λ _ u f.
              Returns-continue R
                (λ _ v.
                  (v.tables.plans ≡ u.tables.plans)
                  × (v.tables.approvals ≡ u.tables.approvals)
                  × (v.tables.audit_log ≡ u.tables.audit_log)
                  × (v.tables.plan_actions ≡ u.tables.plan_actions))
                (notify db o.created_by o.incident_id (some "PLAN_GENERATED") u) _
                (notify-Governs db o.created_by o.incident_id (some "PLAN_GENERATED") u)
                (λ _ v g. (
                  simp (g.0, f, e.0, a),
                  b,
                  simp (g.1, f, e.1, c),
                  simp (g.2, f, e.2, d),
                  keyed,
                  simp (g.3, f, e.3, acts),
                ))))

  -- A creation that commits adds one plan in the state SIMULATED, a row for each of the actions, in
  -- their order and each with its key, one audit entry and no ruling; one that raises leaves every
  -- table as it was.
  pub create_plan-Commits :
      (o : Proposal) (s : Session) → Commits db s.tables (Created o s.tables) (create_plan db o s)
  unfolding create_plan next_plan_ref
  create_plan-Commits o s =
      let R = Makes o s.tables in
      transaction-Commits db (Created o s.tables)
        (do plan_ref ← next_plan_ref db; p ← insert_plan db o plan_ref; record_creation db o p) s
        (Returns-continue R (λ _ t. t.tables ≡ s.tables) (next_plan_ref db s) _
          (statement-Returns db (λ _ t. t.tables ≡ s.tables)
            (λ t. db.reference (max_id t.plans + 1)) (λ t. t) s (λ t e. e))
          (λ ref t e.
            Returns-continue R (Inserted s.tables) (insert_plan db o ref t) _
              (insert_plan-Inserted o ref s.tables t e)
              (λ p u h.
                record_creation-Returns o p s.tables u (ap (λ (x : Tables). x.plans) h.1) h.0
                  (ap (λ (x : Tables). x.approvals) h.1) (ap (λ (x : Tables). x.audit_log) h.1)
                  (ap (λ (x : Tables). x.plan_actions) h.1))))

  create_plan-IsAuthorised :
      (o : Proposal) (s : Session)
      → IsAuthorised s.tables
      → IsAuthorised (create_plan db o s).1.tables
  create_plan-IsAuthorised o s a = from_commit (create_plan db o s) (create_plan-Commits o s)
    where
      from_commit :
          (m : Result Plan × Session)
          → Commits db s.tables (Created o s.tables) m
          → IsAuthorised m.1.tables
      from_commit (ok p, t) h =
          rw (h.0, h.2)
            (All-append (IsGranted s.tables.approvals) s.tables.plans (p ∷ []) a
              ((λ g. absurd (ground (arith, g, ap governed h.1, governed_simulated))), tt))
      from_commit (raise e, t) h = rw h a

  -- The calls in their order; a call that raises leaves the session to the next one.
  abbrev pub run_calls : List Call → Session → Session
  run_calls [] s = s
  run_calls (create_call o ∷ cs) s = run_calls cs (create_plan db o s).1
  run_calls (transition_call o ∷ cs) s = run_calls cs (transition_plan db o s).1

  -- Every history of calls of the store, whichever statements the server refuses, keeps this: for
  -- each plan that is approved, executing, completed, measured or learned there is a ruling in the
  -- approvals, and the latest one on that plan is not a rejection.
  pub run_calls-IsAuthorised :
      (cs : List Call) (s : Session) → IsAuthorised s.tables → IsAuthorised (run_calls cs s).tables
  run_calls-IsAuthorised [] s a = a
  run_calls-IsAuthorised (create_call o ∷ cs) s a =
      run_calls-IsAuthorised cs (create_plan db o s).1 (create_plan-IsAuthorised o s a)
  run_calls-IsAuthorised (transition_call o ∷ cs) s a =
      run_calls-IsAuthorised cs (transition_plan db o s).1 (transition_plan-IsAuthorised db o s a)
