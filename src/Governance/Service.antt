-- ===== src/Governance/Service.antt =====
-- What the decision store does for a call that is in order.
use crucible_ai.Prelude.{
  Bool-cases, List, Option, String, [], inl, inr, keep, map, none, refl, some, true, ℕ, ◌++◌, ◌∷◌,
  ◌≡◌,
}
use crucible_ai.Pipeline.Runtime.{Result, ok, raise, Delivers, Exec, continue}
use crucible_ai.Governance.Lifecycle.{LifecycleState, value, parse, can_transition}
use crucible_ai.Governance.Store.{
  Plan, Tables, Database, Session, statement, finish, transaction, write_audit,
}
use crucible_ai.Governance.Plans.{
  Order, Receipt, has_id, is_ruling, record_ruling, notify, apply, guard, with_first, select_plan,
  transition_plan, audit_row, incident_event, set_state,
}

module _ (db : Database) (serves : (n : ℕ) → db.succeeds n ≡ true) where
  Delivers-continue :
      {A B : Type 0} (P : B → Session → Type 0) (Q : A → Session → Type 0) (m : Result A × Session)
      (f : A → Exec Session B)
      → Delivers Q m
      → ((a : A) (t : Session) → Q a t → Delivers P (f a t))
      → Delivers P (continue m f)
  Delivers-continue P Q (ok a, t) f h k = k a t h
  Delivers-continue P Q (raise e, t) f h k = absurd h

  abbrev Done : {A : Type 0} → A → Session → Type 0
  Done a t = Unit

  statement-Delivers :
      {A : Type 0} (P : A → Session → Type 0) (read : Tables → A) (write : Tables → Tables)
      (s : Session)
      → ((t : Session) → P (read s.tables) t)
      → Delivers P (statement db read write s)
  unfolding statement
  statement-Delivers P read write s h = rw (serves s.statements) (h _)

  record_ruling-Delivers : (o : Order) (s : Session) → Delivers Done (record_ruling db o s)
  unfolding record_ruling
  record_ruling-Delivers o s = elim (Bool-cases (is_ruling o.target)) [
    | inl p ↦ rw (p, serves s.statements) tt
    | inr p ↦ rw p tt
  ]

  notify-Delivers :
      (actor : String) (incident : Option ℕ) (event : Option String) (s : Session)
      → Delivers Done (notify db actor incident event s)
  unfolding notify
  notify-Delivers actor (some i) (some e) s = rw (serves s.statements) tt
  notify-Delivers actor (some i) none s = tt
  notify-Delivers actor none e s = tt

  abbrev pub Served : Order → Plan → LifecycleState → Receipt → Session → Type 0
  Served o p c r t =
      (r.plan_id ≡ o.plan_id)
      × (r.plan_ref ≡ p.plan_ref)
      × (r.from_state ≡ value c)
      × (r.to_state ≡ value o.target)

  apply-Served :
      (o : Order) (p : Plan) (c : LifecycleState) (s : Session)
      → Delivers (Served o p c) (apply db o p c s)
  unfolding apply write_audit
  apply-Served o p c s =
      let R = Served o p c in
      Delivers-continue R Done
        (statement db (λ _. tt)
          (λ t. record t { plans = map (set_state o.plan_id o.target) t.plans }) s)
        _
        (statement-Delivers Done (λ _. tt)
          (λ t. record t { plans = map (set_state o.plan_id o.target) t.plans }) s (λ _. tt))
        (λ _ t _.
          Delivers-continue R Done (record_ruling db o t) _ (record_ruling-Delivers o t) (λ _ u _.
            Delivers-continue R Done (write_audit db (audit_row o p c) u) _
              (statement-Delivers Done (λ _. tt)
                (λ x. record x { audit_log = x.audit_log ++ audit_row o p c ∷ [] }) u (λ _. tt))
              (λ _ v _.
                Delivers-continue R Done
                  (notify db o.actor_id p.incident_id (incident_event o.target) v) _
                  (notify-Delivers o.actor_id p.incident_id (incident_event o.target) v)
                  (λ _ _ _. (refl, refl, refl, refl)))))

  finish-Delivers :
      {A : Type 0} (P : A → Session → Type 0) (before : Tables) (m : Result A × Session)
      → ((a : A) (t u : Session) → P a t → P a u)
      → Delivers P m
      → Delivers P (finish db before m)
  unfolding finish
  finish-Delivers P before (ok a, t) k h = rw (serves t.statements) (k a t _ h)
  finish-Delivers P before (raise e, t) k h = absurd h

  -- Where the server serves every statement, and the first row with the identifier is in a state of
  -- the lifecycle that has an edge to the target, the transition returns its receipt.
  pub transition_plan-Served :
      (o : Order) (p : Plan) (ps : List Plan) (c : LifecycleState) (s : Session)
      → keep (has_id o.plan_id) s.tables.plans ≡ p ∷ ps
      → parse p.lifecycle_state ≡ some c
      → can_transition c o.target ≡ true
      → Delivers (Served o p c) (transition_plan db o s)
  unfolding transition_plan transaction select_plan with_first guard statement
  transition_plan-Served o p ps c s found parsed permitted =
      finish-Delivers (Served o p c) s.tables _ (λ a t u h. h)
        (rw (serves s.statements)
          (rw (found, with_first) (rw (parsed, guard) (rw permitted (apply-Served o p c _)))))
