-- ===== src/Governance/Approvals.antt =====
-- The approvals behind the states of the plans (gov.decision_approvals and gov.response_plans).
use mathlib.Core.List.{head-eq_of_cons-eq}
use mathlib.Core.Path.{subst}
use crucible_ai.Prelude.{
  All, Bool, Bool-cases, List, [], ap, arith, false, if◌then◌else◌, inl, inr, keep, map, not, refl,
  sym, true, ℕ, ◌++◌, ◌==◌, ◌∙◌, ◌∷◌, ◌≡◌,
}
use crucible_ai.Governance.Lifecycle.{LifecycleState, approved, value}
use crucible_ai.Governance.Store.{Plan, Approval, Tables, Database, Session}
use crucible_ai.Pipeline.Runtime.{Result, ok, raise}
use crucible_ai.Governance.Effects.{
  Commits, IsMoved, rulings, Transitioned, transition_plan-Commits,
}
use crucible_ai.Governance.Plans.{
  is_ruling, same_id, Order, set_state, approval_row, has_id, Receipt, transition_plan,
}
use crucible_ai.Governance.Edges.{
  is_governed, governed, is_approved, governed-value, can_transition-lawful,
}

-- Whether the latest ruling on a plan is not a rejection, from what held before.
abbrev latest : ℕ → Bool → List Approval → Bool
latest id before [] = before
latest id before (a ∷ rest) =
    latest id (if same_id a.plan_id id then not (a.decision == "REJECTED") else before) rest

abbrev pub granted : ℕ → List Approval → Bool
granted id approvals = latest id false approvals

abbrev pub IsGranted : List Approval → Plan → Type 0
IsGranted approvals p = governed p.lifecycle_state ≡ true → granted p.id approvals ≡ true

-- Every plan in such a state has a ruling, the latest of which is not a rejection.
abbrev pub IsAuthorised : Tables → Type 0
IsAuthorised t = All (IsGranted t.approvals) t.plans

same_id-eq : (a b : ℕ) → same_id a b ≡ true → a ≡ b
same_id-eq a b h = ground arith

same_id_swap : (a b : ℕ) → same_id a b ≡ false → same_id b a ≡ false
same_id_swap a b h = ground arith

same_id_refl : (a : ℕ) → same_id a a ≡ true
same_id_refl a = ground arith

latest-append :
    (id : ℕ) (b : Bool) (xs ys : List Approval)
    → latest id b (xs ++ ys) ≡ latest id (latest id b xs) ys
latest-append id b [] ys = refl
latest-append id b (x ∷ xs) ys =
    latest-append id (if same_id x.plan_id id then not (x.decision == "REJECTED") else b) xs ys

latest-approval :
    (o : Order) (b : Bool) → o.target ≡ approved → latest o.plan_id b (rulings o) ≡ true
unfolding approval_row value
latest-approval o b h =
    rw (h, same_id_refl o.plan_id)
      (elim (Bool-cases o.modified) [ inl p ↦ rw p refl | inr p ↦ rw p refl ])

latest-unruled :
    (o : Order) (id : ℕ) (b : Bool) → is_ruling o.target ≡ false → latest id b (rulings o) ≡ b
latest-unruled o id b h = rw h refl

latest-other :
    (o : Order) (id : ℕ) (b : Bool) → same_id o.plan_id id ≡ false → latest id b (rulings o) ≡ b
unfolding approval_row
latest-other o id b h = elim (Bool-cases (is_ruling o.target)) [
  | inl p ↦ rw p (rw h refl)
  | inr p ↦ latest-unruled o id b p
]

unruled : (c : LifecycleState) → is_governed c ≡ true → is_approved c ≡ false → is_ruling c ≡ false
unruled c h q = ground arith

-- What a transition leaves: the plans with its identifier have a grant where they need one.
order-granted :
    (o : Order) (p : Plan) (c : LifecycleState) (before after : Tables)
    → IsMoved o p c before after
    → p.id ≡ o.plan_id
    → IsGranted before.approvals p
    → is_governed o.target ≡ true
    → granted o.plan_id after.approvals ≡ true
order-granted o p c before after m e g h =
    ap (granted o.plan_id) m.approvals
    ∙ (latest-append o.plan_id false before.approvals (rulings o)
        ∙ elim (Bool-cases (is_approved o.target)) [
          | inl q ↦ latest-approval o _ (ground (arith, q))
          | inr q ↦
              latest-unruled o o.plan_id _ (unruled o.target h q)
              ∙ (ap (λ id. granted id before.approvals) (sym e)
                  ∙ g (
                      rw m.parsed (
                        let l = can_transition-lawful c o.target m.permitted in
                        ground (arith, l, q, h))))
        ])

-- A plan with another identifier keeps its grant.
other-granted :
    (o : Order) (p q : Plan) (c : LifecycleState) (before after : Tables)
    → IsMoved o p c before after
    → has_id o.plan_id q ≡ false
    → granted q.id before.approvals ≡ true
    → granted q.id after.approvals ≡ true
other-granted o p q c before after m h g =
    ap (granted q.id) m.approvals
    ∙ (latest-append q.id false before.approvals (rulings o)
        ∙ (latest-other o q.id _ (same_id_swap q.id o.plan_id h) ∙ g))

set_state-IsGranted :
    (id : ℕ) (target : LifecycleState) (old new : List Approval) (p : Plan)
    → IsGranted old p
    → (has_id id p ≡ false → granted p.id old ≡ true → granted p.id new ≡ true)
    → (is_governed target ≡ true → granted id new ≡ true)
    → IsGranted new (set_state id target p)
set_state-IsGranted id target old new p g mono h = elim (Bool-cases (has_id id p)) [
  | inl q ↦ rw q (λ b. rw (same_id-eq p.id id q) (h (sym (governed-value target) ∙ b)))
  | inr q ↦ rw q (λ b. mono q (g b))
]

skipped :
    (id : ℕ) (x : Plan) (xs : List Plan)
    → has_id id x ≡ false
    → keep (has_id id) (x ∷ xs) ≡ keep (has_id id) xs
skipped id x xs q = rw q refl

first_is :
    (id : ℕ) (x p : Plan) (xs ps : List Plan)
    → has_id id x ≡ true
    → keep (has_id id) (x ∷ xs) ≡ p ∷ ps
    → x ≡ p
first_is id x p xs ps q e =
    head-eq_of_cons-eq
      (sym (ap (λ b. if b then x ∷ keep (has_id id) xs else keep (has_id id) xs) q) ∙ e)

-- The first row of a selection is one of the table's rows.
keep-first :
    (P : Plan → Type 0) (id : ℕ) (plans : List Plan) (p : Plan) (ps : List Plan)
    → keep (has_id id) plans ≡ p ∷ ps
    → All P plans
    → P p × (p.id ≡ id)
keep-first P id [] p ps e a = absurd (ground arith)
keep-first P id (x ∷ xs) p ps e a = elim (Bool-cases (has_id id x)) [
  | inl q ↦
      let same : x ≡ p = first_is id x p xs ps q e in
      (subst P same a.0, subst (λ (y : Plan). y.id ≡ id) same (same_id-eq x.id id q))
  | inr q ↦ keep-first P id xs p ps (sym (skipped id x xs q) ∙ e) a.1
]

All-set_state :
    (o : Order) (old new : List Approval) (plans : List Plan)
    → ((p : Plan) → has_id o.plan_id p ≡ false → granted p.id old ≡ true → granted p.id new ≡ true)
    → (is_governed o.target ≡ true → granted o.plan_id new ≡ true)
    → All (IsGranted old) plans
    → All (IsGranted new) (map (set_state o.plan_id o.target) plans)
All-set_state o old new [] mono h a = tt
All-set_state o old new (p ∷ ps) mono h a = (
  set_state-IsGranted o.plan_id o.target old new p a.0 (mono p) h,
  All-set_state o old new ps mono h a.1,
)

Transitioned-IsAuthorised :
    (db : Database) (o : Order) (before after : Tables) (r : Receipt)
    → IsAuthorised before
    → Transitioned db o before r after
    → IsAuthorised after
Transitioned-IsAuthorised db o before after r a (p, c, ps, e, m, _) =
    let (g, same) = keep-first (IsGranted before.approvals) o.plan_id before.plans p ps e a in
    rw m.plans (
      All-set_state o before.approvals after.approvals before.plans
        (λ q h g'. other-granted o p q c before after m h g')
        (order-granted o p c before after m same g) a)

-- Whether or not it commits, a transition keeps every approved, executing, completed, measured and
-- learned plan backed by the latest ruling on that plan, which is not a rejection.
pub transition_plan-IsAuthorised :
    (db : Database) (o : Order) (s : Session)
    → IsAuthorised s.tables
    → IsAuthorised (transition_plan db o s).1.tables
transition_plan-IsAuthorised db o s a =
    from_commit (transition_plan db o s) (transition_plan-Commits db o s)
  where
    from_commit :
        (m : Result Receipt × Session)
        → Commits db s.tables (Transitioned db o s.tables) m
        → IsAuthorised m.1.tables
    from_commit (ok r, t) h = Transitioned-IsAuthorised db o s.tables t.tables r a h
    from_commit (raise e, t) h = rw h a
