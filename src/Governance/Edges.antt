-- ===== src/Governance/Edges.antt =====
-- The edges of the lifecycle that lead behind an approval.
use mathlib.Core.Option.{some_inj}
use mathlib.Core.Path.{subst}
use crucible_ai.Prelude.{
  All, Bool, Bool-cases, List, Option, String, [], any, ap, arith, eq_iff, false, inl, inr, none,
  not, refl, some, sym, true, ◌==◌, ◌||◌, ◌∙◌, ◌∷◌, ◌≡◌,
}
use crucible_ai.Governance.Lifecycle.{
  LifecycleState, draft, simulated, ready_for_review, approved, rejected, executing, completed,
  measured, learned, value, parse, can_transition, transitions,
}

-- The states that lie behind an approval.
abbrev pub is_governed : LifecycleState → Bool
is_governed approved = true
is_governed executing = true
is_governed completed = true
is_governed measured = true
is_governed learned = true
is_governed _ = false

abbrev pub governed_state : Option LifecycleState → Bool
governed_state none = false
governed_state (some c) = is_governed c

abbrev pub governed : String → Bool
governed text = governed_state (parse text)

pub parse-value : (c : LifecycleState) → parse (value c) ≡ some c
unfolding parse value
parse-value draft = refl
parse-value simulated = refl
parse-value ready_for_review = refl
parse-value approved = refl
parse-value rejected = refl
parse-value executing = refl
parse-value completed = refl
parse-value measured = refl
parse-value learned = refl

pub value-injective : (c d : LifecycleState) → (value c == value d) ≡ true → c ≡ d
value-injective c d h =
    (some_inj).0
      (sym (parse-value c) ∙ (ap parse ((eq_iff (value c) (value d)).0 h) ∙ parse-value d))

abbrev pub is_approved : LifecycleState → Bool
is_approved approved = true
is_approved _ = false

-- An edge into a governed state starts in one, or is the approval.
abbrev pub lawful : LifecycleState → LifecycleState → Bool
lawful c target = not (is_governed target) || (is_approved target || is_governed c)

transitions-lawful : (c : LifecycleState) → All (λ s. lawful c s ≡ true) (transitions c)
unfolding transitions
transitions-lawful draft = (refl, (refl, tt))
transitions-lawful simulated = (refl, (refl, (refl, tt)))
transitions-lawful ready_for_review = (refl, (refl, (refl, tt)))
transitions-lawful approved = (refl, (refl, tt))
transitions-lawful rejected = (refl, tt)
transitions-lawful executing = (refl, tt)
transitions-lawful completed = (refl, tt)
transitions-lawful measured = (refl, tt)
transitions-lawful learned = tt

listed-All :
    (P : LifecycleState → Type 0) (target : LifecycleState) (xs : List LifecycleState)
    → any (λ s. value s == value target) xs ≡ true
    → All P xs
    → P target
listed-All P target [] h a = absurd (ground arith)
listed-All P target (x ∷ xs) h a = elim (Bool-cases (value x == value target)) [
  | inl q ↦ subst P (value-injective x target q) a.0
  | inr q ↦ listed-All P target xs (ground arith) a.1
]

pub can_transition-lawful :
    (c target : LifecycleState) → can_transition c target ≡ true → lawful c target ≡ true
unfolding can_transition
can_transition-lawful c target h =
    listed-All (λ s. lawful c s ≡ true) target (transitions c) h (transitions-lawful c)

pub governed-value : (c : LifecycleState) → governed (value c) ≡ is_governed c
governed-value c = ap governed_state (parse-value c)

pub governed_simulated : governed "SIMULATED" ≡ false
unfolding value
governed_simulated = governed-value simulated
