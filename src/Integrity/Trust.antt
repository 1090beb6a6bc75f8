-- ===== src/Integrity/Trust.antt =====
-- Which checkpoint is selected as a target of recovery.
use mathlib.Core.Path.{subst}
use crucible_ai.Pipeline.Model.{Checkpoint}
use crucible_ai.Integrity.Checker.{is_trusted, select_trusted_checkpoint}
use crucible_ai.Pipeline.Checkpoints.{newest_from, newest}
use crucible_ai.Prelude.{
  All, Bool, Bool-cases, List, Option, [], arith, if_split, if◌then◌else◌, inl, inr, keep, ltb,
  none, refl, some, sym, true, ◌∷◌, ◌≡◌, ◌≤◌,
}

-- No trusted checkpoint of the list is newer.
abbrev Newest : Checkpoint → List Checkpoint → Type 0
Newest c cs = All (λ (k : Checkpoint). k.created_at ≤ c.created_at) cs

abbrev pub Selected : List Checkpoint → Option Checkpoint → Type 0
Selected cs none = keep is_trusted cs ≡ []
Selected cs (some c) = (is_trusted c ≡ true) × Newest c (keep is_trusted cs)

abbrev later_of : Checkpoint → Checkpoint → Checkpoint
later_of b c = if ltb b.created_at c.created_at then c else b

later_most :
    (b c : Checkpoint)
    → (b.created_at ≤ (later_of b c).created_at) × (c.created_at ≤ (later_of b c).created_at)
later_most b c =
    if_split (λ (x : Checkpoint). (b.created_at ≤ x.created_at) × (c.created_at ≤ x.created_at))
      (ltb b.created_at c.created_at) (λ q. (ground (arith, q), omega arith))
      (λ q. (omega arith, ground (arith, q)))

newest_from-Newest :
    (b : Checkpoint) (cs : List Checkpoint)
    → (b.created_at ≤ (newest_from b cs).created_at) × Newest (newest_from b cs) cs
unfolding newest_from
newest_from-Newest b [] = (omega arith, tt)
newest_from-Newest b (c ∷ cs) =
    let (p, n) = newest_from-Newest (later_of b c) cs in
    let (l, r) = later_most b c in (omega (arith, p, l), (omega (arith, p, r), n))

newest_from-All :
    (P : Checkpoint → Type 0) (b : Checkpoint) (cs : List Checkpoint)
    → P b
    → All P cs
    → P (newest_from b cs)
unfolding newest_from
newest_from-All P b [] p a = p
newest_from-All P b (c ∷ cs) p a = elim (Bool-cases (ltb b.created_at c.created_at)) [
  | inl q ↦ rw q (newest_from-All P c cs a.0 a.1)
  | inr q ↦ rw q (newest_from-All P b cs p a.1)
]

keep-All : (p : Checkpoint → Bool) (cs : List Checkpoint) → All (λ c. p c ≡ true) (keep p cs)
keep-All p [] = tt
keep-All p (c ∷ cs) = elim (Bool-cases (p c)) [
  | inl q ↦ rw q (q, keep-All p cs)
  | inr q ↦ rw q (keep-All p cs)
]

newest-Selected :
    (ts : List Checkpoint)
    → All (λ c. is_trusted c ≡ true) ts
    → (cs : List Checkpoint) → keep is_trusted cs ≡ ts
    → Selected cs (newest ts)
unfolding newest
newest-Selected [] a cs e = e
newest-Selected (t ∷ ts) a cs e =
    let (p, n) = newest_from-Newest t ts in
    (
      newest_from-All (λ c. is_trusted c ≡ true) t ts a.0 a.1,
      subst (Newest (newest_from t ts)) (sym e) (p, n),
    )

-- The selected checkpoint is trusted and no trusted candidate is newer; none is selected only where
-- no candidate is trusted.
pub select_trusted_checkpoint-Selected :
    (cs : List Checkpoint) → Selected cs (select_trusted_checkpoint cs)
unfolding select_trusted_checkpoint
select_trusted_checkpoint-Selected cs =
    newest-Selected (keep is_trusted cs) (keep-All is_trusted cs) cs refl
