-- ===== src/Repair/Ranking.antt =====
-- The order and the bounds of the hypotheses of a diagnosis.
use native.Mathlib.Nat.{mul-le-mul_left}
use crucible_ai.Prelude.{
  All, Bool-cases, List, [], arith, inl, inr, ltb, refl, some, suc, ℕ, ◌*◌, ◌-◌, ◌/◌, ◌∷◌, ◌≡◌, ◌≤◌,
}
use crucible_ai.Pipeline.Model.{PipelineExecution}
use crucible_ai.Fault.Model.{FaultReport, FaultLocalization, FaultType}
use crucible_ai.Fault.Localizer.{NodeEvent}
use crucible_ai.Repair.RootCause.{
  HypothesisCategory, RootCauseHypothesis, RootCauseReport, fault_to_hypothesis, top_hypothesis,
  primary_confidence, secondary_confidence, secondaries, insert_ranked, sort_ranked, report_of,
  analyze, base_confidence, hypothesis, secondary_hypotheses,
}

-- No hypothesis of the list is more confident than a bound.
abbrev AtMost : ℕ → RootCauseHypothesis → Type 0
AtMost n h = h.confidence ≤ n

abbrev pub IsRanked : List RootCauseHypothesis → Type 0
IsRanked [] = Unit
IsRanked (h ∷ hs) = All (AtMost h.confidence) hs × IsRanked hs

-- Between 0.05 and 0.95
abbrev pub IsBounded : RootCauseHypothesis → Type 0
IsBounded h = (50 ≤ h.confidence) × (h.confidence ≤ 950)

insert-All :
    (P : RootCauseHypothesis → Type 0) (h : RootCauseHypothesis) (hs : List RootCauseHypothesis)
    → P h
    → All P hs
    → All P (insert_ranked h hs)
unfolding insert_ranked
insert-All P h [] p a = (p, tt)
insert-All P h (k ∷ ks) p a = elim (Bool-cases (ltb h.confidence k.confidence)) [
  | inl q ↦ rw q (a.0, insert-All P h ks p a.1)
  | inr q ↦ rw q (p, a)
]

AtMost-mono :
    (m n : ℕ) (hs : List RootCauseHypothesis) → m ≤ n → All (AtMost m) hs → All (AtMost n) hs
AtMost-mono m n [] h a = tt
AtMost-mono m n (k ∷ ks) h a = (omega (arith, a.0), AtMost-mono m n ks h a.1)

insert-IsRanked :
    (h : RootCauseHypothesis) (hs : List RootCauseHypothesis)
    → IsRanked hs
    → IsRanked (insert_ranked h hs)
unfolding insert_ranked
insert-IsRanked h [] r = (tt, tt)
insert-IsRanked h (k ∷ ks) r = elim (Bool-cases (ltb h.confidence k.confidence)) [
  | inl q ↦
      rw q (insert-All (AtMost k.confidence) h ks (ground arith) r.0, insert-IsRanked h ks r.1)
  | inr q ↦ rw q ((ground arith, AtMost-mono k.confidence h.confidence ks (ground arith) r.0), r)
]

sort-IsRanked : (hs : List RootCauseHypothesis) → IsRanked (sort_ranked hs)
unfolding sort_ranked
sort-IsRanked [] = tt
sort-IsRanked (h ∷ hs) = insert-IsRanked h (sort_ranked hs) (sort-IsRanked hs)

sort-All :
    (P : RootCauseHypothesis → Type 0) (hs : List RootCauseHypothesis)
    → All P hs
    → All P (sort_ranked hs)
unfolding sort_ranked
sort-All P [] a = tt
sort-All P (h ∷ hs) a = insert-All P h (sort_ranked hs) a.0 (sort-All P hs a.1)

-- A hypothesis that none exceeds is put first.
insert-first :
    (h : RootCauseHypothesis) (hs : List RootCauseHypothesis)
    → All (AtMost h.confidence) hs
    → insert_ranked h hs ≡ h ∷ hs
unfolding insert_ranked
insert-first h [] a = refl
insert-first h (k ∷ ks) a = elim (Bool-cases (ltb h.confidence k.confidence)) [
  | inl q ↦ absurd (ground (arith, a.0))
  | inr q ↦ rw q refl
]

scaled_le : (p i : ℕ) → p * (6 - i) / 10 ≤ p
scaled_le p i = omega (arith, mul-le-mul_left {m = 6 - i} {n = 10} p (omega arith))

secondary_bounds :
    (p i : ℕ) → 50 ≤ p → p ≤ 950 → (50 ≤ secondary_confidence p i) × (secondary_confidence p i ≤ p)
unfolding secondary_confidence
secondary_bounds p i h k = let b = scaled_le p i in ground (arith, b)

base_bounds : (t : FaultType) → 400 ≤ base_confidence t
unfolding base_confidence
base_bounds t = ground arith

primary_bounds :
    (f : FaultReport) (l : FaultLocalization) (events : List NodeEvent)
    → (400 ≤ primary_confidence f l events) × (primary_confidence f l events ≤ 950)
unfolding primary_confidence
primary_bounds f l events = ground (arith, base_bounds f.fault_type)

secondaries-AtMost :
    (p i : ℕ) (cs : List HypothesisCategory)
    → 50 ≤ p
    → p ≤ 950
    → All (AtMost p) (secondaries p i cs) × All IsBounded (secondaries p i cs)
unfolding secondaries
secondaries-AtMost p i [] h k = (tt, tt)
secondaries-AtMost p i (c ∷ cs) h k =
    let b = secondary_bounds p i h k in
    let (m, n) = secondaries-AtMost p (suc i) cs h k in ((b.1, m), ((b.0, omega (arith, b.1)), n))

abbrev pub Leads : HypothesisCategory → RootCauseReport → RootCauseHypothesis → Type 0
Leads c r h = (top_hypothesis r ≡ some h) × (h.category ≡ c) × (h.confidence ≡ r.confidence)

-- A diagnosis ranks its hypotheses by falling confidence, all of them between 0.05 and 0.95, and the
-- first is the one that the fault type stands for; its confidence is that of the report.
pub analyze-IsRanked :
    (e : PipelineExecution) (f : FaultReport) (l : FaultLocalization) (events : List NodeEvent)
    → IsRanked (analyze e f l events).hypotheses
      × All IsBounded (analyze e f l events).hypotheses
      × ((h : RootCauseHypothesis) × Leads
            (fault_to_hypothesis f.fault_type)
            (analyze e f l events)
            h)
unfolding analyze report_of top_hypothesis
analyze-IsRanked e f l events =
    let p = primary_confidence f l events in
    let b = primary_bounds f l events in
    let first = hypothesis (fault_to_hypothesis f.fault_type) p in
    let others = secondaries p 0 (secondary_hypotheses f.fault_type) in
    let (least, within) =
      secondaries-AtMost p 0 (secondary_hypotheses f.fault_type) (omega (arith, b.0)) b.1 in
    (
      sort-IsRanked (first ∷ others),
      sort-All IsBounded (first ∷ others) ((omega (arith, b.0), b.1), within),
      rw (insert-first first (sort_ranked others) (sort-All (AtMost p) others least))
          (first, (refl, refl, refl)),
    )
