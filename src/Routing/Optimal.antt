-- ===== src/Routing/Optimal.antt =====
-- What `astar` returns.
use crucible_ai.Routing.Search.{
  Verdict, Query, astar, first_search, goal_reached, goal_blocked, h, no_route, search_from,
  start_blocked, unfinished, unreachable,
}
use crucible_ai.Routing.Grid.{cell-index, index-bound}
use crucible_ai.Routing.Heap.{put_here}
use crucible_ai.Routing.Heuristic.{IsMetric, IsPlaced, metric-Descends}
use crucible_ai.Routing.Invariant.{IsSound, origin}
use crucible_ai.Routing.Improving.{put_cases}
use crucible_ai.Routing.Loop.{IsGiven, cells_of, search_from-Given, target}
use crucible_ai.Routing.Termination.{search_from_finished, unclosed}
use crucible_ai.Routing.Ways.{Way, h_at, root}
use crucible_ai.Prelude.{
  Bool-cases, List, [], ap, arith, false, inl, inr, none, refl, some, suc, true, zero, ℕ, ◌*◌, ◌+◌,
  ◌∷◌, ◌≡◌, ◌≢◌, ◌≤◌,
}

-- A way to the goal of at most the given cost was found.
abbrev pub Reaches : Query → ℕ → Verdict → Type 0
Reaches q c (goal_reached r) =
    (d : ℕ) × (us : List ℕ) × Way q (target q) d us × (r.cells ≡ cells_of q us) × (d ≤ c)
Reaches q c (no_route e) = ⊥
Reaches q c unfinished = ⊥

-- What each outcome says of the ways to the goal: a route is one between cells that are not blocked,
-- and if there is said to be none, there is none.
abbrev pub Settles : Query → Verdict → Type 0
Settles q (goal_reached r) =
    (q.surface.blocked q.start ≡ false)
    × (q.surface.blocked q.goal ≡ false)
    × (d : ℕ) × (us : List ℕ) × Way q (target q) d us
    × (r.cells ≡ cells_of q us)
Settles q (no_route start_blocked) = q.surface.blocked q.start ≡ true
Settles q (no_route goal_blocked) = q.surface.blocked q.goal ≡ true
Settles q (no_route unreachable) = ¬ ((d : ℕ) × (us : List ℕ) × Way q (target q) d us)
Settles q unfinished = ⊥

first-priority : {q : Query} → IsPlaced q → h_at q (origin q) ≡ h q q.start
first-priority {q} pl = ap (h q) (cell-index q.surface.n q.start pl.start_inside.1)

zero_add : (k : ℕ) → 0 + k ≡ k
zero_add k = omega arith

first-IsSound : {q : Query} → IsPlaced q → IsSound q (first_search q) 0 []
unfolding first_search
first-IsSound {q} pl = record {
  start_score = put_here (origin q) (some 0) (λ _. none);
  trails = λ v d g. elim (put_cases (origin q) 0 (λ _. none) v d g) [
    | inl (e, z) ↦ rw (e, z) (origin q ∷ [], root refl, omega arith)
    | inr (n, z) ↦ absurd (cc z)
  ];
  queued = λ v d o g. elim (put_cases (origin q) 0 (λ _. none) v d g) [
    | inl (e, z) ↦
        rw (e, z, first-priority pl) (inl (ap (λ x. (x, origin q)) (zero_add (h q q.start))))
    | inr (n, z) ↦ absurd (cc z)
  ];
  priced =
      ((0, put_here (origin q) (some 0) (λ _. none), rw (first-priority pl) (omega arith)), tt);
  closed_least = λ v c us o w. absurd (cc o);
  relaxed = λ x v w o l. absurd (cc o);
}

unclosed-none : (n : ℕ) → unclosed (λ _. false) n ≡ n
unclosed-none zero = refl
unclosed-none (suc n) = omega (arith, unclosed-none n)

enough :
    {q : Query}
    → IsPlaced q
    → search_from q (9 * (q.surface.n * q.surface.n) + 2) (first_search q) ≢ unfinished
unfolding first_search
enough {q} pl =
    search_from_finished q (9 * (q.surface.n * q.surface.n) + 2) (first_search q)
      (index-bound q.surface.n q.start pl.start_inside.0 pl.start_inside.1, tt)
      (omega (arith, unclosed-none (q.surface.n * q.surface.n)))

-- The search of two cells of the grid never runs out of its fuel.
pub astar_finished : (q : Query) → IsPlaced q → astar q ≢ unfinished
unfolding astar
astar_finished q pl = elim (Bool-cases (q.surface.blocked q.start)) [
  | inl e ↦ rw e (λ z. absurd (cc z))
  | inr e ↦ rw e (elim (Bool-cases (q.surface.blocked q.goal)) [
    | inl k ↦ rw k (λ z. absurd (cc z))
    | inr k ↦ rw k (enough pl)
  ])
]

search-Given :
    (q : Query) (P : Verdict → Type 0)
    → IsPlaced q
    → IsMetric q
    → q.surface.blocked q.start ≡ false
    → IsGiven q P
    → P (search_from q (9 * (q.surface.n * q.surface.n) + 2) (first_search q))
unfolding first_search
search-Given q P pl mt o gv =
    elim (search_from-Given (metric-Descends pl o mt) gv (9 * (q.surface.n * q.surface.n) + 2)
      (first_search q) 0 (first-IsSound pl) refl) [ inl z ↦ absurd (enough pl z) | inr p ↦ p ]

-- Where the cells cost at least `alpha_distance` a kilometre and no edge gains more of the distance to
-- the goal than it is long (`IsMetric`), the start and the goal are not blocked, and there is a way
-- between them over cells that are not blocked, `astar` returns a route that is such a way and costs
-- no more.
pub astar-Reaches :
    (q : Query) (c : ℕ) (us : List ℕ)
    → IsPlaced q
    → IsMetric q
    → q.surface.blocked q.start ≡ false
    → q.surface.blocked q.goal ≡ false
    → Way q (target q) c us
    → Reaches q c (astar q)
unfolding astar
astar-Reaches q c us pl mt o g w =
    rw (o, g)
      (search-Given q (Reaches q c) pl mt o (record {
        on_found = λ r d vs v e f. (d, vs, v, e, f c us w);
        on_unreachable = λ f. f c us w;
      }))

-- Where the distances are as `IsMetric` says: a route that `astar` returns is a way from the start to
-- the goal over cells that are not blocked, the two included; it gives the start or the goal as the
-- reason only where that cell is blocked, and says that the goal is unreachable only where there is
-- no way; it gives no other answer.
pub astar-Settles : (q : Query) → IsPlaced q → IsMetric q → Settles q (astar q)
unfolding astar
astar-Settles q pl mt = elim (Bool-cases (q.surface.blocked q.start)) [
  | inl e ↦ rw e e
  | inr e ↦ rw e (elim (Bool-cases (q.surface.blocked q.goal)) [
    | inl k ↦ rw k k
    | inr k ↦ rw k (
        search-Given q (Settles q) pl mt e (record {
          on_found = λ r d vs v z f. (e, k, d, vs, v, z);
          on_unreachable = λ f (d, vs, v). f d vs v;
        }))
  ])
]
