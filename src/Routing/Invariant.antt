-- ===== src/Routing/Invariant.antt =====
-- The invariant of the search loop of `astar`.
use mathlib.Core.Path.{subst}
use crucible_ai.Routing.Surface.{Offset}
use crucible_ai.Routing.Search.{Entry, Query, Search, index_of}
use crucible_ai.Routing.Heap.{In}
use crucible_ai.Routing.Ways.{
  stand, go, AtMost, AtMost-some, AtMost-of, Leads, Trail, Way, h_at, go,
}
use crucible_ai.Prelude.{
  All, Bool, Bool-cases, List, Option-cases, [], arith, false, inl, inr, length, some, suc, true, ℕ,
  ◌+◌, ◌≡◌, ◌≤◌, ◌⊎◌,
}

abbrev pub origin : Query → ℕ
origin q = index_of q.surface.n q.start

-- How many indices a trail to a closed index, or to another one, may have.
abbrev pub reach : Bool → ℕ → ℕ
reach true e = e
reach false e = suc e

abbrev pub IsPriced : Query → Search → Entry → Type 0
IsPriced q st e = (d : ℕ) × (st.g_score e.1 ≡ some d) × (d + h_at q e.1 ≤ e.0)

-- While the index `u` is expanded, the offsets `pending` are left to do.
pub record IsSound (q : Query) (st : Search) (u : ℕ) (pending : List Offset) : Type 0 where
  pub start_score : st.g_score (origin q) ≡ some 0
  pub trails :
      (v d : ℕ)
      → st.g_score v ≡ some d
      → (us : List ℕ) × Trail q st.came_from st.closed v d us
        × (length us ≤ reach (st.closed v) st.expanded)
  pub queued :
      (v d : ℕ) → st.closed v ≡ false → st.g_score v ≡ some d → In (d + h_at q v, v) st.open_heap
  pub priced : All (IsPriced q st) st.open_heap
  pub closed_least :
      (v c : ℕ) (us : List ℕ) → st.closed v ≡ true → Way q v c us → AtMost (st.g_score v) c
  pub relaxed :
      (x v w : ℕ)
      → st.closed x ≡ true
      → (l : Leads q x v w)
      → ((x ≡ u) × In l.0 pending)
        ⊎ ((c : ℕ) → AtMost (st.g_score x) c → AtMost (st.g_score v) (c + w))

-- No edge lowers the heuristic by more than it costs.
abbrev pub Descends : Query → Type 0
Descends q = (u v w c : ℕ) (us : List ℕ) → Way q u c us → Leads q u v w → h_at q u ≤ w + h_at q v

-- Along a way, either the end is closed at no greater cost, or some index is still in the heap with
-- no greater priority.
pub frontier :
    {q : Query} {st : Search} {x v c : ℕ} {us : List ℕ}
    → Descends q
    → IsSound q st x []
    → Way q v c us
    → ((st.closed v ≡ true) × AtMost (st.g_score v) c)
      ⊎ ((y d : ℕ) × (st.closed y ≡ false)
          × (st.g_score y ≡ some d)
          × (d + h_at q y ≤ c + h_at q v))
frontier {q} {st} hd s stand = elim (Bool-cases (st.closed (origin q))) [
  | inl e ↦ inl (e, AtMost-of s.start_score (omega arith))
  | inr e ↦ inr (origin q, 0, e, s.start_score, omega arith)
]
frontier {q} {st} hd s (go {u} {v} {w} {c} {us} p l) = elim (frontier hd s p) [
  | inr (y, d, o, g, b) ↦ inr (y, d, o, g, omega (arith, b, hd u v w c us p l))
  | inl (o, a) ↦ elim (s.relaxed u v w o l) [
    | inl (e, i) ↦ absurd i
    | inr f ↦ elim (Bool-cases (st.closed v)) [
      | inl o' ↦ inl (o', f c a)
      | inr o' ↦ elim (Option-cases (st.g_score v)) [
        | inl z ↦ absurd (subst (λ o. AtMost o (c + w)) z (f c a))
        | inr (d, z) ↦ inr (v, d, o', z, omega (arith, AtMost-some (f c a) z))
      ]
    ]
  ]
]
