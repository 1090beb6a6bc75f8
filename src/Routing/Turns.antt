-- ===== src/Routing/Turns.antt =====
-- A turn of the search loop of `astar` keeps the invariant.
use mathlib.Core.Path.{subst}
use crucible_ai.Routing.Surface.{neighbours}
use crucible_ai.Routing.Search.{Entry, Query, Search, close_cell, pop_least, put, same, relax_all}
use crucible_ai.Routing.Heap.{
  pop-All, pop-In, pop-least, put_here, put_there, same_cases, same_self, All-self,
}
use crucible_ai.Routing.Ways.{AtMost, AtMost-of, Trail-shut, Way, h_at, closed_clash}
use crucible_ai.Routing.Invariant.{Descends, IsSound, frontier, reach, IsPriced}
use crucible_ai.Routing.Grid.{arc-priority}
use crucible_ai.Routing.Relaxing.{relax_all-IsSound}
use crucible_ai.Prelude.{
  Bool, List, [], ap, arith, false, inl, inr, length, suc, sym, true, ℕ, ◌+◌, ◌∙◌, ◌∷◌, ◌≡◌, ◌≤◌,
  ◌⊎◌,
}

-- With the heap given as a pair and the others.
abbrev pub heaped : Search → Entry → List Entry → Search
heaped st p ps = record st { open_heap = p ∷ ps }

module _ (f : ℕ → Bool) (k : ℕ) where
  shut-cases : (v : ℕ) → put k true f v ≡ true → (v ≡ k) ⊎ (f v ≡ true)
  shut-cases v e = elim (same_cases v k) [
    | inl i ↦ inl i
    | inr n ↦ inr (sym (put_there k true f v n) ∙ e)
  ]

  open-cases : (v : ℕ) → put k true f v ≡ false → (f v ≡ false) × (same v k ≡ false)
  open-cases v e = elim (same_cases v k) [
    | inl i ↦ absurd (closed_clash (ap (put k true f) i ∙ put_here k true f) e)
    | inr n ↦ (sym (put_there k true f v n) ∙ e, n)
  ]

  shut_mono : (v : ℕ) → f v ≡ true → put k true f v ≡ true
  shut_mono v e = elim (same_cases v k) [
    | inl i ↦ ap (put k true f) i ∙ put_here k true f
    | inr n ↦ put_there k true f v n ∙ e
  ]

reach_mono : (a b : Bool) (e k : ℕ) → k ≤ reach a e → k ≤ reach b (suc e)
reach_mono true true e k l = omega arith
reach_mono true false e k l = omega arith
reach_mono false true e k l = l
reach_mono false false e k l = omega arith

module _ {q : Query} (st : Search) (x : ℕ) (p : Entry) (ps : List Entry) where
  -- A popped index that is closed is left out.
  pub skip-IsSound :
      IsSound q (heaped st p ps) x []
      → st.closed (pop_least p ps).0.1 ≡ true
      → IsSound q (record st { open_heap = (pop_least p ps).1 }) x []
  skip-IsSound s o = record {
    start_score = s.start_score;
    trails = s.trails;
    queued = λ v d k g. elim (pop-In (d + h_at q v, v) p ps (s.queued v d k g)) [
      | inr i ↦ i
      | inl e ↦ absurd (closed_clash o (ap st.closed (sym (ap (λ (z : Entry). z.1) e)) ∙ k))
    ];
    priced = (pop-All (IsPriced q st) p ps s.priced).1;
    closed_least = s.closed_least;
    relaxed = s.relaxed;
  }

  -- The score of the popped index is no greater than the cost of any way to it.
  least-AtMost :
      Descends q
      → IsSound q (heaped st p ps) x []
      → st.closed (pop_least p ps).0.1 ≡ false
      → (c : ℕ) (us : List ℕ) → Way q (pop_least p ps).0.1 c us
      → AtMost (st.g_score (pop_least p ps).0.1) c
  least-AtMost hd s o c us w =
      let (d, g, l) = (pop-All (IsPriced q st) p ps s.priced).0 in
      AtMost-of g (elim (frontier hd s w) [
        | inl (k, a) ↦ absurd (closed_clash k o)
        | inr (y, e, k, z, b) ↦
            omega (arith, l, b, pop-least (e + h_at q y, y) p ps (s.queued y e k z))
      ])

  -- Closing the popped index leaves its neighbours pending.
  pub close-IsSound :
      Descends q
      → IsSound q (heaped st p ps) x []
      → st.closed (pop_least p ps).0.1 ≡ false
      → IsSound q
          (close_cell (pop_least p ps).0.1 (pop_least p ps).1 st)
          (pop_least p ps).0.1
          (neighbours q.diagonal)
  close-IsSound hd s o =
      let m = (pop_least p ps).0.1 in
      record {
        start_score = s.start_score;
        trails = λ v d g.
            let (us, t, l) = s.trails v d g in
            (
              us,
              Trail-shut (shut_mono st.closed m) t,
              reach_mono (st.closed v) (put m true st.closed v) st.expanded (length us) l,
            );
        queued = λ v d k g.
            let (k', n) = open-cases st.closed m v k in
            elim (pop-In (d + h_at q v, v) p ps (s.queued v d k' g)) [
              | inr i ↦ i
              | inl e ↦ absurd (closed_clash (ap (λ (z : Entry). same z.1 m) e ∙ same_self m) n)
            ];
        priced = (pop-All (IsPriced q st) p ps s.priced).1;
        closed_least = λ v c us k w. elim (shut-cases st.closed m v k) [
          | inl i ↦
              subst (λ z. AtMost (st.g_score z) c) (sym i)
                (least-AtMost hd s o c us (subst (λ z. Way q z c us) i w))
          | inr i ↦ s.closed_least v c us i w
        ];
        relaxed = λ y v w k l. elim (shut-cases st.closed m y k) [
          | inl i ↦ inl (i, l.2)
          | inr i ↦ elim (s.relaxed y v w i l) [ inl (e, z) ↦ absurd z | inr f ↦ inr f ]
        ];
      }

  pub expand-IsSound :
      Descends q
      → IsSound q (heaped st p ps) x []
      → st.closed (pop_least p ps).0.1 ≡ false
      → IsSound q
          (relax_all q
            (pop_least p ps).0.1
            (neighbours q.diagonal)
            (close_cell (pop_least p ps).0.1 (pop_least p ps).1 st))
          (pop_least p ps).0.1
          []
  expand-IsSound hd s o =
      let m = (pop_least p ps).0.1 in
      relax_all-IsSound (neighbours q.diagonal) (close_cell m (pop_least p ps).1 st)
        (λ d a. arc-priority q m d a) (All-self (neighbours q.diagonal)) (put_here m true st.closed)
        (close-IsSound hd s o)
