-- ===== src/Routing/Termination.antt =====
-- The fuel of the search loop of `astar` is enough: every turn lowers nine times the number of the
-- indices that are not closed, plus the length of the heap.
use crucible_ai.Routing.Surface.{Offset, neighbours}
use crucible_ai.Routing.Search.{
  goal_reached, no_route, Found, Reason, Entry, Query, Search, Turn, arc, ended, going, put,
  relax_all, relax_arc, unfinished, is_less, index_of, pop_least, search_from, turn, expand,
  close_cell, same,
}
use crucible_ai.Routing.Heap.{put_there, same_cases, length-pop_least, pop-All, put_here, same-ne}
use crucible_ai.Routing.Turns.{heaped}
use crucible_ai.Routing.Grid.{arc-IsArc, index-bound}
use crucible_ai.Routing.Relaxing.{relax_all-closed}
use crucible_ai.Prelude.{
  All, Bool, Bool-cases, List, Option-cases, [], ap, arith, false, if◌then◌else◌, inl, inr, length,
  refl, suc, true, zero, ℕ, ◌*◌, ◌+◌, ◌<◌, ◌∙◌, ◌∷◌, ◌≡◌, ◌≢◌, ◌≤◌,
}

found-finished : {r : Found} → goal_reached r ≢ unfinished
found-finished z = cc z

no_route-finished : {r : Reason} → no_route r ≢ unfinished
no_route-finished z = cc z

-- How many indices below a bound are not closed.
abbrev pub unclosed : (ℕ → Bool) → ℕ → ℕ
unclosed f zero = 0
unclosed f (suc k) = (if f k then 0 else 1) + unclosed f k

unclosed_above : (f : ℕ → Bool) (v n : ℕ) → n ≤ v → unclosed (put v true f) n ≡ unclosed f n
unclosed_above f v zero l = refl
unclosed_above f v (suc n) l = elim (same_cases n v) [
  | inl e ↦ absurd (omega (arith, l, e))
  | inr e ↦
      rw (put_there v true f n e)
        (ap (λ x. (if f n then 0 else 1) + x) (unclosed_above f v n (omega (arith, l))))
]

unclosed-put :
    (f : ℕ → Bool) (v n : ℕ) → v < n → f v ≡ false → suc (unclosed (put v true f) n) ≡ unclosed f n
unclosed-put f v zero l o = absurd (omega (arith, l))
unclosed-put f v (suc n) l o = elim (same_cases n v) [
  | inl e ↦
      rw
        (
          ap (put v true f) e ∙ put_here v true f,
          ap f e ∙ o,
          unclosed_above f v n (omega (arith, e)),
        )
        (omega arith)
  | inr e ↦
      rw (put_there v true f n e)
        (omega (arith, unclosed-put f v n (omega (arith, l, same-ne n v e)) o))
]

module _ (q : Query) where
  abbrev bound : ℕ
  bound = q.surface.n * q.surface.n

  abbrev pub InBounds : Search → Type 0
  InBounds st = All (λ (e : Entry). e.1 < bound) st.open_heap

  abbrev pub measure : Search → ℕ
  measure st = 9 * unclosed st.closed bound + length st.open_heap

  Grows : ℕ → Search → Search → Type 0
  Grows k st t = InBounds t × (length t.open_heap ≤ k + length st.open_heap)

  relax_arc-Grows :
      (u : ℕ) (d : Offset) (st : Search) → InBounds st → Grows 1 st (relax_arc q u (arc q u d) st)
  unfolding Grows
  relax_arc-Grows u d st b = elim (Option-cases (arc q u d)) [
    | inl e ↦ rw e (b, omega arith)
    | inr (a, e) ↦ rw e (elim (Bool-cases (st.closed a.node)) [
      | inl k ↦ rw k (b, omega arith)
      | inr k ↦ rw k (elim (Option-cases (st.g_score u)) [
        | inl z ↦ rw z (b, omega arith)
        | inr (g, z) ↦ rw z (elim (Bool-cases (is_less (g + a.step) (st.g_score a.node))) [
          | inl l ↦ rw l (
            (let i = arc-IsArc q u d a e in
                (rw (i.index) (index-bound q.surface.n a.target i.inside.0 i.inside.1), b)),
            omega arith,
          )
          | inr l ↦ rw l (b, omega arith)
        ])
      ])
    ])
  ]

  relax_all-Grows :
      (u : ℕ) (ds : List Offset) (st : Search)
      → InBounds st
      → Grows (length ds) st (relax_all q u ds st)
  unfolding Grows
  relax_all-Grows u [] st b = (b, omega arith)
  relax_all-Grows u (d ∷ ds) st b =
      let (b1, l1) = relax_arc-Grows u d st b in
      let (b2, l2) = relax_all-Grows u ds (relax_arc q u (arc q u d) st) b1 in
      (b2, omega (arith, l1, l2))

  length-neighbours : (b : Bool) → length (neighbours b) ≤ 8
  unfolding neighbours
  length-neighbours true = omega arith
  length-neighbours false = omega arith

  -- The turn ends the search with a result, or lowers the measure.
  abbrev Lowered : Search → Turn → Type 0
  Lowered st (ended o) = o ≢ unfinished
  Lowered st (going t) = InBounds t × (measure t < measure st)

  expand-Lowered :
      (st : Search) (p : Entry) (ps : List Entry)
      → InBounds (heaped st p ps)
      → Lowered (heaped st p ps) (expand q (pop_least p ps).0.1 (pop_least p ps).1 st)
  unfolding Grows
  expand-Lowered st p ps b =
      let m = (pop_least p ps).0.1 in
      let rest = (pop_least p ps).1 in
      let st1 = close_cell m rest st in
      let (lt, br) = pop-All (λ e. e.1 < bound) p ps b in
      elim (Bool-cases (st.closed m)) [
        | inl k ↦ rw k (br, omega (arith, length-pop_least p ps))
        | inr k ↦ rw k (elim (Bool-cases (same m (index_of q.surface.n q.goal))) [
          | inl e ↦ rw e (λ z. found-finished z)
          | inr e ↦ rw e (
              let (b2, l2) = relax_all-Grows m (neighbours q.diagonal) st1 br in
              (
                b2,
                rw (relax_all-closed q m (neighbours q.diagonal) st1) (
                    omega (
                      arith,
                      l2,
                      length-neighbours q.diagonal,
                      length-pop_least p ps,
                      unclosed-put st.closed m bound lt k,
                    )),
              ))
        ])
      ]

  heap-Lowered :
      (st : Search) (hs : List Entry)
      → InBounds (record st { open_heap = hs })
      → Lowered (record st { open_heap = hs }) (turn q (record st { open_heap = hs }))
  unfolding turn
  heap-Lowered st [] b = λ z. no_route-finished z
  heap-Lowered st (p ∷ ps) b = expand-Lowered st p ps b

  step_down :
      (k : ℕ) (st : Search)
      → ((t : Search) → InBounds t → measure t < k → search_from q k t ≢ unfinished)
      → measure st < suc k
      → (t : Turn) → Lowered st t
      → elim t [ going u ↦ search_from q k u | ended o ↦ o ] ≢ unfinished
  step_down k st f l (going t) (b, m) = f t b (omega (arith, l, m))
  step_down k st f l (ended o) d = d

  -- With more fuel than the measure, the search ends with a result.
  pub search_from_finished :
      (k : ℕ) (st : Search) → InBounds st → measure st < k → search_from q k st ≢ unfinished
  unfolding search_from
  search_from_finished zero st b l = absurd (omega (arith, l))
  search_from_finished (suc k) st b l =
      step_down k st (search_from_finished k) l (turn q st) (heap-Lowered st st.open_heap b)
