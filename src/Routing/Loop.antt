-- ===== src/Routing/Loop.antt =====
-- The search loop of `astar`: what it returns.
use mathlib.Core.Path.{subst}
use crucible_ai.Routing.Search.{
  unreachable, goal_reached, Entry, Verdict, Query, Search, Turn, cell_of, ended, expand, going,
  index_of, no_route, pop_least, turn, unfinished, goal_reached, search_from, reconstruct,
  close_cell, same, Found,
}
use crucible_ai.Routing.Surface.{Cell, neighbours}
use crucible_ai.Routing.Invariant.{IsPriced, Descends, IsSound, frontier, reach}
use crucible_ai.Routing.Heap.{pop-All, same_cases, put_here, put_there, same-flip, same_self}
use crucible_ai.Routing.Turns.{expand-IsSound, heaped, skip-IsSound, close-IsSound}
use crucible_ai.Routing.Ways.{Way, AtMost-some, Trail-Way, closed_clash, trace-Trail}
use crucible_ai.Routing.Relaxing.{relax_all-closed}
use crucible_ai.Prelude.{
  Bool, Bool-cases, List, [], ap, arith, false, inl, inr, length, map, refl, reverse, some, suc,
  sym, true, zero, ℕ, ◌∙◌, ◌∷◌, ◌≡◌, ◌≤◌, ◌⊎◌,
}

abbrev pub target : Query → ℕ
target q = index_of q.surface.n q.goal

-- The cells of a way, from the start on.
abbrev pub cells_of : Query → List ℕ → List Cell
cells_of q us = map (cell_of q.surface.n) (reverse us)

-- What an end of the search has to give: a way to the goal that no other one is cheaper than, or that
-- there is none.
pub record IsGiven (q : Query) (P : Verdict → Type 0) : Type 0 where
  pub on_found :
      (r : Found) (d : ℕ) (us : List ℕ)
      → Way q (target q) d us
      → r.cells ≡ cells_of q us
      → ((c : ℕ) (ws : List ℕ) → Way q (target q) c ws → d ≤ c)
      → P (goal_reached r)
  pub on_unreachable :
      ((c : ℕ) (ws : List ℕ) → Way q (target q) c ws → ⊥) → P (no_route unreachable)

-- Unless the search ends, the invariant holds after the turn and the goal is not closed.
abbrev Turned : Query → (Verdict → Type 0) → Turn → Type 0
Turned q P (ended o) = P o
Turned q P (going st) = (x : ℕ) × IsSound q st x [] × (st.closed (target q) ≡ false)

module _ {q : Query} {P : Verdict → Type 0} (hd : Descends q) (gv : IsGiven q P) where
  found-Given :
      (st : Search) (m n : ℕ)
      → IsSound q st m (neighbours q.diagonal)
      → st.closed m ≡ true
      → m ≡ target q
      → (d : ℕ) → st.g_score m ≡ some d
      → P (goal_reached (record { cells = reconstruct q st m; nodes_expanded = n }))
  unfolding reconstruct
  found-Given st m n s o e d z =
      let (us, t, l) = s.trails m d z in
      let b = subst (λ y. length us ≤ reach y st.expanded) o l in
      gv.on_found _ d us (subst (λ y. Way q y d us) e (Trail-Way t))
        (ap (cells_of q) (trace-Trail st.expanded t (omega (arith, b))))
        (λ c ws w. AtMost-some (s.closed_least m c ws o (subst (λ y. Way q y c ws) (sym e) w)) z)

  expand-Turned :
      (st : Search) (x : ℕ) (p : Entry) (ps : List Entry)
      → IsSound q (heaped st p ps) x []
      → st.closed (target q) ≡ false
      → Turned q P (expand q (pop_least p ps).0.1 (pop_least p ps).1 st)
  expand-Turned st x p ps s o =
      let m = (pop_least p ps).0.1 in
      let st1 = close_cell m (pop_least p ps).1 st in
      elim (Bool-cases (st.closed m)) [
        | inl k ↦ rw k (x, skip-IsSound st x p ps s k, o)
        | inr k ↦ rw k (elim (same_cases m (target q)) [
          | inl e ↦ rw (ap (λ z. same z (target q)) e ∙ same_self (target q)) (
              let (d, g, l) = (pop-All (IsPriced q st) p ps s.priced).0 in
              found-Given st1 m (suc st.expanded) (close-IsSound st x p ps hd s k)
                (put_here m true st.closed) e d g)
          | inr n ↦ rw n (
            m,
            expand-IsSound st x p ps hd s k,
            ap (λ (f : ℕ → Bool). f (target q)) (relax_all-closed q m (neighbours q.diagonal) st1)
                ∙ put_there m true st.closed (target q) (same-flip m (target q) n)
                ∙ o,
          )
        ])
      ]

  heap-Turned :
      (st : Search) (x : ℕ) (hs : List Entry)
      → IsSound q (record st { open_heap = hs }) x []
      → st.closed (target q) ≡ false
      → Turned q P (turn q (record st { open_heap = hs }))
  unfolding turn
  heap-Turned st x [] s o = gv.on_unreachable (λ c ws way. elim (frontier hd s way) [
    | inl (k, a) ↦ absurd (closed_clash k o)
    | inr (y, d, k, g, b) ↦ absurd (s.queued y d k g)
  ])
  heap-Turned st x (p ∷ ps) s o = expand-Turned st x p ps s o

  abbrev Stepped : ℕ → Turn → Type 0
  Stepped k t =
      (elim t [ going st ↦ search_from q k st | ended o ↦ o ] ≡ unfinished)
      ⊎ P (elim t [ going st ↦ search_from q k st | ended o ↦ o ])

  step_on :
      (k : ℕ)
      → ((st : Search) (x : ℕ)
          → IsSound q st x []
          → st.closed (target q) ≡ false
          → (search_from q k st ≡ unfinished) ⊎ P (search_from q k st))
      → (t : Turn) → Turned q P t
      → Stepped k t
  step_on k f (going st) (x, s, o) = f st x s o
  step_on k f (ended o) r = inr r

  -- The search runs out of fuel or ends with what is to be given.
  pub search_from-Given :
      (k : ℕ) (st : Search) (x : ℕ)
      → IsSound q st x []
      → st.closed (target q) ≡ false
      → (search_from q k st ≡ unfinished) ⊎ P (search_from q k st)
  unfolding search_from
  search_from-Given zero st x s o = inl refl
  search_from-Given (suc k) st x s o =
      step_on k (search_from-Given k) (turn q st) (heap-Turned st x st.open_heap s o)
