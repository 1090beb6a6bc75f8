-- ===== src/Routing/Heuristic.antt =====
-- When the heuristic of `astar` is consistent.
use mathlib.Core.Path.{subst}
use native.Mathlib.Nat.{mul-le-mul_right, add-mul, mul_comm}
use crucible_ai.Routing.Ways.{stand, go, Way}
use crucible_ai.Routing.Rate.{min_cost_per_km-le}
use crucible_ai.Routing.Surface.{Cell, Offset, edge_km, min_cost_per_km}
use crucible_ai.Routing.Search.{Arc, Query, arc, cell_of, step_cost, h}
use crucible_ai.Routing.Grid.{Inside, arc-IsArc, cell-index}
use crucible_ai.Routing.Invariant.{Descends}
use crucible_ai.Prelude.{List, arith, false, some, sym, ℕ, ◌*◌, ◌+◌, ◌≡◌, ◌≤◌}

-- Every cell costs at least `alpha_distance` a kilometre, and no edge brings a cell closer to the
-- goal than it is long.
pub record IsMetric (q : Query) : Type 0 where
  pub floor : (c : Cell) → q.surface.alpha_distance ≤ q.surface.cost_per_km c
  pub shrinks :
      (u : ℕ) (d : Offset) (a : Arc)
      → arc q u d ≡ some a
      → q.surface.distance_km (cell_of q.surface.n u) q.goal
        ≤ edge_km q.surface d + q.surface.distance_km a.target q.goal

-- The start and the goal are cells of the grid.
pub record IsPlaced (q : Query) : Type 0 where
  pub start_inside : Inside q.surface.n q.start
  pub goal_inside : Inside q.surface.n q.goal

-- A step costs at least what it may lower the heuristic by.
step-bound :
    (r d e d' a b p : ℕ)
    → r ≤ a
    → r ≤ b
    → d ≤ e + d'
    → 2 * (d * r) ≤ (a + b) * e + 2 * p + 2 * (d' * r)
step-bound r d e d' a b p l k m = omega (
  arith,
  mul-le-mul_right r m,
  mul-le-mul_right e l,
  mul-le-mul_right e k,
  add-mul e d' r,
  add-mul a b e,
  mul_comm e r,
)

abbrev Clear : Query → Cell → Type 0
Clear q c = Inside q.surface.n c × (q.surface.blocked c ≡ false)

module _ {q : Query} (pl : IsPlaced q) (o : q.surface.blocked q.start ≡ false) where
  -- Every cell on a way is inside the grid and not blocked.
  pub Way-Clear : {v c : ℕ} {us : List ℕ} → Way q v c us → Clear q (cell_of q.surface.n v)
  Way-Clear stand =
      subst (Clear q) (sym (cell-index q.surface.n q.start pl.start_inside.1)) (pl.start_inside, o)
  Way-Clear (go w (d, a, i, e, nv, sv)) =
      let k = arc-IsArc q _ d a e in
      subst (λ z. Clear q (cell_of q.surface.n z)) nv
        (subst (λ z. Clear q (cell_of q.surface.n z)) (sym (k.index))
          (subst (Clear q) (sym (cell-index q.surface.n a.target k.inside.1)) (k.inside, k.clear)))

  pub metric-Descends : IsMetric q → Descends q
  unfolding h step_cost
  metric-Descends mt u v w c us p (d, a, i, e, nv, sv) =
      let k = arc-IsArc q u d a e in
      let (ins, cl) = Way-Clear p in
      let s = q.surface in
      rw (sym nv, sym sv, k.cost, k.index, cell-index s.n a.target k.inside.1)
        (step-bound (min_cost_per_km s) _ (edge_km s d) _ _ _ _
          (min_cost_per_km-le s (cell_of s.n u) (mt.floor _) ins cl)
          (min_cost_per_km-le s a.target (mt.floor _) k.inside k.clear) (mt.shrinks u d a e))
