-- ===== src/Routing/Tours.antt =====
-- Routes through a sequence of points.
use mathlib.Core.Path.{subst}
use crucible_ai.Routing.Surface.{Cell}
use crucible_ai.Routing.Search.{
  Found, Verdict, Query, astar, goal_reached, no_route, unfinished, cell_of,
}
use crucible_ai.Routing.Grid.{Inside}
use crucible_ai.Routing.Heuristic.{IsMetric}
use crucible_ai.Routing.Loop.{cells_of, target}
use crucible_ai.Routing.Optimal.{Reaches, astar-Reaches}
use crucible_ai.Routing.Routes.{
  Legs, Routed, Setting, add_leg, drop_first, failed_leg, later_cells, leg_query, legs,
  legs_through, merged_cells, no_route_error, out_of_fuel, routed, value_error, route_through,
  finalise, finish_route,
}
use crucible_ai.Routing.Invariant.{origin}
use crucible_ai.Routing.Ways.{Way, stand, go}
use crucible_ai.Prelude.{
  All, List, [], ap, arith, false, if_split, length, length-append, ltb, ltb→lt, map, refl, reverse,
  reverse-append, suc, sym, ℕ, ◌++◌, ◌+◌, ◌∙◌, ◌∷◌, ◌≡◌, ◌≤◌,
}

-- A route through the points in their order, made of ways between them, with its cost and cells.
pub data Tour (s : Setting) : List Cell → ℕ → List Cell → Type 0 where
  at_end : (p : Cell) → Tour s (p ∷ []) 0 (p ∷ [])
  leg :
      {a b : Cell} {ps cs : List Cell} {d c : ℕ} {us : List ℕ}
      → Way (leg_query s a b) (target (leg_query s a b)) d us
      → Tour s (b ∷ ps) c cs
      → Tour s (a ∷ b ∷ ps) (d + c) (cells_of (leg_query s a b) us ++ drop_first cs)

-- A route through the points of at most the given cost was returned.
abbrev pub Tours : Setting → List Cell → ℕ → Routed → Type 0
Tours s ps c (routed r) = (d : ℕ) × Tour s ps d r.cells × (d ≤ c)
Tours s ps c (no_route_error e) = ⊥
Tours s ps c value_error = ⊥
Tours s ps c out_of_fuel = ⊥

-- The cells that the legs from a point on make.
joined : Cell → List Found → List Cell
joined a [] = a ∷ []
joined a (r ∷ rs) = merged_cells (r ∷ rs)

-- The legs make a route of the given cost, to which those after the first one add their cells less
-- the junctions.
unfoldable pub Joins : Setting → List Cell → ℕ → List Found → Type 0
unfolding joined
Joins s [] d rs = ⊥
Joins s (a ∷ ps) d rs =
    Tour s (a ∷ ps) d (joined a rs)
    × (drop_first (joined a rs) ≡ later_cells rs)
    × (length rs ≡ length ps)

AreLegs : Setting → List Cell → ℕ → Legs → Type 0
AreLegs s ps c (failed_leg o) = ⊥
AreLegs s ps c (legs rs) = (d : ℕ) × Joins s ps d rs × (d ≤ c)

drop_first-append :
    (xs ys : List Cell) → 1 ≤ length xs → drop_first (xs ++ ys) ≡ drop_first xs ++ ys
drop_first-append [] ys l = absurd (omega (arith, l))
drop_first-append (x ∷ xs) ys l = refl

length-map : {A B : Type 0} (f : A → B) (xs : List A) → length (map f xs) ≡ length xs
length-map f [] = refl
length-map f (x ∷ xs) = ap suc (length-map f xs)

nonempty-reverse : (v : ℕ) (us : List ℕ) → 1 ≤ length (reverse (v ∷ us))
nonempty-reverse v us =
    rw (reverse-append (v ∷ []) us) (omega (arith, length-append (reverse us) (v ∷ [])))

cells_nonempty : (q : Query) {v c : ℕ} {us : List ℕ} → Way q v c us → 1 ≤ length (cells_of q us)
cells_nonempty q stand = omega (
  arith,
  length-map (cell_of q.surface.n) (reverse (origin q ∷ [])),
  nonempty-reverse (origin q) [],
)
cells_nonempty q (go {v = v} {us = us} w l) =
    omega (arith, length-map (cell_of q.surface.n) (reverse (v ∷ us)), nonempty-reverse v us)

pub leg-Joins :
    (s : Setting) (a b : Cell) (ps : List Cell) (d e : ℕ) (us : List ℕ) (r : Found)
    (rs : List Found)
    → Way (leg_query s a b) (target (leg_query s a b)) d us
    → r.cells ≡ cells_of (leg_query s a b) us
    → Joins s (b ∷ ps) e rs
    → Joins s (a ∷ b ∷ ps) (d + e) (r ∷ rs)
unfolding Joins joined
leg-Joins s a b ps d e us r rs w z (t, z', n) = (
  subst (λ x. Tour s (a ∷ b ∷ ps) (d + e) x)
      (ap (λ x. cells_of (leg_query s a b) us ++ x) z' ∙ ap (λ x. x ++ later_cells rs) (sym z))
      (leg w t),
  drop_first-append r.cells (later_cells rs)
      (subst (λ x. 1 ≤ length x) (sym z) (cells_nonempty (leg_query s a b) w)),
  ap suc n,
)

pub end-Joins : (s : Setting) (a : Cell) → Joins s (a ∷ []) 0 []
unfolding Joins joined
end-Joins s a = (at_end a, refl, refl)

-- Two points or more have a first leg, and the cells of all legs are those of a route.
pub merged-Tour :
    (s : Setting) (a b : Cell) (ps : List Cell) (d : ℕ) (rs : List Found)
    → Joins s (a ∷ b ∷ ps) d rs
    → Tour s (a ∷ b ∷ ps) d (merged_cells rs)
unfolding Joins joined
merged-Tour s a b ps d [] (t, z, n) = absurd (omega (arith, n))
merged-Tour s a b ps d (r ∷ rs) (t, z, n) = t

add_leg-AreLegs :
    (s : Setting) (a b : Cell) (ps : List Cell) (c e : ℕ) (o : Verdict) (l : Legs)
    → Reaches (leg_query s a b) c o
    → AreLegs s (b ∷ ps) e l
    → AreLegs s (a ∷ b ∷ ps) (c + e) (add_leg o l)
unfolding AreLegs add_leg
add_leg-AreLegs s a b ps c e (goal_reached r) (legs rs) (d, us, w, z, k) (d', t, k') =
    (d + d', leg-Joins s a b ps d d' us r rs w z t, omega (arith, k, k'))
add_leg-AreLegs s a b ps c e (goal_reached r) (failed_leg o) p t = t
add_leg-AreLegs s a b ps c e (no_route x) l p t = absurd p
add_leg-AreLegs s a b ps c e unfinished l p t = absurd p

module _ (s : Setting) (mt : (a b : Cell) → IsMetric (leg_query s a b)) where
  -- A point that a route may stop at.
  abbrev IsStop : Cell → Type 0
  IsStop p = Inside s.surface.n p × (s.surface.blocked p ≡ false)

  legs_through-AreLegs :
      {ps : List Cell} {c : ℕ} {cs : List Cell}
      → All IsStop ps
      → Tour s ps c cs
      → AreLegs s ps c (legs_through s ps)
  unfolding legs_through AreLegs leg_query
  legs_through-AreLegs st (at_end p) = (0, end-Joins s p, omega arith)
  legs_through-AreLegs st (leg {a} {b} {ps} {cs} {d} {c} {us} w t) =
      add_leg-AreLegs s a b ps d c (astar (leg_query s a b)) (legs_through s (b ∷ ps))
        (astar-Reaches (leg_query s a b) d us
          (record { start_inside = st.0.0; goal_inside = st.1.0.0 }) (mt a b) st.0.1 st.1.0.1 w)
        (legs_through-AreLegs st.1 t)

  finish-Tours :
      (a b : Cell) (ps : List Cell) (c : ℕ) (l : Legs)
      → AreLegs s (a ∷ b ∷ ps) c l
      → Tours s (a ∷ b ∷ ps) c (finish_route s l)
  unfolding AreLegs finalise
  finish-Tours a b ps c (legs rs) (d, t, k) = (d, merged-Tour s a b ps d rs t, k)
  finish-Tours a b ps c (failed_leg o) t = absurd t

  -- Where `IsMetric` holds between any two cells, and there is a route through two or more points that
  -- are not blocked, `route_through` returns one through them in their order that costs no more.
  pub route_through-Tours :
      (a b : Cell) (ps : List Cell) (c : ℕ) (cs : List Cell)
      → All IsStop (a ∷ b ∷ ps)
      → Tour s (a ∷ b ∷ ps) c cs
      → Tours s (a ∷ b ∷ ps) c (route_through s (a ∷ b ∷ ps))
  unfolding route_through
  route_through-Tours a b ps c cs st t =
      if_split (Tours s (a ∷ b ∷ ps) c) (ltb (length (a ∷ b ∷ ps)) 2)
        (λ e. absurd (omega (arith, ltb→lt (length (a ∷ b ∷ ps)) 2 e)))
        (λ e. finish-Tours a b ps c (legs_through s (a ∷ b ∷ ps)) (legs_through-AreLegs st t))
