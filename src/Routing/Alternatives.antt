-- ===== src/Routing/Alternatives.antt =====
-- What `alternative_routes` returns.
use mathlib.Core.Path.{subst}
use crucible_ai.Routing.Surface.{Cell, Surface}
use crucible_ai.Routing.Search.{Verdict, astar, goal_reached, no_route, unfinished}
use crucible_ai.Routing.Grid.{Inside}
use crucible_ai.Routing.Heuristic.{IsMetric}
use crucible_ai.Routing.Optimal.{Settles, astar-Settles}
use crucible_ai.Routing.Routes.{
  Legs, RouteResult, Routed, Setting, add_leg, failed_leg, finish_route, leg_query, legs,
  legs_through, no_route_error, out_of_fuel, overlaps, route_through, routed, value_error, finalise,
  Corridor, add_corridor, alternative_routes, is_duplicate, search_more,
}
use crucible_ai.Routing.Overlaps.{Apart, Differ, Differ-append, any-Apart, or-false, overlaps-Apart}
use crucible_ai.Routing.Tours.{Joins, Tour, end-Joins, leg-Joins, merged-Tour}
use crucible_ai.Prelude.{
  All, All-append, Bool, List, Option, String, [], any, arith, if_split, if◌then◌else◌, length,
  length-append, ltb, ltb→lt, none, some, suc, zero, ℕ, ◌++◌, ◌+◌, ◌||◌, ◌∷◌, ◌≡◌, ◌≤◌,
}

-- The returned route is one through the points.
abbrev pub Makes : Setting → List Cell → Routed → Type 0
Makes s ps (routed r) = (d : ℕ) × Tour s ps d r.cells
Makes s ps (no_route_error e) = Unit
Makes s ps value_error = ⊥
Makes s ps out_of_fuel = ⊥

LegsMake : Setting → List Cell → Legs → Type 0
LegsMake s ps (legs rs) = (d : ℕ) × Joins s ps d rs
LegsMake s ps (failed_leg (goal_reached r)) = ⊥
LegsMake s ps (failed_leg (no_route e)) = Unit
LegsMake s ps (failed_leg unfinished) = ⊥

add_leg-LegsMake :
    (s : Setting) (a b : Cell) (ps : List Cell) (o : Verdict) (l : Legs)
    → Settles (leg_query s a b) o
    → LegsMake s (b ∷ ps) l
    → LegsMake s (a ∷ b ∷ ps) (add_leg o l)
unfolding LegsMake add_leg
add_leg-LegsMake s a b ps (goal_reached r) (legs rs) (_, _, d, us, w, z) (e, t) =
    (d + e, leg-Joins s a b ps d e us r rs w z t)
add_leg-LegsMake s a b ps (goal_reached r) (failed_leg (goal_reached x)) p t = t
add_leg-LegsMake s a b ps (goal_reached r) (failed_leg (no_route x)) p t = t
add_leg-LegsMake s a b ps (goal_reached r) (failed_leg unfinished) p t = t
add_leg-LegsMake s a b ps (no_route x) l p t = tt
add_leg-LegsMake s a b ps unfinished l p t = p

module _ (s : Setting) (mt : (a b : Cell) → IsMetric (leg_query s a b)) where
  legs_through-LegsMake :
      (a : Cell) (ps : List Cell)
      → All (Inside s.surface.n) (a ∷ ps)
      → LegsMake s (a ∷ ps) (legs_through s (a ∷ ps))
  unfolding legs_through LegsMake leg_query
  legs_through-LegsMake a [] i = (0, end-Joins s a)
  legs_through-LegsMake a (b ∷ ps) i =
      add_leg-LegsMake s a b ps (astar (leg_query s a b)) (legs_through s (b ∷ ps))
        (astar-Settles (leg_query s a b) (record { start_inside = i.0; goal_inside = i.1.0 })
          (mt a b))
        (legs_through-LegsMake b ps i.1)

  finish-Makes :
      (a b : Cell) (ps : List Cell) (l : Legs)
      → LegsMake s (a ∷ b ∷ ps) l
      → Makes s (a ∷ b ∷ ps) (finish_route s l)
  unfolding LegsMake finalise
  finish-Makes a b ps (legs rs) (d, t) = (d, merged-Tour s a b ps d rs t)
  finish-Makes a b ps (failed_leg (goal_reached r)) t = t
  finish-Makes a b ps (failed_leg (no_route e)) t = tt
  finish-Makes a b ps (failed_leg unfinished) t = t

  pub route_through-Makes :
      (a b : Cell) (ps : List Cell)
      → All (Inside s.surface.n) (a ∷ b ∷ ps)
      → Makes s (a ∷ b ∷ ps) (route_through s (a ∷ b ∷ ps))
  unfolding route_through
  route_through-Makes a b ps i =
      if_split (Makes s (a ∷ b ∷ ps)) (ltb (length (a ∷ b ∷ ps)) 2)
        (λ e. absurd (omega (arith, ltb→lt (length (a ∷ b ∷ ps)) 2 e)))
        (λ e.
          finish-Makes a b ps (legs_through s (a ∷ b ∷ ps)) (legs_through-LegsMake a (b ∷ ps) i))

-- ---- the loop

shift_suc : (n k : ℕ) → suc n + k ≡ n + suc k
shift_suc n k = omega arith

zero_add : (k : ℕ) → 0 + k ≡ k
zero_add k = omega arith

-- The setting of an alternative, with a penalty and a label.
abbrev pub alternative_setting : Surface → Bool → (Cell → ℕ) → String → Setting
alternative_setting s d p l = record { surface = s; diagonal = d; penalty = some p; label = l }

-- At most so many routes through the points, each under some penalty; the cells that one has in common
-- with the primary route or with an earlier one are at most 85 % of its entries.
abbrev pub AreVaried : Surface → Bool → List Cell → RouteResult → ℕ → List RouteResult → Type 0
AreVaried s d ps primary k rs =
    (length rs ≤ k)
    × All (λ (r : RouteResult). Apart r.cells primary.cells) rs
    × Differ rs
    × All
        (λ (r : RouteResult).
          (p : Cell → ℕ) × (l : String) × (c : ℕ) × Tour (alternative_setting s d p l) ps c r.cells)
        rs

abbrev pub Varied :
    Surface → Bool → List Cell → RouteResult → ℕ → Option (List RouteResult) → Type 0
Varied s d ps primary k none = ⊥
Varied s d ps primary k (some rs) = AreVaried s d ps primary k rs

module _ (s : Surface) (d : Bool) (k : Corridor) (name : ℕ → String) (a b : Cell) (ps : List Cell)
    (primary : RouteResult) (inside : All (Inside s.n) (a ∷ b ∷ ps))
    (mt : (p : Cell → ℕ) (l : String) (x y : Cell)
      → IsMetric (leg_query (alternative_setting s d p l) x y)) where
  added :
      (n : ℕ) (rs : List RouteResult) (r : RouteResult) (p : Cell → ℕ) (l : String)
      → AreVaried s d (a ∷ b ∷ ps) primary n rs
      → Makes (alternative_setting s d p l) (a ∷ b ∷ ps) (routed r)
      → AreVaried s d
          (a ∷ b ∷ ps)
          primary
          (suc n)
          (if is_duplicate r primary rs then rs else rs ++ r ∷ [])
  unfolding is_duplicate
  added n rs r p l (b', f, g, t) (c, m) =
      if_split (AreVaried s d (a ∷ b ∷ ps) primary (suc n))
        (overlaps r primary || any (overlaps r) rs) (λ e. (omega (arith, b'), f, g, t))
        (λ e.
          let (h, v) = or-false (overlaps r primary) (any (overlaps r) rs) e in
          (
            omega (arith, b', length-append rs (r ∷ [])),
            All-append _ rs (r ∷ []) f (overlaps-Apart r primary h, tt),
            Differ-append rs r g (any-Apart r rs v),
            All-append _ rs (r ∷ []) t ((p, l, c, m), tt),
          ))

  widen :
      (m n : ℕ) (rs : List RouteResult)
      → m ≤ n
      → AreVaried s d (a ∷ b ∷ ps) primary m rs
      → AreVaried s d (a ∷ b ∷ ps) primary n rs
  widen m n rs l (b', f, g, t) = (omega (arith, b', l), f, g, t)

  after_route :
      (i n left : ℕ) (p : Cell → ℕ) (rs : List RouteResult) (o : Routed)
      → ((j : ℕ) (p' : Cell → ℕ) (xs : List RouteResult)
          → AreVaried s d (a ∷ b ∷ ps) primary (suc n) xs
          → Varied s d
              (a ∷ b ∷ ps)
              primary
              (suc n + left)
              (search_more s d k name (a ∷ b ∷ ps) primary j left p' xs))
      → AreVaried s d (a ∷ b ∷ ps) primary n rs
      → Makes (alternative_setting s d p (name i)) (a ∷ b ∷ ps) o
      → Varied s d (a ∷ b ∷ ps) primary (suc n + left) (elim o [
        | routed alt ↦
            search_more s d k name
              (a ∷ b ∷ ps)
              primary
              (suc i)
              left
              (add_corridor k.corridor_cells k.scale alt p)
              (if is_duplicate alt primary rs then rs else rs ++ alt ∷ [])
        | no_route_error e ↦ some rs
        | value_error ↦ none
        | out_of_fuel ↦ none
      ])
  after_route i n left p rs (routed r) f v m =
      f (suc i) (add_corridor k.corridor_cells k.scale r p)
        (if is_duplicate r primary rs then rs else rs ++ r ∷ []) (added n rs r p (name i) v m)
  after_route i n left p rs (no_route_error e) f v m = widen n (suc n + left) rs (omega arith) v
  after_route i n left p rs value_error f v m = m
  after_route i n left p rs out_of_fuel f v m = m

  search_more-Varied :
      (i n left : ℕ) (p : Cell → ℕ) (rs : List RouteResult)
      → AreVaried s d (a ∷ b ∷ ps) primary n rs
      → Varied s d
          (a ∷ b ∷ ps)
          primary
          (n + left)
          (search_more s d k name (a ∷ b ∷ ps) primary i left p rs)
  unfolding search_more
  search_more-Varied i n zero p rs v = widen n (n + zero) rs (omega arith) v
  search_more-Varied i n (suc left) p rs v =
      subst
        (λ z.
          Varied s d (a ∷ b ∷ ps) primary z
            (search_more s d k name (a ∷ b ∷ ps) primary i (suc left) p rs))
        (shift_suc n left)
        (after_route i n left p rs (route_through (alternative_setting s d p (name i)) (a ∷ b ∷ ps))
          (λ j p' xs. search_more-Varied j (suc n) left p' xs) v
          (route_through-Makes (alternative_setting s d p (name i)) (mt p (name i)) a b ps inside))

  -- For two or more points of the grid, and where the distances are as `IsMetric` says under every
  -- penalty, `alternative_routes` returns at most `count` routes through them in their order. The
  -- distinct cells that one of them has in common with the primary route, or with an earlier one, are
  -- at most 85 % of its entries. A cell that it passes twice is two of these entries, so such a route
  -- may be the primary one again.
  pub alternative_routes-Varied :
      (count : ℕ)
      → Varied s d
          (a ∷ b ∷ ps)
          primary
          count
          (alternative_routes s d k name (a ∷ b ∷ ps) primary count)
  unfolding alternative_routes
  alternative_routes-Varied count =
      subst
        (λ z. Varied s d (a ∷ b ∷ ps) primary z (
          search_more s d k name (a ∷ b ∷ ps) primary 0 count
            (add_corridor k.corridor_cells k.scale primary (λ _. 0)) []))
        (zero_add count) (search_more-Varied 0 0 count _ [] (omega arith, tt, tt, tt))
