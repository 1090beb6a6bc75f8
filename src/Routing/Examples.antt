-- ===== src/Routing/Examples.antt =====
-- Runs of the route planning on a small grid, and the theorems applied to them.
use crucible_ai.Routing.Ways.{stand, go, Leads, Way}
use crucible_ai.Routing.Heap.{In}
use crucible_ai.Routing.Tours.{leg, at_end, Tour, Tours, route_through-Tours}
use crucible_ai.Routing.Routes.{
  routed, finalise, leg_query, Setting, Corridor, RouteResult, add_leg, alternative_routes,
  legs_through, route_through,
}
use crucible_ai.Routing.Surface.{
  Shift, back, stay, ahead, Offset, shifted, cell_at, Surface, edge_km, min_cost_per_km, neighbours,
  Cell,
}
use crucible_ai.Routing.Search.{
  Arc, unfinished, search_from, turn, first_search, arc, enter_cell, step_cost, h, reconstruct,
  trace, Query, astar, goal_reached,
}
use crucible_ai.Routing.Heuristic.{IsMetric, IsPlaced}
use crucible_ai.Routing.Optimal.{Reaches, Settles, astar-Reaches, astar-Settles, astar_finished}
use crucible_ai.Routing.Alternatives.{Varied, alternative_routes-Varied, alternative_setting}
use crucible_ai.Routing.Grid.{arc-IsArc}
use crucible_ai.Prelude.{
  Bool, Option, String, [], arith, false, if◌then◌else◌, inl, inr, leb, none, refl, some, suc, true,
  zero, ℕ, ◌&&◌, ◌*◌, ◌+◌, ◌-◌, ◌/◌, ◌∷◌, ◌≡◌, ◌≢◌, ◌≤◌,
}

-- A grid of three rows and columns, with cells of length 5, whose middle row can be passed at its
-- third column only; the distance is five for each row apart.
abbrev rows_apart : ℕ → ℕ → ℕ
rows_apart a b = (a - b) + (b - a)

abbrev small : Surface
small = record {
  n = 3;
  cell_km = 5;
  diagonal_km = 7;
  alpha_distance = 1;
  cost_per_km = λ c. if leb 2 c.1 then 4 else 1;
  blocked = λ c. leb 1 c.0 && leb c.0 1 && leb c.1 1;
  distance_km = λ a b. 5 * rows_apart a.0 b.0;
}

abbrev trip : Query
trip = record { surface = small; start = (0, 0); goal = (2, 0); diagonal = true; penalty = none }

trip_run :
    astar trip
    ≡ goal_reached
        (record { cells = (0, 0) ∷ (0, 1) ∷ (1, 2) ∷ (2, 1) ∷ (2, 0) ∷ []; nodes_expanded = 7 })
unfolding astar search_from turn first_search neighbours arc enter_cell step_cost edge_km h
    min_cost_per_km reconstruct trace
trip_run = refl

-- ---- the small grid is metric

shifted-near : (n k : ℕ) (d : Shift) (j : ℕ) → shifted n d k ≡ some j → (j ≤ k + 1) × (k ≤ j + 1)
shifted-near n zero back j e = absurd (ground arith)
shifted-near n (suc k) back j e = ground arith
shifted-near n k stay j e = ground arith
shifted-near n k ahead j e = ground arith

cell_at-row : (o p : Option ℕ) (t : Cell) → cell_at o p ≡ some t → o ≡ some t.0
cell_at-row (some r) (some c) t e = cc e
cell_at-row (some r) none t e = absurd (cc e)
cell_at-row none p t e = absurd (cc e)

rows_near : (a b g : ℕ) → a ≤ b + 1 → b ≤ a + 1 → rows_apart a g ≤ 1 + rows_apart b g
rows_near a b g l k = omega arith

small_floor : (c : Cell) → 1 ≤ small.cost_per_km c
small_floor c = ground arith

edge_least : (d : Offset) → 5 ≤ edge_km small d
unfolding edge_km
edge_least d = ground arith

small-IsMetric :
    (start goal : Cell) (diagonal : Bool) (penalty : Option (Cell → ℕ))
    → IsMetric (record {
      surface = small;
      start = start;
      goal = goal;
      diagonal = diagonal;
      penalty = penalty;
    })
small-IsMetric s g d p = record {
  floor = small_floor;
  shrinks = λ u o a e.
      let k = arc-IsArc _ u o a e in
      let (l, m) = shifted-near 3 (u / 3) o.dy a.target.0 (cell_at-row _ _ a.target k.reached) in
      omega (arith, rows_near (u / 3) a.target.0 g.0 m l, edge_least o);
}

trip-IsPlaced : IsPlaced trip
trip-IsPlaced = record {
  start_inside = (omega arith, omega arith);
  goal_inside = (omega arith, omega arith);
}

-- ---- the way of the run, step by step

lead :
    (q : Query) (u : ℕ) (d : Offset) (a : Arc)
    → In d (neighbours q.diagonal)
    → arc q u d ≡ some a
    → Leads q u a.node a.step
lead q u d a i e = (d, a, i, e, refl, refl)

abbrev east : Arc
east = record { target = (0, 1); node = 1; step = 10 }

abbrev south_east : Arc
south_east = record { target = (1, 2); node = 5; step = 35 }

abbrev south_west : Arc
south_west = record { target = (2, 1); node = 7; step = 35 }

abbrev west : Arc
west = record { target = (2, 0); node = 6; step = 10 }

trip-Way : Way trip 6 90 (6 ∷ 7 ∷ 5 ∷ 1 ∷ 0 ∷ [])
unfolding arc enter_cell step_cost edge_km neighbours
trip-Way =
    go
      (go
        (go
          (go stand (
            lead trip 0 (record { dy = stay; dx = ahead; slanted = false }) east
              (inr (inr (inr (inl refl)))) refl))
          (lead trip 1 (record { dy = ahead; dx = ahead; slanted = true }) south_east
            (inr (inr (inr (inr (inr (inr (inr (inl refl)))))))) refl))
        (lead trip 5 (record { dy = ahead; dx = back; slanted = true }) south_west
          (inr (inr (inr (inr (inr (inr (inl refl))))))) refl))
      (lead trip 7 (record { dy = stay; dx = back; slanted = false }) west (inr (inr (inl refl)))
        refl)

astar-Reaches_example : Reaches trip 90 (astar trip)
astar-Reaches_example =
    astar-Reaches trip 90 (6 ∷ 7 ∷ 5 ∷ 1 ∷ 0 ∷ []) trip-IsPlaced
      (small-IsMetric (0, 0) (2, 0) true none) refl refl trip-Way

astar-Settles_example : Settles trip (astar trip)
astar-Settles_example = astar-Settles trip trip-IsPlaced (small-IsMetric (0, 0) (2, 0) true none)

astar_finished_example : astar trip ≢ unfinished
astar_finished_example = astar_finished trip trip-IsPlaced

-- ---- routes through points

abbrev shift_setting : Setting
shift_setting = record { surface = small; diagonal = true; penalty = none; label = "primary" }

abbrev primary_route : RouteResult
primary_route = record {
  cells = (0, 0) ∷ (0, 1) ∷ (1, 2) ∷ (2, 1) ∷ (2, 0) ∷ [];
  distance_km = 10;
  total_cost = 50;
  nodes_expanded = 7;
  label = "primary";
  penalty_applied = 0;
}

route_through_run : route_through shift_setting ((0, 0) ∷ (2, 0) ∷ []) ≡ routed primary_route
unfolding route_through legs_through add_leg leg_query finalise astar search_from turn first_search
    neighbours arc enter_cell step_cost edge_km h min_cost_per_km reconstruct trace
route_through_run = refl

setting-IsMetric : (a b : Cell) → IsMetric (leg_query shift_setting a b)
unfolding leg_query
setting-IsMetric a b = small-IsMetric a b true none

primary-Tour :
    Tour shift_setting
      ((0, 0) ∷ (2, 0) ∷ [])
      (90 + 0)
      ((0, 0) ∷ (0, 1) ∷ (1, 2) ∷ (2, 1) ∷ (2, 0) ∷ [])
unfolding leg_query
primary-Tour = leg trip-Way (at_end (2, 0))

route_through-Tours_example :
    Tours shift_setting
      ((0, 0) ∷ (2, 0) ∷ [])
      (90 + 0)
      (route_through shift_setting ((0, 0) ∷ (2, 0) ∷ []))
route_through-Tours_example =
    route_through-Tours shift_setting setting-IsMetric (0, 0) (2, 0) [] (90 + 0)
      ((0, 0) ∷ (0, 1) ∷ (1, 2) ∷ (2, 1) ∷ (2, 0) ∷ [])
      (((omega arith, omega arith), refl), (((omega arith, omega arith), refl), tt)) primary-Tour

abbrev corridor : Corridor
corridor = record { corridor_cells = 2; scale = 6 }

abbrev label_of : ℕ → String
label_of i = if leb 1 i then "alternative-2" else "alternative-1"

alternative-IsMetric :
    (p : Cell → ℕ) (l : String) (a b : Cell)
    → IsMetric (leg_query (alternative_setting small true p l) a b)
unfolding leg_query
alternative-IsMetric p l a b = small-IsMetric a b true (some p)

alternative_routes-Varied_example :
    Varied small true
      ((0, 0) ∷ (2, 0) ∷ [])
      primary_route
      2
      (alternative_routes small true corridor label_of ((0, 0) ∷ (2, 0) ∷ []) primary_route 2)
alternative_routes-Varied_example =
    alternative_routes-Varied small true corridor label_of (0, 0) (2, 0) [] primary_route
      ((omega arith, omega arith), ((omega arith, omega arith), tt)) alternative-IsMetric 2
