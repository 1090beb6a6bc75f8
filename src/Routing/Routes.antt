-- ===== src/Routing/Routes.antt =====
-- `_finalise`, `route_through`, `alternative_routes` and `_overlap` of
-- app/api/core/routing/astar.py. Of what `_finalise` measures, the distance, the cost and the penalty,
-- the cost in half units; the travel time, the means of the factors and the
-- coordinates are left out. `scale`, the strength of a corridor, is an argument.
use crucible_ai.Routing.Surface.{Cell, Surface}
use crucible_ai.Routing.Search.{
  Found, Verdict, Query, Reason, astar, goal_reached, no_route, penalty_at, same, unfinished,
}
use crucible_ai.Prelude.{
  Bool, List, Option, String, [], any, if◌then◌else◌, keep, leb, length, ltb, none, some, suc, zero,
  ℕ, ◌&&◌, ◌*◌, ◌++◌, ◌+◌, ◌-◌, ◌||◌, ◌∷◌,
}

pub record RouteResult : Type 0 where
  pub cells : List Cell
  pub distance_km : ℕ
  pub total_cost : ℕ
  pub nodes_expanded : ℕ
  pub label : String
  pub penalty_applied : ℕ

-- What the routing functions are given beside the points.
pub record Setting : Type 0 where
  pub surface : Surface
  pub diagonal : Bool
  pub penalty : Option (Cell → ℕ)
  pub label : String

-- The sums over the segments of a path: the distance, the cost and the penalty.
abbrev pub segment_sums : Surface → Option (Cell → ℕ) → List Cell → ℕ × ℕ × ℕ
segment_sums s p [] = (0, 0, 0)
segment_sums s p (a ∷ []) = (0, 0, 0)
segment_sums s p (a ∷ b ∷ cs) =
    let (km, cost, pen) = segment_sums s p (b ∷ cs) in
    let seg = s.distance_km a b in
    (seg + km, (s.cost_per_km a + s.cost_per_km b) * seg + cost, penalty_at p b * seg + pen)

unfoldable pub finalise : Setting → List Cell → ℕ → RouteResult
finalise s cells expanded =
    let (km, cost, pen) = segment_sums s.surface s.penalty cells in
    record {
      cells = cells;
      distance_km = km;
      total_cost = cost;
      nodes_expanded = expanded;
      label = s.label;
      penalty_applied = pen;
    }

pub data Routed : Type 0 where
  routed : RouteResult → Routed
  no_route_error : Reason → Routed
  -- fewer than two points
  value_error : Routed
  out_of_fuel : Routed

-- The legs, or the outcome of the first one that failed.
pub data Legs : Type 0 where
  legs : List Found → Legs
  failed_leg : Verdict → Legs

unfoldable pub leg_query : Setting → Cell → Cell → Query
leg_query s a b = record {
  surface = s.surface;
  start = a;
  goal = b;
  diagonal = s.diagonal;
  penalty = s.penalty;
}

unfoldable pub add_leg : Verdict → Legs → Legs
add_leg (goal_reached r) (legs rs) = legs (r ∷ rs)
add_leg (goal_reached r) (failed_leg o) = failed_leg o
add_leg (no_route e) l = failed_leg (no_route e)
add_leg unfinished l = failed_leg unfinished

unfoldable pub legs_through : Setting → List Cell → Legs
unfolding add_leg
legs_through s [] = legs []
legs_through s (a ∷ []) = legs []
legs_through s (a ∷ b ∷ ps) = add_leg (astar (leg_query s a b)) (legs_through s (b ∷ ps))

abbrev pub drop_first : List Cell → List Cell
drop_first [] = []
drop_first (c ∷ cs) = cs

-- The cells of the legs after the first one, each without its junction.
abbrev pub later_cells : List Found → List Cell
later_cells [] = []
later_cells (r ∷ rs) = drop_first r.cells ++ later_cells rs

abbrev pub merged_cells : List Found → List Cell
merged_cells [] = []
merged_cells (r ∷ rs) = r.cells ++ later_cells rs

abbrev pub expanded_sum : List Found → ℕ
expanded_sum [] = 0
expanded_sum (r ∷ rs) = r.nodes_expanded + expanded_sum rs

abbrev pub finish_route : Setting → Legs → Routed
finish_route s (legs rs) = routed (finalise s (merged_cells rs) (expanded_sum rs))
finish_route s (failed_leg (goal_reached r)) = out_of_fuel
finish_route s (failed_leg (no_route e)) = no_route_error e
finish_route s (failed_leg unfinished) = out_of_fuel

unfoldable pub route_through : Setting → List Cell → Routed
route_through s points =
    if ltb (length points) 2 then value_error else finish_route s (legs_through s points)

-- ---- the alternatives

abbrev pub same_cell : Cell → Cell → Bool
same_cell a b = same a.0 b.0 && same a.1 b.1

abbrev pub is_in : Cell → List Cell → Bool
is_in c cs = any (same_cell c) cs

-- `set(a)`, as the last occurrences
abbrev pub distinct_cells : List Cell → List Cell
distinct_cells [] = []
distinct_cells (c ∷ cs) = let rest = distinct_cells cs in if is_in c cs then rest else c ∷ rest

unfoldable pub shared_cells : List Cell → List Cell → ℕ
shared_cells a b = length (keep (λ c. is_in c b) (distinct_cells a))

-- `_overlap(a, b) > 0.85`
unfoldable pub overlaps : RouteResult → RouteResult → Bool
overlaps a b = ltb (17 * length a.cells) (20 * shared_cells a.cells b.cells)

abbrev pub is_near : ℕ → Cell → Cell → Bool
is_near k a b = leb (a.0 - k) b.0 && leb b.0 (a.0 + k) && (leb (a.1 - k) b.1 && leb b.1 (a.1 + k))

-- `add_corridor`
unfoldable pub add_corridor : ℕ → ℕ → RouteResult → (Cell → ℕ) → Cell → ℕ
add_corridor k scale r penalty c = penalty c + scale * length (keep (λ a. is_near k a c) r.cells)

pub record Corridor : Type 0 where
  pub corridor_cells : ℕ
  pub scale : ℕ

unfoldable pub is_duplicate : RouteResult → RouteResult → List RouteResult → Bool
is_duplicate alt primary results = overlaps alt primary || any (overlaps alt) results

-- The loop, with the number of turns left and the results so far; the label of the next route is drawn
-- from its number. `none` stands for an error that it does not catch.
unfoldable pub search_more :
    Surface
    → Bool
    → Corridor
    → (ℕ → String)
    → List Cell
    → RouteResult
    → ℕ
    → ℕ
    → (Cell → ℕ)
    → List RouteResult
    → Option (List RouteResult)
search_more s d k name points primary i zero penalty results = some results
search_more s d k name points primary i (suc left) penalty results =
    elim (route_through
      (record { surface = s; diagonal = d; penalty = some penalty; label = name i }) points) [
        | routed alt ↦
            search_more s d k name points primary (suc i) left
              (add_corridor k.corridor_cells k.scale alt penalty)
              (if is_duplicate alt primary results then results else results ++ alt ∷ [])
        | no_route_error e ↦ some results
        | value_error ↦ none
        | out_of_fuel ↦ none
      ]

unfoldable pub alternative_routes :
    Surface
    → Bool
    → Corridor
    → (ℕ → String)
    → List Cell
    → RouteResult
    → ℕ
    → Option (List RouteResult)
alternative_routes s d k name points primary count =
    search_more s d k name points primary 0 count
      (add_corridor k.corridor_cells k.scale primary (λ _. 0)) []
