-- ===== src/Routing/Surface.antt =====
-- The surface that the routing searches: `CostSurface` and its `min_cost_per_km` of
-- app/api/core/routing/cost.py, and `_NEIGHBOURS_8`, `_neighbours` and the bounds test of `astar` in
-- app/api/core/routing/astar.py beside it. Costs, lengths and penalties are whole numbers of a unit;
-- what the code takes half of is counted in half units. The great-circle distance and the length of a
-- diagonal, which take trigonometry and a square root, are fields of the surface.
use crucible_ai.Prelude.{
  Bool, List, Option, [], false, if◌then◌else◌, ltb, none, some, suc, true, zero, ℕ, ◌++◌, ◌+◌, ◌∷◌,
}

abbrev pub Cell : Type 0
Cell = ℕ × ℕ

pub record Surface : Type 0 where
  pub n : ℕ
  pub cell_km : ℕ
  -- `cell_km * sqrt(2)`
  pub diagonal_km : ℕ
  pub alpha_distance : ℕ
  pub cost_per_km : Cell → ℕ
  pub blocked : Cell → Bool
  -- `haversine_km` between the centres of two cells
  pub distance_km : Cell → Cell → ℕ

-- A change of a coordinate by -1, 0 or 1.
pub data Shift : Type 0 where
  back : Shift
  stay : Shift
  ahead : Shift

-- An offset `(dy, dx, mult)`, with `mult` one or the square root of two.
pub record Offset : Type 0 where
  pub dy : Shift
  pub dx : Shift
  pub slanted : Bool

abbrev pub neighbours_4 : List Offset
neighbours_4 =
    record { dy = back; dx = stay; slanted = false }
    ∷ record { dy = ahead; dx = stay; slanted = false }
    ∷ record { dy = stay; dx = back; slanted = false }
    ∷ record { dy = stay; dx = ahead; slanted = false }
    ∷ []

abbrev pub neighbours_8 : List Offset
neighbours_8 =
    neighbours_4
    ++ record { dy = back; dx = back; slanted = true }
      ∷ record { dy = back; dx = ahead; slanted = true }
      ∷ record { dy = ahead; dx = back; slanted = true }
      ∷ record { dy = ahead; dx = ahead; slanted = true }
      ∷ []

unfoldable pub neighbours : Bool → List Offset
neighbours diagonal = if diagonal then neighbours_8 else neighbours_4

-- `k + d` where it is a coordinate of the grid
abbrev pub shifted : ℕ → Shift → ℕ → Option ℕ
shifted n back zero = none
shifted n back (suc k) = if ltb k n then some k else none
shifted n stay k = if ltb k n then some k else none
shifted n ahead k = if ltb (k + 1) n then some (k + 1) else none

abbrev pub cell_at : Option ℕ → Option ℕ → Option Cell
cell_at (some r) (some c) = some (r, c)
cell_at (some r) none = none
cell_at none _ = none

unfoldable pub edge_km : Surface → Offset → ℕ
edge_km s d = if d.slanted then s.diagonal_km else s.cell_km

-- The cells of a row, and those of the grid, in the order of the array.
abbrev pub row_cells : ℕ → ℕ → List Cell
row_cells r zero = []
row_cells r (suc k) = row_cells r k ++ (r, k) ∷ []

abbrev pub grid_cells : ℕ → ℕ → List Cell
grid_cells n zero = []
grid_cells n (suc k) = grid_cells n k ++ row_cells k n

-- The costs of the cells that are not blocked.
abbrev pub traversable : Surface → List Cell → List ℕ
traversable s [] = []
traversable s (c ∷ cs) =
    let rest = traversable s cs in if s.blocked c then rest else s.cost_per_km c ∷ rest

abbrev pub least_of : ℕ → List ℕ → ℕ
least_of m [] = m
least_of m (x ∷ xs) = let rest = least_of m xs in if ltb x rest then x else rest

abbrev pub greater_of : ℕ → ℕ → ℕ
greater_of a b = if ltb a b then b else a

abbrev pub rate_over : ℕ → List ℕ → ℕ
rate_over alpha [] = alpha
rate_over alpha (x ∷ xs) = greater_of alpha (least_of x xs)

unfoldable pub min_cost_per_km : Surface → ℕ
min_cost_per_km s = rate_over s.alpha_distance (traversable s (grid_cells s.n s.n))
