-- ===== src/Routing/Search.antt =====
-- `astar` of app/api/core/routing/astar.py. The maps and arrays over the indices of the cells are
-- functions, an infinite score is `none`, the heap is a list from which the least pair is taken, and
-- the loop runs on fuel: nine turns for each cell, and two.
use Prim.Native.Nat.{◌%◌, compare, Ordering}
use crucible_ai.Routing.Surface.{
  Cell, Offset, Surface, cell_at, edge_km, min_cost_per_km, neighbours, shifted,
}
use crucible_ai.Prelude.{
  Bool, List, Option, [], false, if◌then◌else◌, ltb, map, none, reverse, some, suc, true, zero, ℕ,
  ◌&&◌, ◌*◌, ◌+◌, ◌/◌, ◌||◌, ◌∷◌,
}

pub data Reason : Type 0 where
  start_blocked : Reason
  goal_blocked : Reason
  unreachable : Reason

-- The cells that `_finalise` is given, and the number of expanded nodes.
pub record Found : Type 0 where
  pub cells : List Cell
  pub nodes_expanded : ℕ

pub data Verdict : Type 0 where
  goal_reached : Found → Verdict
  no_route : Reason → Verdict
  -- the fuel has run out
  unfinished : Verdict

pub record Query : Type 0 where
  pub surface : Surface
  pub start : Cell
  pub goal : Cell
  pub diagonal : Bool
  pub penalty : Option (Cell → ℕ)

-- A pair of the heap: a priority and an index.
abbrev pub Entry : Type 0
Entry = ℕ × ℕ

pub record Search : Type 0 where
  pub g_score : ℕ → Option ℕ
  pub came_from : ℕ → Option ℕ
  pub closed : ℕ → Bool
  pub open_heap : List Entry
  pub expanded : ℕ

abbrev pub same : ℕ → ℕ → Bool
same a b = elim (compare a b) [ Ordering.eq ↦ true | _ ↦ false ]

abbrev pub put : {A : Type 0} → ℕ → A → (ℕ → A) → ℕ → A
put k a f i = if same i k then a else f i

abbrev pub index_of : ℕ → Cell → ℕ
index_of n c = c.0 * n + c.1

abbrev pub cell_of : ℕ → ℕ → Cell
cell_of n i = (i / n, i % n)

-- `h`, in half units
unfoldable pub h : Query → Cell → ℕ
h q c = 2 * (q.surface.distance_km c q.goal * min_cost_per_km q.surface)

-- `p < q` on the pairs of the heap
abbrev pub is_before : Entry → Entry → Bool
is_before p q = ltb p.0 q.0 || same p.0 q.0 && ltb p.1 q.1

-- `heappop`: the least pair and the others
abbrev pub pop_least : Entry → List Entry → Entry × List Entry
pop_least p [] = (p, [])
pop_least p (q ∷ qs) =
    let (m, rest) = pop_least (if is_before q p then q else p) qs in
    (m, (if is_before q p then p else q) ∷ rest)

-- A neighbour that can be entered, its index, and the cost of the edge in half units.
pub record Arc : Type 0 where
  pub target : Cell
  pub node : ℕ
  pub step : ℕ

abbrev pub penalty_at : Option (Cell → ℕ) → Cell → ℕ
penalty_at none c = 0
penalty_at (some p) c = p c

-- `step`, in half units
unfoldable pub step_cost : Query → Cell → Offset → Cell → ℕ
step_cost q c d t =
    (q.surface.cost_per_km c + q.surface.cost_per_km t) * edge_km q.surface d
    + 2 * (penalty_at q.penalty t * edge_km q.surface d)

unfoldable pub enter_cell : Query → Cell → Offset → Option Cell → Option Arc
enter_cell q c d none = none
enter_cell q c d (some t) =
    if q.surface.blocked t
    then none
    else some (record { target = t; node = index_of q.surface.n t; step = step_cost q c d t })

-- The edge from a cell by an offset, where its end is in the grid and not blocked.
unfoldable pub arc : Query → ℕ → Offset → Option Arc
unfolding enter_cell
arc q current d =
    let n = q.surface.n in
    let (cr, cc) = cell_of n current in
    enter_cell q (cr, cc) d (cell_at (shifted n d.dy cr) (shifted n d.dx cc))

abbrev pub add_step : Option ℕ → ℕ → Option ℕ
add_step none w = none
add_step (some g) w = some (g + w)

-- `tentative < g_score[neighbour]`
abbrev pub is_less : ℕ → Option ℕ → Bool
is_less t none = true
is_less t (some g) = ltb t g

abbrev pub improve : Query → ℕ → Arc → Option ℕ → Search → Search
improve q current a none st = st
improve q current a (some t) st =
    if is_less t (st.g_score a.node)
    then record st {
      g_score = put a.node (some t) st.g_score;
      came_from = put a.node (some current) st.came_from;
      open_heap = (t + h q a.target, a.node) ∷ st.open_heap;
    }
    else st

abbrev pub relax_arc : Query → ℕ → Option Arc → Search → Search
relax_arc q current none st = st
relax_arc q current (some a) st =
    if st.closed a.node then st else improve q current a (add_step (st.g_score current) a.step) st

-- The loop over the neighbours.
abbrev pub relax_all : Query → ℕ → List Offset → Search → Search
relax_all q current [] st = st
relax_all q current (d ∷ ds) st = relax_all q current ds (relax_arc q current (arc q current d) st)

-- `_reconstruct`, on fuel, before it reverses
unfoldable pub trace : (ℕ → Option ℕ) → ℕ → ℕ → List ℕ
trace came zero i = i ∷ []
trace came (suc k) i = elim (came i) [ none ↦ i ∷ [] | some j ↦ i ∷ trace came k j ]

unfoldable pub reconstruct : Query → Search → ℕ → List Cell
reconstruct q st current =
    map (cell_of q.surface.n) (reverse (trace st.came_from st.expanded current))

pub data Turn : Type 0 where
  going : Search → Turn
  ended : Verdict → Turn

abbrev pub close_cell : ℕ → List Entry → Search → Search
close_cell current rest st = record st {
  closed = put current true st.closed;
  open_heap = rest;
  expanded = suc st.expanded;
}

-- What the loop does with a popped index.
abbrev pub expand : Query → ℕ → List Entry → Search → Turn
expand q current rest st =
    if st.closed current
    then going (record st { open_heap = rest })
    else if same current (index_of q.surface.n q.goal)
    then ended (
        goal_reached (record {
          cells = reconstruct q (close_cell current rest st) current;
          nodes_expanded = suc st.expanded;
        }))
    else going (relax_all q current (neighbours q.diagonal) (close_cell current rest st))

unfoldable pub turn : Query → Search → Turn
turn q st = elim st.open_heap [
  | [] ↦ ended (no_route unreachable)
  | p ∷ ps ↦ (let (m, rest) = pop_least p ps in expand q m.1 rest st)
]

unfoldable pub search_from : Query → ℕ → Search → Verdict
search_from q zero st = unfinished
search_from q (suc k) st = elim (turn q st) [ going t ↦ search_from q k t | ended o ↦ o ]

unfoldable pub first_search : Query → Search
first_search q =
    let i = index_of q.surface.n q.start in
    record {
      g_score = put i (some 0) (λ _. none);
      came_from = λ _. none;
      closed = λ _. false;
      open_heap = (h q q.start, i) ∷ [];
      expanded = 0;
    }

unfoldable pub astar : Query → Verdict
astar q =
    if q.surface.blocked q.start
    then no_route start_blocked
    else if q.surface.blocked q.goal
    then no_route goal_blocked
    else search_from q (9 * (q.surface.n * q.surface.n) + 2) (first_search q)
