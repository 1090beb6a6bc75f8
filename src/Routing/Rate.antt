-- ===== src/Routing/Rate.antt =====
-- The rate of the heuristic, `min_cost_per_km`, is no greater than the cost of any cell that can be
-- entered.
use crucible_ai.Routing.Surface.{
  Cell, Surface, greater_of, grid_cells, least_of, min_cost_per_km, rate_over, row_cells,
  traversable,
}
use crucible_ai.Routing.Heap.{In}
use crucible_ai.Routing.Grid.{Inside}
use crucible_ai.Prelude.{
  Bool-cases, List, [], ap, arith, false, if◌then◌else◌, inl, inr, ltb, refl, suc, sym, zero, ℕ,
  ◌++◌, ◌<◌, ◌∷◌, ◌≡◌, ◌≤◌, ◌⊎◌,
}

lower_of : (x y : ℕ) → ((if ltb x y then x else y) ≤ x) × ((if ltb x y then x else y) ≤ y)
lower_of x y = ground arith

least_of-first : (m : ℕ) (xs : List ℕ) → least_of m xs ≤ m
least_of-first m [] = omega arith
least_of-first m (x ∷ xs) = omega (arith, (lower_of x (least_of m xs)).1, least_of-first m xs)

least_of-le : (m : ℕ) (xs : List ℕ) (y : ℕ) → In y (m ∷ xs) → least_of m xs ≤ y
least_of-le m xs y (inl e) = rw e (least_of-first m xs)
least_of-le m [] y (inr i) = absurd i
least_of-le m (x ∷ xs) y (inr (inl e)) = rw e (lower_of x (least_of m xs)).0
least_of-le m (x ∷ xs) y (inr (inr i)) =
    omega (arith, (lower_of x (least_of m xs)).1, least_of-le m xs y (inr i))

In-left : {A : Type 0} (a : A) (xs ys : List A) → In a xs → In a (xs ++ ys)
In-left a [] ys i = absurd i
In-left a (x ∷ xs) ys (inl e) = inl e
In-left a (x ∷ xs) ys (inr i) = inr (In-left a xs ys i)

In-right : {A : Type 0} (a : A) (xs ys : List A) → In a ys → In a (xs ++ ys)
In-right a [] ys i = i
In-right a (x ∷ xs) ys i = inr (In-right a xs ys i)

below_suc : (c n : ℕ) → c < suc n → (c ≡ n) ⊎ (c < n)
below_suc c n l = ground arith

row_cells-In : (r n c : ℕ) → c < n → In (r, c) (row_cells r n)
row_cells-In r zero c l = absurd (omega (arith, l))
row_cells-In r (suc n) c l = elim (below_suc c n l) [
  | inl e ↦ In-right (r, c) (row_cells r n) ((r, n) ∷ []) (inl (ap (λ x. (r, x)) e))
  | inr k ↦ In-left (r, c) (row_cells r n) ((r, n) ∷ []) (row_cells-In r n c k)
]

grid_cells-In : (n k r c : ℕ) → r < k → c < n → In (r, c) (grid_cells n k)
grid_cells-In n zero r c p l = absurd (omega (arith, p))
grid_cells-In n (suc k) r c p l = elim (below_suc r k p) [
  | inl e ↦ In-right (r, c) (grid_cells n k) (row_cells k n) (rw e (row_cells-In k n c l))
  | inr p' ↦ In-left (r, c) (grid_cells n k) (row_cells k n) (grid_cells-In n k r c p' l)
]

traversable-In :
    (s : Surface) (c : Cell) (cs : List Cell)
    → s.blocked c ≡ false
    → In c cs
    → In (s.cost_per_km c) (traversable s cs)
traversable-In s c [] b i = absurd i
traversable-In s c (d ∷ cs) b (inl e) = rw (sym e, b) (inl refl)
traversable-In s c (d ∷ cs) b (inr i) = elim (Bool-cases (s.blocked d)) [
  | inl k ↦ rw k (traversable-In s c cs b i)
  | inr k ↦ rw k (inr (traversable-In s c cs b i))
]

greater_of-le : (a b x : ℕ) → a ≤ x → b ≤ x → greater_of a b ≤ x
greater_of-le a b x p q = ground arith

rate_over-le : (a x : ℕ) (xs : List ℕ) → a ≤ x → In x xs → rate_over a xs ≤ x
rate_over-le a x [] l i = absurd i
rate_over-le a x (y ∷ ys) l i = greater_of-le a (least_of y ys) x l (least_of-le y ys x i)

-- No cell of the grid that is not blocked costs less than the rate.
pub min_cost_per_km-le :
    (s : Surface) (c : Cell)
    → s.alpha_distance ≤ s.cost_per_km c
    → Inside s.n c
    → s.blocked c ≡ false
    → min_cost_per_km s ≤ s.cost_per_km c
unfolding min_cost_per_km
min_cost_per_km-le s c l i b =
    rate_over-le s.alpha_distance (s.cost_per_km c) (traversable s (grid_cells s.n s.n)) l
      (traversable-In s c (grid_cells s.n s.n) b (grid_cells-In s.n s.n c.0 c.1 i.0 i.1))
