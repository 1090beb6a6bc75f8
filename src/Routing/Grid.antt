-- ===== src/Routing/Grid.antt =====
-- Indices and cells of the grid.
use Prim.Native.Nat.{◌%◌}
use native.Mathlib.Nat.{mul-le-mul_right}
use crucible_ai.Routing.Surface.{Cell, Shift, back, stay, ahead, shifted, Offset, cell_at}
use crucible_ai.Routing.Search.{cell_of, index_of, Arc, Query, step_cost, arc, h, enter_cell}
use crucible_ai.Routing.Ways.{h_at}
use crucible_ai.Prelude.{
  Bool, Option, ap, arith, false, if◌then◌else◌, none, refl, some, suc, sym, true, zero, ℕ, ◌*◌,
  ◌+◌, ◌/◌, ◌<◌, ◌≡◌,
}

-- Rows are of one length: two positions of the same index are the same.
position_unique : (n a b c d : ℕ) → b < n → d < n → a * n + b ≡ c * n + d → (a ≡ c) × (b ≡ d)
position_unique n zero b zero d p q e = omega arith
position_unique n zero b (suc c) d p q e = absurd (omega arith)
position_unique n (suc a) b zero d p q e = absurd (omega arith)
position_unique n (suc a) b (suc c) d p q e =
    let (x, y) = position_unique n a b c d p q (omega arith) in (ap suc x, y)

pub cell-index : (n : ℕ) (c : Cell) → c.1 < n → cell_of n (index_of n c) ≡ c
cell-index n (r, c) l =
    let i = r * n + c in
    let (x, y) = position_unique n (i / n) (i % n) r c (omega arith) l (omega arith) in
    rw (x, y) refl

-- Within the grid.
abbrev pub Inside : ℕ → Cell → Type 0
Inside n c = (c.0 < n) × (c.1 < n)

pub index-bound : (n : ℕ) (c : Cell) → c.0 < n → c.1 < n → index_of n c < n * n
index-bound n (r, c) p q = omega (arith, p, q, mul-le-mul_right n p)

shifted-lt : (n k : ℕ) (d : Shift) (j : ℕ) → shifted n d k ≡ some j → j < n
shifted-lt n zero back j e = absurd (ground arith)
shifted-lt n (suc k) back j e = ground arith
shifted-lt n k stay j e = ground arith
shifted-lt n k ahead j e = ground arith

cell_at-Inside :
    (n : ℕ) (o p : Option ℕ) (t : Cell)
    → ((j : ℕ) → o ≡ some j → j < n)
    → ((j : ℕ) → p ≡ some j → j < n)
    → cell_at o p ≡ some t
    → Inside n t
cell_at-Inside n none p t f g e = absurd (cc e)
cell_at-Inside n (some r) none t f g e = absurd (cc e)
cell_at-Inside n (some r) (some c) t f g e =
    let z : (r, c) ≡ t = cc e in rw (sym z) (f r refl, g c refl)

-- What an edge is: its end is an inside cell that is not blocked, with its index and its cost.
pub record IsArc (q : Query) (u : ℕ) (d : Offset) (a : Arc) : Type 0 where
  pub inside : Inside q.surface.n a.target
  pub clear : q.surface.blocked a.target ≡ false
  pub index : a.node ≡ index_of q.surface.n a.target
  pub cost : a.step ≡ step_cost q (cell_of q.surface.n u) d a.target
  pub reached :
      cell_at
        (shifted q.surface.n d.dy (u / q.surface.n))
        (shifted q.surface.n d.dx (u % q.surface.n))
      ≡ some a.target

if_some :
    {A : Type 0} (b : Bool) {x a : A}
    → (if b then none else some x) ≡ some a
    → (b ≡ false) × (x ≡ a)
if_some true e = absurd (cc e)
if_some false e = (refl, cc e)

enter_cell-cases :
    (q : Query) (c : Cell) (d : Offset) (o : Option Cell) (a : Arc)
    → enter_cell q c d o ≡ some a
    → (t : Cell) × (o ≡ some t)
      × (q.surface.blocked t ≡ false)
      × (a.target ≡ t)
      × (a.node ≡ index_of q.surface.n t)
      × (a.step ≡ step_cost q c d t)
unfolding enter_cell
enter_cell-cases q c d none a e = absurd (cc e)
enter_cell-cases q c d (some t) a e =
    let (b, z) = if_some (q.surface.blocked t) e in
    (
      t,
      refl,
      b,
      ap (λ (x : Arc). x.target) (sym z),
      ap (λ (x : Arc). x.node) (sym z),
      ap (λ (x : Arc). x.step) (sym z),
    )

pub arc-IsArc : (q : Query) (u : ℕ) (d : Offset) (a : Arc) → arc q u d ≡ some a → IsArc q u d a
unfolding arc
arc-IsArc q u d a e =
    let n = q.surface.n in
    let (t, o, b, z, i, s) = enter_cell-cases q (cell_of n u) d _ a e in
    record {
      inside =
          rw z (cell_at-Inside n _ _ t (shifted-lt n (u / n) d.dy) (shifted-lt n (u % n) d.dx) o);
      clear = rw z b;
      index = rw z i;
      cost = rw z s;
      reached = rw z o;
    }

pub arc-priority :
    (q : Query) (u : ℕ) (d : Offset) (a : Arc) → arc q u d ≡ some a → h q a.target ≡ h_at q a.node
arc-priority q u d a e =
    let k = arc-IsArc q u d a e in
    rw (k.index) (ap (h q) (sym (cell-index q.surface.n a.target k.inside.1)))
