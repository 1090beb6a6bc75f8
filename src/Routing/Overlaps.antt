-- ===== src/Routing/Overlaps.antt =====
-- What `_overlap` of app/api/core/routing/astar.py counts: the cells that two routes have in common.
use crucible_ai.Routing.Surface.{Cell}
use crucible_ai.Routing.Routes.{
  RouteResult, distinct_cells, is_in, overlaps, same_cell, shared_cells,
}
use crucible_ai.Prelude.{
  All, All-append, Bool, Bool-cases, List, [], any, arith, false, if_split, inl, inr, keep, length,
  refl, sym, true, ◌*◌, ◌∙◌, ◌∷◌, ◌≡◌, ◌≤◌, ◌⊎◌, ◌||◌, ◌++◌,
}
use mathlib.Core.Bool.{false≢true}
use mathlib.Core.Path.{subst}

abbrev pub Has : Cell → List Cell → Type 0
Has c [] = ⊥
Has c (x ∷ xs) = (c ≡ x) ⊎ Has c xs

abbrev pub NoRepeats : List Cell → Type 0
NoRepeats [] = Unit
NoRepeats (x ∷ xs) = (Has x xs → ⊥) × NoRepeats xs

-- The list has each cell that is in both of the others once, and no other cell.
pub record IsCommon (a b cs : List Cell) : Type 0 where
  pub distinct : NoRepeats cs
  pub in_both : (c : Cell) → Has c cs → Has c a × Has c b
  pub all_of_both : (c : Cell) → Has c a → Has c b → Has c cs

-- The cells that two routes have in common are at most 85 % of the entries of the first.
abbrev pub Apart : List Cell → List Cell → Type 0
Apart a b = (cs : List Cell) × IsCommon a b cs × (20 * length cs ≤ 17 * length a)

same_cell_refl : (c : Cell) → same_cell c c ≡ true
same_cell_refl c = ground arith

same_cell_path : (a b : Cell) → same_cell a b ≡ true → a ≡ b
same_cell_path a b e =
    let p : a.0 ≡ b.0 = ground (arith, e) in
    let q : a.1 ≡ b.1 = ground (arith, e) in λ i. (p i, q i)

is_in-Has : (c : Cell) (cs : List Cell) → is_in c cs ≡ true → Has c cs
is_in-Has c [] e = absurd (false≢true e)
is_in-Has c (x ∷ xs) e = elim (Bool-cases (same_cell c x)) [
  | inl q ↦ inl (same_cell_path c x q)
  | inr q ↦ inr (is_in-Has c xs (ground (arith, e, q)))
]

Has-is_in : (c : Cell) (cs : List Cell) → Has c cs → is_in c cs ≡ true
Has-is_in c [] h = absurd h
Has-is_in c (x ∷ xs) (inl p) =
    let e : same_cell c x ≡ true = subst (λ y. same_cell c y ≡ true) p (same_cell_refl c) in
    rw e refl
Has-is_in c (x ∷ xs) (inr h) = let e = Has-is_in c xs h in ground (arith, e)

split_has :
    {P : Type 0} (c x : Cell) (xs : List Cell) → (c ≡ x → P) → (Has c xs → P) → Has c (x ∷ xs) → P
split_has c x xs f g (inl p) = f p
split_has c x xs f g (inr h) = g h

distinct-sub : (c : Cell) (cs : List Cell) → Has c (distinct_cells cs) → Has c cs
distinct-sub c [] = λ h. absurd h
distinct-sub c (x ∷ xs) =
    if_split (λ l. Has c l → Has c (x ∷ xs)) (is_in x xs) (λ _ h. inr (distinct-sub c xs h))
      (λ _ h. split_has c x (distinct_cells xs) inl (λ k. inr (distinct-sub c xs k)) h)

sub-distinct : (c : Cell) (cs : List Cell) → Has c cs → Has c (distinct_cells cs)
sub-distinct c [] h = h
sub-distinct c (x ∷ xs) h =
    if_split (Has c) (is_in x xs)
      (λ q.
        sub-distinct c xs
          (split_has c x xs (λ p. subst (λ y. Has y xs) (sym p) (is_in-Has x xs q)) (λ k. k) h))
      (λ _. split_has c x xs inl (λ k. inr (sub-distinct c xs k)) h)

distinct-NoRepeats : (cs : List Cell) → NoRepeats (distinct_cells cs)
distinct-NoRepeats [] = tt
distinct-NoRepeats (x ∷ xs) =
    if_split NoRepeats (is_in x xs) (λ _. distinct-NoRepeats xs)
      (λ q.
        ((λ h. false≢true (sym q ∙ Has-is_in x xs (distinct-sub x xs h))), distinct-NoRepeats xs))

module _ (p : Cell → Bool) where
  keep-sub : (c : Cell) (cs : List Cell) → Has c (keep p cs) → Has c cs × (p c ≡ true)
  keep-sub c [] = λ h. absurd h
  keep-sub c (x ∷ xs) =
      if_split (λ l. Has c l → Has c (x ∷ xs) × (p c ≡ true)) (p x)
        (λ q h.
          split_has c x (keep p xs) (λ e. (inl e, subst (λ y. p y ≡ true) (sym e) q))
            (λ k. (inr (keep-sub c xs k).0, (keep-sub c xs k).1)) h)
        (λ _ h. (inr (keep-sub c xs h).0, (keep-sub c xs h).1))

  sub-keep : (c : Cell) (cs : List Cell) → Has c cs → p c ≡ true → Has c (keep p cs)
  sub-keep c [] h e = h
  sub-keep c (x ∷ xs) h e =
      if_split (Has c) (p x) (λ _. split_has c x xs inl (λ k. inr (sub-keep c xs k e)) h)
        (λ q.
          split_has c x xs (λ i. absurd (false≢true (sym q ∙ subst (λ y. p y ≡ true) i e)))
            (λ k. sub-keep c xs k e) h)

  keep-NoRepeats : (cs : List Cell) → NoRepeats cs → NoRepeats (keep p cs)
  keep-NoRepeats [] d = d
  keep-NoRepeats (x ∷ xs) d =
      if_split NoRepeats (p x) (λ _. ((λ h. d.0 (keep-sub x xs h).0), keep-NoRepeats xs d.1))
        (λ _. keep-NoRepeats xs d.1)

-- What is no duplicate shares little.
pub overlaps-Apart : (a b : RouteResult) → overlaps a b ≡ false → Apart a.cells b.cells
unfolding overlaps shared_cells
overlaps-Apart a b e = (
  keep (λ c. is_in c b.cells) (distinct_cells a.cells),
  record {
    distinct =
        keep-NoRepeats (λ c. is_in c b.cells) (distinct_cells a.cells) (distinct-NoRepeats a.cells);
    in_both = λ c h.
        let (k, q) = keep-sub (λ x. is_in x b.cells) c (distinct_cells a.cells) h in
        (distinct-sub c a.cells k, is_in-Has c b.cells q);
    all_of_both = λ c h k.
        sub-keep (λ x. is_in x b.cells) c (distinct_cells a.cells) (sub-distinct c a.cells h)
          (Has-is_in c b.cells k);
  },
  ground (arith, e),
)

-- The cells that a route has in common with an earlier one are at most 85 % of its entries.
abbrev pub Differ : List RouteResult → Type 0
Differ [] = Unit
Differ (r ∷ rs) = All (λ (x : RouteResult). Apart x.cells r.cells) rs × Differ rs

pub Differ-append :
    (rs : List RouteResult) (x : RouteResult)
    → Differ rs
    → All (λ (r : RouteResult). Apart x.cells r.cells) rs
    → Differ (rs ++ x ∷ [])
Differ-append [] x d h = (tt, tt)
Differ-append (r ∷ rs) x d h = (
  All-append (λ (y : RouteResult). Apart y.cells r.cells) rs (x ∷ []) d.0 (h.0, tt),
  Differ-append rs x d.1 h.1,
)

pub or-false : (a b : Bool) → (a || b) ≡ false → (a ≡ false) × (b ≡ false)
or-false a b e = ground arith

pub any-Apart :
    (x : RouteResult) (rs : List RouteResult)
    → any (overlaps x) rs ≡ false
    → All (λ (r : RouteResult). Apart x.cells r.cells) rs
any-Apart x [] e = tt
any-Apart x (r ∷ rs) e =
    let (h, t) = or-false (overlaps x r) (any (overlaps x) rs) e in
    (overlaps-Apart x r h, any-Apart x rs t)
