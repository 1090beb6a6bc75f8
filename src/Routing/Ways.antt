-- ===== src/Routing/Ways.antt =====
-- Ways over the grid, and the trails that `came_from` records.
use crucible_ai.Routing.Surface.{Offset, neighbours}
use crucible_ai.Routing.Search.{Arc, Query, arc, h, cell_of, index_of, put, same, trace}
use mathlib.Core.Path.{subst}
use mathlib.Core.Bool.{false≢true}
use crucible_ai.Routing.Heap.{same_cases, In, put_there}
use crucible_ai.Prelude.{
  Bool, List, Option, [], ap, arith, false, inl, inr, length, none, refl, some, suc, sym, true,
  zero, ℕ, ◌+◌, ◌∙◌, ◌∷◌, ◌≡◌, ◌≤◌,
}

-- The heuristic at an index.
abbrev pub h_at : Query → ℕ → ℕ
h_at q v = h q (cell_of q.surface.n v)

-- An edge between two indices, with its cost.
abbrev pub Leads : Query → ℕ → ℕ → ℕ → Type 0
Leads q u v w =
    (d : Offset) × (a : Arc) × In d (neighbours q.diagonal)
    × (arc q u d ≡ some a)
    × (a.node ≡ v)
    × (a.step ≡ w)

-- A way from the start to an index, with its cost, and its indices, the last one first.
pub data Way (q : Query) : ℕ → ℕ → List ℕ → Type 0 where
  stand : Way q (index_of q.surface.n q.start) 0 (index_of q.surface.n q.start ∷ [])
  go : {u v w c : ℕ} {us : List ℕ} → Way q u c us → Leads q u v w → Way q v (c + w) (v ∷ us)

-- A way that `came_from` records, over closed indices but for its end.
pub data Trail (q : Query) (came : ℕ → Option ℕ) (shut : ℕ → Bool) : ℕ → ℕ → List ℕ → Type 0 where
  root :
      came (index_of q.surface.n q.start) ≡ none
      → Trail q came shut (index_of q.surface.n q.start) 0 (index_of q.surface.n q.start ∷ [])
  link :
      {u v w c : ℕ} {us : List ℕ}
      → Trail q came shut u c us
      → Leads q u v w
      → came v ≡ some u
      → shut u ≡ true
      → Trail q came shut v (c + w) (v ∷ us)

abbrev pub AtMost : Option ℕ → ℕ → Type 0
AtMost none c = ⊥
AtMost (some d) c = d ≤ c

pub AtMost-weaken : (o : Option ℕ) {c d : ℕ} → AtMost o c → c ≤ d → AtMost o d
AtMost-weaken none a e = a
AtMost-weaken (some x) a e = omega arith

pub AtMost-of : {o : Option ℕ} {c d : ℕ} → o ≡ some d → d ≤ c → AtMost o c
AtMost-of e l = rw e l

pub AtMost-some : {o : Option ℕ} {c d : ℕ} → AtMost o c → o ≡ some d → d ≤ c
AtMost-some {o} {c} {d} a e = subst (λ x. AtMost x c) e a

pub closed_clash : {b : Bool} → b ≡ true → b ≡ false → ⊥
closed_clash s o = false≢true (sym o ∙ s)

pub apart : (f : ℕ → Bool) {u x : ℕ} → f u ≡ true → f x ≡ false → same u x ≡ false
apart f {u} {x} s o = elim (same_cases u x) [
  | inl e ↦ absurd (closed_clash s (ap f e ∙ o))
  | inr n ↦ n
]

module _ {q : Query} {came : ℕ → Option ℕ} {shut : ℕ → Bool} where
  pub Trail-Way : {v c : ℕ} {us : List ℕ} → Trail q came shut v c us → Way q v c us
  Trail-Way (root e) = stand
  Trail-Way (link t l e s) = go (Trail-Way t) l

  Trail-nonempty : {v c : ℕ} {us : List ℕ} → Trail q came shut v c us → 1 ≤ length us
  Trail-nonempty (root e) = omega arith
  Trail-nonempty (link t l e s) = omega arith

  -- Another index that is not closed may change its predecessor.
  pub Trail-put :
      {v c : ℕ} {us : List ℕ} (x : ℕ) (p : Option ℕ)
      → Trail q came shut v c us
      → same v x ≡ false
      → shut x ≡ false
      → Trail q (put x p came) shut v c us
  Trail-put x p (root e) n o = root (put_there x p came _ n ∙ e)
  Trail-put x p (link {u} t l e s) n o =
      link (Trail-put x p t (apart shut s o) o) l (put_there x p came _ n ∙ e) s

  pub Trail-shut :
      {shut' : ℕ → Bool} {v c : ℕ} {us : List ℕ}
      → ((x : ℕ) → shut x ≡ true → shut' x ≡ true)
      → Trail q came shut v c us
      → Trail q came shut' v c us
  Trail-shut f (root e) = root e
  Trail-shut f (link t l e s) = link (Trail-shut f t) l e (f _ s)

  -- Enough fuel follows a trail to its start.
  pub trace-Trail :
      (k : ℕ) {v c : ℕ} {us : List ℕ}
      → Trail q came shut v c us
      → length us ≤ suc k
      → trace came k v ≡ us
  unfolding trace
  trace-Trail zero (root e) b = refl
  trace-Trail (suc k) (root e) b = rw (e, trace) refl
  trace-Trail zero (link t l e s) b = absurd (omega (arith, b, Trail-nonempty t))
  trace-Trail (suc k) (link {v = v} t l e s) b =
      rw (e, trace) (ap (λ z. v ∷ z) (trace-Trail k t (omega arith)))
