-- ===== src/Routing/Improving.antt =====
-- A better score that `astar` finds keeps the invariant.
use mathlib.Core.Path.{subst}
use crucible_ai.Routing.Surface.{Offset, neighbours}
use crucible_ai.Routing.Search.{Arc, Query, Search, h, is_less, put, Entry, same, arc}
use crucible_ai.Routing.Heap.{In, put_here, put_there, same_cases}
use crucible_ai.Routing.Ways.{AtMost, AtMost-some, Leads, Trail, Trail-put, h_at, link, apart}
use crucible_ai.Routing.Invariant.{IsSound, origin, reach, IsPriced}
use crucible_ai.Prelude.{
  All, All-map, List, Option, Option-cases, ap, arith, false, inl, inr, length, ltb→lt, none, refl,
  some, sym, true, ℕ, ◌+◌, ◌<◌, ◌∙◌, ◌∷◌, ◌≡◌, ◌≤◌, ◌⊎◌,
}

some-eq : {a b : ℕ} → some a ≡ some b → a ≡ b
some-eq e = cc e

pub arc-eq : {a b : Arc} → some a ≡ some b → a ≡ b
arc-eq e = cc e

abbrev pub raise_to : Query → ℕ → Arc → ℕ → Search → Search
raise_to q u a t st = record st {
  g_score = put a.node (some t) st.g_score;
  came_from = put a.node (some u) st.came_from;
  open_heap = (t + h q a.target, a.node) ∷ st.open_heap;
}

pub put_cases :
    (k t : ℕ) (f : ℕ → Option ℕ) (i c : ℕ)
    → put k (some t) f i ≡ some c
    → ((i ≡ k) × (c ≡ t)) ⊎ ((same i k ≡ false) × (f i ≡ some c))
put_cases k t f i c e = elim (same_cases i k) [
  | inl p ↦ inl (p, some-eq (sym e ∙ ap (put k (some t) f) p ∙ put_here k (some t) f))
  | inr n ↦ inr (n, sym (put_there k (some t) f i n) ∙ e)
]

less_lt : {t d : ℕ} {o : Option ℕ} → is_less t o ≡ true → o ≡ some d → t < d
less_lt {t} {d} e z = ltb→lt t d (subst (λ o. is_less t o ≡ true) z e)

pub less_ge : (t d : ℕ) → is_less t (some d) ≡ false → d ≤ t
less_ge t d e = ground arith

pub AtMost-none {ℓ} : {A : Type ℓ} {o : Option ℕ} (c : ℕ) → AtMost o c → o ≡ none → A
AtMost-none c a z = absurd (subst (λ o. AtMost o c) z a)

AtMost-put :
    (g : ℕ → Option ℕ) (v t : ℕ)
    → is_less t (g v) ≡ true
    → (x c : ℕ) → AtMost (g x) c
    → AtMost (put v (some t) g x) c
AtMost-put g v t e x c a = elim (same_cases x v) [
  | inr n ↦ rw (put_there v (some t) g x n) a
  | inl p ↦
      rw (p, put_here v (some t) g)
        (elim (Option-cases (g v)) [
          | inl z ↦ AtMost-none c a (ap g p ∙ z)
          | inr (d, z) ↦ omega (arith, AtMost-some a (ap g p ∙ z), less_lt e z)
        ])
]

-- A better score, found over the edge from `u` that the pending offset `d` stands for.
pub record Better (q : Query) (st : Search) (u : ℕ) (d : Offset) (a : Arc) (g : ℕ) : Type 0 where
  pub member : In d (neighbours q.diagonal)
  pub is_arc : arc q u d ≡ some a
  pub shut : st.closed u ≡ true
  pub clear : st.closed a.node ≡ false
  pub score : st.g_score u ≡ some g
  pub less : is_less (g + a.step) (st.g_score a.node) ≡ true
  pub priority : h q a.target ≡ h_at q a.node

module _ {q : Query} {st : Search} {u : ℕ} {d : Offset} {ds : List Offset} {a : Arc} {g : ℕ}
    (s : IsSound q st u (d ∷ ds)) (b : Better q st u d a g) where
  abbrev after : Search
  after = raise_to q u a (g + a.step) st

  edge : Leads q u a.node a.step
  edge = (d, a, b.member, b.is_arc, refl, refl)

  better-start : after.g_score (origin q) ≡ some 0
  better-start = elim (same_cases (origin q) a.node) [
    | inl e ↦ absurd (omega (arith, less_lt b.less (ap st.g_score (sym e) ∙ s.start_score)))
    | inr n ↦ put_there a.node (some (g + a.step)) st.g_score (origin q) n ∙ s.start_score
  ]

  better-trails :
      (v c : ℕ)
      → after.g_score v ≡ some c
      → (us : List ℕ) × Trail q after.came_from after.closed v c us
        × (length us ≤ reach (after.closed v) after.expanded)
  better-trails v c e = elim (put_cases a.node (g + a.step) st.g_score v c e) [
    | inr (n, z) ↦
        (let (us, t, l) = s.trails v c z in (us, Trail-put a.node (some u) t n b.clear, l))
    | inl (p, z) ↦
        rw (p, z)
          (let (us, t, l) = s.trails u g b.score in
            (
              a.node ∷ us,
              link (Trail-put a.node (some u) t (apart st.closed b.shut b.clear) b.clear) edge
                  (put_here a.node (some u) st.came_from) b.shut,
              rw (b.clear) (omega (arith, subst (λ o. length us ≤ reach o st.expanded) b.shut l)),
            ))
  ]

  better-queued :
      (v c : ℕ)
      → after.closed v ≡ false
      → after.g_score v ≡ some c
      → In (c + h_at q v, v) after.open_heap
  better-queued v c o e = elim (put_cases a.node (g + a.step) st.g_score v c e) [
    | inr (n, z) ↦ inr (s.queued v c o z)
    | inl (p, z) ↦ rw (p, z, b.priority) (inl refl)
  ]

  better-IsPriced : (e : Entry) → IsPriced q st e → IsPriced q after e
  better-IsPriced e (c, z, l) = elim (same_cases e.1 a.node) [
    | inr n ↦ (c, put_there a.node (some (g + a.step)) st.g_score e.1 n ∙ z, l)
    | inl p ↦ (
      g + a.step,
      ap after.g_score p ∙ put_here a.node (some (g + a.step)) st.g_score,
      omega (arith, l, less_lt b.less (ap st.g_score (sym p) ∙ z)),
    )
  ]

  better-IsPriced-All : All (IsPriced q after) after.open_heap
  better-IsPriced-All = (
    (g + a.step, put_here a.node (some (g + a.step)) st.g_score, rw (b.priority) (omega arith)),
    All-map (IsPriced q st) (IsPriced q after) better-IsPriced st.open_heap s.priced,
  )

  closed_kept : (x : ℕ) → st.closed x ≡ true → after.g_score x ≡ st.g_score x
  closed_kept x o = put_there a.node (some (g + a.step)) st.g_score x (apart st.closed o b.clear)

  met :
      (x v w : ℕ) (l : Leads q x v w)
      → x ≡ u
      → l.0 ≡ d
      → (c : ℕ) → AtMost (st.g_score x) c
      → AtMost (after.g_score v) (c + w)
  met x v w (d', a', i, ar, nv, sw) e f c m =
      let z = arc-eq (sym b.is_arc ∙ ap (arc q u) (sym f) ∙ ap (λ y. arc q y d') (sym e) ∙ ar) in
      rw (sym (ap (λ (k : Arc). k.node) z ∙ nv), put_here a.node (some (g + a.step)) st.g_score)
        (omega (arith, AtMost-some m (ap st.g_score e ∙ b.score), ap (λ (k : Arc). k.step) z ∙ sw))

  better-relaxed :
      (x v w : ℕ)
      → after.closed x ≡ true
      → (l : Leads q x v w)
      → ((x ≡ u) × In l.0 ds)
        ⊎ ((c : ℕ) → AtMost (after.g_score x) c → AtMost (after.g_score v) (c + w))
  better-relaxed x v w o l = elim (s.relaxed x v w o l) [
    | inr f ↦ inr (λ c m.
        AtMost-put st.g_score a.node (g + a.step) b.less v (c + w)
          (f c (subst (λ o. AtMost o c) (closed_kept x o) m)))
    | inl (e, inr i) ↦ inl (e, i)
    | inl (e, inl i) ↦ inr (λ c m. met x v w l e i c (subst (λ o. AtMost o c) (closed_kept x o) m))
  ]

  pub better-IsSound : IsSound q after u ds
  better-IsSound = record {
    start_score = better-start;
    trails = better-trails;
    queued = better-queued;
    priced = better-IsPriced-All;
    closed_least = λ v c us o p. rw (closed_kept v o) (s.closed_least v c us o p);
    relaxed = better-relaxed;
  }
