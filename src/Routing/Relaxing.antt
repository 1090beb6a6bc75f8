-- ===== src/Routing/Relaxing.antt =====
-- The loop over the neighbours in `astar` keeps the invariant.
use mathlib.Core.Path.{subst}
use crucible_ai.Routing.Surface.{Offset, neighbours}
use crucible_ai.Routing.Search.{Arc, Query, Search, h, is_less, arc, relax_all, relax_arc}
use crucible_ai.Routing.Heap.{In}
use crucible_ai.Routing.Ways.{
  AtMost, AtMost-some, Leads, h_at, AtMost-of, AtMost-weaken, Trail-Way, go,
}
use crucible_ai.Routing.Invariant.{IsSound}
use crucible_ai.Routing.Improving.{AtMost-none, arc-eq, better-IsSound, less_ge}
use crucible_ai.Prelude.{
  All, Bool, Bool-cases, List, Option, Option-cases, [], ap, arith, false, inl, inr, none, refl,
  some, sym, true, ℕ, ◌+◌, ◌∙◌, ◌∷◌, ◌≡◌,
}

none-some : {A : Type 0} {a : A} → none ≡ some a → ⊥
none-some e = cc e

is_less-none : (t : ℕ) → is_less t none ≡ false → ⊥
is_less-none t e = cc e

-- What a pending offset asks for.
abbrev Met : Query → Search → ℕ → Offset → Type 0
Met q st u d =
    (a : Arc)
    → arc q u d ≡ some a
    → (c : ℕ) → AtMost (st.g_score u) c
    → AtMost (st.g_score a.node) (c + a.step)

module _ (q : Query) (st : Search) (u : ℕ) (d : Offset) (ds : List Offset) where
  Leads-Met :
      Met q st u d
      → (x v w : ℕ) (l : Leads q x v w) → x ≡ u
      → l.0 ≡ d
      → (c : ℕ) → AtMost (st.g_score x) c
      → AtMost (st.g_score v) (c + w)
  Leads-Met f x v w (d', a, i, ar, nv, sw) e k c m =
      rw (sym nv, sym sw)
        (f a (ap (arc q u) (sym k) ∙ ap (λ y. arc q y d') (sym e) ∙ ar) c
          (subst (λ y. AtMost (st.g_score y) c) e m))

  pass-IsSound : IsSound q st u (d ∷ ds) → Met q st u d → IsSound q st u ds
  pass-IsSound s f = record {
    start_score = s.start_score;
    trails = s.trails;
    queued = s.queued;
    priced = s.priced;
    closed_least = s.closed_least;
    relaxed = λ x v w o l. elim (s.relaxed x v w o l) [
      | inr k ↦ inr k
      | inl (e, inr i) ↦ inl (e, i)
      | inl (e, inl i) ↦ inr (Leads-Met f x v w l e i)
    ];
  }

  closed-Met :
      (a : Arc)
      → In d (neighbours q.diagonal)
      → arc q u d ≡ some a
      → st.closed a.node ≡ true
      → IsSound q st u (d ∷ ds)
      → Met q st u d
  closed-Met a i e o s a' e' c m = rw (arc-eq (sym e' ∙ e)) (elim (Option-cases (st.g_score u)) [
    | inl z ↦ AtMost-none c m z
    | inr (g, z) ↦
        (let (us, t, l) = s.trails u g z in
          AtMost-weaken (st.g_score a.node)
            (s.closed_least a.node (g + a.step) (a.node ∷ us) o
              (go (Trail-Way t) (d, a, i, e, refl, refl)))
            (omega (arith, AtMost-some m z)))
  ])

  worse-Met :
      (a : Arc) (g : ℕ)
      → arc q u d ≡ some a
      → st.g_score u ≡ some g
      → is_less (g + a.step) (st.g_score a.node) ≡ false
      → Met q st u d
  worse-Met a g e z n a' e' c m =
      rw (arc-eq (sym e' ∙ e)) (elim (Option-cases (st.g_score a.node)) [
        | inl y ↦
            absurd (is_less-none (g + a.step) (subst (λ o. is_less (g + a.step) o ≡ false) y n))
        | inr (k, y) ↦ AtMost-of y (
            omega (
              arith,
              AtMost-some m z,
              less_ge (g + a.step) k (subst (λ o. is_less (g + a.step) o ≡ false) y n),
            ))
      ])

  relax_arc-IsSound :
      ((a : Arc) → arc q u d ≡ some a → h q a.target ≡ h_at q a.node)
      → In d (neighbours q.diagonal)
      → st.closed u ≡ true
      → IsSound q st u (d ∷ ds)
      → IsSound q (relax_arc q u (arc q u d) st) u ds
  relax_arc-IsSound hp i o s = elim (Option-cases (arc q u d)) [
    | inl e ↦ rw e (pass-IsSound s (λ a e'. absurd (none-some (sym e ∙ e'))))
    | inr (a, e) ↦ rw e (elim (Bool-cases (st.closed a.node)) [
      | inl k ↦ rw k (pass-IsSound s (closed-Met a i e k s))
      | inr k ↦ rw k (elim (Option-cases (st.g_score u)) [
        | inl z ↦ rw z (pass-IsSound s (λ a' e' c m. AtMost-none c m z))
        | inr (g, z) ↦ rw z (elim (Bool-cases (is_less (g + a.step) (st.g_score a.node))) [
          | inr n ↦ rw n (pass-IsSound s (worse-Met a g e z n))
          | inl n ↦ rw n (
              better-IsSound s (record {
                member = i;
                is_arc = e;
                shut = o;
                clear = k;
                score = z;
                less = n;
                priority = hp a e;
              }))
        ])
      ])
    ])
  ]

pub relax_arc-closed :
    (q : Query) (u : ℕ) (o : Option Arc) (st : Search)
    → ((relax_arc q u o st).closed ≡ st.closed) × ((relax_arc q u o st).expanded ≡ st.expanded)
relax_arc-closed q u none st = (refl, refl)
relax_arc-closed q u (some a) st = elim (Bool-cases (st.closed a.node)) [
  | inl k ↦ rw k (refl, refl)
  | inr k ↦ rw k (elim (Option-cases (st.g_score u)) [
    | inl z ↦ rw z (refl, refl)
    | inr (g, z) ↦ rw z (elim (Bool-cases (is_less (g + a.step) (st.g_score a.node))) [
      | inl e ↦ rw e (refl, refl)
      | inr e ↦ rw e (refl, refl)
    ])
  ])
]

pub relax_all-closed :
    (q : Query) (u : ℕ) (ds : List Offset) (st : Search) → (relax_all q u ds st).closed ≡ st.closed
relax_all-closed q u [] st = refl
relax_all-closed q u (d ∷ ds) st =
    relax_all-closed q u ds (relax_arc q u (arc q u d) st) ∙ (relax_arc-closed q u (arc q u d) st).0

-- The whole loop leaves nothing pending.
pub relax_all-IsSound :
    {q : Query} {u : ℕ} (ds : List Offset) (st : Search)
    → ((d : Offset) (a : Arc) → arc q u d ≡ some a → h q a.target ≡ h_at q a.node)
    → All (λ d. In d (neighbours q.diagonal)) ds
    → st.closed u ≡ true
    → IsSound q st u ds
    → IsSound q (relax_all q u ds st) u []
relax_all-IsSound [] st hp i o s = s
relax_all-IsSound {q} {u} (d ∷ ds) st hp i o s =
    let st' = relax_arc q u (arc q u d) st in
    relax_all-IsSound ds st' hp i.1
      (ap (λ (f : ℕ → Bool). f u) (relax_arc-closed q u (arc q u d) st).0 ∙ o)
      (relax_arc-IsSound q st u d ds (hp d) i.0 o s)
