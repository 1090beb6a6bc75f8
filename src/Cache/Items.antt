-- ===== src/Cache/Items.antt =====
-- Lemmas on the items of an ordered dictionary.
use mathlib.Core.Path.{subst}
use mathlib.Core.Bool.{false≢true}
use crucible_ai.Pipeline.Model.{get_key}
use crucible_ai.Cache.Dicts.{has_key, put_key, remove_key}
use crucible_ai.Prelude.{
  Bool-cases, List, String, [], ap, arith, eq_iff, false, if◌then◌else◌, inl, inr, is_some, length,
  refl, some, sym, ◌++◌, ◌+◌, ◌==◌, ◌||◌, ◌∙◌, ◌∷◌, ◌≡◌, ◌≤◌,
}

eq_comm_false : (a b : String) → (a == b) ≡ false → (b == a) ≡ false
eq_comm_false a b h = elim (Bool-cases (b == a)) [
  | inl q ↦ absurd (false≢true (sym h ∙ (eq_iff a b).1 (sym ((eq_iff b a).0 q))))
  | inr q ↦ q
]

module _ {ℓ} {V : Type ℓ} where
  -- No key occurs twice.
  abbrev pub Distinct : List (String × V) → Type 0
  Distinct [] = Unit
  Distinct ((k, v) ∷ m) = (has_key k m ≡ false) × Distinct m

  pub get-has : (k : String) (m : List (String × V)) → has_key k m ≡ is_some (get_key k m)
  unfolding has_key get_key
  get-has k [] = refl
  get-has k ((j, v) ∷ m) = elim (Bool-cases (j == k)) [
    | inl q ↦ rw q refl
    | inr q ↦ rw q (get-has k m)
  ]

  pub has-append :
      (k j : String) (v : V) (m : List (String × V))
      → has_key k (m ++ (j, v) ∷ []) ≡ (has_key k m || (j == k))
  unfolding has_key
  has-append k j v [] = ground arith
  has-append k j v ((i, w) ∷ m) = ground (arith, has-append k j v m)

  has-remove :
      (j k : String) (m : List (String × V))
      → has_key j m ≡ false
      → has_key j (remove_key k m) ≡ false
  unfolding has_key remove_key
  has-remove j k [] h = refl
  has-remove j k ((i, v) ∷ m) h = ground (arith, has-remove j k m, h)

  pub remove-Distinct :
      (k : String) (m : List (String × V))
      → Distinct m
      → (has_key k (remove_key k m) ≡ false) × Distinct (remove_key k m)
  unfolding has_key remove_key
  remove-Distinct k [] d = (refl, tt)
  remove-Distinct k ((j, v) ∷ m) d =
      let (h, e) = remove-Distinct k m d.1 in
      elim (Bool-cases (j == k)) [
        | inl q ↦ rw q (subst (λ i. has_key i m ≡ false) ((eq_iff j k).0 q) d.0, d.1)
        | inr q ↦ rw q (rw q h, (has-remove j k m d.0, e))
      ]

  pub append-Distinct :
      (k : String) (v : V) (m : List (String × V))
      → has_key k m ≡ false
      → Distinct m
      → Distinct (m ++ (k, v) ∷ [])
  unfolding has_key
  append-Distinct k v [] h d = (refl, tt)
  append-Distinct k v ((j, w) ∷ m) h d = (
    ground (arith, has-append j k v m, eq_comm_false j k, h, d.0),
    append-Distinct k v m (ground (arith, h)) d.1,
  )

  pub put-append :
      (k : String) (v w : V) (m : List (String × V))
      → has_key k m ≡ false
      → (put_key k v m ≡ m ++ (k, v) ∷ []) × (put_key k v (m ++ (k, w) ∷ []) ≡ m ++ (k, v) ∷ [])
  unfolding has_key put_key
  put-append k v w [] h = (refl, rw ((eq_iff k k).1 refl) refl)
  put-append k v w ((j, x) ∷ m) h =
      let (p, q) = put-append k v w m (ground (arith, h)) in
      let n : (j == k) ≡ false = ground (arith, h) in
      (rw n (ap (λ l. (j, x) ∷ l) p), rw n (ap (λ l. (j, x) ∷ l) q))

  pub remove-absent :
      (k : String) (m : List (String × V)) → has_key k m ≡ false → remove_key k m ≡ m
  unfolding has_key remove_key
  remove-absent k [] h = refl
  remove-absent k ((j, v) ∷ m) h =
      let n : (j == k) ≡ false = ground (arith, h) in
      rw n (ap (λ l. (j, v) ∷ l) (remove-absent k m (ground (arith, h))))

  pub length-remove :
      (k : String) (m : List (String × V))
      → (length (remove_key k m) ≤ length m)
        × (length (remove_key k m) + (if has_key k m then 1 else 0) ≡ length m)
  unfolding has_key remove_key
  length-remove k [] = (omega arith, refl)
  length-remove k ((j, v) ∷ m) = ground (arith, length-remove k m)

  pub get-append :
      (k : String) (v : V) (m : List (String × V))
      → has_key k m ≡ false
      → get_key k (m ++ (k, v) ∷ []) ≡ some v
  unfolding has_key get_key
  get-append k v [] h = rw ((eq_iff k k).1 refl) refl
  get-append k v ((j, w) ∷ m) h =
      let n : (j == k) ≡ false = ground (arith, h) in rw n (get-append k v m (ground (arith, h)))
