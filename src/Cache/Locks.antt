-- ===== src/Cache/Locks.antt =====
-- Lemmas on the table of flights.
use mathlib.Core.Bool.{false≢true}
use crucible_ai.Cache.Flights.{acquire_flight, release_flight}
use crucible_ai.Pipeline.Model.{get_key}
use crucible_ai.Cache.Dicts.{put_key, remove_key}
use crucible_ai.Prelude.{
  All, Bool-cases, List, Option-cases, String, [], ap, arith, eq_iff, false, inl, inr, is_some, leb,
  none, refl, some, sym, ℕ, ◌+◌, ◌-◌, ◌==◌, ◌∙◌, ◌∷◌, ◌≡◌, ◌≤◌,
}

-- Every count is positive, as `acquire_flight` makes them.
abbrev pub Positive : List (String × ℕ) → Type 0
Positive m = All (λ (p : String × ℕ). 1 ≤ p.1) m

put-put :
    (k : String) (a b : ℕ) (m : List (String × ℕ)) → put_key k b (put_key k a m) ≡ put_key k b m
unfolding put_key
put-put k a b [] = rw ((eq_iff k k).1 refl) refl
put-put k a b ((j, n) ∷ m) = elim (Bool-cases (j == k)) [
  | inl q ↦ rw (q, (eq_iff k k).1 refl) refl
  | inr q ↦ rw (q, q) (ap (λ l. (j, n) ∷ l) (put-put k a b m))
]

put-same : (k : String) (n : ℕ) (m : List (String × ℕ)) → get_key k m ≡ some n → put_key k n m ≡ m
unfolding put_key get_key
put-same k n [] h = absurd (false≢true (ap is_some h))
put-same k n ((j, a) ∷ m) h = elim (Bool-cases (j == k)) [
  | inl q ↦
      rw (q, ap (λ i. (i, n) ∷ m) (sym ((eq_iff j k).0 q)))
        (ap (λ i. (j, i) ∷ m) (ground (arith, h, q)))
  | inr q ↦ rw q (ap (λ l. (j, a) ∷ l) (put-same k n m (ground (arith, h, q))))
]

get-put : (k : String) (n : ℕ) (m : List (String × ℕ)) → get_key k (put_key k n m) ≡ some n
unfolding put_key get_key
get-put k n [] = rw ((eq_iff k k).1 refl) refl
get-put k n ((j, a) ∷ m) = elim (Bool-cases (j == k)) [
  | inl q ↦ rw (q, (eq_iff k k).1 refl) refl
  | inr q ↦ rw (q, q) (get-put k n m)
]

Positive-count :
    (k : String) (n : ℕ) (m : List (String × ℕ)) → Positive m → get_key k m ≡ some n → 1 ≤ n
unfolding get_key
Positive-count k n [] p h = absurd (false≢true (ap is_some h))
Positive-count k n ((j, a) ∷ m) p h = elim (Bool-cases (j == k)) [
  | inl q ↦ ground (arith, h, q, p.0)
  | inr q ↦ Positive-count k n m p.1 (ground (arith, h, q))
]

remove-put :
    (k : String) (n : ℕ) (m : List (String × ℕ))
    → get_key k m ≡ none
    → remove_key k (put_key k n m) ≡ m
unfolding put_key get_key remove_key
remove-put k n [] h = rw ((eq_iff k k).1 refl) refl
remove-put k n ((j, a) ∷ m) h = elim (Bool-cases (j == k)) [
  | inl q ↦ absurd (ground (arith, h, q))
  | inr q ↦ rw (q, q) (ap (λ l. (j, a) ∷ l) (remove-put k n m (ground (arith, h, q))))
]

small : (n : ℕ) → 1 ≤ n → leb (n + 1) 1 ≡ false
small n h = ground (arith, h)

-- The release of a lock undoes its acquisition.
pub release-acquire :
    (k : String) (m : List (String × ℕ)) → Positive m → release_flight k (acquire_flight k m) ≡ m
unfolding release_flight acquire_flight
release-acquire k m p = elim (Option-cases (get_key k m)) [
  | inl e ↦ rw (acquire_flight, e) (rw (release_flight, get-put k 1 m) (remove-put k 1 m e))
  | inr (n, e) ↦
      rw (acquire_flight, e)
        (rw (release_flight, get-put k (n + 1) m)
          (rw (small n (Positive-count k n m p e)) (
            put-put k (n + 1) (n + 1 - 1) m
            ∙ (ap (λ i. put_key k i m) (omega arith) ∙ put-same k n m e))))
]
