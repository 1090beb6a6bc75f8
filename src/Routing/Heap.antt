-- ===== src/Routing/Heap.antt =====
-- What taking the least pair from the heap leaves, and what a changed map gives.
use crucible_ai.Routing.Search.{Entry, is_before, pop_least, put, same}
use crucible_ai.Prelude.{
  All, All-map, Bool-cases, List, [], arith, false, if◌then◌else◌, inl, inr, length, refl, true, ℕ,
  ◌∷◌, ◌≡◌, ◌≢◌, ◌≤◌, ◌⊎◌,
}

abbrev pub In : {A : Type 0} → A → List A → Type 0
In a [] = ⊥
In a (x ∷ xs) = (a ≡ x) ⊎ In a xs

pub All-In {κ} : {A : Type 0} (P : A → Type κ) (xs : List A) {a : A} → All P xs → In a xs → P a
All-In P [] h i = absurd i
All-In P (x ∷ xs) h (inl e) = rw e h.0
All-In P (x ∷ xs) h (inr i) = All-In P xs h.1 i

-- Every element is in the list.
pub All-self : {A : Type 0} (xs : List A) → All (λ x. In x xs) xs
All-self [] = tt
All-self (x ∷ xs) =
    (inl refl, All-map (λ y. In y xs) (λ y. In y (x ∷ xs)) (λ y i. inr i) xs (All-self xs))

pub same_cases : (i k : ℕ) → (i ≡ k) ⊎ (same i k ≡ false)
same_cases i k = ground arith

pub same_self : (k : ℕ) → same k k ≡ true
same_self k = ground arith

pub same-flip : (i k : ℕ) → same i k ≡ false → same k i ≡ false
same-flip i k e = ground arith

pub same-ne : (i k : ℕ) → same i k ≡ false → i ≢ k
same-ne i k e = ground arith

pub put_here : {A : Type 0} (k : ℕ) (a : A) (f : ℕ → A) → put k a f k ≡ a
put_here k a f = rw (same_self k) refl

pub put_there :
    {A : Type 0} (k : ℕ) (a : A) (f : ℕ → A) (i : ℕ) → same i k ≡ false → put k a f i ≡ f i
put_there k a f i e = rw e refl

before_le : (p q : Entry) → is_before q p ≡ true → q.0 ≤ p.0
before_le p q e = ground arith

not_before_le : (p q : Entry) → is_before q p ≡ false → p.0 ≤ q.0
not_before_le p q e = ground arith

pub pop-All {κ} :
    (P : Entry → Type κ) (p : Entry) (ps : List Entry)
    → All P (p ∷ ps)
    → P (pop_least p ps).0 × All P (pop_least p ps).1
pop-All P p [] h = (h.0, tt)
pop-All P p (q ∷ qs) h = elim (Bool-cases (is_before q p)) [
  | inl e ↦ rw e (let (m, r) = pop-All P q qs h.1 in (m, (h.0, r)))
  | inr e ↦ rw e (let (m, r) = pop-All P p qs (h.0, h.1.1) in (m, (h.1.0, r)))
]

pub pop-least : (e p : Entry) (ps : List Entry) → In e (p ∷ ps) → (pop_least p ps).0.0 ≤ e.0
pop-least e p [] (inl x) = rw x (omega arith)
pop-least e p [] (inr y) = absurd y
pop-least e p (q ∷ qs) i = elim (Bool-cases (is_before q p)) [
  | inl b ↦ rw b (elim i [
    | inl x ↦ rw x (omega (arith, pop-least q q qs (inl refl), before_le p q b))
    | inr y ↦ pop-least e q qs y
  ])
  | inr b ↦ rw b (elim i [
    | inl x ↦ pop-least e p qs (inl x)
    | inr (inl y) ↦ rw y (omega (arith, pop-least p p qs (inl refl), not_before_le p q b))
    | inr (inr y) ↦ pop-least e p qs (inr y)
  ])
]

pub pop-In :
    (e p : Entry) (ps : List Entry)
    → In e (p ∷ ps)
    → (e ≡ (pop_least p ps).0) ⊎ In e (pop_least p ps).1
pop-In e p [] (inl i) = inl i
pop-In e p [] (inr y) = absurd y
pop-In e p (q ∷ qs) i = elim (Bool-cases (is_before q p)) [
  | inl b ↦ rw b (elim i [
    | inl x ↦ inr (inl x)
    | inr y ↦ elim (pop-In e q qs y) [ inl z ↦ inl z | inr z ↦ inr (inr z) ]
  ])
  | inr b ↦ rw b (elim i [
    | inl x ↦ elim (pop-In e p qs (inl x)) [ inl z ↦ inl z | inr z ↦ inr (inr z) ]
    | inr (inl y) ↦ inr (inl y)
    | inr (inr y) ↦ elim (pop-In e p qs (inr y)) [ inl z ↦ inl z | inr z ↦ inr (inr z) ]
  ])
]

pub length-pop_least : (p : Entry) (ps : List Entry) → length (pop_least p ps).1 ≡ length ps
length-pop_least p [] = refl
length-pop_least p (q ∷ qs) = omega (arith, length-pop_least (if is_before q p then q else p) qs)
