-- ===== src/Prelude/Text.antt =====
-- Python's `in` and `str.lower` on texts, over code points; `lower` maps the letters A to Z and
-- leaves every other character alone.
use Prim.Native.Nat.{ℕ, ◌+◌}
use Prim.Native.Char.{code}
use Prim.Native.String.{String}
use mathlib.Core.Path.{◌≡◌, refl, sym, ap, ◌∙◌}
use mathlib.Core.Bool.{Bool, true, false, false≢true, ◌&&◌, ◌||◌}
use mathlib.Core.Logic.{inl, inr}
use native.Mathlib.Omega.{arith}
use mathlib.Core.List.{List, [], ◌∷◌, ◌++◌, map}
use crucible_ai.Prelude.Tests.{Bool-cases, leb, if◌then◌else◌}

abbrev pub codes : String → List ℕ
codes String.[] = []
codes (String.◌∷◌ c s) = code c ∷ codes s

lower_code : ℕ → ℕ
lower_code c = if leb b'A' c && leb c b'Z' then c + 32 else c

-- `s.lower()`
unfoldable pub lower : String → List ℕ
unfolding lower_code
lower s = map lower_code (codes s)

is_prefix : List ℕ → List ℕ → Bool
is_prefix [] s = true
is_prefix (c ∷ p) [] = false
is_prefix (c ∷ p) (d ∷ s) = leb c d && leb d c && is_prefix p s

is_infix : List ℕ → List ℕ → Bool
unfolding is_prefix
is_infix p [] = is_prefix p []
is_infix p (c ∷ s) = is_prefix p (c ∷ s) || is_infix p s

-- Whether a text in code points is a given one.
unfoldable pub same_codes : List ℕ → String → Bool
unfolding is_prefix
same_codes s t = is_prefix s (codes t) && is_prefix (codes t) s

-- `keyword in text`
unfoldable pub contains : String → List ℕ → Bool
unfolding is_infix
contains keyword text = is_infix (codes keyword) text

and-true : (a b : Bool) → (a && b) ≡ true → (a ≡ true) × (b ≡ true)
and-true a b h = ground arith

same-code : (c d : ℕ) → (leb c d && leb d c) ≡ true → c ≡ d
same-code c d h = ground arith

is_prefix-part : (p s : List ℕ) → is_prefix p s ≡ true → (rest : List ℕ) × (s ≡ p ++ rest)
unfolding is_prefix
is_prefix-part [] s h = (s, refl)
is_prefix-part (c ∷ p) [] h = absurd (false≢true h)
is_prefix-part (c ∷ p) (d ∷ s) h =
    let (k, t) = and-true (leb c d && leb d c) (is_prefix p s) h in
    let (rest, e) = is_prefix-part p s t in
    (rest, ap (λ l. d ∷ l) e ∙ ap (λ x. x ∷ (p ++ rest)) (sym (same-code c d k)))

is_infix-part :
    (p s : List ℕ)
    → is_infix p s ≡ true
    → (before : List ℕ) × (rest : List ℕ) × (s ≡ before ++ (p ++ rest))
unfolding is_infix
is_infix-part p [] h = let (rest, e) = is_prefix-part p [] h in ([], rest, e)
is_infix-part p (c ∷ s) h = elim (Bool-cases (is_prefix p (c ∷ s))) [
  | inl q ↦ (let (rest, e) = is_prefix-part p (c ∷ s) q in ([], rest, e))
  | inr q ↦
      (let (before, rest, e) = is_infix-part p s (ground (arith, h, q)) in
        (c ∷ before, rest, ap (λ l. c ∷ l) e))
]

-- Where a text contains a keyword, the keyword is a part of it.
pub contains-part :
    (keyword : String) (s : List ℕ)
    → contains keyword s ≡ true
    → (before : List ℕ) × (rest : List ℕ) × (s ≡ before ++ (codes keyword ++ rest))
unfolding contains
contains-part keyword s h = is_infix-part (codes keyword) s h

contains_inside : contains "output validation" (lower "Node output Validation failed.") ≡ true
unfolding contains lower
contains_inside = refl

contains_absent : contains "column" (lower "colum n") ≡ false
unfolding contains lower
contains_absent = refl
