-- ===== src/Access/Scopes.antt =====
-- What the access control lets through.
use mathlib.Core.Bool.{false≢true}
use crucible_ai.Access.Roles.{listed, text, Mines, User, role_of, super_admin}
use crucible_ai.Access.Mines.{
  scope_of, covers, accessible_mines, check_assigned, check_mine_access, check_scope,
  check_unscoped,
}
use crucible_ai.Pipeline.Steps.{truthy}
use crucible_ai.Prelude.{
  All, any, codes, contains-part, ℕ, ◌++◌, Bool, Bool-cases, List, Option, String, [], ap, arith,
  eq_iff, false, if_split, if◌then◌else◌, inl, inr, is_some, lower, none, refl, same_codes, some,
  sym, true, ◌==◌, ◌||◌, ◌∙◌, ◌∷◌, ◌≡◌, ◌⊎◌,
}

-- What a scope names: the texts of a list, and every part of a text.
abbrev pub Names : Mines → String → Type 0
Names (listed mines) key =
    (before : List String) × (rest : List String) × (mines ≡ before ++ key ∷ rest)
Names (text s) key = (before : List ℕ) × (rest : List ℕ) × (codes s ≡ before ++ (codes key ++ rest))

-- A super admin, a scope that names every mine or this one, or the assignment to this one.
abbrev pub Authorised : User → String → Type 0
Authorised user mine =
    (role_of user ≡ super_admin)
    ⊎ (((m : Mines) × (user.allowed_mines ≡ some m)
          × (Names m "*" ⊎ (Names m "all" ⊎ Names m mine)))
        ⊎ (user.mine_id ≡ some mine))

listed-Names :
    (mines : List String) (key : String)
    → any (λ m. m == key) mines ≡ true
    → Names (listed mines) key
listed-Names [] key h = absurd (false≢true h)
listed-Names (m ∷ ms) key h = elim (Bool-cases (m == key)) [
  | inl q ↦ ([], ms, ap (λ k. k ∷ ms) ((eq_iff m key).0 q))
  | inr q ↦
      let (b, r, e) = listed-Names ms key (ground (arith, h, q)) in (m ∷ b, r, ap (λ l. m ∷ l) e)
]

covers-Names : (m : Mines) (key : String) → covers m key ≡ true → Names m key
unfolding covers
covers-Names (listed mines) key h = listed-Names mines key h
covers-Names (text s) key h = contains-part key (codes s) h

scope-Names :
    (m : Mines) (mine : String)
    → ((covers m "*" || covers m "all") || covers m mine) ≡ true
    → Names m "*" ⊎ (Names m "all" ⊎ Names m mine)
scope-Names m mine h = elim (Bool-cases (covers m "*")) [
  | inl p ↦ inl (covers-Names m "*" p)
  | inr p ↦ elim (Bool-cases (covers m "all")) [
    | inl q ↦ inr (inl (covers-Names m "all" q))
    | inr q ↦ inr (inr (covers-Names m mine (ground (arith, h, p, q))))
  ]
]

-- The decision and the users warned about: an access is authorised, and nobody is warned about.
abbrev Closed : User → String → List String → Bool × List String → Type 0
Closed user mine warned (ok, after) = ((ok ≡ false) ⊎ Authorised user mine) × (after ≡ warned)

truthy-some : (o : Option String) (s : String) → truthy o ≡ some s → o ≡ some s
truthy-some none s h = h
truthy-some (some t) s h = ground (arith, h)

scope-some : (o : Option Mines) (m : Mines) → scope_of o ≡ some m → o ≡ some m
scope-some none m h = h
scope-some (some (listed [])) m h = absurd (ground (arith, h))
scope-some (some (listed (x ∷ xs))) m h = h
scope-some (some (text s)) m h = elim (Bool-cases (s == "")) [
  | inl q ↦
      absurd (false≢true (ap is_some (ap (λ b. if b then none else some (text s)) (sym q) ∙ h)))
  | inr q ↦ ap (λ b. if b then none else some (text s)) (sym q) ∙ h
]

check_assigned-Closed :
    (environment : String) (u : User) (o : Option String) (mine : String) (warned : List String)
    → same_codes (lower environment) "production" ≡ true
    → truthy u.mine_id ≡ o
    → Closed u mine warned (check_assigned environment u o mine warned)
unfolding check_assigned check_unscoped
check_assigned-Closed environment u none mine warned p h = rw p (inl refl, refl)
check_assigned-Closed environment u (some a) mine warned p h = elim (Bool-cases (a == mine)) [
  | inl q ↦ (inr (inr (inr (truthy-some u.mine_id a h ∙ ap some ((eq_iff a mine).0 q)))), refl)
  | inr q ↦ (inl q, refl)
]

check_scope-Closed :
    (environment : String) (u : User) (o : Option Mines) (mine : String) (warned : List String)
    → same_codes (lower environment) "production" ≡ true
    → scope_of u.allowed_mines ≡ o
    → Closed u mine warned (check_scope environment u o mine warned)
unfolding check_scope
check_scope-Closed environment u none mine warned p h =
    check_assigned-Closed environment u (truthy u.mine_id) mine warned p refl
check_scope-Closed environment u (some m) mine warned p h =
    elim (Bool-cases ((covers m "*" || covers m "all") || covers m mine)) [
      | inl q ↦ (inr (inr (inl (m, scope-some u.allowed_mines m h, scope-Names m mine q))), refl)
      | inr q ↦ (inl q, refl)
    ]

check_mine_access-Closed :
    (environment : String) (u : User) (mine : String) (warned : List String)
    → same_codes (lower environment) "production" ≡ true
    → Closed u mine warned (check_mine_access environment (some u) mine warned)
unfolding check_mine_access
check_mine_access-Closed environment u mine warned p =
    if_split (Closed u mine warned) (role_of u == super_admin)
      (λ q. (inr (inl ((eq_iff (role_of u) super_admin).0 q)), refl))
      (λ _. check_scope-Closed environment u (scope_of u.allowed_mines) mine warned p refl)

-- In production, every mine that a user may see is one that the user is authorised for: as a super
-- admin, by an assignment to it, or by a scope that names it, "*" or "all". A scope that is a list
-- names its texts; one that is a text names every part of it. Nobody is warned about.
pub accessible_mines-Authorised :
    (environment : String) (u : User) (mines warned : List String)
    → same_codes (lower environment) "production" ≡ true
    → All (Authorised u) (accessible_mines environment (some u) mines warned).0
      × ((accessible_mines environment (some u) mines warned).1 ≡ warned)
unfolding accessible_mines
accessible_mines-Authorised environment u [] warned p = (tt, refl)
accessible_mines-Authorised environment u (m ∷ ms) warned p =
    let (c, e) = check_mine_access-Closed environment u m warned p in
    let after = (check_mine_access environment (some u) m warned).1 in
    let (rest, w) = accessible_mines-Authorised environment u ms after p in
    (
      if_split (All (Authorised u)) (check_mine_access environment (some u) m warned).0
          (λ q. (allowed c q, rest)) (λ _. rest),
      w ∙ e,
    )
  where
    allowed : {b : Bool} {A : Type 0} → (b ≡ false) ⊎ A → b ≡ true → A
    allowed (inl f) q = absurd (false≢true (sym f ∙ q))
    allowed (inr a) q = a
