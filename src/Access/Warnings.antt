-- ===== src/Access/Warnings.antt =====
-- How often a user without a scope is warned about.
use mathlib.Core.Path.{subst}
use mathlib.Core.Bool.{false≢true}
use crucible_ai.Access.Roles.{Mines, User, role_of, super_admin}
use crucible_ai.Access.Mines.{
  accessible_mines, check_assigned, check_mine_access, check_scope, check_unscoped, identity_of,
  scope_of, warn_unscoped,
}
use crucible_ai.Pipeline.Steps.{truthy}
use crucible_ai.Prelude.{
  Bool, List, Option, String, [], any, ap, eq_self, false, if_split, inl, inr, lower, none, refl,
  same_codes, some, sym, true, ◌==◌, ◌∙◌, ◌∷◌, ◌≡◌, ◌⊎◌,
}

-- Nobody is warned about, or the user, who was not warned about before.
abbrev pub Warns : User → List String → List String → Type 0
Warns user warned after =
    (after ≡ warned)
    ⊎ ((after ≡ identity_of user ∷ warned) × (any (λ i. i == identity_of user) warned ≡ false))

warn-Warns : (u : User) (warned : List String) → Warns u warned (warn_unscoped u warned)
unfolding warn_unscoped
warn-Warns u warned =
    if_split (Warns u warned) (any (λ i. i == identity_of u) warned) (λ _. inl refl)
      (λ q. inr (refl, q))

assigned-Warns :
    (environment : String) (u : User) (o : Option String) (mine : String) (warned : List String)
    → Warns u warned (check_assigned environment u o mine warned).1
unfolding check_assigned check_unscoped
assigned-Warns environment u none mine warned =
    if_split (λ (m : Bool × List String). Warns u warned m.1)
      (same_codes (lower environment) "production") (λ _. inl refl) (λ _. warn-Warns u warned)
assigned-Warns environment u (some a) mine warned = inl refl

scope-Warns :
    (environment : String) (u : User) (o : Option Mines) (mine : String) (warned : List String)
    → Warns u warned (check_scope environment u o mine warned).1
unfolding check_scope
scope-Warns environment u none mine warned =
    assigned-Warns environment u (truthy u.mine_id) mine warned
scope-Warns environment u (some m) mine warned = inl refl

check_mine_access-Warns :
    (environment : String) (u : User) (mine : String) (warned : List String)
    → Warns u warned (check_mine_access environment (some u) mine warned).1
unfolding check_mine_access
check_mine_access-Warns environment u mine warned =
    if_split (λ (m : Bool × List String). Warns u warned m.1) (role_of u == super_admin)
      (λ _. inl refl) (λ _. scope-Warns environment u (scope_of u.allowed_mines) mine warned)

known : (i : String) (warned : List String) → any (λ j. j == i) (i ∷ warned) ≡ true
known i warned = rw (eq_self i) refl

both-Warns : (u : User) (a b c : List String) → Warns u a b → Warns u b c → Warns u a c
both-Warns u a b c (inl e) k = subst (λ x. Warns u x c) e k
both-Warns u a b c (inr (e, n)) (inl f) = inr (f ∙ e, n)
both-Warns u a b c (inr (e, n)) (inr (f, o)) =
    absurd (false≢true (sym o ∙ (ap (any (λ j. j == identity_of u)) e ∙ known (identity_of u) a)))

-- A user is warned about at most once, however many mines are asked for, in whatever environment,
-- and not at all where the user was warned about before.
pub accessible_mines-Warns :
    (environment : String) (u : User) (mines warned : List String)
    → Warns u warned (accessible_mines environment (some u) mines warned).1
unfolding accessible_mines
accessible_mines-Warns environment u [] warned = inl refl
accessible_mines-Warns environment u (m ∷ ms) warned =
    let after = (check_mine_access environment (some u) m warned).1 in
    both-Warns u warned after (accessible_mines environment (some u) ms after).1
      (check_mine_access-Warns environment u m warned)
      (accessible_mines-Warns environment u ms after)
