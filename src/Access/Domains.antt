-- ===== src/Access/Domains.antt =====
-- Whom the guard of a domain lets through.
use crucible_ai.Access.Roles.{
  granted, refused, Guarded, User, check_domain_access, domain_role, permit_domain,
  require_authenticated, require_domain_permission, role_of, super_admin,
}
use crucible_ai.Prelude.{
  Bool-cases, Option, String, ap, arith, eq_iff, if_split, inl, inr, is_eq_some, lower, none, refl,
  some, sym, true, ◌==◌, ◌≡◌, ◌≢◌, ◌||◌, ◌∙◌, ◌⊎◌, Bool, false,
}
use mathlib.Core.Bool.{false≢true}

-- The three answers, each with what it means for the role.
abbrev pub Answered : String → User → Guarded → Type 0
Answered domain user answer =
    ((answer ≡ refused 401) × (role_of user ≡ "guest"))
    ⊎ (((answer ≡ refused 403)
          × (role_of user ≢ "guest")
          × (role_of user ≢ super_admin)
          × (domain_role (lower domain) ≢ some (role_of user)))
        ⊎ ((answer ≡ granted user)
            × (role_of user ≢ "guest")
            × ((role_of user ≡ super_admin) ⊎ (domain_role (lower domain) ≡ some (role_of user)))))

or-false : (a b : Bool) → (a || b) ≡ false → (a ≡ false) × (b ≡ false)
or-false a b e = ground arith

admin-some : (a : String) (o : Option String) → is_eq_some a o ≡ true → o ≡ some a
admin-some a none h = absurd (ground (arith, h))
admin-some a (some b) h = ap some (sym ((eq_iff a b).0 h))

access-role :
    (domain : String) (u : User)
    → check_domain_access u domain ≡ true
    → (role_of u ≡ super_admin) ⊎ (domain_role (lower domain) ≡ some (role_of u))
unfolding check_domain_access
access-role domain u h = elim (Bool-cases (role_of u == super_admin)) [
  | inl q ↦ inl ((eq_iff (role_of u) super_admin).0 q)
  | inr q ↦ inr (admin-some (role_of u) (domain_role (lower domain)) (ground (arith, h, q)))
]

differs : (a b : String) → (a == b) ≡ false → a ≢ b
differs a b q e = absurd (false≢true (sym q ∙ (eq_iff a b).1 e))

is_eq_some_refl : (a : String) → is_eq_some a (some a) ≡ true
is_eq_some_refl a = (eq_iff a a).1 refl

no-access :
    (domain : String) (u : User)
    → check_domain_access u domain ≡ false
    → (role_of u ≢ super_admin) × (domain_role (lower domain) ≢ some (role_of u))
unfolding check_domain_access
no-access domain u h =
    let (p, q) =
      or-false (role_of u == super_admin) (is_eq_some (role_of u) (domain_role (lower domain))) h in
    (
      differs (role_of u) super_admin p,
      λ e.
          absurd
            (false≢true (sym q ∙ (ap (is_eq_some (role_of u)) e ∙ is_eq_some_refl (role_of u)))),
    )

-- The guard of a domain refuses exactly the guests with 401. Of the others it lets through exactly
-- the super admins and the administrator of that domain, and refuses the rest with 403; in a domain
-- that nobody administers, that leaves the super admin.
pub require_domain_permission-Answered :
    (domain : String) (u : User) → Answered domain u (require_domain_permission domain u)
unfolding require_domain_permission require_authenticated permit_domain
require_domain_permission-Answered domain u = elim (Bool-cases (role_of u == "guest")) [
  | inl q ↦ rw q (inl (refl, (eq_iff (role_of u) "guest").0 q))
  | inr q ↦
      let n = differs (role_of u) "guest" q in
      rw q (
        if_split (Answered domain u) (check_domain_access u domain)
          (λ r. inr (inr (refl, n, access-role domain u r)))
          (λ r. let (a, d) = no-access domain u r in inr (inl (refl, n, a, d))))
]
