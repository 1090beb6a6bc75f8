-- ===== src/Access/Mines.antt =====
-- The scope of mines of app/api/core/rbac.py. `settings.ENVIRONMENT` is an argument; the users already
-- warned about are a state.
use crucible_ai.Access.Roles.{
  Mines, User, role_of, super_admin, listed, text, Guarded, forbid_unless,
}
use crucible_ai.Pipeline.Steps.{truthy}
use crucible_ai.Prelude.{
  Bool, List, Option, String, [], any, codes, contains, false, get_or, if◌then◌else◌, lower, none,
  or_else, same_codes, some, true, ◌==◌, ◌||◌, ◌∷◌,
}

-- A truthy scope, or none
abbrev pub scope_of : Option Mines → Option Mines
scope_of none = none
scope_of (some (listed [])) = none
scope_of (some (text s)) = if s == "" then none else some (text s)
scope_of (some m) = some m

-- `key in allowed_mines`, which looks for a part of a text
unfoldable pub covers : Mines → String → Bool
unfolding contains
covers (listed mines) key = any (λ m. m == key) mines
covers (text s) key = contains key (codes s)

-- `str(user.get("sub") or user.get("username") or user.get("email") or "unknown")`
unfoldable pub identity_of : User → String
identity_of user =
    get_or (or_else (truthy user.sub) (or_else (truthy user.username) (truthy user.email)))
      "unknown"

-- `_warn_unscoped`
unfoldable pub warn_unscoped : User → List String → List String
unfolding identity_of
warn_unscoped user warned =
    if any (λ i. i == identity_of user) warned then warned else identity_of user ∷ warned

unfoldable pub check_unscoped : String → User → List String → Bool × List String
unfolding warn_unscoped lower same_codes
check_unscoped environment user warned =
    if same_codes (lower environment) "production"
    then (false, warned)
    else (true, warn_unscoped user warned)

unfoldable pub check_assigned :
    String → User → Option String → String → List String → Bool × List String
unfolding check_unscoped
check_assigned environment user none mine warned = check_unscoped environment user warned
check_assigned environment user (some assigned) mine warned = (assigned == mine, warned)

unfoldable pub check_scope :
    String → User → Option Mines → String → List String → Bool × List String
unfolding check_assigned covers
check_scope environment user none mine warned =
    check_assigned environment user (truthy user.mine_id) mine warned
check_scope environment user (some m) mine warned =
    ((covers m "*" || covers m "all") || covers m mine, warned)

-- `check_mine_access`, for a user that may be absent or an empty dictionary, `none`
unfoldable pub check_mine_access : String → Option User → String → List String → Bool × List String
unfolding check_scope
check_mine_access environment none mine warned = (false, warned)
check_mine_access environment (some user) mine warned =
    if role_of user == super_admin
    then (true, warned)
    else check_scope environment user (scope_of user.allowed_mines) mine warned

-- `accessible_mines`
unfoldable pub accessible_mines :
    String → Option User → List String → List String → List String × List String
unfolding check_mine_access
accessible_mines environment user [] warned = ([], warned)
accessible_mines environment user (m ∷ ms) warned =
    let (ok, after) = check_mine_access environment user m warned in
    let (rest, last) = accessible_mines environment user ms after in
    (if ok then m ∷ rest else rest, last)

-- `require_mine_access`
unfoldable pub require_mine_access : String → User → String → List String → Guarded × List String
unfolding check_mine_access
require_mine_access environment user mine warned =
    let (ok, after) = check_mine_access environment (some user) mine warned in
    (forbid_unless ok user, after)
