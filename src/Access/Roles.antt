-- ===== src/Access/Roles.antt =====
-- The guards on roles of app/api/core/rbac.py. A guard returns the user or raises an HTTP error of
-- some status; the details and headers of an error are left out.
use crucible_ai.Prelude.{
  Bool, List, Option, String, any, get_or, if◌then◌else◌, is_eq_some, lower, none, same_codes, some,
  ℕ, ◌==◌, ◌||◌,
}

-- The scope of a user's metadata: a list of mines, or a text.
pub data Mines : Type 0 where
  listed : List String → Mines
  text : String → Mines

-- The claims of a user; one that is absent, or null, is `none`.
pub record User : Type 0 where
  pub role : Option String
  pub allowed_mines : Option Mines
  pub mine_id : Option String
  pub sub : Option String
  pub username : Option String
  pub email : Option String

pub data Guarded : Type 0 where
  granted : User → Guarded
  refused : ℕ → Guarded

abbrev pub super_admin : String
super_admin = "super_admin"

-- `user.get("role", "guest")`
abbrev pub role_of : User → String
role_of user = get_or user.role "guest"

-- `ROLE_DEPARTMENT.get(role, "")`
unfoldable pub role_department : String → String
role_department role =
    if role == super_admin || role == "management"
    then "all"
    else if role == "production_admin"
    then "production"
    else if role == "exploration_admin"
    then "exploration"
    else if role == "equipment_admin"
    then "equipment"
    else if role == "mine_planner"
    then "planning"
    else ""

abbrev pub forbid_unless : Bool → User → Guarded
forbid_unless ok user = if ok then granted user else refused 403

-- `require_role`
unfoldable pub require_role : String → User → Guarded
require_role role user = forbid_unless (role_of user == super_admin || role_of user == role) user

-- `require_any_role`
unfoldable pub require_any_role : List String → User → Guarded
require_any_role roles user =
    forbid_unless (role_of user == super_admin || any (λ r. role_of user == r) roles) user

-- `require_department`
unfoldable pub require_department : String → User → Guarded
unfolding role_department
require_department department user =
    forbid_unless
      ((role_of user == super_admin || role_of user == "management")
        || role_department (role_of user) == department)
      user

-- `require_authenticated`
unfoldable pub require_authenticated : User → Guarded
require_authenticated user = if role_of user == "guest" then refused 401 else granted user

-- The administrator of a domain, by the code points of its name in lower case.
unfoldable pub domain_role : List ℕ → Option String
domain_role domain =
    if same_codes domain "production"
    then some "production_admin"
    else if same_codes domain "equipment" || same_codes domain "maintenance"
    then some "equipment_admin"
    else if same_codes domain "exploration"
    then some "exploration_admin"
    else if same_codes domain "planning"
    then some "mine_planner"
    else none

-- `check_domain_access`
unfoldable pub check_domain_access : User → String → Bool
unfolding domain_role lower
check_domain_access user domain =
    role_of user == super_admin || is_eq_some (role_of user) (domain_role (lower domain))

unfoldable pub permit_domain : String → Guarded → Guarded
unfolding check_domain_access
permit_domain domain (refused code) = refused code
permit_domain domain (granted user) = forbid_unless (check_domain_access user domain) user

-- `require_domain_permission`
unfoldable pub require_domain_permission : String → User → Guarded
unfolding permit_domain require_authenticated
require_domain_permission domain user = permit_domain domain (require_authenticated user)
