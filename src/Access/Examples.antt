-- ===== src/Access/Examples.antt =====
-- The theorems on access control at concrete data.
use crucible_ai.Access.Roles.{listed, text, User, require_domain_permission}
use crucible_ai.Access.Domains.{Answered, require_domain_permission-Answered}
use crucible_ai.Access.Scopes.{Authorised, accessible_mines-Authorised}
use crucible_ai.Access.Mines.{accessible_mines, covers}
use crucible_ai.Prelude.{All, [], contains, lower, none, refl, same_codes, some, true, ◌∷◌, ◌≡◌}

abbrev planner : User
planner = record {
  role = some "mine_planner";
  allowed_mines = some (listed ("M1" ∷ ("M2" ∷ [])));
  mine_id = none;
  sub = some "user-1";
  username = none;
  email = none;
}

in_production : same_codes (lower "Production") "production" ≡ true
unfolding same_codes lower
in_production = refl

accessible_mines-Authorised_example :
    All
      (Authorised planner)
      (accessible_mines "Production" (some planner) ("M1" ∷ ("M3" ∷ [])) []).0
    × ((accessible_mines "Production" (some planner) ("M1" ∷ ("M3" ∷ [])) []).1 ≡ [])
accessible_mines-Authorised_example =
    accessible_mines-Authorised "Production" planner ("M1" ∷ ("M3" ∷ [])) [] in_production

require_domain_permission-Answered_example :
    Answered "Planning" planner (require_domain_permission "Planning" planner)
require_domain_permission-Answered_example = require_domain_permission-Answered "Planning" planner

-- A scope that is a text covers every mine whose name is a part of it.
text_scope : covers (text "MINE-12") "MINE-1" ≡ true
unfolding covers contains
text_scope = refl
