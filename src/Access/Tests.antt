-- ===== src/Access/Tests.antt =====
-- Two organisations and two users, on which the theorems are tried.
use mathlib.Core.List.{Memᴰ}
use x_ui_aggr.Prelude.{
  ◌≡◌, refl, String, true, false, Option, none, some, List, [], ◌∷◌, ◌is◌, lookup,
}
use x_ui_aggr.Prelude.Results.{ok, fail}
use x_ui_aggr.Prelude.Strings.{trim_space, to_lower, has_prefix, trim_prefix}
use x_ui_aggr.Alerts.Samples.{codec, ticks, count_ticks}
use x_ui_aggr.Access.Token.Passes.{
  HoldsRole, require_org_role-HoldsRole, jwt_auth_with_query-jwt_auth,
}
use x_ui_aggr.Access.Token.{
  Claims, Identity, User, Member, pass, stop, forbidden, jwt_auth, jwt_auth_with_query,
  require_org_role, find_user, find_member, belongs, has_min_role, role_rank,
}
use x_ui_aggr.Access.Scope.{
  Check, Tables, Request, org_id_from_request, get_node_for_actor, get_check_for_actor, allow_check,
  first_node, find_check, fallback_org, first_org_for_user,
}
use x_ui_aggr.Access.Isolation.{Sees, get_check_for_actor-Sees, org_id_from_request-belongs}

abbrev users : List User
users = record { id = 1; username = "Ann" } ∷ record { id = 2; username = "bob" } ∷ []

abbrev members : List Member
members =
    record { org_id = 1; user_id = 1; role = "admin" }
    ∷ record { org_id = 2; user_id = 2; role = "viewer" }
    ∷ []

abbrev tables : Tables
tables = record {
  members = members;
  nodes = record { id = 5; org_id = some 1 } ∷ record { id = 6; org_id = some 2 } ∷ [];
  services = [];
  bots = [];
  checks = record { id = 3; target_type = "node"; target_id = 5 } ∷ [];
}

passes : require_org_role codec "viewer" true true " 1 " "ann" users members ≡ pass (1, "admin")
unfolding require_org_role ticks count_ticks find_user find_member has_min_role role_rank trim_space
    to_lower ◌is◌
passes = refl

require_org_role-HoldsRole_example :
    (codec.parse (trim_space " 1 ") ≡ some 1)
    × (("ann" is "") ≡ false)
    × HoldsRole "viewer" 1 "admin" "ann" users members
require_org_role-HoldsRole_example =
    require_org_role-HoldsRole codec "viewer" true true " 1 " "ann" users members 1 "admin" passes

-- A member of another organisation is refused.
refuses : require_org_role codec "viewer" true true "1" "bob" users members ≡ stop forbidden
unfolding require_org_role ticks count_ticks find_user find_member has_min_role role_rank trim_space
    to_lower ◌is◌
refuses = refl

abbrev claims : Claims
claims = record { role = "admin"; user = ""; subject = "ann" }

abbrev parse : String → Option Claims
parse token = lookup token (("token", claims) ∷ [])

abbrev who : Identity
who = record { actor = "ann"; role = "admin" }

none_empty : parse "" ≡ none
unfolding lookup ◌is◌
none_empty = refl

enters : jwt_auth parse "Bearer token" ≡ pass who
unfolding jwt_auth lookup has_prefix trim_prefix ◌is◌
enters = refl

jwt_auth_with_query-jwt_auth_example :
    (jwt_auth_with_query parse "token" "Bearer token" "other" ≡ pass who)
    × ((who.actor is "") ≡ false)
jwt_auth_with_query-jwt_auth_example =
    jwt_auth_with_query-jwt_auth parse "token" "Bearer token" "other" who none_empty enters

-- The first user asks for the second organisation, and gets the first one.
abbrev request : Request
request = record {
  header = "11";
  query = "";
  member_ok = true;
  first_ok = true;
  rows_ok = true;
  check_ok = true;
}

gets_own : org_id_from_request codec request 1 tables ≡ ok (some 1)
unfolding org_id_from_request fallback_org first_org_for_user find_member ticks count_ticks
    trim_space ◌is◌
gets_own = refl

org_id_from_request-belongs_example : belongs 1 1 members ≡ true
org_id_from_request-belongs_example = org_id_from_request-belongs codec request 1 tables 1 gets_own

abbrev check : Check
check = record { id = 3; target_type = "node"; target_id = 5 }

gets_check : get_check_for_actor codec request 1 tables "111" ≡ ok check
unfolding get_check_for_actor allow_check get_node_for_actor first_node find_check
    org_id_from_request fallback_org first_org_for_user find_member ticks count_ticks trim_space
    ◌is◌
gets_check = refl

get_check_for_actor-Sees_example :
    (codec.parse "111" ≡ some check.id) × Memᴰ check tables.checks × Sees 1 tables check
get_check_for_actor-Sees_example =
    get_check_for_actor-Sees codec request 1 tables "111" check gets_check

-- The second user does not get it.
hidden : get_check_for_actor codec request 2 tables "111" ≡ fail "record not found"
unfolding get_check_for_actor allow_check get_node_for_actor first_node find_check
    org_id_from_request fallback_org first_org_for_user find_member ticks count_ticks trim_space
    ◌is◌
hidden = refl
