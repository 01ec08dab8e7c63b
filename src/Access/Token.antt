-- ===== src/Access/Token.antt =====
-- JWTAuth, JWTAuthWithQuery, RequireRoles and RequireOrgRole.
pub mod Passes
use x_ui_aggr.Prelude.{
  ℕ, ◌≤◌, ◌≡◌, refl, subst, ap, ◌∙◌, String, Bool, true, false, not, ◌&&◌, Option, none, some, List,
  [], ◌∷◌, ◌==◌, leb, leb→le, ◌is◌, str_eq_iff, if◌then◌else◌, Bool-cases, Option-cases, inl, inr,
  any,
}
use x_ui_aggr.Prelude.Strings.{trim_space, to_lower, has_prefix, trim_prefix}
use x_ui_aggr.Alerts.Types.{UuidCodec}

-- The codes of the responses that end a request.
pub data Code : Type 0 where
  unauthorized forbidden invalid_org db_read : Code

-- A request goes on with a value, or ends.
pub data Verdict (A : Type 0) : Type 0 where
  pass : A → Verdict A
  stop : Code → Verdict A

unfoldable pub role_rank : String → ℕ
role_rank role =
    if role is "owner" then 3 else if role is "admin" then 2 else if role is "viewer" then 1 else 0

unfoldable pub has_min_role : String → String → Bool
has_min_role role min_role = leb (role_rank min_role) (role_rank role)

pub record Claims : Type 0 where
  pub role : String
  pub user : String
  pub subject : String

-- What the middleware stores in the context of the request.
pub record Identity : Type 0 where
  pub actor : String
  pub role : String

abbrev pub identity_of : Claims → Identity
identity_of c = record {
  actor = if c.user is "" then (if c.subject is "" then "admin" else c.subject) else c.user;
  role = c.role;
}

abbrev pub of_claims : Option Claims → Verdict Identity
of_claims none = stop unauthorized
of_claims (some claims) = pass (identity_of claims)

-- github.com/golang-jwt/jwt/v5: the claims of a token with a valid HS256 signature, or none.
module _ (parse_with_claims : String → Option Claims) where
  abbrev pub checked : String → Verdict Identity
  checked token = of_claims (parse_with_claims token)

  unfoldable pub jwt_auth : String → Verdict Identity
  jwt_auth authorization =
      if has_prefix authorization "Bearer "
      then checked (trim_prefix authorization "Bearer ")
      else stop unauthorized

  abbrev pub header_token : String → String
  header_token authorization =
      if has_prefix authorization "Bearer " then trim_prefix authorization "Bearer " else ""

  -- `query` is the value of the parameter `param` in the URL.
  unfoldable pub jwt_auth_with_query : String → String → String → Verdict Identity
  jwt_auth_with_query param authorization query =
      let from_header = header_token authorization in
      let token =
        if from_header is "" && not (param is "") then trim_space query else from_header in
      if token is "" then stop unauthorized else checked token

unfoldable pub require_roles : List String → String → Verdict (Unit {0})
require_roles roles role =
    if role is ""
    then stop unauthorized
    else if any (λ r. r is role) roles
    then pass tt
    else stop forbidden

pub record User : Type 0 where
  pub id : ℕ
  pub username : String

pub record Member : Type 0 where
  pub org_id : ℕ
  pub user_id : ℕ
  pub role : String

-- `Where("lower(username) = lower(?)", actor).First(&user)`
unfoldable pub find_user : String → List User → Option User
find_user actor [] = none
find_user actor (u ∷ us) =
    if to_lower u.username is to_lower actor then some u else find_user actor us

unfoldable pub find_member : ℕ → ℕ → List Member → Option Member
find_member org user [] = none
find_member org user (m ∷ ms) =
    if m.org_id == org && m.user_id == user then some m else find_member org user ms

abbrev pub judge : String → ℕ → Member → Verdict (ℕ × String)
judge min_role org m = if has_min_role m.role min_role then pass (org, m.role) else stop forbidden

abbrev pub of_user : String → Bool → ℕ → List Member → User → Verdict (ℕ × String)
of_user min_role members_ok org members user =
    if members_ok
    then elim (find_member org user.id members) [
      | none ↦ stop forbidden
      | some m ↦ judge min_role org m
    ]
    else stop db_read

abbrev pub of_actor :
    String → Bool → Bool → ℕ → String → List User → List Member → Verdict (ℕ × String)
of_actor min_role users_ok members_ok org actor users members =
    if users_ok
    then elim (find_user actor users) [
      | none ↦ stop forbidden
      | some user ↦ of_user min_role members_ok org members user
    ]
    else stop db_read

abbrev pub of_org :
    String → Bool → Bool → String → List User → List Member → Option ℕ → Verdict (ℕ × String)
of_org min_role users_ok members_ok actor users members none = stop invalid_org
of_org min_role users_ok members_ok actor users members (some org) =
    if actor is ""
    then stop unauthorized
    else of_actor min_role users_ok members_ok org actor users members

-- `org_param` is the parameter orgId of the path; the flags tell whether the two reads succeed.
unfoldable pub require_org_role :
    UuidCodec
    → String
    → Bool
    → Bool
    → String
    → String
    → List User
    → List Member
    → Verdict (ℕ × String)
require_org_role u min_role users_ok members_ok org_param actor users members =
    of_org min_role users_ok members_ok actor users members (u.parse (trim_space org_param))

-- Whether the user is a member of the organisation.
abbrev pub belongs : ℕ → ℕ → List Member → Bool
belongs org user members = any (λ m. m.org_id == org && m.user_id == user) members

pub find_member-belongs :
    (org user : ℕ) (members : List Member) (m : Member)
    → find_member org user members ≡ some m
    → belongs org user members ≡ true
unfolding find_member
find_member-belongs org user [] m h = absurd cc
find_member-belongs org user (x ∷ members) m h =
    elim (Bool-cases (x.org_id == org && x.user_id == user)) [
      | inl same ↦ rw same refl
      | inr other ↦ rw other (find_member-belongs org user members m (rw other at h))
    ]
