-- ===== src/Access/Scope.antt =====
-- org_scope.go: the organisation of a request, and the rows that its user may see.
pub mod Rows
use x_ui_aggr.Prelude.{
  ℕ, String, Bool, true, false, ◌&&◌, Option, none, some, List, [], ◌∷◌, ◌==◌, ◌is◌, if◌then◌else◌,
  any,
}
use x_ui_aggr.Prelude.Strings.{trim_space}
use x_ui_aggr.Prelude.Results.{Result, ok, fail, and_then}
use x_ui_aggr.Alerts.Types.{UuidCodec}
use x_ui_aggr.Access.Token.{Member, find_member, belongs}

pub record Node : Type 0 where
  pub id : ℕ
  pub org_id : Option ℕ

pub record Service : Type 0 where
  pub id : ℕ
  pub org_id : Option ℕ

pub record Bot : Type 0 where
  pub id : ℕ
  pub node_id : ℕ

pub record Check : Type 0 where
  pub id : ℕ
  pub target_type : String
  pub target_id : ℕ

-- The tables; the members are in the order of created_at.
pub record Tables : Type 0 where
  pub members : List Member
  pub nodes : List Node
  pub services : List Service
  pub bots : List Bot
  pub checks : List Check

-- The header X-Org-ID, the parameter org_id of the URL, and whether the reads succeed.
pub record Request : Type 0 where
  pub header : String
  pub query : String
  pub member_ok : Bool
  pub first_ok : Bool
  pub rows_ok : Bool
  pub check_ok : Bool

unfoldable pub first_org_for_user : ℕ → List Member → Option ℕ
first_org_for_user user [] = none
first_org_for_user user (m ∷ ms) =
    if m.user_id == user then some m.org_id else first_org_for_user user ms

abbrev pub raw_org : Request → String
raw_org r = if trim_space r.header is "" then trim_space r.query else trim_space r.header

-- The end of orgIDFromRequest: the first organisation of the user.
unfoldable pub fallback_org : Request → ℕ → Tables → Result (Option ℕ)
fallback_org r user t = if r.first_ok then ok (first_org_for_user user t.members) else fail "db"

abbrev pub asked_org : Request → ℕ → Tables → ℕ → Result (Option ℕ)
asked_org r user t org =
    if r.member_ok
    then elim (find_member org user t.members) [
      | none ↦ fallback_org r user t
      | some m ↦ ok (some org)
    ]
    else fail "db"

unfoldable pub org_id_from_request : UuidCodec → Request → ℕ → Tables → Result (Option ℕ)
org_id_from_request u r user t =
    if raw_org r is "" then fallback_org r user t else elim (u.parse (raw_org r)) [
      | none ↦ fallback_org r user t
      | some org ↦ asked_org r user t org
    ]

-- The join with organization_members, and the filter by the organisation of the request.
abbrev pub in_scope : Option ℕ → ℕ → List Member → Option ℕ → Bool
in_scope wanted user members none = false
in_scope wanted user members (some org) =
    belongs org user members && elim wanted [ none ↦ true | some w ↦ org == w ]

unfoldable pub first_node : Option ℕ → ℕ → List Member → ℕ → List Node → Option Node
first_node wanted user members id [] = none
first_node wanted user members id (n ∷ ns) =
    if n.id == id && in_scope wanted user members n.org_id
    then some n
    else first_node wanted user members id ns

unfoldable pub first_service : Option ℕ → ℕ → List Member → ℕ → List Service → Option Service
first_service wanted user members id [] = none
first_service wanted user members id (s ∷ ss) =
    if s.id == id && in_scope wanted user members s.org_id
    then some s
    else first_service wanted user members id ss

-- A bot is joined with its node.
abbrev pub has_node : Option ℕ → ℕ → List Member → ℕ → List Node → Bool
has_node wanted user members id nodes =
    any (λ n. n.id == id && in_scope wanted user members n.org_id) nodes

unfoldable pub first_bot : Option ℕ → ℕ → Tables → ℕ → List Bot → Option Bot
first_bot wanted user t id [] = none
first_bot wanted user t id (b ∷ bs) =
    if b.id == id && has_node wanted user t.members b.node_id t.nodes
    then some b
    else first_bot wanted user t id bs

abbrev pub found {ℓ} : {A : Type ℓ} → Bool → Option A → Result A
found true (some a) = ok a
found true none = fail "record not found"
found false o = fail "db"

unfoldable pub get_node_for_actor : UuidCodec → Request → ℕ → Tables → ℕ → Result Node
get_node_for_actor u r user t id =
    and_then (org_id_from_request u r user t)
      (λ wanted. found r.rows_ok (first_node wanted user t.members id t.nodes))

unfoldable pub get_service_for_actor : UuidCodec → Request → ℕ → Tables → ℕ → Result Service
get_service_for_actor u r user t id =
    and_then (org_id_from_request u r user t)
      (λ wanted. found r.rows_ok (first_service wanted user t.members id t.services))

unfoldable pub get_bot_for_actor : UuidCodec → Request → ℕ → Tables → ℕ → Result Bot
get_bot_for_actor u r user t id =
    and_then (org_id_from_request u r user t)
      (λ wanted. found r.rows_ok (first_bot wanted user t id t.bots))

unfoldable pub find_check : ℕ → List Check → Option Check
find_check id [] = none
find_check id (c ∷ cs) = if c.id == id then some c else find_check id cs

-- The switch over the type of the target.
unfoldable pub allow_check : UuidCodec → Request → ℕ → Tables → Check → Result Check
allow_check u r user t c =
    if c.target_type is "node"
    then and_then (get_node_for_actor u r user t c.target_id) (λ _. ok c)
    else if c.target_type is "service"
    then and_then (get_service_for_actor u r user t c.target_id) (λ _. ok c)
    else if c.target_type is "bot"
    then and_then (get_bot_for_actor u r user t c.target_id) (λ _. ok c)
    else fail "record not found"

abbrev pub check_with : UuidCodec → Request → ℕ → Tables → Option ℕ → Result Check
check_with u r user t none = fail "invalid UUID"
check_with u r user t (some id) =
    and_then (found r.check_ok (find_check id t.checks)) (allow_check u r user t)

unfoldable pub get_check_for_actor : UuidCodec → Request → ℕ → Tables → String → Result Check
get_check_for_actor u r user t id_text = check_with u r user t (u.parse id_text)
