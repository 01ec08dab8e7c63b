-- ===== src/Access/Token/Passes.antt =====
-- What a request has shown that passes the middleware.
use x_ui_aggr.Prelude.{
  ℕ, ◌≤◌, ◌≡◌, refl, subst, ap, ◌∙◌, String, Bool, true, false, Option, none, some, List, leb→le,
  ◌is◌, str_eq_iff, Bool-cases, Option-cases, inl, inr,
}
use x_ui_aggr.Prelude.Strings.{trim_space, has_prefix, trim_prefix}
use x_ui_aggr.Alerts.Types.{UuidCodec}
use x_ui_aggr.Access.Token.{
  pass, stop, role_rank, has_min_role, Claims, Identity, identity_of, of_claims, checked, jwt_auth,
  jwt_auth_with_query, User, Member, find_user, find_member, judge, of_user, of_actor, of_org,
  require_org_role, belongs, find_member-belongs, unauthorized, forbidden,
}

-- What a request that passes RequireOrgRole has shown.
pub record HoldsRole (min_role : String) (org : ℕ) (role actor : String) (users : List User)
    (members : List Member) : Type 0 where
  pub user : User
  pub member : Member
  pub is_actor : find_user actor users ≡ some user
  pub found : find_member org user.id members ≡ some member
  pub belongs : belongs org user.id members ≡ true
  pub role_of : member.role ≡ role
  pub rank : role_rank min_role ≤ role_rank role

judge-pass :
    (min_role : String) (org : ℕ) (m : Member) {org' : ℕ} {role : String}
    → judge min_role org m ≡ pass (org', role)
    → (org ≡ org') × (m.role ≡ role) × (role_rank min_role ≤ role_rank m.role)
unfolding has_min_role
judge-pass min_role org m {org'} {role} h = elim (Bool-cases (has_min_role m.role min_role)) [
  | inl enough ↦
      let same : pass (org, m.role) ≡ pass (org', role) = rw enough at h in
      (cc, cc, leb→le _ _ enough)
  | inr low ↦ let shut : stop forbidden ≡ pass (org', role) = rw low at h in absurd cc
]

of_user-pass :
    (min_role : String) (members_ok : Bool) (org : ℕ) (members : List Member) (user : User)
    {org' : ℕ} {role : String}
    → of_user min_role members_ok org members user ≡ pass (org', role)
    → (m : Member) × (find_member org user.id members ≡ some m)
      × (judge min_role org m ≡ pass (org', role))
of_user-pass min_role false org members user h = absurd cc
of_user-pass min_role true org members user {org'} {role} h =
    elim (Option-cases (find_member org user.id members)) [
      | inl miss ↦ let shut : stop forbidden ≡ pass (org', role) = rw miss at h in absurd cc
      | inr (m, hit) ↦ (m, hit, rw hit at h)
    ]

of_actor-pass :
    (min_role : String) (users_ok members_ok : Bool) (org : ℕ) (actor : String) (users : List User)
    (members : List Member)
    → {org' : ℕ} {role : String}
    → of_actor min_role users_ok members_ok org actor users members ≡ pass (org', role)
    → (user : User) × (find_user actor users ≡ some user)
      × (of_user min_role members_ok org members user ≡ pass (org', role))
of_actor-pass min_role false members_ok org actor users members h = absurd cc
of_actor-pass min_role true members_ok org actor users members {org'} {role} h =
    elim (Option-cases (find_user actor users)) [
      | inl miss ↦ let shut : stop forbidden ≡ pass (org', role) = rw miss at h in absurd cc
      | inr (user, hit) ↦ (user, hit, rw hit at h)
    ]

of_org-pass :
    (min_role : String) (users_ok members_ok : Bool) (actor : String) (users : List User)
    (members : List Member) (o : Option ℕ) {org : ℕ} {role : String}
    → of_org min_role users_ok members_ok actor users members o ≡ pass (org, role)
    → (x : ℕ) × (o ≡ some x)
      × ((actor is "") ≡ false)
      × (of_actor min_role users_ok members_ok x actor users members ≡ pass (org, role))
of_org-pass min_role users_ok members_ok actor users members none h = absurd cc
of_org-pass min_role users_ok members_ok actor users members (some x) {org} {role} h =
    elim (Bool-cases (actor is "")) [
      | inl nobody ↦ let shut : stop unauthorized ≡ pass (org, role) = rw nobody at h in absurd cc
      | inr named ↦ (x, refl, named, rw named at h)
    ]

-- A request that passes RequireOrgRole names an organisation of which its actor, who has a name, is
-- a member with the role that is handed on, and that role ranks at least as high as the one asked for.
pub require_org_role-HoldsRole :
    (u : UuidCodec) (min_role : String) (users_ok members_ok : Bool) (org_param actor : String)
    (users : List User) (members : List Member) (org : ℕ) (role : String)
    → require_org_role u min_role users_ok members_ok org_param actor users members
      ≡ pass (org, role)
    → (u.parse (trim_space org_param) ≡ some org)
      × ((actor is "") ≡ false)
      × HoldsRole min_role org role actor users members
unfolding require_org_role
require_org_role-HoldsRole u min_role users_ok members_ok org_param actor users members org role h =
    let (x, hit, named, go) =
      of_org-pass min_role users_ok members_ok actor users members (u.parse (trim_space org_param))
        h in
    let (user, is_actor, k) = of_actor-pass min_role users_ok members_ok x actor users members go in
    let (m, member, j) = of_user-pass min_role members_ok x members user k in
    let (same, role_of, rank) = judge-pass min_role x m j in
    (
      hit ∙ ap some same,
      named,
      record {
        user = user;
        member = m;
        is_actor = is_actor;
        found = subst (λ o. find_member o user.id members ≡ some m) same member;
        belongs =
            subst (λ o. belongs o user.id members ≡ true) same
              (find_member-belongs x user.id members m member);
        role_of = role_of;
        rank = subst (λ r. role_rank min_role ≤ role_rank r) role_of rank;
      },
    )

admin_is_named : ("admin" is "") ≡ false
unfolding ◌is◌
admin_is_named = refl

actor_is_named : (c : Claims) → ((identity_of c).actor is "") ≡ false
actor_is_named c = elim (Bool-cases (c.user is "")) [
  | inl unnamed ↦ elim (Bool-cases (c.subject is "")) [
    | inl bare ↦ rw (unnamed, bare) admin_is_named
    | inr named ↦ rw (unnamed, named) named
  ]
  | inr named ↦ rw named named
]

checked-pass :
    (o : Option Claims) (who : Identity)
    → of_claims o ≡ pass who
    → (c : Claims) × (o ≡ some c) × (identity_of c ≡ who)
checked-pass none who h = absurd cc
checked-pass (some c) who h = (c, refl, cc)

-- Where the empty token is not valid, a header that JWTAuth accepts is accepted by
-- JWTAuthWithQuery with the same identity, whatever the URL says, and its actor has a name.
pub jwt_auth_with_query-jwt_auth :
    (parse : String → Option Claims) (param authorization query : String) (who : Identity)
    → parse "" ≡ none
    → jwt_auth parse authorization ≡ pass who
    → (jwt_auth_with_query parse param authorization query ≡ pass who) × ((who.actor is "") ≡ false)
unfolding jwt_auth jwt_auth_with_query
jwt_auth_with_query-jwt_auth parse param authorization query who empty h =
    let token = trim_prefix authorization "Bearer " in
    elim (Bool-cases (has_prefix authorization "Bearer ")) [
      | inl bearer ↦
          let good : checked parse token ≡ pass who = rw bearer at h in
          let (c, valid, same) = checked-pass (parse token) who good in
          elim (Bool-cases (token is "")) [
            | inl blank ↦
                let gone : parse token ≡ none = rw ((str_eq_iff token "").0 blank) empty in
                absurd (cc (valid, gone))
            | inr shown ↦ (
              rw (bearer, shown, shown) good,
              subst (λ (x : Identity). (x.actor is "") ≡ false) same (actor_is_named c),
            )
          ]
      | inr other ↦ let shut : stop unauthorized ≡ pass who = rw other at h in absurd cc
    ]
