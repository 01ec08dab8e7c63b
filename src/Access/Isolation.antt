-- ===== src/Access/Isolation.antt =====
-- A user only reaches rows of organisations that the user is a member of.
use mathlib.Core.List.{Memᴰ}
use x_ui_aggr.Prelude.{
  ap, sym, or_right, ==_refl, ℕ, ◌≡◌, refl, subst, str_eq_iff, String, Bool, true, false, Option,
  none, some, List, [], ◌∷◌, ◌==◌, ◌is◌, inl, inr, Bool-cases, Option-cases,
}
use x_ui_aggr.Prelude.Results.{ok, fail, and_then, and_then-ok, fail≢ok}
use x_ui_aggr.Alerts.Types.{UuidCodec}
use x_ui_aggr.Access.Token.{Member, find_member, belongs, find_member-belongs}
use x_ui_aggr.Access.Scope.{
  Service, Bot, Check, Tables, Request, first_org_for_user, raw_org, fallback_org, asked_org,
  org_id_from_request, found, get_node_for_actor, get_service_for_actor, get_bot_for_actor,
  find_check, allow_check, check_with, get_check_for_actor,
}
use x_ui_aggr.Access.Scope.Rows.{
  ==_eq, Reaches, first_node-Reaches, first_service-Reaches, ReachedNode, first_bot-ReachedNode,
}

found-some {ℓ} : {A : Type ℓ} (b : Bool) (o : Option A) {a : A} → found b o ≡ ok a → o ≡ some a
found-some true (some x) h = cc
found-some true none h = absurd cc
found-some false o h = absurd cc

-- The target of a check is a node, a service or a bot of the tables that the user reaches.
pub data Sees (user : ℕ) (t : Tables) : Check → Type 0 where
  node_target :
      (c : Check)
      → c.target_type ≡ "node"
      → ReachedNode user t.members t.nodes c.target_id
      → Sees user t c
  service_target :
      (c : Check) (s : Service)
      → c.target_type ≡ "service"
      → Memᴰ s t.services
      → s.id ≡ c.target_id
      → Reaches user t.members s.org_id
      → Sees user t c
  bot_target :
      (c : Check) (b : Bot)
      → c.target_type ≡ "bot"
      → Memᴰ b t.bots
      → b.id ≡ c.target_id
      → ReachedNode user t.members t.nodes b.node_id
      → Sees user t c

node_check-Sees :
    (u : UuidCodec) (r : Request) (user : ℕ) (t : Tables) (c d : Check)
    → c.target_type ≡ "node"
    → and_then (get_node_for_actor u r user t c.target_id) (λ _. ok c) ≡ ok d
    → (c ≡ d) × Sees user t c
unfolding get_node_for_actor
node_check-Sees u r user t c d kind h =
    let (node, got, same) = and_then-ok (get_node_for_actor u r user t c.target_id) (λ _. ok c) h in
    let (wanted, _, read) = and_then-ok (org_id_from_request u r user t) _ got in
    let (listed, has, reaches) =
      first_node-Reaches wanted user t.members c.target_id t.nodes node
        (found-some r.rows_ok _ read) in
    (
      cc,
      node_target c kind (record { node = node; listed = listed; has_id = has; reaches = reaches }),
    )

service_check-Sees :
    (u : UuidCodec) (r : Request) (user : ℕ) (t : Tables) (c d : Check)
    → c.target_type ≡ "service"
    → and_then (get_service_for_actor u r user t c.target_id) (λ _. ok c) ≡ ok d
    → (c ≡ d) × Sees user t c
unfolding get_service_for_actor
service_check-Sees u r user t c d kind h =
    let (s, got, same) = and_then-ok (get_service_for_actor u r user t c.target_id) (λ _. ok c) h in
    let (wanted, _, read) = and_then-ok (org_id_from_request u r user t) _ got in
    let (listed, has, reaches) =
      first_service-Reaches wanted user t.members c.target_id t.services s
        (found-some r.rows_ok _ read) in
    (cc, service_target c s kind listed has reaches)

bot_check-Sees :
    (u : UuidCodec) (r : Request) (user : ℕ) (t : Tables) (c d : Check)
    → c.target_type ≡ "bot"
    → and_then (get_bot_for_actor u r user t c.target_id) (λ _. ok c) ≡ ok d
    → (c ≡ d) × Sees user t c
unfolding get_bot_for_actor
bot_check-Sees u r user t c d kind h =
    let (b, got, same) = and_then-ok (get_bot_for_actor u r user t c.target_id) (λ _. ok c) h in
    let (wanted, _, read) = and_then-ok (org_id_from_request u r user t) _ got in
    let (listed, has, reaches) =
      first_bot-ReachedNode wanted user t c.target_id t.bots b (found-some r.rows_ok _ read) in
    (cc, bot_target c b kind listed has reaches)

allow_check-Sees :
    (u : UuidCodec) (r : Request) (user : ℕ) (t : Tables) (c d : Check)
    → allow_check u r user t c ≡ ok d
    → (c ≡ d) × Sees user t c
unfolding allow_check
allow_check-Sees u r user t c d h = elim (Bool-cases (c.target_type is "node")) [
  | inl n ↦ node_check-Sees u r user t c d ((str_eq_iff c.target_type "node").0 n) (rw n at h)
  | inr not_n ↦ elim (Bool-cases (c.target_type is "service")) [
    | inl s ↦
        service_check-Sees u r user t c d ((str_eq_iff c.target_type "service").0 s)
          (rw (not_n, s) at h)
    | inr not_s ↦ elim (Bool-cases (c.target_type is "bot")) [
      | inl b ↦
          bot_check-Sees u r user t c d ((str_eq_iff c.target_type "bot").0 b)
            (rw (not_n, not_s, b) at h)
      | inr not_b ↦
          let shut : fail "record not found" ≡ ok d = rw (not_n, not_s, not_b) at h in
          absurd (fail≢ok shut)
    ]
  ]
]

find_check-Memᴰ :
    (id : ℕ) (checks : List Check) (c : Check)
    → find_check id checks ≡ some c
    → (c.id ≡ id) × Memᴰ c checks
unfolding find_check
find_check-Memᴰ id [] c h = absurd cc
find_check-Memᴰ id (x ∷ checks) c h = elim (Bool-cases (x.id == id)) [
  | inl hit ↦
      let same : some x ≡ some c = rw hit at h in
      let x_is_c : x ≡ c = cc in
      subst (λ (y : Check). (y.id ≡ id) × Memᴰ y (x ∷ checks)) x_is_c
        (==_eq x.id id hit, Memᴰ.head refl)
  | inr miss ↦
      let (has, listed) = find_check-Memᴰ id checks c (rw miss at h) in (has, Memᴰ.tail listed)
]

check_with-Sees :
    (u : UuidCodec) (r : Request) (user : ℕ) (t : Tables) (o : Option ℕ) (c : Check)
    → check_with u r user t o ≡ ok c
    → (o ≡ some c.id) × Memᴰ c t.checks × Sees user t c
check_with-Sees u r user t none c h = absurd (fail≢ok h)
check_with-Sees u r user t (some id) c h =
    let (x, read, allowed) =
      and_then-ok (found r.check_ok (find_check id t.checks)) (allow_check u r user t) h in
    let (has, listed) = find_check-Memᴰ id t.checks x (found-some r.check_ok _ read) in
    let (same, sees) = allow_check-Sees u r user t x c allowed in
    subst (λ (y : Check). (some id ≡ some y.id) × Memᴰ y t.checks × Sees user t y) same
      (ap (λ n. some n) (sym has), listed, sees)

-- A check that a user gets is the one of the table with the identifier that is asked for, and its
-- target is a row of the tables that the user reaches: a node or a service of an organisation of which
-- the user is a member, or a bot on such a node, whatever organisation the request asks for.
pub get_check_for_actor-Sees :
    (u : UuidCodec) (r : Request) (user : ℕ) (t : Tables) (id_text : String) (c : Check)
    → get_check_for_actor u r user t id_text ≡ ok c
    → (u.parse id_text ≡ some c.id) × Memᴰ c t.checks × Sees user t c
unfolding get_check_for_actor
get_check_for_actor-Sees u r user t id_text c h = check_with-Sees u r user t (u.parse id_text) c h

first_org-belongs :
    (user : ℕ) (members : List Member) (org : ℕ)
    → first_org_for_user user members ≡ some org
    → belongs org user members ≡ true
unfolding first_org_for_user
first_org-belongs user [] org h = absurd cc
first_org-belongs user (m ∷ members) org h = elim (Bool-cases (m.user_id == user)) [
  | inl hit ↦
      let same : some m.org_id ≡ some org = rw hit at h in
      let org_is : m.org_id ≡ org = cc in rw (org_is, ==_refl org, hit) refl
  | inr miss ↦ or_right _ _ (first_org-belongs user members org (rw miss at h))
]

fallback_org-belongs :
    (r : Request) (user : ℕ) (t : Tables) (org : ℕ)
    → fallback_org r user t ≡ ok (some org)
    → belongs org user t.members ≡ true
unfolding fallback_org
fallback_org-belongs r user t org h = elim (Bool-cases r.first_ok) [
  | inl read ↦
      let same : ok (first_org_for_user user t.members) ≡ ok (some org) = rw read at h in
      first_org-belongs user t.members org cc
  | inr failed ↦ let shut : fail "db" ≡ ok (some org) = rw failed at h in absurd (fail≢ok shut)
]

asked_org-belongs :
    (r : Request) (user : ℕ) (t : Tables) (asked org : ℕ)
    → asked_org r user t asked ≡ ok (some org)
    → belongs org user t.members ≡ true
asked_org-belongs r user t asked org h = elim (Bool-cases r.member_ok) [
  | inl read ↦ elim (Option-cases (find_member asked user t.members)) [
    | inl miss ↦ fallback_org-belongs r user t org (rw (read, miss) at h)
    | inr (m, hit) ↦
        let same : ok (some asked) ≡ ok (some org) = rw (read, hit) at h in
        let asked_is : asked ≡ org = cc in
        subst (λ x. belongs x user t.members ≡ true) asked_is
          (find_member-belongs asked user t.members m hit)
  ]
  | inr failed ↦ let shut : fail "db" ≡ ok (some org) = rw failed at h in absurd (fail≢ok shut)
]

-- The organisation of a request is always one of which its user is a member, also where the
-- request asks for another one or for none.
pub org_id_from_request-belongs :
    (u : UuidCodec) (r : Request) (user : ℕ) (t : Tables) (org : ℕ)
    → org_id_from_request u r user t ≡ ok (some org)
    → belongs org user t.members ≡ true
unfolding org_id_from_request
org_id_from_request-belongs u r user t org h = elim (Bool-cases (raw_org r is "")) [
  | inl unasked ↦ fallback_org-belongs r user t org (rw unasked at h)
  | inr asked ↦ elim (Option-cases (u.parse (raw_org r))) [
    | inl miss ↦ fallback_org-belongs r user t org (rw (asked, miss) at h)
    | inr (x, hit) ↦ asked_org-belongs r user t x org (rw (asked, hit) at h)
  ]
]
