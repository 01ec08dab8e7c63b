-- ===== src/Access/Scope/Rows.antt =====
-- The rows that the queries with a membership give.
use mathlib.Core.List.{Memᴰ}
use x_ui_aggr.Prelude.{
  ℕ, ◌≡◌, refl, subst, arith, Bool, true, false, ◌&&◌, Option, none, some, List, [], ◌∷◌, ◌==◌, inl,
  inr, Bool-cases,
}
use x_ui_aggr.Access.Token.{Member, belongs}
use x_ui_aggr.Access.Scope.{
  Node, Service, Bot, Tables, in_scope, first_node, first_service, has_node, first_bot,
}

-- An organisation is given, and the user is a member of it.
pub record Reaches (user : ℕ) (members : List Member) (owner : Option ℕ) : Type 0 where
  pub org_id : ℕ
  pub owned : owner ≡ some org_id
  pub is_member : belongs org_id user members ≡ true

pub and_left : (a b : Bool) → (a && b) ≡ true → a ≡ true
and_left true b h = refl
and_left false b h = absurd cc

pub and_right : (a b : Bool) → (a && b) ≡ true → b ≡ true
and_right true b h = h
and_right false b h = absurd cc

pub ==_eq : (a b : ℕ) → (a == b) ≡ true → a ≡ b
==_eq a b h = ground arith

pub in_scope-Reaches :
    (wanted : Option ℕ) (user : ℕ) (members : List Member) (owner : Option ℕ)
    → in_scope wanted user members owner ≡ true
    → Reaches user members owner
in_scope-Reaches wanted user members none h = absurd cc
in_scope-Reaches wanted user members (some org) h = record {
  org_id = org;
  owned = refl;
  is_member = and_left _ _ h;
}

pub first_node-Reaches :
    (wanted : Option ℕ) (user : ℕ) (members : List Member) (id : ℕ) (nodes : List Node) (n : Node)
    → first_node wanted user members id nodes ≡ some n
    → Memᴰ n nodes × (n.id ≡ id) × Reaches user members n.org_id
unfolding first_node
first_node-Reaches wanted user members id [] n h = absurd cc
first_node-Reaches wanted user members id (x ∷ nodes) n h =
    elim (Bool-cases (x.id == id && in_scope wanted user members x.org_id)) [
      | inl hit ↦
          let same : some x ≡ some n = rw hit at h in
          let x_is_n : x ≡ n = cc in
          subst (λ (y : Node). Memᴰ y (x ∷ nodes) × (y.id ≡ id) × Reaches user members y.org_id)
            x_is_n
            (
              Memᴰ.head refl,
              ==_eq x.id id (and_left _ _ hit),
              in_scope-Reaches wanted user members x.org_id (and_right _ _ hit),
            )
      | inr miss ↦
          let (listed, has, reaches) =
            first_node-Reaches wanted user members id nodes n (rw miss at h) in
          (Memᴰ.tail listed, has, reaches)
    ]

pub first_service-Reaches :
    (wanted : Option ℕ) (user : ℕ) (members : List Member) (id : ℕ) (services : List Service)
    (s : Service)
    → first_service wanted user members id services ≡ some s
    → Memᴰ s services × (s.id ≡ id) × Reaches user members s.org_id
unfolding first_service
first_service-Reaches wanted user members id [] s h = absurd cc
first_service-Reaches wanted user members id (x ∷ services) s h =
    elim (Bool-cases (x.id == id && in_scope wanted user members x.org_id)) [
      | inl hit ↦
          let same : some x ≡ some s = rw hit at h in
          let x_is_s : x ≡ s = cc in
          subst
            (λ (y : Service). Memᴰ y (x ∷ services) × (y.id ≡ id) × Reaches user members y.org_id)
            x_is_s
            (
              Memᴰ.head refl,
              ==_eq x.id id (and_left _ _ hit),
              in_scope-Reaches wanted user members x.org_id (and_right _ _ hit),
            )
      | inr miss ↦
          let (listed, has, reaches) =
            first_service-Reaches wanted user members id services s (rw miss at h) in
          (Memᴰ.tail listed, has, reaches)
    ]

-- A node of the table with this id that the user reaches.
pub record ReachedNode (user : ℕ) (members : List Member) (nodes : List Node) (id : ℕ)
    : Type 0 where
  pub node : Node
  pub listed : Memᴰ node nodes
  pub has_id : node.id ≡ id
  pub reaches : Reaches user members node.org_id

pub has_node-ReachedNode :
    (wanted : Option ℕ) (user : ℕ) (members : List Member) (id : ℕ) (nodes : List Node)
    → has_node wanted user members id nodes ≡ true
    → ReachedNode user members nodes id
has_node-ReachedNode wanted user members id [] h = absurd cc
has_node-ReachedNode wanted user members id (n ∷ nodes) h =
    elim (Bool-cases (n.id == id && in_scope wanted user members n.org_id)) [
      | inl hit ↦ record {
        node = n;
        listed = Memᴰ.head refl;
        has_id = ==_eq n.id id (and_left _ _ hit);
        reaches = in_scope-Reaches wanted user members n.org_id (and_right _ _ hit);
      }
      | inr miss ↦
          let r = has_node-ReachedNode wanted user members id nodes (rw miss at h) in
          record {
            node = r.node;
            listed = Memᴰ.tail r.listed;
            has_id = r.has_id;
            reaches = r.reaches;
          }
    ]

pub first_bot-ReachedNode :
    (wanted : Option ℕ) (user : ℕ) (t : Tables) (id : ℕ) (bots : List Bot) (b : Bot)
    → first_bot wanted user t id bots ≡ some b
    → Memᴰ b bots × (b.id ≡ id) × ReachedNode user t.members t.nodes b.node_id
unfolding first_bot
first_bot-ReachedNode wanted user t id [] b h = absurd cc
first_bot-ReachedNode wanted user t id (x ∷ bots) b h =
    elim (Bool-cases (x.id == id && has_node wanted user t.members x.node_id t.nodes)) [
      | inl hit ↦
          let same : some x ≡ some b = rw hit at h in
          let x_is_b : x ≡ b = cc in
          subst
            (λ (y : Bot).
              Memᴰ y (x ∷ bots) × (y.id ≡ id) × ReachedNode user t.members t.nodes y.node_id)
            x_is_b
            (
              Memᴰ.head refl,
              ==_eq x.id id (and_left _ _ hit),
              has_node-ReachedNode wanted user t.members x.node_id t.nodes (and_right _ _ hit),
            )
      | inr miss ↦
          let (listed, has, reached) =
            first_bot-ReachedNode wanted user t id bots b (rw miss at h) in
          (Memᴰ.tail listed, has, reached)
    ]
