-- ===== src/Ops/Create/Targets.antt =====
-- The targets of a job fit its type.
use mathlib.Core.List.{Memᴰ}
use mathlib.Core.List.Memᴰ
use x_ui_aggr.Prelude.{
  ◌==◌, sym, str_eq_iff, ◌≢◌, neither, All, ==_iff, Option, none, some, not-false, ℕ, String, ◌≡◌,
  refl, Bool, true, false, not, ◌&&◌, List, [], ◌∷◌, ◌⊎◌, inl, inr, ◌is◌, is_empty, if◌then◌else◌,
  subst,
}
use x_ui_aggr.Prelude.Results.{ok, refuse_if-ok, and_then-ok}
use x_ui_aggr.Prelude.Strings.{trim_space, to_lower}
use x_ui_aggr.Ops.Types.{CreateJobRequest, Node, Store}
use x_ui_aggr.Ops.Create.{
  CreateEnv, check_targets, ensure_targets, any_target, lacks_agent, is_agent_job_type,
  is_restart_service, has_id, is_known_service,
}
use x_ui_aggr.Ops.Create.Kinds.{either}

-- The node can be worked on by its agent.
pub record HasAgent (n : Node) : Type 0 where
  pub enabled : n.agent_enabled ≡ true
  pub url : String
  pub has_url : n.agent_url ≡ some url
  pub not_blank : trim_space url ≢ ""

url_not_blank :
    (o : Option String)
    → (elim o [ none ↦ true | some url ↦ trim_space url is "" ]) ≡ false
    → (url : String) × (o ≡ some url) × (trim_space url ≢ "")
url_not_blank none h = absurd cc
url_not_blank (some url) h = (url, refl, λ same. cc (h, (str_eq_iff (trim_space url) "").1 same))

lacks_agent-HasAgent : (n : Node) → lacks_agent n ≡ false → HasAgent n
lacks_agent-HasAgent n h =
    let (disabled, blank) = neither _ _ h in
    let (url, has_url, not_blank) = url_not_blank n.agent_url blank in
    record {
      enabled = not-false n.agent_enabled disabled;
      url = url;
      has_url = has_url;
      not_blank = not_blank;
    }

-- Each node of the table that is a target satisfies `P`.
abbrev pub AllTargets : (Node → Type 0) → List ℕ → List Node → Type 0
AllTargets P ids nodes = All (λ (n : Node). (Memᴰ n.id ids → ⊥) ⊎ P n) nodes

not-has_id : (n : Node) (ids : List ℕ) → has_id ids n ≡ false → Memᴰ n.id ids → ⊥
not-has_id n [] h m = Memᴰ.not-nil m
not-has_id n (id ∷ ids) h m =
    let (other, rest) = neither (id == n.id) _ h in
    elim (Memᴰ.cases_cons m) [
      | inl same ↦ cc (other, (==_iff id n.id).1 (sym same))
      | inr later ↦ not-has_id n ids rest later
    ]

and_cases : (a b : Bool) → (a && b) ≡ false → (a ≡ false) ⊎ (b ≡ false)
and_cases false b h = inl refl
and_cases true b h = inr h

any_target-AllTargets :
    (P : Node → Type 0) (misfit : Node → Bool) (ids : List ℕ) (nodes : List Node)
    → ((n : Node) → misfit n ≡ false → P n)
    → any_target misfit ids nodes ≡ false
    → AllTargets P ids nodes
unfolding any_target
any_target-AllTargets P misfit ids [] fits h = tt
any_target-AllTargets P misfit ids (n ∷ nodes) fits h =
    let (this, rest) = neither _ _ h in
    (
      elim (and_cases (has_id ids n) (misfit n) this) [
        | inl absent ↦ inl (not-has_id n ids absent)
        | inr fit ↦ inr (fits n fit)
      ],
      any_target-AllTargets P misfit ids nodes fits rest,
    )

-- The services that a job may restart.
abbrev pub services : List String
services = "service-manager" ∷ "docker" ∷ "adguard" ∷ "agent" ∷ "nginx" ∷ "postgresql" ∷ []

named_service :
    (text name : String) (names : List String) → (text is name) ≡ true → Memᴰ text (name ∷ names)
named_service text name names h = Memᴰ.head ((str_eq_iff text name).0 h)

known-services : (text : String) → is_known_service text ≡ true → Memᴰ text services
known-services text h =
    either _ _ h
      (λ y. Memᴰ.tail (Memᴰ.tail (Memᴰ.tail (Memᴰ.tail (Memᴰ.tail (named_service text _ _ y))))))
      (λ h.
        either _ _ h (λ y. Memᴰ.tail (Memᴰ.tail (Memᴰ.tail (Memᴰ.tail (named_service text _ _ y)))))
          (λ h.
            either _ _ h (λ y. Memᴰ.tail (Memᴰ.tail (Memᴰ.tail (named_service text _ _ y))))
              (λ h.
                either _ _ h (λ y. Memᴰ.tail (Memᴰ.tail (named_service text _ _ y)))
                  (λ h.
                    either _ _ h (λ y. Memᴰ.tail (named_service text _ _ y))
                      (λ y. named_service text _ _ y)))))

known_service :
    (t service : String)
    → (t is "restart_service" && not (is_restart_service service)) ≡ false
    → (t ≢ "restart_service") ⊎ Memᴰ (to_lower (trim_space service)) services
unfolding is_restart_service
known_service t service h =
    elim (and_cases (t is "restart_service") (not (is_restart_service service)) h) [
      | inl other ↦ inl (λ same. cc (other, (str_eq_iff t "restart_service").1 same))
      | inr known ↦ inr (known-services _ (not-false _ known))
    ]

-- What the targets of an accepted request satisfy.
pub record TargetsFit (req : CreateJobRequest) (t : String) (agent : Bool) (st : Store)
    (ids : List ℕ) : Type 0 where
  pub some_target : is_empty ids ≡ false
  pub in_sandbox : (req.params.sandbox ≡ false) ⊎ AllTargets (λ n. n.is_sandbox ≡ true) ids st.nodes
  pub have_agent : (agent ≡ false) ⊎ AllTargets HasAgent ids st.nodes
  pub service :
      (t ≢ "restart_service") ⊎ Memᴰ (to_lower (trim_space req.params.restart_service)) services

ensure_targets-ok :
    (misfit : Node → Bool) (e : CreateEnv) (ids : List ℕ) (st : Store) {ids' : List ℕ}
    → ensure_targets misfit e ids st ≡ ok ids'
    → any_target misfit ids st.nodes ≡ false
unfolding ensure_targets
ensure_targets-ok misfit e ids st {ids'} h =
    let (_, h1) = refuse_if-ok (is_empty ids) "no nodes selected" _ h in
    let (_, h2) = refuse_if-ok (not e.read_ok) "read nodes" _ h1 in
    (refuse_if-ok (any_target misfit ids st.nodes) "targets do not fit" (ok ids) h2).0

-- A check that is made under a condition.
made_if :
    (P : Node → Type 0) (b : Bool) (misfit : Node → Bool) (e : CreateEnv) (ids : List ℕ)
    (st : Store) {ids' : List ℕ}
    → ((n : Node) → misfit n ≡ false → P n)
    → (if b then ensure_targets misfit e ids st else ok ids) ≡ ok ids'
    → (b ≡ false) ⊎ AllTargets P ids st.nodes
made_if P true misfit e ids st fits h =
    inr (any_target-AllTargets P misfit ids st.nodes fits (ensure_targets-ok misfit e ids st h))
made_if P false misfit e ids st fits h = inl refl

pub check_targets-ok :
    (e : CreateEnv) (req : CreateJobRequest) (t : String) (agent : Bool) (st : Store) (ids : List ℕ)
    {ids' : List ℕ}
    → is_agent_job_type t ≡ agent
    → check_targets e req t st ids ≡ ok ids'
    → TargetsFit req t agent st ids × (ok ids ≡ ok ids')
unfolding check_targets
check_targets-ok e req t agent st ids same h =
    let (nonempty, h1) = refuse_if-ok (is_empty ids) "no nodes selected" _ h in
    let (_, s, h2) = and_then-ok _ _ h1 in
    let (_, a, h3) = and_then-ok _ _ h2 in
    let (known, h4) =
      refuse_if-ok (t is "restart_service" && not (is_restart_service req.params.restart_service))
        "unsupported service" (ok ids) h3 in
    (
      record {
        some_target = nonempty;
        in_sandbox =
            made_if (λ n. n.is_sandbox ≡ true) req.params.sandbox (λ n. not n.is_sandbox) e ids st
              (λ n fit. not-false n.is_sandbox fit) s;
        have_agent =
            subst (λ (b : Bool). (b ≡ false) ⊎ AllTargets HasAgent ids st.nodes) same
              (made_if HasAgent (is_agent_job_type t) lacks_agent e ids st lacks_agent-HasAgent a);
        service = known_service t req.params.restart_service known;
      },
      h4,
    )
