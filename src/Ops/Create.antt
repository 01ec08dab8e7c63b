-- ===== src/Ops/Create.antt =====
-- CreateJob: what a request has to pass before its job is queued.
pub mod Kinds
pub mod Targets
pub mod Accepted
use Prim.Native.String
use x_ui_aggr.Prelude.{
  ℕ, suc, String, Bool, true, false, not, ◌&&◌, ◌||◌, Option, none, some, List, [], ◌∷◌, ◌++◌, ◌==◌,
  ltb, ◌is◌, if◌then◌else◌, is_empty, any,
}
use x_ui_aggr.Prelude.Int.{ℤ, pos, pos_part, leb_ℤ}
use x_ui_aggr.Prelude.Results.{Result, ok, fail, refuse_if, and_then}
use x_ui_aggr.Prelude.Strings.{trim_space, to_lower}
use x_ui_aggr.Alerts.Types.{UuidCodec}
use x_ui_aggr.Ops.Types.{JobParams, CreateJobRequest, OpsJob, OpsJobItem, Node, Store, queued}

abbrev pub is_supported_job_type : String → Bool
is_supported_job_type t =
    t is "reboot_nodes"
    || t is "update_nodes"
    || t is "deploy_agent"
    || t is "install_vlf_proto"
    || t is "remna_geodata_install"
    || t is "remna_geodata_run"
    || t is "update_services"
    || t is "reboot_node"
    || t is "restart_service"

abbrev pub is_agent_job_type : String → Bool
is_agent_job_type t = t is "update_services" || t is "reboot_node" || t is "restart_service"

-- The phrase that a job on all nodes has to be confirmed with.
unfoldable pub required_confirm : String → Option String
required_confirm t =
    if t is "reboot_nodes" || t is "update_nodes" || t is "update_services" || t is "reboot_node"
    then some "REALLY_DO_IT"
    else if t is "deploy_agent"
    then some "DEPLOY_AGENT"
    else if t is "install_vlf_proto"
    then some "INSTALL_VLF_PROTO"
    else if t is "remna_geodata_install"
    then some "REMNA_GEODATA_INSTALL"
    else if t is "remna_geodata_run"
    then some "REMNA_GEODATA_RUN"
    else none

abbrev pub confirms : Option String → String → Bool
confirms none text = true
confirms (some phrase) text = trim_space text is phrase

-- Whether a request is refused for want of its confirmation.
abbrev pub lacks_confirm : CreateJobRequest → String → Bool
lacks_confirm req t =
    (req.all_nodes && not req.params.dry_run)
    && not (confirms (required_confirm t) req.params.confirm)

unfoldable pub clamp_parallelism : ℤ → ℕ
clamp_parallelism n =
    let chosen = if leb_ℤ n (pos 0) then 5 else pos_part n in if ltb 10 chosen then 10 else chosen

abbrev pub node_ids_of : List Node → List ℕ
node_ids_of [] = []
node_ids_of (n ∷ ns) = n.id ∷ node_ids_of ns

unfoldable pub parse_ids : UuidCodec → List String → Result (List ℕ)
parse_ids u [] = ok []
parse_ids u (raw ∷ raws) = elim (u.parse raw) [
  | none ↦ fail (String.◌++◌ "invalid node id: " raw)
  | some id ↦ and_then (parse_ids u raws) (λ ids. ok (id ∷ ids))
]

-- What the call meets: its database, an agent executor or none, and the ids of the rows.
pub record CreateEnv : Type 0 where
  pub has_agent_executor : Bool
  pub read_ok : Bool
  pub token_ok : Bool
  pub write_ok : Bool
  pub job_id : ℕ
  pub item_id : ℕ → ℕ

unfoldable pub resolve_node_ids : UuidCodec → CreateEnv → CreateJobRequest → Store → Result (List ℕ)
resolve_node_ids u e req st =
    if req.all_nodes
    then refuse_if (not e.read_ok) "read nodes" (ok (node_ids_of st.nodes))
    else refuse_if (is_empty req.node_ids) "node_ids required when all=false"
        (parse_ids u req.node_ids)

abbrev pub has_id : List ℕ → Node → Bool
has_id ids n = any (λ id. id == n.id) ids

abbrev pub lacks_agent : Node → Bool
lacks_agent n =
    not n.agent_enabled || elim n.agent_url [ none ↦ true | some url ↦ trim_space url is "" ]

unfoldable pub any_target : (Node → Bool) → List ℕ → List Node → Bool
any_target p ids nodes = any (λ n. has_id ids n && p n) nodes

-- ensureSandboxTargets and ensureAgentTargets, which refuse if any node of the targets does not fit;
-- their messages, which give the number of these nodes, are cut.
unfoldable pub ensure_targets : (Node → Bool) → CreateEnv → List ℕ → Store → Result (List ℕ)
ensure_targets misfit e ids st = refuse_if (is_empty ids) "no nodes selected" (
    refuse_if (not e.read_ok) "read nodes"
      (refuse_if (any_target misfit ids st.nodes) "targets do not fit" (ok ids)))

abbrev pub is_known_service : String → Bool
is_known_service t =
    t is "service-manager"
    || t is "docker"
    || t is "adguard"
    || t is "agent"
    || t is "nginx"
    || t is "postgresql"

unfoldable pub is_restart_service : String → Bool
is_restart_service service = is_known_service (to_lower (trim_space service))

unfoldable pub new_items : CreateEnv → ℕ → List ℕ → List OpsJobItem
new_items e i [] = []
new_items e i (id ∷ ids) =
    record {
      id = e.item_id i;
      job_id = e.job_id;
      node_id = id;
      status = queued;
      log = "";
      exit_code = none;
      error = none;
      started_at = none;
      finished_at = none;
    }
    ∷ new_items e (suc i) ids

unfoldable pub new_job : CreateEnv → CreateJobRequest → String → List ℕ → OpsJob
new_job e req t ids = record {
  id = e.job_id;
  kind = t;
  status = queued;
  created_by_actor = if trim_space req.actor is "" then "admin" else trim_space req.actor;
  parallelism = clamp_parallelism req.parallelism;
  targets = ids;
  params = req.params;
  error = none;
  started_at = none;
  finished_at = none;
}

-- What the transaction writes: the job, and an item for each node.
abbrev pub with_job : CreateEnv → CreateJobRequest → String → Store → List ℕ → OpsJob × Store
with_job e req t st ids = (
  new_job e req t ids,
  record st { jobs = st.jobs ++ new_job e req t ids ∷ []; items = st.items ++ new_items e 0 ids },
)

unfoldable pub insert_job :
    CreateEnv → CreateJobRequest → String → Store → List ℕ → Result (OpsJob × Store)
insert_job e req t st ids =
    refuse_if (not e.token_ok) "token"
      (refuse_if (not e.write_ok) "write job" (ok (with_job e req t st ids)))

-- The checks of the targets, once the ids are known.
unfoldable pub check_targets :
    CreateEnv → CreateJobRequest → String → Store → List ℕ → Result (List ℕ)
check_targets e req t st ids = refuse_if (is_empty ids) "no nodes selected" (
    and_then
      (if req.params.sandbox then ensure_targets (λ n. not n.is_sandbox) e ids st else ok ids)
      (λ _.
        and_then (if is_agent_job_type t then ensure_targets lacks_agent e ids st else ok ids) (λ _.
          refuse_if (t is "restart_service" && not (is_restart_service req.params.restart_service))
            "unsupported service" (ok ids))))

unfoldable pub create_job :
    UuidCodec → CreateEnv → CreateJobRequest → Store → Result (OpsJob × Store)
create_job u e req st =
    let t = trim_space req.kind in
    refuse_if (t is "") "type required" (
      refuse_if (not (is_supported_job_type t)) "unsupported job type" (
        refuse_if (is_agent_job_type t && not e.has_agent_executor) "agent executor not configured"
          (refuse_if (lacks_confirm req t) "confirmation required" (
            and_then (resolve_node_ids u e req st)
              (λ ids. and_then (check_targets e req t st ids) (insert_job e req t st))))))
