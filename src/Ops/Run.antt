-- ===== src/Ops/Run.antt =====
-- runJob, executeItem and finishItem. What the executors, the probe and the database answer for an
-- item is a record of the item's run. The events for the subscribers are left out.
pub mod Log
pub mod Settled
use Prim.Native.String
use x_ui_aggr.Prelude.{
  ℕ, suc, ◌+◌, String, Bool, true, false, not, ◌&&◌, ◌||◌, Option, none, some, List, [], ◌∷◌, ◌==◌,
  ltb, ◌is◌, if◌then◌else◌, is_empty,
}
use x_ui_aggr.Prelude.Int.{ℤ, pos}
use x_ui_aggr.Prelude.Strings.{trim_space}
use x_ui_aggr.Prelude.Results.{Result, ok, fail}
use x_ui_aggr.Ops.Types.{
  JobParams, OpsJob, OpsJobItem, Node, Store, Status, queued, running, success, failed,
}
use x_ui_aggr.Ops.Schedule.{is_queued, save_job}
use x_ui_aggr.Ops.Run.Log.{trim_log, append_pre_log, parse_panel_version_from_log}

-- What an executor returns: its output, the exit code and an error or none.
pub record Answer : Type 0 where
  pub output : String
  pub exit_code : ℤ
  pub error : Option String

-- What buildDeployParams gives, as far as executeItem reads it.
pub record DeployParams : Type 0 where
  pub pre_log : String
  pub health_check : Bool

pub record ItemEnv : Type 0 where
  pub started : ℕ
  pub finished : ℕ
  -- Whether the two updates of the row succeed.
  pub start_ok : Bool
  pub finish_ok : Bool
  -- The error of a context that ends while a dry run waits.
  pub cancelled : Option String
  pub dry_run_log : String
  pub node : Result Node
  -- None where the executor cannot probe; the inner value is none where the probe fails.
  pub probe : Option (Option Bool × String)
  pub reboot : Answer
  pub update : Answer
  pub agent_update : Answer
  pub agent_reboot : Answer
  pub agent_restart : Answer
  pub deploy_params : Result DeployParams
  pub deploy : Answer
  pub first_contact : String × Option String
  pub persist_settings : Option String
  pub install_vlf : Option Answer
  pub remna_install : Answer
  pub remna_run : Answer
  pub persist_version : Option String

unfoldable pub probe_node_agent_installed : ItemEnv → Node → Bool × String
probe_node_agent_installed e node = elim e.probe [
  | none ↦ (node.agent_installed, "probe unsupported")
  | some (answer, details) ↦ (elim answer [ none ↦ false | some installed ↦ installed ], details)
]

abbrev pub before_text : String → String → String
before_text first second =
    if second is "" then first else String.◌++◌ first (String.◌++◌ "\n" second)

abbrev pub failing : Answer → Option String → Answer
failing a none = a
failing a (some msg) = record a { error = some msg; exit_code = pos 1 }

abbrev pub with_pre_log : String → Answer → Answer
with_pre_log pre a = if pre is "" then a else record a { output = before_text pre a.output }

abbrev pub wait_contact : ItemEnv → Answer → Answer
wait_contact e a =
    let (info, err) = e.first_contact in
    let shown =
      if info is ""
      then a.output
      else if a.output is ""
      then info
      else String.◌++◌ a.output (String.◌++◌ "\n" info) in
    failing (record a { output = shown }) err

abbrev pub if_no_error : (Answer → Answer) → Answer → Answer
if_no_error f a = elim a.error [ none ↦ f a | some msg ↦ a ]

-- The case JobTypeDeploy.
unfoldable pub deploy_agent : ItemEnv → Answer
deploy_agent e = elim e.deploy_params [
  | fail msg ↦ record { output = ""; exit_code = pos 1; error = some msg }
  | ok p ↦
      let a = with_pre_log p.pre_log e.deploy in
      let b = if_no_error (λ x. if p.health_check then wait_contact e x else x) a in
      if_no_error (λ x. failing x e.persist_settings) b
]

abbrev pub refused : String → Answer
refused msg = record { output = ""; exit_code = pos 1; error = some msg }

-- The switch over the types of jobs.
unfoldable pub dispatch : ItemEnv → String → Answer
dispatch e t =
    if t is "reboot_nodes"
    then e.reboot
    else if t is "update_nodes"
    then e.update
    else if t is "update_services"
    then e.agent_update
    else if t is "reboot_node"
    then e.agent_reboot
    else if t is "restart_service"
    then e.agent_restart
    else if t is "deploy_agent"
    then deploy_agent e
    else if t is "install_vlf_proto"
    then elim e.install_vlf [
      | none ↦ refused "vlf-proto installer is not supported by executor"
      | some a ↦ a
    ]
    else if t is "remna_geodata_install"
    then e.remna_install
    else if t is "remna_geodata_run"
    then e.remna_run
    else refused "unsupported job type"

-- After update_services the version that the output names is stored, which the log says.
unfoldable pub note_version : ItemEnv → String → Answer → Answer
note_version e t a =
    let version = parse_panel_version_from_log a.output in
    if t is "update_services" && not (version is "")
    then if_no_error
        (λ x. record x {
          output = append_pre_log x.output (elim e.persist_version [
            | none ↦ String.◌++◌ "service_version stored: " version
            | some msg ↦ String.◌++◌ "service_version update failed: " msg
          ]);
        })
        a
    else a

-- The arguments of finishItem.
pub record Outcome : Type 0 where
  pub status : Status
  pub log : String
  pub exit_code : ℤ
  pub error : Option String

abbrev pub done : String → Outcome
done text = record { status = success; log = text; exit_code = pos 0; error = none }

abbrev pub broken : String → ℤ → String → Outcome
broken text exit_code msg = record {
  status = failed;
  log = text;
  exit_code = exit_code;
  error = some msg;
}

unfoldable pub outcome_of : Answer → Outcome
outcome_of a =
    let output = trim_log a.output 4096 16384 in
    elim a.error [
      | none ↦ record { status = success; log = output; exit_code = a.exit_code; error = none }
      | some msg ↦ broken (if trim_space output is "" then msg else output) a.exit_code msg
    ]

-- The two cases in which an item succeeds without a call of an executor.
abbrev pub is_skipped : OpsJob → Node → Bool
is_skipped job node =
    job.kind is "update_services" && (not node.agent_enabled || not node.agent_installed)

abbrev pub is_installed : ItemEnv → OpsJob → Node → Bool
is_installed e job node =
    job.kind is "deploy_agent"
    && ((probe_node_agent_installed e node).0
        && (not job.params.force_redeploy && not job.params.install_docker))

abbrev pub installed_text : String → String
installed_text details =
    let text : String = "ALREADY_INSTALLED: agent already installed" in
    if trim_space details is ""
    then text
    else String.◌++◌ text (String.◌++◌ " (" (String.◌++◌ (trim_space details) ")"))

unfoldable pub run_on_node : ItemEnv → OpsJob → Node → Outcome
run_on_node e job node =
    if is_skipped job node
    then done "SKIPPED: agent not installed"
    else if is_installed e job node
    then done (installed_text (probe_node_agent_installed e node).1)
    else outcome_of (note_version e job.kind (dispatch e job.kind))

unfoldable pub outcome : ItemEnv → OpsJob → Outcome
outcome e job =
    if job.params.dry_run
    then elim e.cancelled [
      | none ↦ done e.dry_run_log
      | some msg ↦ broken e.dry_run_log (pos 1) msg
    ]
    else elim e.node [ ok node ↦ run_on_node e job node | fail msg ↦ broken "" (pos 1) msg ]

-- `Where("id = ?", id).Updates(updates)`
unfoldable pub update_items : ℕ → (OpsJobItem → OpsJobItem) → List OpsJobItem → List OpsJobItem
update_items id f [] = []
update_items id f (x ∷ xs) = (if x.id == id then f x else x) ∷ update_items id f xs

abbrev pub start_item : ItemEnv → OpsJobItem → OpsJobItem
start_item e x = record x { status = running; started_at = some e.started }

abbrev pub finish_item : ItemEnv → Outcome → OpsJobItem → OpsJobItem
finish_item e o x = record x {
  status = o.status;
  log = o.log;
  finished_at = some e.finished;
  exit_code = some o.exit_code;
  error = elim o.error [ none ↦ x.error | some msg ↦ some msg ];
}

-- The function returns whether the item failed.
unfoldable pub execute_item :
    ItemEnv → OpsJob → OpsJobItem → List OpsJobItem → Bool × List OpsJobItem
execute_item e job item rows =
    let o = outcome e job in
    let begun = if e.start_ok then update_items item.id (start_item e) rows else rows in
    let ended = if e.finish_ok then update_items item.id (finish_item e o) begun else begun in
    (elim o.error [ none ↦ false | some msg ↦ true ], ended)

-- The workers take the items from a channel. An item's run touches its own row only, so the rows
-- come out the same for every order of the workers; the model takes that of the channel.
unfoldable pub run_items :
    (OpsJobItem → ItemEnv) → OpsJob → List OpsJobItem → List OpsJobItem → ℕ × List OpsJobItem
run_items env job [] rows = (0, rows)
run_items env job (x ∷ xs) rows =
    let (broke, rows') = execute_item (env x) job x rows in
    let (n, rows'') = run_items env job xs rows' in ((if broke then 1 else 0) + n, rows'')

abbrev pub is_waiting : ℕ → OpsJobItem → Bool
is_waiting job x = x.job_id == job && is_queued x.status

-- `Where("job_id = ? AND status = ?", job.ID, JobQueued)`
unfoldable pub queued_items : ℕ → List OpsJobItem → List OpsJobItem
queued_items job [] = []
queued_items job (x ∷ xs) =
    if is_waiting job x then x ∷ queued_items job xs else queued_items job xs

-- jobStatusFromFailures; `text` is the message that it prints for a number of failures.
unfoldable pub job_status_from_failures : (ℕ → String) → ℕ → Status × Option String
job_status_from_failures text n = if ltb 0 n then (failed, some (text n)) else (success, none)

-- `read_ok` and `save_ok` tell whether the items are read and the job is saved.
unfoldable pub run_job :
    (ℕ → String) → (OpsJobItem → ItemEnv) → ℕ → Bool → Bool → OpsJob → Store → OpsJob × Store
run_job text env finished read_ok save_ok job st =
    let items = queued_items job.id st.items in
    let (n, rows) = run_items env job items st.items in
    let (status, error) = job_status_from_failures text n in
    let ended : OpsJob =
      if is_empty items
      then record job { status = success; finished_at = some finished }
      else record job { status = status; error = error; finished_at = some finished } in
    if read_ok
    then (
      ended,
      record st { items = rows; jobs = if save_ok then save_job ended st.jobs else st.jobs },
    )
    else (job, st)
