-- ===== src/Ops/Tests.antt =====
-- A small table of jobs, on which the theorems are tried.
use x_ui_aggr.Prelude.{
  ℕ, ◌+◌, ◌-◌, ◌≤◌, ◌≡◌, refl, min, length, String, true, false, none, some, List, [], ◌∷◌, ◌++◌,
  All, inr, arith, ◌is◌, ltb, leb, if◌then◌else◌,
}
use x_ui_aggr.Prelude.Int.{pos}
use x_ui_aggr.Prelude.Results.{ok, fail}
use x_ui_aggr.Prelude.Strings.{trim_space}
use x_ui_aggr.Alerts.Samples.{codec}
use x_ui_aggr.Ops.Types.{
  JobParams, CreateJobRequest, OpsJob, OpsJobItem, Node, Store, queued, success, failed,
}
use x_ui_aggr.Ops.Create.{CreateEnv, create_job, required_confirm}
use x_ui_aggr.Ops.Create.Accepted.{Accepted}
use x_ui_aggr.Ops.Schedule.{
  max_concurrent_jobs, count_running, pick_and_run, pick_jobs, pick_queued_job, mark_first,
  available_job_slots,
}
use x_ui_aggr.Ops.Schedule.Slots.{
  count_queued, pick_and_run-counts, History, start, next, tick, at_most_three_run,
}
use x_ui_aggr.Ops.Run.{ItemEnv, Answer, run_job, queued_items}
use x_ui_aggr.Ops.Run.Log.{trim_log, IsTrimmed, trim_log-IsTrimmed}
use x_ui_aggr.Ops.Run.Settled.{is_open, failures, run_job-settles, Writes}
use x_ui_aggr.Ops.Stream.{Event, Channel}
use x_ui_aggr.Ops.Stream.Delivery.{
  Action, subscribing, publishing, receiving, act_all, channel_at, events_of, Got,
  delivered_in_order,
}

abbrev params : JobParams
params = record {
  dry_run = false;
  simulate_delay_ms = pos 0;
  confirm = " REALLY_DO_IT";
  sandbox = true;
  force_redeploy = false;
  install_docker = false;
  restart_service = "";
}

abbrev request : CreateJobRequest
request = record {
  kind = "reboot_nodes";
  node_ids = [];
  all_nodes = true;
  parallelism = pos 50;
  params = params;
  actor = "";
}

abbrev node : ℕ → Node
node id = record {
  id = id;
  is_sandbox = true;
  agent_enabled = false;
  agent_installed = false;
  agent_url = none;
}

abbrev empty_store : Store
empty_store = record { jobs = []; items = []; nodes = node 1 ∷ node 2 ∷ [] }

abbrev create_env : CreateEnv
create_env = record {
  has_agent_executor = false;
  read_ok = true;
  token_ok = true;
  write_ok = true;
  job_id = 7;
  item_id = λ i. 10 + i;
}

abbrev job : OpsJob
job = record {
  id = 7;
  kind = "reboot_nodes";
  status = queued;
  created_by_actor = "admin";
  parallelism = 10;
  targets = 1 ∷ 2 ∷ [];
  params = params;
  error = none;
  started_at = none;
  finished_at = none;
}

abbrev item : ℕ → ℕ → OpsJobItem
item id node_id = record {
  id = id;
  job_id = 7;
  node_id = node_id;
  status = queued;
  log = "";
  exit_code = none;
  error = none;
  started_at = none;
  finished_at = none;
}

abbrev stored : Store
stored = record empty_store { jobs = job ∷ []; items = item 10 1 ∷ item 11 2 ∷ [] }

-- Without the phrase the request is refused.
refuses :
    create_job codec create_env
      (record request { params = record params { confirm = "yes" } })
      empty_store
    ≡ fail "confirmation required"
unfolding create_job required_confirm trim_space ◌is◌
refuses = refl

pick_and_run-counts_example :
    let (picked, after) = pick_and_run true (λ _. true) 3 stored in
    (length picked
      ≡ min (max_concurrent_jobs - count_running stored.jobs) (count_queued stored.jobs))
    × (count_running after.jobs ≡ count_running stored.jobs + length picked)
pick_and_run-counts_example = pick_and_run-counts 3 stored

starts_one : length (pick_and_run true (λ _. true) 3 stored).0 ≡ 1
unfolding pick_and_run pick_jobs pick_queued_job mark_first available_job_slots count_running
starts_one = refl

abbrev history : History stored (pick_and_run true (λ _. true) 3 stored).1
history = next (start stored) (tick true (λ _. true) 3 stored)

few : count_running stored.jobs ≤ max_concurrent_jobs
unfolding count_running
few = omega arith

at_most_three_run_example :
    count_running (pick_and_run true (λ _. true) 3 stored).1.jobs ≤ max_concurrent_jobs
at_most_three_run_example = at_most_three_run history few

abbrev good : Answer
good = record { output = "done"; exit_code = pos 0; error = none }

abbrev bad : Answer
bad = record { output = ""; exit_code = pos 1; error = some "timeout" }

-- The reboot of the second item's node fails.
abbrev item_env : OpsJobItem → ItemEnv
item_env x = record {
  started = 5;
  finished = 6;
  start_ok = true;
  finish_ok = true;
  cancelled = none;
  dry_run_log = "";
  node = ok (node x.node_id);
  probe = none;
  reboot = if leb x.node_id 1 then good else bad;
  update = good;
  agent_update = good;
  agent_reboot = good;
  agent_restart = good;
  deploy_params = fail "no binary";
  deploy = good;
  first_contact = ("", none);
  persist_settings = none;
  install_vlf = none;
  remna_install = good;
  remna_run = good;
  persist_version = none;
}

abbrev failures_text : ℕ → String
failures_text n = "items failed"

writes : Writes item_env
writes x = (refl, refl)

run_job-settles_example :
    let (ended, after) = run_job failures_text item_env 9 true true job stored in
    All (λ (x : OpsJobItem). is_open job.id x ≡ false) after.items
    × (ended.status ≡ (
        if ltb 0 (failures item_env job (queued_items job.id stored.items))
        then failed
        else success))
run_job-settles_example =
    run_job-settles failures_text item_env 9 true job stored writes (inr refl, (inr refl, tt))

trim_log-IsTrimmed_example : IsTrimmed 4 20 "a log of a job" (trim_log "a log of a job" 4 20)
trim_log-IsTrimmed_example = trim_log-IsTrimmed "a log of a job" 4 20 (omega arith) (omega arith)

abbrev channel : Channel
channel = record { id = 1; job_id = "7"; buffer = []; taken = []; closed = false }

abbrev event : Event
event = record { kind = "job_status"; job_id = "7"; ts = ""; data_text = "" }

abbrev actions : List Action
actions = publishing "7" event ∷ subscribing 2 "7" ∷ receiving 1 ∷ publishing "8" event ∷ []

delivered_in_order_example :
    (d : Channel) × (channel_at (act_all actions (channel ∷ [])) 0 ≡ some d)
    × Got "7" ([] ++ events_of "7" actions) d
delivered_in_order_example =
    delivered_in_order actions (channel ∷ []) 0 channel [] refl (inr (refl, refl, omega arith))
