-- ===== src/Backup/Tests.antt =====
-- Concrete runs and the theorems at them.
mod Inputs
use x_ui_aggr.Prelude.{
  ℕ, ◌≡◌, refl, ap, subst, String, Bool, true, false, Option, none, some, List, [], ◌∷◌, ◌++◌, ◌is◌,
  ◌==◌, length, min, ◌≤◌, ◌-◌, ◌+◌, arith, if◌then◌else◌,
}
use x_ui_aggr.Prelude.Int.{ℤ, pos, leb_ℤ}
use x_ui_aggr.Prelude.Strings.{trim_space, contains_char, has_prefix}
use x_ui_aggr.Prelude.Results.{Result, ok, fail}
use x_ui_aggr.Backup.Types.{
  RunStatus, queued, running, success, Trigger, manual, retry, scheduled, StepStatus, pending,
  StorageTargetConfig, empty_config, is_supported_storage_type, is_supported_source_type,
  normalize_timezone,
}
use x_ui_aggr.Backup.Rows.{ArtifactFile, BackupJob, BackupRun, BackupSource, State}
use x_ui_aggr.Backup.Queue.{
  TriggerEnv, get_job, find_job, trigger_run, save_run, is_job_running, is_active, new_run, enqueue,
  enqueue_one,
}
use x_ui_aggr.Backup.Queue.Active.{count_active, Allows}
use x_ui_aggr.Backup.Queue.Single.{IsSingle, Answers}
use x_ui_aggr.Backup.Queue.OneRun.{History, start, next, trigger, execute, no_two_runs}
use x_ui_aggr.Backup.Collect.{
  BackupRunItem, Exec, Write, SourceEnv, Script, CollectEnv, try_write, execute_source, run_script,
  measure, finish_source, fail_run_item, collect_sources, collect_artifacts,
}
use x_ui_aggr.Backup.Upload.{UploadEnv, upload_artifacts, count_uploaded}
use x_ui_aggr.Backup.Retention.{
  ObjectInfo, RetentionEnv, apply_retention, cutoff, delete_old, is_kept,
}
use x_ui_aggr.Backup.Finish.{
  RunEnv, derive_final_status, err_summary, first_error, finish_run_with_error, save_rows, settle,
  add_manifest,
}
use x_ui_aggr.Backup.Run.{
  run_backup, start_run, execute_in, execute_loaded, after_collect, upload_and_settle, run_of,
  load_run, load_run_context, execute_run, run_async, apply_write, apply_writes, set_sizes,
  save_backup_job,
}
use x_ui_aggr.Backup.Run.Refines.{Ended}
use x_ui_aggr.Backup.Run.Table.{execute_run-Ended}
use x_ui_aggr.Backup.Run.Blocked.{cancelled_run_blocks_job}
use x_ui_aggr.Backup.Run.Whole.{IsWhole, execute_loaded-IsWhole}

abbrev job : BackupJob
job = record {
  id = 7;
  org_id = 1;
  node_id = some 3;
  name = "etc";
  enabled = true;
  timezone = "UTC";
  cron_expression = "0 3 * * *";
  retention_days = pos 7;
  last_run_at = none;
  last_success_at = none;
  last_status = none;
  last_error = none;
  last_size_bytes = 0;
}

abbrev request : TriggerEnv
request = record {
  job_error = none;
  count_answers = true;
  create_error = none;
  run_id = 5;
  now = 100;
}

abbrev run : BackupRun
run = record {
  id = 5;
  org_id = 1;
  job_id = 7;
  status = queued;
  trigger_type = manual;
  initiated_by_user_id = none;
  local_workdir = none;
  remote_workdir = none;
  remote_path = none;
  total_size_bytes = 0;
  uploaded_size_bytes = 0;
  file_count = 0;
  checksum_status = pending;
  cleanup_status = pending;
  error_summary = none;
  log_excerpt = none;
  log_path = none;
  started_at = 100;
  finished_at = none;
  duration_ms = 0;
  cancel_requested_at = none;
  created_at = 100;
}

abbrev idle : State
idle = record { jobs = job ∷ []; runs = []; running = []; cancelled = [] }

abbrev waiting : State
waiting = record { jobs = job ∷ []; runs = run ∷ []; running = 5 ∷ []; cancelled = [] }

enqueues : trigger_run request 1 7 manual none idle ≡ (ok run, waiting)
unfolding trigger_run get_job find_job is_job_running new_run enqueue
enqueues = refl

abbrev source_env : SourceEnv
source_env = record {
  cancelled = none;
  item_id = 11;
  started = 101;
  finished = 103;
  create_error = none;
  script = ok (record {
    remote_out = "/tmp/agg-backup-5/etc.tar.gz";
    body = "tar";
    output_name = "etc.tar.gz";
  });
  upload_error = none;
  execution = none;
  local_path = "/data/5/etc.tar.gz";
  download_error = none;
  size = ok 4096;
  checksum = ok "abc";
  save_error = none;
  fail_saved = true;
  total_saved = true;
}

abbrev env : RunEnv
env = record {
  run_error = none;
  job_error = none;
  target_error = none;
  workdir = ok "/data/5";
  logger_error = none;
  started = 101;
  start_error = none;
  uploader_error = none;
  test_error = none;
  collect = record {
    node_error = none;
    open_error = none;
    remote_workdir = "/tmp/agg-backup-5";
    workdir_saved = true;
    mkdir_error = none;
    sources =
        (source_env, record { id = 21; kind = "directory_path"; name = "etc"; enabled = true })
        ∷ (source_env, record { id = 22; kind = "custom_command"; name = "off"; enabled = false })
        ∷ [];
  };
  manifest = ok ("/data/5/SHA256SUMS", "def", 64);
  manifest_at = 104;
  manifest_item_id = 12;
  manifest_item_saved = true;
  remote_path = "/backups/org_1/job_7/5";
  uploads =
      λ a. record { cancelled = none; open_error = none; upload_error = none; size_saved = true };
  retention = record { now = 700000; objects = ok []; delete_error = λ path. none };
  cancelled = none;
  finished = 110;
  excerpt = "run finished";
  run_saved = true;
  job_saved = true;
}

abbrev queued_exec : Exec
queued_exec = record { run = run; job = job; writes = [] }

succeeds : (execute_loaded env queued_exec).1.run.status ≡ success
unfolding execute_loaded execute_in start_run run_backup collect_artifacts collect_sources
    execute_source run_script measure finish_source try_write after_collect upload_and_settle
    add_manifest upload_artifacts count_uploaded apply_retention settle save_rows
    derive_final_status
succeeds = refl

execute_loaded-IsWhole_example : IsWhole env (execute_loaded env queued_exec).1.run
execute_loaded-IsWhole_example = execute_loaded-IsWhole env queued_exec refl refl succeeds

request-Answers : Answers request []
request-Answers = record { counts = refl; fresh = refl }

none_at_all : (job_id : ℕ) → count_active job_id [] ≤ 1
unfolding count_active
none_at_all job_id = omega arith

no_runs : IsSingle []
no_runs = record { keyed = tt; single = λ job_id. none_at_all job_id }

loads : load_run_context env 5 waiting ≡ ok queued_exec
unfolding load_run_context load_run run_of get_job find_job
loads = refl

-- A run is triggered and executed.
no_two_runs_example : count_active 7 (run_async env 5 waiting).runs ≤ 1
no_two_runs_example =
    no_two_runs
      (next
        (subst (λ st. History idle st) (ap (λ r. r.1) enqueues)
          (next (start idle) (trigger request 1 7 none idle request-Answers)))
        (execute env 5 queued_exec waiting loads refl))
      no_runs 7

execute_run-Ended_example : Ended 5 7 env (execute_run env 5 waiting).1
execute_run-Ended_example = execute_run-Ended env 5 waiting queued_exec loads refl

abbrev cancelled_env : RunEnv
cancelled_env = record env {
  cancelled = some "context canceled";
  run_saved = false;
  job_saved = false;
}

loads_cancelled : load_run_context cancelled_env 5 waiting ≡ ok queued_exec
unfolding load_run_context load_run run_of get_job find_job
loads_cancelled = refl

abbrev after_cancel : State
after_cancel = apply_writes 5 (execute_run cancelled_env 5 waiting).1 waiting

finds_job : get_job none 1 7 after_cancel.jobs ≡ ok job
unfolding get_job find_job apply_writes apply_write execute_run load_run_context load_run run_of
    execute_loaded execute_in start_run run_backup collect_artifacts collect_sources execute_source
    run_script measure finish_source try_write after_collect upload_and_settle add_manifest
    upload_artifacts count_uploaded apply_retention settle save_rows
finds_job = refl

cancelled_run_blocks_job_example :
    trigger_run request 1 7 scheduled none after_cancel
    ≡ (fail "job already has a queued or running backup", after_cancel)
cancelled_run_blocks_job_example =
    cancelled_run_blocks_job cancelled_env 5 waiting queued_exec "context canceled" (λ gone. refl)
      request 1 scheduled none job refl loads_cancelled refl finds_job refl
