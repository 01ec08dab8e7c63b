-- ===== src/Backup/Queue.antt =====
-- TriggerRun, RetryRun and CancelRun of backend/internal/services/backup/runner.go, and the loop of
-- backend/internal/services/backup/scheduler.go. What the database answers is a record of the call.
pub mod Active
pub mod Single
pub mod OneRun
use x_ui_aggr.Prelude.{
  ℕ, suc, ◌+◌, ◌-◌, ◌%◌, String, Bool, true, false, not, ◌&&◌, ◌||◌, Option, none, some, List, [],
  ◌∷◌, ◌++◌, ◌==◌, ltb, leb, if◌then◌else◌, any,
}
use x_ui_aggr.Prelude.Results.{Result, ok, fail, and_then}
use x_ui_aggr.Backup.Types.{
  RunStatus, queued, running, success, partial_success, cancelled, Trigger, retry, scheduled,
  StepStatus, pending, normalize_timezone,
}
use x_ui_aggr.Backup.Types
use x_ui_aggr.Backup.Rows.{BackupJob, BackupRun, State}

unfoldable pub is_active : RunStatus → Bool
is_active queued = true
is_active running = true
is_active success = false
is_active Types.RunStatus.failed = false
is_active partial_success = false
is_active cancelled = false

abbrev pub is_active_run : ℕ → BackupRun → Bool
is_active_run job_id r = r.job_id == job_id && is_active r.status

-- A count that the database does not answer is taken for none.
unfoldable pub is_job_running : Bool → ℕ → List BackupRun → Bool
is_job_running false job_id runs = false
is_job_running true job_id runs = any (is_active_run job_id) runs

-- Errors of the database, or none, and what is new: the identifier of the run and the time.
pub record TriggerEnv : Type 0 where
  pub job_error : Option String
  pub count_answers : Bool
  pub create_error : Option String
  pub run_id : ℕ
  pub now : ℕ

unfoldable pub find_job : ℕ → ℕ → List BackupJob → Option BackupJob
find_job org_id job_id [] = none
find_job org_id job_id (j ∷ js) =
    if j.org_id == org_id && j.id == job_id then some j else find_job org_id job_id js

-- The row of the job, as GetJob answers.
unfoldable pub get_job : Option String → ℕ → ℕ → List BackupJob → Result BackupJob
get_job (some msg) org_id job_id jobs = fail msg
get_job none org_id job_id jobs = elim (find_job org_id job_id jobs) [
  | none ↦ fail "record not found"
  | some j ↦ ok j
]

unfoldable pub new_run : TriggerEnv → ℕ → ℕ → Trigger → Option ℕ → BackupRun
new_run e org_id job_id trigger initiated_by = record {
  id = e.run_id;
  org_id = org_id;
  job_id = job_id;
  status = queued;
  trigger_type = trigger;
  initiated_by_user_id = initiated_by;
  local_workdir = none;
  remote_workdir = none;
  remote_path = none;
  total_size_bytes = 0;
  uploaded_size_bytes = 0;
  file_count = 0;
  checksum_status = pending;
  cleanup_status = pending;
  error_summary = none;
  log_excerpt = none;
  log_path = none;
  started_at = e.now;
  finished_at = none;
  duration_ms = 0;
  cancel_requested_at = none;
  created_at = e.now;
}

-- The row goes into the table, and the run starts with a context that can be cancelled.
unfoldable pub enqueue : Option String → BackupRun → State → Result BackupRun × State
enqueue (some msg) run st = (fail msg, st)
enqueue none run st =
    (ok run, record st { runs = st.runs ++ run ∷ []; running = run.id ∷ st.running })

unfoldable pub trigger_run :
    TriggerEnv → ℕ → ℕ → Trigger → Option ℕ → State → Result BackupRun × State
trigger_run e org_id job_id trigger initiated_by st =
    elim (get_job e.job_error org_id job_id st.jobs) [
      | fail msg ↦ (fail msg, st)
      | ok job ↦
          if is_job_running e.count_answers job_id st.runs
          then (fail "job already has a queued or running backup", st)
          else enqueue e.create_error (new_run e org_id job_id trigger initiated_by) st
    ]

unfoldable pub find_run : ℕ → ℕ → List BackupRun → Option BackupRun
find_run org_id run_id [] = none
find_run org_id run_id (r ∷ rs) =
    if r.org_id == org_id && r.id == run_id then some r else find_run org_id run_id rs

unfoldable pub get_run : Option String → ℕ → ℕ → List BackupRun → Result BackupRun
get_run (some msg) org_id run_id runs = fail msg
get_run none org_id run_id runs = elim (find_run org_id run_id runs) [
  | none ↦ fail "record not found"
  | some r ↦ ok r
]

unfoldable pub retry_run :
    Option String → TriggerEnv → ℕ → ℕ → Option ℕ → State → Result BackupRun × State
retry_run run_error e org_id run_id initiated_by st =
    elim (get_run run_error org_id run_id st.runs) [
      | fail msg ↦ (fail msg, st)
      | ok run ↦ trigger_run e org_id run.job_id retry initiated_by st
    ]

-- DB.Save of a run: the row with its identifier, the primary key, is replaced as a whole.
unfoldable pub save_run : BackupRun → List BackupRun → List BackupRun
save_run run [] = []
save_run run (r ∷ rs) = if r.id == run.id then run ∷ rs else r ∷ save_run run rs

unfoldable pub cancel_run :
    Option String → Option String → ℕ → ℕ → ℕ → State → Option String × State
cancel_run run_error save_error now org_id run_id st =
    elim (get_run run_error org_id run_id st.runs) [
      | fail msg ↦ (some msg, st)
      | ok run ↦ elim save_error [
        | some msg ↦ (some msg, st)
        | none ↦ (
          none,
          record st {
            runs = save_run (record run { cancel_requested_at = some now }) st.runs;
            cancelled =
                if any (λ id. id == run.id) st.running then run.id ∷ st.cancelled else st.cancelled;
          },
        )
      ]
    ]

-- The cron parser and the database of time zones: the next time of an expression after a time, in
-- a zone, or none for an expression that does not parse. Times are seconds; the zones have whole
-- minutes as their offsets.
module _ (next_time : String → String → ℕ → Option ℕ) (load_location : String → Bool) where
  unfoldable pub job_due_at : BackupJob → ℕ → Result Bool
  job_due_at job now =
      let last_minute = now - now % 60 in
      let zone = normalize_timezone load_location job.timezone in
      elim (next_time job.cron_expression zone (last_minute - 60)) [
        | none ↦ fail "invalid cron expression"
        | some next ↦ ok (leb next last_minute)
      ]

  abbrev pub is_due : BackupJob → ℕ → Bool
  is_due job now = elim (job_due_at job now) [ fail msg ↦ false | ok due ↦ due ]

  abbrev pub ran_this_minute : BackupJob → ℕ → Bool
  ran_this_minute job now = elim job.last_run_at [
    | none ↦ false
    | some last ↦ not (ltb last (now - now % 60))
  ]

  -- The body of the loop. The first answer is that of the count which the loop itself makes.
  unfoldable pub enqueue_one : ℕ → Bool → TriggerEnv → BackupJob → State → State
  enqueue_one now count_answers e job st =
      if not (is_due job now)
      then st
      else if is_job_running count_answers job.id st.runs
      then st
      else if ran_this_minute job now
      then st
      else (trigger_run e job.org_id job.id scheduled none st).1

  -- The jobs that are read once at the start, with the answers for each.
  unfoldable pub enqueue_jobs : ℕ → List (Bool × TriggerEnv × BackupJob) → State → State
  enqueue_jobs now [] st = st
  enqueue_jobs now ((count_answers, e, job) ∷ rest) st =
      enqueue_jobs now rest (enqueue_one now count_answers e job st)
