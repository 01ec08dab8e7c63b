-- ===== src/Backup/Queue/OneRun.antt =====
-- No job has two runs at once.
use x_ui_aggr.Prelude.{ℕ, ◌≤◌, ◌≡◌, refl, String, Bool, true, false, Option, none, if◌then◌else◌}
use x_ui_aggr.Backup.Types.{Trigger, queued, scheduled}
use x_ui_aggr.Backup.Rows.{BackupJob, BackupRun, State}
use x_ui_aggr.Backup.Queue.{
  ran_this_minute, is_job_running, is_due, not, some, TriggerEnv, trigger_run, get_run, retry_run,
  save_run, cancel_run, enqueue_one,
}
use x_ui_aggr.Prelude.Results.{ok}
use x_ui_aggr.Backup.Collect.{Exec}
use x_ui_aggr.Backup.Finish.{RunEnv}
use x_ui_aggr.Backup.Run.{load_run_context, run_async}
use x_ui_aggr.Backup.Run.Keeps.{execute_run-IsSingle}
use x_ui_aggr.Backup.Queue.Active.{count_active, Allows, found_run}
use x_ui_aggr.Backup.Queue.Single.{
  IsSingle, Answers, trigger_run-IsSingle, retried-IsSingle, write-IsSingle, get_run-found,
  cancelled_at-IsSingle,
}

-- What can happen to the table of runs. The calls follow one another: the count and the creation
-- within a call, and the read and the write of a cancellation, have nothing between them. A queued
-- run is executed as a whole, with any answers of what it calls, or its writes stand alone among the
-- other events.
pub data Event : State → State → Type 0 where
  trigger :
      (e : TriggerEnv) (org_id job_id : ℕ) (by : Option ℕ) (st : State)
      → Answers e st.runs
      → Event st (trigger_run e org_id job_id Trigger.manual by st).1
  retry :
      (err : Option String) (e : TriggerEnv) (org_id run_id : ℕ) (by : Option ℕ) (st : State)
      → Answers e st.runs
      → Event st (retry_run err e org_id run_id by st).1
  cancel :
      (err save_error : Option String) (now org_id run_id : ℕ) (st : State)
      → Event st (cancel_run err save_error now org_id run_id st).1
  scan :
      (next_time : String → String → ℕ → Option ℕ) (zones : String → Bool) (now : ℕ)
      (count_answers : Bool) (e : TriggerEnv) (job : BackupJob) (st : State)
      → Answers e st.runs
      → Event st (enqueue_one next_time zones now count_answers e job st)
  execute :
      (e : RunEnv) (id : ℕ) (x : Exec) (st : State)
      → load_run_context e id st ≡ ok x
      → x.run.status ≡ queued
      → Event st (run_async e id st)
  write :
      (new : BackupRun) (st : State)
      → Allows new st.runs
      → Event st (record st { runs = save_run new st.runs })

pub data History : State → State → Type 0 where
  start : (st : State) → History st st
  next : {a b c : State} → History a b → Event b c → History a c

scan_keeps :
    (waits busy ran : Bool) (x y : State)
    → IsSingle x.runs
    → IsSingle y.runs
    → IsSingle (if waits then x else if busy then x else if ran then x else y).runs
scan_keeps true busy ran x y px py = px
scan_keeps false true ran x y px py = px
scan_keeps false false true x y px py = px
scan_keeps false false false x y px py = py

event-IsSingle : {a b : State} → Event a b → IsSingle a.runs → IsSingle b.runs
unfolding cancel_run retry_run enqueue_one run_async
event-IsSingle (trigger e org_id job_id by st answers) s =
    trigger_run-IsSingle e org_id job_id Trigger.manual by st answers s
event-IsSingle (retry err e org_id run_id by st answers) s =
    retried-IsSingle e org_id by st (get_run err org_id run_id st.runs) answers s
event-IsSingle (cancel err save_error now org_id run_id st) s =
    cancelled_at-IsSingle save_error now st (get_run err org_id run_id st.runs)
      (λ run h.
        found_run org_id run_id st.runs run (record run { cancel_requested_at = some now }) s.keyed
          (get_run-found err org_id run_id st.runs run h) (refl, refl, refl))
      s
event-IsSingle (scan next_time zones now count_answers e job st answers) s =
    scan_keeps (not (is_due next_time zones job now)) (is_job_running count_answers job.id st.runs)
      (ran_this_minute next_time zones job now) st _ s
      (trigger_run-IsSingle e job.org_id job.id scheduled none st answers s)
event-IsSingle (execute e id x st h q) s = execute_run-IsSingle e id st x h q s
event-IsSingle (write new st allowed) s = write-IsSingle new st.runs allowed s

kept : {a b : State} → History a b → IsSingle a.runs → IsSingle b.runs
kept (start st) s = s
kept (next before event) s = event-IsSingle event (kept before s)

-- However triggered, retried and scheduled runs, cancellations, executions of queued runs and single
-- writes of rows follow one another, no job has two runs that are queued or running, if that was so at the start
-- and the identifiers of the rows were keys. The database has to answer the count of a call that
-- would create a run, and a single write must not move a run to another job or make a finished run active again.
pub no_two_runs :
    {a b : State} → History a b → IsSingle a.runs → (job : ℕ) → count_active job b.runs ≤ 1
no_two_runs h s job = (kept h s).single job
