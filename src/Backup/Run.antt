-- ===== src/Backup/Run.antt =====
-- executeRun and loadRunContext of
-- backend/internal/services/backup/runner.go. The collection,
-- the uploads, the retention and the end of a run have modules of their own.
pub mod Outcome
pub mod Whole
pub mod Lifecycle
pub mod Steps
pub mod Refines
pub mod Table
pub mod Blocked
pub mod Keeps
use Prim.Native.String
use x_ui_aggr.Prelude.{
  ℕ, ◌+◌, ◌-◌, ◌*◌, String, Bool, true, false, ◌||◌, Option, none, some, List, [], ◌∷◌, ◌++◌, ◌is◌,
  ◌==◌, if◌then◌else◌, is_empty, length,
}
use x_ui_aggr.Prelude.Strings.{trim_space}
use x_ui_aggr.Prelude.Results.{Result, ok, fail, and_then}
use x_ui_aggr.Backup.Types.{
  RunStatus, running, success, partial_success, cancelled, StepStatus, done,
}
use x_ui_aggr.Backup.Rows.{ArtifactFile, BackupJob, BackupRun, State}
use x_ui_aggr.Backup.Queue.{get_job, save_run}
use x_ui_aggr.Backup.Collect.{
  BackupRunItem, Write, run_row, job_row, item_row, total_size, uploaded_size, job_row, item_row,
  Exec, try_write, CollectEnv, collect_artifacts, first_non_empty,
}
use x_ui_aggr.Backup.Upload.{UploadEnv, upload_artifacts}
use x_ui_aggr.Backup.Retention.{RetentionEnv, apply_retention}
use x_ui_aggr.Backup.Finish.{RunEnv, first_error, finish_run_with_error, add_manifest, settle}

-- What follows the collection: the manifest, the uploads and the retention.
unfoldable pub upload_and_settle :
    RunEnv → List ArtifactFile → Option String → Exec → Option String × Exec
upload_and_settle e artifacts exec x =
    let with_manifest = add_manifest e e.manifest artifacts x in
    let x1 : Exec = record with_manifest.1 {
      run = record with_manifest.1.run { remote_path = some e.remote_path };
    } in
    let uploaded = upload_artifacts e.uploads with_manifest.0 none x1 in
    let cleanup = (apply_retention e.retention x.job.retention_days).1 in
    (
      first_error (exec ∷ uploaded.0 ∷ cleanup ∷ []),
      settle e with_manifest.0 exec uploaded.0 cleanup uploaded.1,
    )

-- A collection with an error and without any artifact ends the run.
unfoldable pub after_collect :
    RunEnv → (List ArtifactFile × Option String) × Exec → Option String × Exec
after_collect e (([], some msg), x) =
    finish_run_with_error e (some e.excerpt) "backup collection failed" (some msg) x
after_collect e (([], none), x) = upload_and_settle e [] none x
after_collect e ((a ∷ artifacts, err), x) = upload_and_settle e (a ∷ artifacts) err x

abbrev pub or_finish :
    RunEnv
    → Option String
    → Option String
    → String
    → Exec
    → Option String × Exec
    → Option String × Exec
or_finish e none excerpt summary x next = next
or_finish e (some msg) excerpt summary x next = finish_run_with_error e excerpt summary (some msg) x

-- The run once its row says that it runs.
unfoldable pub run_backup : RunEnv → Exec → Option String × Exec
run_backup e x =
    or_finish e e.uploader_error (some e.excerpt) "storage adapter initialization failed" x (
      or_finish e e.test_error (some e.excerpt) "storage test failed" x
        (after_collect e (collect_artifacts e.collect x)))

abbrev pub started_run : RunEnv → String → BackupRun → BackupRun
started_run e workdir run = record run {
  local_workdir = some workdir;
  log_path = some (String.◌++◌ workdir "/run.log");
  status = running;
  started_at = e.started;
}

abbrev pub or_quit : Option String → Exec → Option String × Exec → Option String × Exec
or_quit none x next = next
or_quit (some msg) x next = (some msg, x)

-- A row that cannot be set running ends the run with nothing written.
unfoldable pub start_run : RunEnv → String → Exec → Option String × Exec
start_run e workdir x =
    let x1 : Exec = record x { run = started_run e workdir x.run } in
    or_quit e.start_error x1 (run_backup e (record x1 { writes = run_row x1.run ∷ x1.writes }))

-- The body of executeRun once the rows are loaded.
unfoldable pub execute_in : RunEnv → Result String → Exec → Option String × Exec
execute_in e (fail msg) x =
    finish_run_with_error e none "failed to create local workdir" (some msg) x
execute_in e (ok workdir) x =
    or_finish e e.logger_error none "failed to create run logger" x (start_run e workdir x)

unfoldable pub execute_loaded : RunEnv → Exec → Option String × Exec
execute_loaded e x = execute_in e e.workdir x

-- The first row with the identifier.
unfoldable pub run_of : ℕ → List BackupRun → Option BackupRun
run_of run_id [] = none
run_of run_id (r ∷ rs) = if r.id == run_id then some r else run_of run_id rs

unfoldable pub load_run : Option String → ℕ → List BackupRun → Result BackupRun
load_run (some msg) run_id runs = fail msg
load_run none run_id runs = elim (run_of run_id runs) [
  | none ↦ fail "record not found"
  | some r ↦ ok r
]

abbrev pub with_target : Option String → BackupRun → BackupJob → Result Exec
with_target none run job = ok (record { run = run; job = job; writes = [] })
with_target (some msg) run job = fail msg

-- loadRunContext; the sources and the target are in the record of the answers.
unfoldable pub load_run_context : RunEnv → ℕ → State → Result Exec
load_run_context e run_id st = and_then (load_run e.run_error run_id st.runs) (λ run.
    and_then (get_job e.job_error run.org_id run.job_id st.jobs)
      (λ job. with_target e.target_error run job))

abbrev pub executed : RunEnv → Result Exec → Option String × List Write
executed e (fail msg) = (some msg, [])
executed e (ok x) = ((execute_loaded e x).0, (execute_loaded e x).1.writes)

-- The error that executeRun returns and what it has written, the last write first.
unfoldable pub execute_run : RunEnv → ℕ → State → Option String × List Write
execute_run e run_id st = executed e (load_run_context e run_id st)

-- What a write does to the tables: DB.Save replaces a row, Model(run).Update a column of it.
unfoldable pub set_sizes : ℕ → (BackupRun → BackupRun) → List BackupRun → List BackupRun
set_sizes run_id f [] = []
set_sizes run_id f (r ∷ rs) = if r.id == run_id then f r ∷ rs else r ∷ set_sizes run_id f rs

unfoldable pub save_backup_job : BackupJob → List BackupJob → List BackupJob
save_backup_job job [] = []
save_backup_job job (j ∷ js) = if j.id == job.id then job ∷ js else j ∷ save_backup_job job js

unfoldable pub apply_write : ℕ → Write → State → State
apply_write run_id (run_row run) st = record st { runs = save_run run st.runs }
apply_write run_id (job_row job) st = record st { jobs = save_backup_job job st.jobs }
apply_write run_id (item_row item) st = st
apply_write run_id (total_size n) st = record st {
  runs = set_sizes run_id (λ (r : BackupRun). record r { total_size_bytes = n }) st.runs;
}
apply_write run_id (uploaded_size n) st = record st {
  runs = set_sizes run_id (λ (r : BackupRun). record r { uploaded_size_bytes = n }) st.runs;
}

-- The writes of a run, of which the first in the list is the last.
unfoldable pub apply_writes : ℕ → List Write → State → State
apply_writes run_id [] st = st
apply_writes run_id (w ∷ ws) st = apply_write run_id w (apply_writes run_id ws st)

abbrev dropped : ℕ → List ℕ → List ℕ
dropped run_id [] = []
dropped run_id (id ∷ ids) =
    let rest = dropped run_id ids in if id == run_id then rest else id ∷ rest

-- runAsync, whose context TriggerRun's goroutine has put into the map of running ones: the tables
-- after the run, which can no longer be cancelled.
unfoldable pub run_async : RunEnv → ℕ → State → State
run_async e run_id st =
    let after = apply_writes run_id (execute_run e run_id st).1 st in
    record after { running = dropped run_id after.running }
