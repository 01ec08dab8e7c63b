-- ===== src/Backup/Finish.antt =====
-- finishRunWithError, deriveFinalStatus, the manifest's item and the end of executeRun, of
-- backend/internal/services/backup/runner.go. Times are seconds. The text of the log is left out: the
-- excerpt is a field of the record that holds the answers of the database, the file system and the
-- uploader.
use x_ui_aggr.Prelude.{
  ℕ, ◌-◌, ◌*◌, String, Bool, true, false, ◌||◌, Option, none, some, List, [], ◌∷◌, ◌++◌, ◌is◌,
  if◌then◌else◌, length,
}
use x_ui_aggr.Prelude.Strings.{trim_space}
use x_ui_aggr.Prelude.Results.{Result, ok, fail}
use x_ui_aggr.Backup.Types.{
  RunStatus, running, success, partial_success, cancelled, StepStatus, done,
}
use x_ui_aggr.Backup.Rows.{ArtifactFile, BackupJob, BackupRun}
use x_ui_aggr.Backup.Collect.{
  BackupRunItem, run_row, job_row, item_row, Exec, try_write, CollectEnv, first_non_empty,
}
use x_ui_aggr.Backup.Upload.{UploadEnv}
use x_ui_aggr.Backup.Retention.{RetentionEnv}

-- The three errors are those of the sources, of the uploads and of the context.
unfoldable pub derive_final_status : Option String → Option String → Option String → RunStatus
derive_final_status exec upload (some cancel) = cancelled
derive_final_status none none none = success
derive_final_status (some exec) (some upload) none = RunStatus.failed
derive_final_status none (some upload) none = partial_success
derive_final_status (some exec) none none = partial_success

pub record RunEnv : Type 0 where
  pub run_error : Option String
  pub job_error : Option String
  pub target_error : Option String
  pub workdir : Result String
  pub logger_error : Option String
  pub started : ℕ
  pub start_error : Option String
  pub uploader_error : Option String
  pub test_error : Option String
  pub collect : CollectEnv
  -- The path, the checksum and the size of the file SHA256SUMS, and the time of its item.
  pub manifest : Result (String × String × ℕ)
  pub manifest_at : ℕ
  pub manifest_item_id : ℕ
  pub manifest_item_saved : Bool
  pub remote_path : String
  pub uploads : ArtifactFile → UploadEnv
  pub retention : RetentionEnv
  -- ctx.Err() after the uploads and the retention.
  pub cancelled : Option String
  pub finished : ℕ
  pub excerpt : String
  pub run_saved : Bool
  pub job_saved : Bool

-- errSummary
unfoldable pub err_summary : Option String → String
err_summary none = ""
err_summary (some msg) = trim_space msg

-- firstError
unfoldable pub first_error : List (Option String) → Option String
first_error [] = none
first_error (none ∷ rest) = first_error rest
first_error (some msg ∷ rest) = some msg

-- The writes of the two rows, whose errors are ignored.
unfoldable pub save_rows : RunEnv → Exec → Exec
save_rows e x = try_write e.job_saved (job_row x.job) (try_write e.run_saved (run_row x.run) x)

-- The fields that finishRunWithError sets; the summaries of its callers are not empty.
abbrev pub failed_run : RunEnv → Option String → String → BackupRun → BackupRun
failed_run e excerpt summary run = record run {
  status = RunStatus.failed;
  finished_at = some e.finished;
  duration_ms = (e.finished - run.started_at) * 1000;
  error_summary = some summary;
  log_excerpt = elim excerpt [ none ↦ run.log_excerpt | some text ↦ some text ];
}

abbrev pub failed_job : RunEnv → String → BackupJob → BackupJob
failed_job e summary job = record job {
  last_error = some summary;
  last_run_at = some e.finished;
  last_status = some RunStatus.failed;
}

unfoldable pub finish_run_with_error :
    RunEnv → Option String → String → Option String → Exec → Option String × Exec
finish_run_with_error e excerpt summary err x = (
  err,
  save_rows e
      (record x { run = failed_run e excerpt summary x.run; job = failed_job e summary x.job }),
)

-- The item of the manifest and its artifact, which follows the others.
abbrev pub manifest_item : RunEnv → String → ℕ → BackupRun → BackupRunItem
manifest_item e checksum size run = record {
  id = e.manifest_item_id;
  run_id = run.id;
  source_id = none;
  item_type = "manifest";
  logical_name = "SHA256SUMS";
  output_file_name = "SHA256SUMS";
  remote_source_path = none;
  size_bytes = size;
  checksum = some checksum;
  status = success;
  error_text = none;
  started_at = some e.manifest_at;
  finished_at = some e.manifest_at;
}

abbrev pub manifest_artifact : RunEnv → String → String → ℕ → ArtifactFile
manifest_artifact e path checksum size = record {
  item_id = e.manifest_item_id;
  item_type = "manifest";
  logical_name = "SHA256SUMS";
  local_path = path;
  object_name = "SHA256SUMS";
  size = size;
  checksum = checksum;
}

unfoldable pub add_manifest :
    RunEnv → Result (String × String × ℕ) → List ArtifactFile → Exec → List ArtifactFile × Exec
add_manifest e (fail msg) artifacts x =
    (artifacts, record x { run = record x.run { checksum_status = StepStatus.failed } })
add_manifest e (ok (path, checksum, size)) artifacts x = (
  artifacts ++ manifest_artifact e path checksum size ∷ [],
  try_write e.manifest_item_saved (item_row (manifest_item e checksum size x.run))
      (record x { run = record x.run { checksum_status = done } }),
)

abbrev pub is_error : Option String → Bool
is_error none = false
is_error (some msg) = true

-- The summary of a run, or the empty text.
abbrev pub run_summary : Option String → Option String → Option String → Option String → String
run_summary exec upload cleanup cancel =
    if is_error exec || is_error upload
    then first_non_empty
        (err_summary exec ∷ err_summary upload ∷ err_summary cleanup ∷ err_summary cancel ∷ [])
    else ""

abbrev pub with_summary : String → Option String → Option String
with_summary summary old = if summary is "" then old else some summary

abbrev pub is_success : RunStatus → Bool
is_success success = true
is_success RunStatus.queued = false
is_success running = false
is_success RunStatus.failed = false
is_success partial_success = false
is_success cancelled = false

-- The fields that the end of executeRun sets.
abbrev pub settled_run :
    RunEnv
    → List ArtifactFile
    → Option String
    → Option String
    → Option String
    → BackupRun
    → BackupRun
settled_run e artifacts exec upload cleanup run = record run {
  status = derive_final_status exec upload e.cancelled;
  cleanup_status = if is_error cleanup then StepStatus.failed else done;
  finished_at = some e.finished;
  duration_ms = (e.finished - run.started_at) * 1000;
  log_excerpt = some e.excerpt;
  file_count = length artifacts;
  error_summary = with_summary (run_summary exec upload cleanup e.cancelled) run.error_summary;
}

abbrev pub settled_job :
    RunEnv → Option String → Option String → Option String → BackupRun → BackupJob → BackupJob
settled_job e exec upload cleanup run job =
    let status = derive_final_status exec upload e.cancelled in
    record job {
      last_error =
          if is_success status
          then none
          else with_summary (run_summary exec upload cleanup e.cancelled) job.last_error;
      last_success_at = if is_success status then some e.finished else job.last_success_at;
      last_run_at = some e.finished;
      last_status = some status;
      last_size_bytes = run.total_size_bytes;
    }

unfoldable pub settle :
    RunEnv → List ArtifactFile → Option String → Option String → Option String → Exec → Exec
settle e artifacts exec upload cleanup x = save_rows e (record x {
  run = settled_run e artifacts exec upload cleanup x.run;
  job = settled_job e exec upload cleanup x.run x.job;
})
