-- ===== src/Backup/Collect/Item.antt =====
-- executeSource and failRunItem of backend/internal/services/backup/runner.go. The
-- lines of the log and the metrics are left out. What the database, the remote host and the file
-- system answer is a record of the call; an error is its text, or none.
use Prim.Native.String
use x_ui_aggr.Prelude.{
  ℕ, ◌+◌, String, Bool, true, false, Option, none, some, List, [], ◌∷◌, ◌is◌, if◌then◌else◌,
}
use x_ui_aggr.Prelude.Strings.{trim_space}
use x_ui_aggr.Prelude.Results.{Result, ok, fail}
use x_ui_aggr.Backup.Types.{RunStatus, running, success}
use x_ui_aggr.Backup.Rows.{ArtifactFile, BackupJob, BackupRun, BackupSource}

pub record BackupRunItem : Type 0 where
  pub id : ℕ
  pub run_id : ℕ
  pub source_id : Option ℕ
  pub item_type : String
  pub logical_name : String
  pub output_file_name : String
  pub remote_source_path : Option String
  pub size_bytes : ℕ
  pub checksum : Option String
  pub status : RunStatus
  pub error_text : Option String
  pub started_at : Option ℕ
  pub finished_at : Option ℕ

-- A write that the database took: a whole row, or one column of the row of the run.
pub data Write : Type 0 where
  run_row : BackupRun → Write
  job_row : BackupJob → Write
  item_row : BackupRunItem → Write
  total_size uploaded_size : ℕ → Write

-- The rows as the goroutine of a run holds them, and what it has written, the last write first.
pub record Exec : Type 0 where
  pub run : BackupRun
  pub job : BackupJob
  pub writes : List Write

-- A write whose error is ignored.
unfoldable pub try_write : Bool → Write → Exec → Exec
try_write true w x = record x { writes = w ∷ x.writes }
try_write false w x = x

pub record Script : Type 0 where
  pub remote_out : String
  pub body : String
  pub output_name : String

pub record SourceEnv : Type 0 where
  -- ctx.Err() where the loop comes to the source.
  pub cancelled : Option String
  pub item_id : ℕ
  pub started : ℕ
  pub finished : ℕ
  pub create_error : Option String
  -- What renderSourceScript gives.
  pub script : Result Script
  pub upload_error : Option String
  -- The output of the script and the error, where it fails.
  pub execution : Option (String × String)
  pub local_path : String
  pub download_error : Option String
  pub size : Result ℕ
  pub checksum : Result String
  pub save_error : Option String
  -- Whether the writes whose error is ignored succeed.
  pub fail_saved : Bool
  pub total_saved : Bool

abbrev pub first_non_empty : List String → String
first_non_empty [] = ""
first_non_empty (v ∷ vs) = if trim_space v is "" then first_non_empty vs else trim_space v

abbrev pub new_item : SourceEnv → BackupRun → BackupSource → BackupRunItem
new_item e run source = record {
  id = e.item_id;
  run_id = run.id;
  source_id = some source.id;
  item_type = source.kind;
  logical_name = source.name;
  output_file_name = "";
  remote_source_path = none;
  size_bytes = 0;
  checksum = none;
  status = running;
  error_text = none;
  started_at = some e.started;
  finished_at = none;
}

unfoldable pub fail_run_item :
    SourceEnv → BackupRunItem → String → Exec → Result ArtifactFile × Exec
fail_run_item e item msg x = (
  fail msg,
  try_write e.fail_saved
      (item_row (record item {
        status = RunStatus.failed;
        error_text = some msg;
        finished_at = some e.finished;
      }))
      x,
)

-- `if err != nil { return s.failRunItem(...) }` with the context that the source puts before it.
abbrev pub or_fail_item :
    SourceEnv
    → BackupRunItem
    → String
    → Option String
    → Exec
    → Result ArtifactFile × Exec
    → Result ArtifactFile × Exec
or_fail_item e item context none x next = next
or_fail_item e item context (some msg) x next = fail_run_item e item (String.◌++◌ context msg) x

abbrev pub or_return :
    Option String → Exec → Result ArtifactFile × Exec → Result ArtifactFile × Exec
or_return none x next = next
or_return (some msg) x next = (fail msg, x)

abbrev pub with_value {ℓ} :
    {A : Type ℓ}
    → SourceEnv
    → BackupRunItem
    → String
    → Result A
    → Exec
    → (A → Result ArtifactFile × Exec)
    → Result ArtifactFile × Exec
with_value e item context (fail msg) x next = fail_run_item e item (String.◌++◌ context msg) x
with_value e item context (ok a) x next = next a

abbrev pub artifact_of : SourceEnv → BackupRunItem → Script → ℕ → String → ArtifactFile
artifact_of e item script size checksum = record {
  item_id = item.id;
  item_type = item.item_type;
  logical_name = item.logical_name;
  local_path = e.local_path;
  object_name = script.output_name;
  size = size;
  checksum = checksum;
}

-- The end of executeSource, where all has gone well: the total of the run grows.
unfoldable pub finish_source :
    SourceEnv → BackupRunItem → Script → ℕ → String → Exec → Result ArtifactFile × Exec
finish_source e item script size checksum x =
    let finished : BackupRunItem = record item {
      status = success;
      size_bytes = size;
      checksum = some checksum;
      finished_at = some e.finished;
    } in
    let total = x.run.total_size_bytes + size in
    let grown : Exec = record x {
      run = record x.run { total_size_bytes = total };
      writes = item_row finished ∷ x.writes;
    } in
    or_return e.save_error x (
      ok (artifact_of e item script size checksum),
      try_write e.total_saved (total_size total) grown,
    )

unfoldable pub measure : SourceEnv → BackupRunItem → Script → Exec → Result ArtifactFile × Exec
measure e item script x = with_value e item "remote stat: " e.size x (λ size.
    with_value e item "checksum: " e.checksum x
      (λ checksum. finish_source e item script size checksum x))

-- The error of a script that fails is its output, or the error itself where it has none.
abbrev pub execution_error : Option (String × String) → Option String
execution_error none = none
execution_error (some (output, msg)) = some (trim_space (first_non_empty (output ∷ msg ∷ [])))

-- The script is rendered: it is uploaded and run, and what it leaves is fetched.
unfoldable pub run_script : SourceEnv → BackupRunItem → Script → Exec → Result ArtifactFile × Exec
run_script e item script x = or_fail_item e item "upload script: " e.upload_error x (
    or_fail_item e item "" (execution_error e.execution) x
      (or_fail_item e item "download artifact: " e.download_error x (measure e item script x)))

unfoldable pub execute_source : SourceEnv → BackupSource → Exec → Result ArtifactFile × Exec
execute_source e source x =
    let item = new_item e x.run source in
    let created : Exec = record x { writes = item_row item ∷ x.writes } in
    or_return e.create_error x (
      with_value e item "" e.script created (λ script.
        run_script e
          (record item {
            output_file_name = script.output_name;
            remote_source_path = some script.remote_out;
          })
          script created))
