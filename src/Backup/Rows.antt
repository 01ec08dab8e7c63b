-- ===== src/Backup/Rows.antt =====
-- The rows of the tables backup_jobs and backup_runs (backend/internal/db/models.go) and the
-- artifacts of backend/internal/services/backup/runner.go. Identifiers and times are numbers; the
-- nil UUID is 0.
use x_ui_aggr.Prelude.{ℕ, String, Bool, Option, List}
use x_ui_aggr.Prelude.Int.{ℤ}
use x_ui_aggr.Backup.Types.{RunStatus, StepStatus, Trigger}

pub record BackupJob : Type 0 where
  pub id : ℕ
  pub org_id : ℕ
  pub node_id : Option ℕ
  pub name : String
  pub enabled : Bool
  pub timezone : String
  pub cron_expression : String
  pub retention_days : ℤ
  pub last_run_at : Option ℕ
  pub last_success_at : Option ℕ
  -- None stands for the text idle of a job that has not run.
  pub last_status : Option RunStatus
  pub last_error : Option String
  pub last_size_bytes : ℕ

pub record BackupRun : Type 0 where
  pub id : ℕ
  pub org_id : ℕ
  pub job_id : ℕ
  pub status : RunStatus
  pub trigger_type : Trigger
  pub initiated_by_user_id : Option ℕ
  pub local_workdir : Option String
  pub remote_workdir : Option String
  pub remote_path : Option String
  pub total_size_bytes : ℕ
  pub uploaded_size_bytes : ℕ
  pub file_count : ℕ
  pub checksum_status : StepStatus
  pub cleanup_status : StepStatus
  pub error_summary : Option String
  pub log_excerpt : Option String
  pub log_path : Option String
  pub started_at : ℕ
  pub finished_at : Option ℕ
  pub duration_ms : ℕ
  pub cancel_requested_at : Option ℕ
  pub created_at : ℕ

pub record BackupSource : Type 0 where
  pub id : ℕ
  pub kind : String
  pub name : String
  pub enabled : Bool

pub record ArtifactFile : Type 0 where
  pub item_id : ℕ
  pub item_type : String
  pub logical_name : String
  pub local_path : String
  pub object_name : String
  pub size : ℕ
  pub checksum : String

-- The two tables, and the runs whose context can be cancelled (the map Service.running) and whose
-- context is cancelled.
pub record State : Type 0 where
  pub jobs : List BackupJob
  pub runs : List BackupRun
  pub running : List ℕ
  pub cancelled : List ℕ
