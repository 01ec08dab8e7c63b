-- ===== src/Backup/Job.antt =====
-- ValidateJobInput of backend/internal/services/backup/validation.go.
pub mod Valid
use x_ui_aggr.Prelude.{
  ℕ, String, Bool, true, false, ◌||◌, not, Option, none, some, ◌is◌, ◌==◌, if◌then◌else◌,
}
use x_ui_aggr.Prelude.Int.{ℤ, pos, pos_part, ltb_ℤ, leb_ℤ}
use x_ui_aggr.Prelude.Strings.{trim_space}
use x_ui_aggr.Prelude.Results.{Result, ok, fail, refuse_if}
use x_ui_aggr.Backup.Types.{normalize_timezone}

pub record JobInput : Type 0 where
  pub name : String
  pub description : String
  pub node_id : Option ℕ
  pub enabled : Bool
  pub timezone : String
  pub cron_expression : String
  pub retention_days : ℤ
  pub storage_target_id : ℕ
  pub compression_enabled : Bool
  pub compression_level : Option ℤ
  pub upload_concurrency : ℤ

abbrev or_default : String → String → String
or_default text default = if text is "" then default else text

abbrev or_number : ℤ → ℤ → ℤ
or_number n default = if leb_ℤ n (pos 0) then default else n

abbrev is_bad_level : Option ℤ → Bool
is_bad_level none = false
is_bad_level (some value) = ltb_ℤ value (pos 1) || ltb_ℤ (pos 9) value

-- The cron parser github.com/robfig/cron/v3: whether ParseStandard accepts an expression.
module _ (load_location : String → Bool) (cron_parses : String → Bool) where
  -- The input with its defaults filled in.
  unfoldable pub filled : JobInput → JobInput
  filled input = record input {
    name = trim_space input.name;
    description = trim_space input.description;
    timezone = normalize_timezone load_location input.timezone;
    cron_expression = or_default (trim_space input.cron_expression) "0 3 * * *";
    retention_days = or_number input.retention_days (pos 14);
    upload_concurrency = or_number input.upload_concurrency (pos 2);
  }

  -- The checks, which the source makes between the steps that fill the defaults in; a result that
  -- is an error carries a half-filled input, which no caller reads.
  unfoldable pub checked : JobInput → Result JobInput
  checked i = refuse_if (i.name is "") "name is required" (
      refuse_if (not (cron_parses i.cron_expression)) "invalid cron expression" (
        refuse_if (ltb_ℤ (pos 3650) i.retention_days) "retention_days is too large" (
          refuse_if (i.storage_target_id == 0) "storage_target_id is required" (
            refuse_if (ltb_ℤ (pos 8) i.upload_concurrency) "upload_concurrency must be <= 8" (
              refuse_if (is_bad_level i.compression_level)
                "compression_level must be between 1 and 9" (ok i))))))

  unfoldable pub validate_job_input : JobInput → Result JobInput
  validate_job_input input = checked (filled input)
