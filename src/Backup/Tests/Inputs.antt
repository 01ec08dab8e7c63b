-- ===== src/Backup/Tests/Inputs.antt =====
-- The theorems on the inputs, the log, the names and the retention at concrete values.
use x_ui_aggr.Prelude.{
  ◌*◌, ◌≡◌, refl, String, Bool, true, false, none, some, List, [], ◌∷◌, ◌is◌, ◌-◌, if◌then◌else◌,
}
use x_ui_aggr.Prelude.Int.{pos_part, pos, leb_ℤ}
use x_ui_aggr.Prelude.Strings.{
  trim_space, trim_right, to_lower, contains_char, has_prefix, split, join,
}
use x_ui_aggr.Prelude.Results.{ok, fail}
use x_ui_aggr.Agentfs.Clean.{clean, reverse_onto}
use x_ui_aggr.Backup.Types.{
  StorageTargetConfig, empty_config, default_storage_config, is_supported_storage_type,
  is_supported_source_type, normalize_timezone,
}
use x_ui_aggr.Backup.Job.{JobInput, validate_job_input, filled, checked}
use x_ui_aggr.Backup.Job.Valid.{IsValid, validate_job_input-IsValid}
use x_ui_aggr.Backup.Source.{
  RawConfig, SourceConfig, path_source, validate_source_config, check_source, check_path,
  validate_unix_path, all_chars, matches_head, with_slashes, contains, has_suffix,
}
use x_ui_aggr.Backup.Source.Safe.{IsSafe, validate_source_config-IsSafe}
use x_ui_aggr.Backup.Storage.{
  validate_storage_config, check_storage, check_login, tidied, normalize_base_path,
}
use x_ui_aggr.Backup.Storage.Complete.{IsComplete, validate_storage_config-IsComplete}
use x_ui_aggr.Backup.Shell.{read_word, bare, shell_escape, read_word-shell_escape}
use x_ui_aggr.Backup.Log.{RunLogger, new_run_logger, write_lines}
use x_ui_aggr.Backup.Log.Last.{IsLast, write_lines-IsLast}
use x_ui_aggr.Backup.Names.{make_artifact_name}
use x_ui_aggr.Backup.Names.Safe.{IsFlat, has_dots, make_artifact_name-IsFlat}
use x_ui_aggr.Backup.Retention.{RetentionEnv, apply_retention}
use x_ui_aggr.Backup.Retention.Exact.{expired_listed, apply_retention-exact}

read_word-shell_escape_example : read_word bare (shell_escape "it's") ≡ some "it's"
read_word-shell_escape_example = read_word-shell_escape "it's"

abbrev logger : RunLogger
logger = record { file = []; tail = []; max_tail = 80 }

makes_logger : new_run_logger none ≡ some logger
unfolding new_run_logger
makes_logger = refl

-- The file takes only a part of the second line.
abbrev lines : List (String × String)
lines = ("started", "started") ∷ ("fini", "finished") ∷ []

write_lines-IsLast_example : IsLast lines (write_lines lines logger)
write_lines-IsLast_example = write_lines-IsLast lines logger makes_logger

stamp-IsFlat : IsFlat "20260101T000000Z"
unfolding contains_char has_dots
stamp-IsFlat = record { slash = refl; backslash = refl; colon = refl; space = refl; dots = refl }

make_artifact_name-IsFlat_example :
    IsFlat (make_artifact_name "../../etc/passwd" "20260101T000000Z")
make_artifact_name-IsFlat_example =
    make_artifact_name-IsFlat "../../etc/passwd" "20260101T000000Z" stamp-IsFlat

abbrev retention : RetentionEnv
retention = record {
  now = 1000000;
  objects = ok (
      record { path = "old"; size = 1; modified_at = some 100 }
      ∷ record { path = "new"; size = 1; modified_at = some 999999 }
      ∷ record { path = "unknown"; size = 1; modified_at = none }
      ∷ []);
  delete_error = λ path. none;
}

apply_retention-exact_example : apply_retention retention (pos 7) ≡ (
    if leb_ℤ (pos 7) (pos 0)
    then ([], none)
    else expired_listed retention (retention.now - 86400 * pos_part (pos 7)) retention.objects)
apply_retention-exact_example = apply_retention-exact retention (pos 7)

zones : String → Bool
zones name = true

crons : String → Bool
crons text = true

abbrev input : JobInput
input = record {
  name = " etc ";
  description = "";
  node_id = some 3;
  enabled = true;
  timezone = "Europe/Berlin";
  cron_expression = "";
  retention_days = pos 0;
  storage_target_id = 4;
  compression_enabled = true;
  compression_level = some (pos 6);
  upload_concurrency = pos 0;
}

abbrev filled_input : JobInput
filled_input = record input {
  name = "etc";
  cron_expression = "0 3 * * *";
  retention_days = pos 14;
  upload_concurrency = pos 2;
}

accepts_job : validate_job_input zones crons input ≡ ok filled_input
unfolding zones crons validate_job_input filled checked normalize_timezone trim_space ◌is◌
accepts_job = refl

validate_job_input-IsValid_example :
    IsValid crons filled_input × (validate_job_input zones crons filled_input ≡ ok filled_input)
validate_job_input-IsValid_example =
    validate_job_input-IsValid zones crons input filled_input accepts_job

abbrev raw : RawConfig
raw = record {
  path = ok (record { path = " /etc/nginx "; archive = false });
  docker_volume = fail "no volume";
  postgres_container = fail "no container";
  postgres_manual = fail "no host";
  nginx = fail "no command";
  cron = fail "no name";
  docker_inventory = fail "no name";
  system = fail "no name";
  custom = fail "no command";
}

abbrev accepted_source : SourceConfig
accepted_source = path_source (record { path = "/etc/nginx"; archive = true })

accepts_source : validate_source_config "directory_path" raw false ≡ ok accepted_source
unfolding validate_source_config check_source check_path validate_unix_path all_chars matches_head
    with_slashes contains has_suffix is_supported_source_type trim_space has_prefix split clean ◌is◌
    join reverse_onto
accepts_source = refl

validate_source_config-IsSafe_example : IsSafe false (trim_space "directory_path") accepted_source
validate_source_config-IsSafe_example =
    validate_source_config-IsSafe "directory_path" raw false accepted_source accepts_source

abbrev target : StorageTargetConfig
target = record empty_config {
  host = "ftp.example.org";
  username = "backup";
  password = "secret";
  port = pos 21;
  timeout_sec = pos 30;
  base_path = "/backups";
}

accepts_target : validate_storage_config "ftp" target ≡ ok target
unfolding validate_storage_config check_storage check_login tidied normalize_base_path
    default_storage_config is_supported_storage_type trim_space trim_right to_lower has_prefix ◌is◌
accepts_target = refl

validate_storage_config-IsComplete_example : IsComplete target (trim_space "ftp")
validate_storage_config-IsComplete_example =
    validate_storage_config-IsComplete "ftp" target target accepts_target
