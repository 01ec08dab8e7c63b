-- ===== src/Backup/Types.antt =====
-- Constants and configurations of backend/internal/services/backup/types.go.
use x_ui_aggr.Prelude.{String, Bool, true, false, ◌||◌, ◌is◌, if◌then◌else◌, List, [], ◌∷◌, any}
use x_ui_aggr.Prelude.Int.{ℤ, pos}
use x_ui_aggr.Prelude.Strings.{trim_space, has_prefix}
use Prim.Native.String

-- The texts that the code writes into the column status of a run.
pub data RunStatus : Type 0 where
  queued running success failed partial_success cancelled : RunStatus

pub data Trigger : Type 0 where
  manual scheduled retry : Trigger

-- The texts of the columns cleanup_status and checksum_status.
pub data StepStatus : Type 0 where
  pending done failed : StepStatus

abbrev pub supported_source_types : List String
supported_source_types =
    "file_path" ∷ "directory_path" ∷ "docker_volume" ∷ "postgres_container_dump"
    ∷ "postgres_manual_dump" ∷ "mysql_container_dump" ∷ "mysql_manual_dump" ∷ "nginx_snapshot"
    ∷ "cron_snapshot" ∷ "docker_inventory_snapshot" ∷ "system_snapshot" ∷ "custom_command" ∷ []

abbrev pub supported_storage_types : List String
supported_storage_types = "ftp" ∷ "ftps" ∷ "sftp" ∷ "webdav" ∷ "s3" ∷ "local" ∷ []

unfoldable pub is_supported_source_type : String → Bool
is_supported_source_type value = any (λ t. trim_space value is t) supported_source_types

unfoldable pub is_supported_storage_type : String → Bool
is_supported_storage_type value = any (λ t. trim_space value is t) supported_storage_types

pub record StorageTargetConfig : Type 0 where
  pub host : String
  pub port : ℤ
  pub username : String
  pub password : String
  pub base_path : String
  pub timeout_sec : ℤ
  pub passive_mode : Bool
  pub insecure_skip_verify : Bool
  pub auth_method : String
  pub private_key_pem : String
  pub url : String
  pub bucket : String
  pub region : String
  pub access_key : String
  pub secret_key : String
  pub use_ssl : Bool
  pub path_style : Bool
  pub local_path : String

abbrev pub empty_config : StorageTargetConfig
empty_config = record {
  host = "";
  port = pos 0;
  username = "";
  password = "";
  base_path = "";
  timeout_sec = pos 0;
  passive_mode = false;
  insecure_skip_verify = false;
  auth_method = "";
  private_key_pem = "";
  url = "";
  bucket = "";
  region = "";
  access_key = "";
  secret_key = "";
  use_ssl = false;
  path_style = false;
  local_path = "";
}

unfoldable pub default_storage_config : String → StorageTargetConfig
default_storage_config t =
    if t is "ftp" || t is "ftps"
    then record empty_config { port = pos 21; timeout_sec = pos 30; passive_mode = true }
    else if t is "sftp"
    then record empty_config { port = pos 22; timeout_sec = pos 30; auth_method = "password" }
    else if t is "s3"
    then record empty_config { use_ssl = true; timeout_sec = pos 30 }
    else if t is "local"
    then record empty_config { local_path = "./data/backups/export" }
    else record empty_config { timeout_sec = pos 30 }

-- time.LoadLocation, as the code relies on it: whether a name is in the database of time zones.
unfoldable pub normalize_timezone : (String → Bool) → String → String
normalize_timezone load_location value =
    if trim_space value is ""
    then "UTC"
    else if load_location (trim_space value)
    then trim_space value
    else "UTC"

unfoldable pub ensure_leading_slash : String → String
ensure_leading_slash value =
    if trim_space value is ""
    then "/"
    else if has_prefix (trim_space value) "/"
    then trim_space value
    else String.◌++◌ "/" (trim_space value)

unfoldable pub trigger_label : String → String
trigger_label t =
    if trim_space t is "manual"
    then "Manual"
    else if trim_space t is "retry"
    then "Retry"
    else if trim_space t is "scheduled"
    then "Scheduled"
    else trim_space t
