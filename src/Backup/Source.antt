-- ===== src/Backup/Source.antt =====
-- ValidateSourceConfig and validateUnixPath of backend/internal/services/backup/validation.go.
pub mod Path
pub mod Safe
use Prim.Native.Char.{Char, code}
use Prim.Native.String
use x_ui_aggr.Prelude.{
  ℕ, String, Bool, true, false, ◌&&◌, ◌||◌, not, List, [], ◌∷◌, ◌is◌, ◌==◌, leb, if◌then◌else◌, any,
}
use x_ui_aggr.Prelude.Int.{ℤ, pos, leb_ℤ}
use x_ui_aggr.Prelude.Strings.{trim_space, has_prefix, split}
use x_ui_aggr.Prelude.Results.{Result, ok, fail, refuse_if, and_then}
use x_ui_aggr.Agentfs.Clean.{clean}
use x_ui_aggr.Backup.Types.{is_supported_source_type}

pub record PathSourceConfig : Type 0 where
  pub path : String
  pub archive : Bool

pub record DockerVolumeSourceConfig : Type 0 where
  pub volume_name : String
  pub archive : Bool

pub record PostgresContainerSourceConfig : Type 0 where
  pub container_name : String
  pub db_name : String
  pub db_user : String
  pub db_password : String
  pub auto_detect_from_env : Bool
  pub dump_args : String

pub record PostgresManualSourceConfig : Type 0 where
  pub host : String
  pub port : ℤ
  pub db_name : String
  pub db_user : String
  pub db_password : String
  pub dump_args : String

pub record NginxSnapshotSourceConfig : Type 0 where
  pub command : String
  pub output_name : String

pub record CronSnapshotSourceConfig : Type 0 where
  pub include_system : Bool
  pub output_name : String

pub record CustomCommandSourceConfig : Type 0 where
  pub command : String
  pub output_name : String
  pub allow_untrusted_command : Bool

-- A JSON text, as what json.Unmarshal makes of it for each of the structs; an error for a text that
-- does not fit. An empty text stands for `{}`, as the source has it.
pub record RawConfig : Type 0 where
  pub path : Result PathSourceConfig
  pub docker_volume : Result DockerVolumeSourceConfig
  pub postgres_container : Result PostgresContainerSourceConfig
  pub postgres_manual : Result PostgresManualSourceConfig
  pub nginx : Result NginxSnapshotSourceConfig
  pub cron : Result CronSnapshotSourceConfig
  pub docker_inventory : Result String
  pub system : Result String
  pub custom : Result CustomCommandSourceConfig

-- What is marshalled again. The two inventories consist of an output name only.
pub data SourceConfig : Type 0 where
  path_source : PathSourceConfig → SourceConfig
  docker_volume_source : DockerVolumeSourceConfig → SourceConfig
  postgres_container_source : PostgresContainerSourceConfig → SourceConfig
  postgres_manual_source : PostgresManualSourceConfig → SourceConfig
  nginx_source : NginxSnapshotSourceConfig → SourceConfig
  cron_source : CronSnapshotSourceConfig → SourceConfig
  docker_inventory_source system_source : String → SourceConfig
  custom_source : CustomCommandSourceConfig → SourceConfig

-- The class [A-Za-z0-9].
abbrev pub is_alnum : ℕ → Bool
is_alnum n = (leb 65 n && leb n 90) || (leb 97 n && leb n 122) || (leb 48 n && leb n 57)

-- The class [-_A-Za-z0-9./@].
abbrev pub is_path_char : ℕ → Bool
is_path_char n = is_alnum n || n == 45 || n == 95 || n == 46 || n == 47 || n == 64

-- The class [A-Za-z0-9_.-].
abbrev pub is_volume_char : ℕ → Bool
is_volume_char n = is_alnum n || n == 95 || n == 46 || n == 45

unfoldable pub all_chars : (ℕ → Bool) → String → Bool
all_chars p String.[] = true
all_chars p (String.◌∷◌ c s) = p (code c) && all_chars p s

-- A first character of one class and at least one more, all of another.
unfoldable pub matches_head : (ℕ → Bool) → (ℕ → Bool) → String → Bool
matches_head head rest String.[] = false
matches_head head rest (String.◌∷◌ c String.[]) = false
matches_head head rest (String.◌∷◌ c (String.◌∷◌ d s)) =
    head (code c) && all_chars rest (String.◌∷◌ d s)

-- ^/[-_A-Za-z0-9./@]+$ and ^[A-Za-z0-9][A-Za-z0-9_.-]+$
abbrev pub allowed_source_path : String → Bool
allowed_source_path = matches_head (λ n. n == 47) is_path_char

abbrev pub allowed_volume : String → Bool
allowed_volume = matches_head is_alnum is_volume_char

-- strings.ReplaceAll(value, "\\", "/")
unfoldable pub with_slashes : String → String
with_slashes String.[] = ""
with_slashes (String.◌∷◌ c s) =
    let rest = with_slashes s in if code c == b'\\' then String.◌++◌ "/" rest else String.◌∷◌ c rest

-- strings.Contains
unfoldable pub contains : String → String → Bool
contains String.[] part = has_prefix "" part
contains (String.◌∷◌ c s) part = has_prefix (String.◌∷◌ c s) part || contains s part

-- strings.HasSuffix
unfoldable pub has_suffix : String → String → Bool
has_suffix String.[] part = part is ""
has_suffix (String.◌∷◌ c s) part = String.◌∷◌ c s is part || has_suffix s part

-- The value of a path that passes is the path itself; filepath.Clean is path.Clean on Linux.
unfoldable pub validate_unix_path : String → Result String
validate_unix_path raw =
    let value = trim_space raw in
    let cleaned = clean value in
    refuse_if (value is "") "path is required" (
      refuse_if (not (allowed_source_path value)) "path contains unsupported characters" (
        refuse_if (any (λ part. part is "..") (split (with_slashes value) b'/'))
          "path traversal is not allowed"
          (refuse_if (cleaned is "." || not (has_prefix cleaned "/")) "path must be absolute" (
            refuse_if (contains cleaned "../" || has_suffix cleaned "/..")
              "path traversal is not allowed" (ok raw)))))

abbrev or_name : String → String → String
or_name value default = if trim_space value is "" then default else value

unfoldable pub check_path : Bool → PathSourceConfig → Result SourceConfig
check_path is_directory cfg = and_then (validate_unix_path (trim_space cfg.path)) (λ _. ok (
    path_source (record {
      path = trim_space cfg.path;
      archive = if is_directory then true else cfg.archive;
    })))

unfoldable pub check_docker_volume : DockerVolumeSourceConfig → Result SourceConfig
check_docker_volume cfg =
    let name = trim_space cfg.volume_name in
    refuse_if (name is "") "volume_name is required" (
      refuse_if (not (allowed_volume name)) "volume_name contains unsupported characters"
        (ok (docker_volume_source (record { volume_name = name; archive = true }))))

unfoldable pub check_postgres_container : PostgresContainerSourceConfig → Result SourceConfig
check_postgres_container cfg =
    let t : PostgresContainerSourceConfig = record cfg {
      container_name = trim_space cfg.container_name;
      db_name = trim_space cfg.db_name;
      db_user = trim_space cfg.db_user;
      db_password = trim_space cfg.db_password;
      dump_args = trim_space cfg.dump_args;
    } in
    refuse_if (t.container_name is "") "container_name is required" (
      refuse_if (not t.auto_detect_from_env && (t.db_name is "" || t.db_user is ""))
        "db_name and db_user are required when auto detection is disabled"
        (ok (postgres_container_source t)))

unfoldable pub check_postgres_manual : PostgresManualSourceConfig → Result SourceConfig
check_postgres_manual cfg =
    let t : PostgresManualSourceConfig = record {
      host = trim_space cfg.host;
      port = if leb_ℤ cfg.port (pos 0) then pos 5432 else cfg.port;
      db_name = trim_space cfg.db_name;
      db_user = trim_space cfg.db_user;
      db_password = trim_space cfg.db_password;
      dump_args = trim_space cfg.dump_args;
    } in
    refuse_if (t.host is "" || t.db_name is "" || t.db_user is "")
      "host, db_name and db_user are required" (ok (postgres_manual_source t))

unfoldable pub check_nginx : NginxSnapshotSourceConfig → Result SourceConfig
check_nginx cfg = ok (
    nginx_source (record {
      command = or_name cfg.command "nginx -T";
      output_name = or_name cfg.output_name "nginx-full-config";
    }))

unfoldable pub check_custom : Bool → CustomCommandSourceConfig → Result SourceConfig
check_custom allow_unsafe_commands cfg =
    let command = trim_space cfg.command in
    let output_name = trim_space cfg.output_name in
    refuse_if (command is "") "command is required" (
      refuse_if (not allow_unsafe_commands || not cfg.allow_untrusted_command)
        "custom commands require explicit unsafe enablement"
        (ok (
          custom_source (record cfg {
            command = command;
            output_name = if output_name is "" then "custom-command" else output_name;
          }))))

-- The second half of the switch over the trimmed type of a source.
unfoldable pub check_snapshot : Bool → String → RawConfig → Result SourceConfig
check_snapshot allow_unsafe_commands t raw =
    if t is "nginx_snapshot"
    then and_then raw.nginx check_nginx
    else if t is "cron_snapshot"
    then and_then raw.cron (λ cfg.
      ok (cron_source (record cfg { output_name = or_name cfg.output_name "cron-snapshot" })))
    else if t is "docker_inventory_snapshot"
    then and_then raw.docker_inventory
        (λ name. ok (docker_inventory_source (or_name name "docker-inventory")))
    else if t is "system_snapshot"
    then and_then raw.system (λ name. ok (system_source (or_name name "system-snapshot")))
    else if t is "custom_command"
    then and_then raw.custom (check_custom allow_unsafe_commands)
    else if t is "mysql_container_dump" || t is "mysql_manual_dump"
    then fail "mysql sources are not implemented yet"
    else fail "unsupported source type"

-- The switch itself.
unfoldable pub check_source : Bool → String → RawConfig → Result SourceConfig
check_source allow_unsafe_commands t raw =
    if t is "file_path" || t is "directory_path"
    then and_then raw.path (check_path (t is "directory_path"))
    else if t is "docker_volume"
    then and_then raw.docker_volume check_docker_volume
    else if t is "postgres_container_dump"
    then and_then raw.postgres_container check_postgres_container
    else if t is "postgres_manual_dump"
    then and_then raw.postgres_manual check_postgres_manual
    else check_snapshot allow_unsafe_commands t raw

unfoldable pub validate_source_config : String → RawConfig → Bool → Result SourceConfig
validate_source_config source_type raw allow_unsafe_commands =
    let t = trim_space source_type in
    refuse_if (not (is_supported_source_type t)) "unsupported source type"
      (check_source allow_unsafe_commands t raw)
