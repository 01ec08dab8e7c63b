-- ===== src/Backup/Storage.antt =====
-- ValidateStorageConfig and normalizeBasePath of backend/internal/services/backup/validation.go.
pub mod Complete
use Prim.Native.Char.{Char, code}
use Prim.Native.String
use x_ui_aggr.Prelude.{
  ℕ, String, Bool, true, false, ◌&&◌, ◌||◌, not, ◌is◌, ◌==◌, leb, if◌then◌else◌, ◌≡◌, refl,
}
use x_ui_aggr.Prelude.Int.{ℤ, pos, pos_part, neg_part, leb_ℤ}
use x_ui_aggr.Prelude.Strings.{trim_space, trim_right, to_lower, has_prefix, text_length, ends_with}
use x_ui_aggr.Prelude.Results.{Result, ok, fail, refuse_if}
use x_ui_aggr.Backup.Types.{StorageTargetConfig, is_supported_storage_type, default_storage_config}

unfoldable pub normalize_base_path : String → String
normalize_base_path raw =
    let value = trim_space raw in
    if value is ""
    then "/"
    else if has_prefix value "/"
    then trim_right value b'/'
    else String.◌++◌ "/" (trim_right value b'/')

-- The classes [a-z0-9] and [a-z0-9.-].
abbrev is_bucket_end : ℕ → Bool
is_bucket_end n = (leb 97 n && leb n 122) || (leb 48 n && leb n 57)

abbrev is_bucket_char : ℕ → Bool
is_bucket_char n = is_bucket_end n || n == 46 || n == 45

unfoldable pub bucket_rest : String → Bool
bucket_rest String.[] = false
bucket_rest (String.◌∷◌ c String.[]) = is_bucket_end (code c)
bucket_rest (String.◌∷◌ c (String.◌∷◌ d s)) =
    is_bucket_char (code c) && bucket_rest (String.◌∷◌ d s)

-- ^[a-z0-9][a-z0-9.-]{1,61}[a-z0-9]$
unfoldable pub matches_bucket : String → Bool
matches_bucket String.[] = false
matches_bucket (String.◌∷◌ c s) =
    is_bucket_end (code c) && bucket_rest s && leb 2 (text_length s) && leb (text_length s) 62

abbrev is_zero : ℤ → Bool
is_zero n = pos_part n == 0 && neg_part n == 0

-- The defaults and the trimming, before the switch.
unfoldable pub tidied : String → StorageTargetConfig → StorageTargetConfig
tidied t cfg =
    let defaults = default_storage_config t in
    record cfg {
      port = if is_zero cfg.port then defaults.port else cfg.port;
      timeout_sec = if leb_ℤ cfg.timeout_sec (pos 0) then defaults.timeout_sec else cfg.timeout_sec;
      base_path = normalize_base_path cfg.base_path;
      auth_method = trim_space (to_lower cfg.auth_method);
      host = trim_space cfg.host;
      username = trim_space cfg.username;
      url = trim_space cfg.url;
      bucket = trim_space cfg.bucket;
      region = trim_space cfg.region;
      access_key = trim_space cfg.access_key;
      local_path = trim_space cfg.local_path;
    }

-- The case StorageSFTP once the method of authentication is filled in.
unfoldable pub check_sftp : StorageTargetConfig → Result StorageTargetConfig
check_sftp cfg =
    refuse_if (not (cfg.auth_method is "password") && not (cfg.auth_method is "key"))
      "auth_method must be password or key"
      (refuse_if (cfg.auth_method is "password" && cfg.password is "") "password is required" (
        refuse_if (cfg.auth_method is "key" && trim_space cfg.private_key_pem is "")
          "private_key_pem is required" (ok cfg)))

-- A user and a password at a place, which the messages name.
unfoldable pub check_login : String → String → StorageTargetConfig → Result StorageTargetConfig
check_login place msg cfg = refuse_if (place is "") msg (
    refuse_if (cfg.username is "") "username is required"
      (refuse_if (cfg.password is "") "password is required" (ok cfg)))

unfoldable pub check_storage : String → StorageTargetConfig → Result StorageTargetConfig
check_storage t cfg =
    if t is "ftp" || t is "ftps"
    then check_login cfg.host "host is required" cfg
    else if t is "sftp"
    then refuse_if (cfg.host is "") "host is required" (
        refuse_if (cfg.username is "") "username is required" (
          check_sftp (record cfg {
            auth_method =
                if cfg.auth_method is ""
                then (default_storage_config t).auth_method
                else cfg.auth_method;
          })))
    else if t is "webdav"
    then check_login cfg.url "url is required" cfg
    else if t is "s3"
    then refuse_if (cfg.host is "") "endpoint host is required" (
        refuse_if (not (matches_bucket cfg.bucket)) "bucket is invalid" (
          refuse_if (cfg.access_key is "" || cfg.secret_key is "")
            "access_key and secret_key are required" (ok cfg)))
    else if t is "local"
    then refuse_if (cfg.local_path is "") "local_path is required" (ok cfg)
    else ok cfg

unfoldable pub validate_storage_config : String → StorageTargetConfig → Result StorageTargetConfig
validate_storage_config target_type cfg =
    let t = trim_space target_type in
    refuse_if (not (is_supported_storage_type t)) "unsupported storage target type"
      (check_storage t (tidied t cfg))

-- The root is stored as the empty path, and the empty path as the root.
root_is_emptied : normalize_base_path "/" ≡ ""
unfolding normalize_base_path trim_space trim_right has_prefix ◌is◌
root_is_emptied = refl

empty_is_root : normalize_base_path "" ≡ "/"
unfolding normalize_base_path trim_space ◌is◌
empty_is_root = refl
