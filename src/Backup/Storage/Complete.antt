-- ===== src/Backup/Storage/Complete.antt =====
-- What an accepted storage target has.
use x_ui_aggr.Prelude.{
  neither, not-false, ◌≡◌, subst, String, Bool, true, false, ◌&&◌, ◌||◌, not, ◌is◌, Bool-cases, inl,
  inr, arith,
}
use x_ui_aggr.Prelude.Strings.{trim_space}
use x_ui_aggr.Prelude.Strings.Trim.{trim_space_idem}
use x_ui_aggr.Prelude.Results.{ok-injective, ok, refuse_if-ok}
use x_ui_aggr.Backup.Types.{StorageTargetConfig, is_supported_storage_type}
use x_ui_aggr.Backup.Storage.{
  check_sftp, check_login, check_storage, validate_storage_config, matches_bucket, tidied,
}

-- The credentials that a target of this type needs.
pub data IsComplete (c : StorageTargetConfig) : String → Type 0 where
  ftp_login :
      (t : String)
      → (t is "ftp" || t is "ftps") ≡ true
      → (c.host is "") ≡ false
      → (c.username is "") ≡ false
      → (c.password is "") ≡ false
      → IsComplete c t
  sftp_password :
      (t : String)
      → (t is "sftp") ≡ true
      → (c.host is "") ≡ false
      → (c.username is "") ≡ false
      → (c.auth_method is "password") ≡ true
      → (c.password is "") ≡ false
      → IsComplete c t
  sftp_key :
      (t : String)
      → (t is "sftp") ≡ true
      → (c.host is "") ≡ false
      → (c.username is "") ≡ false
      → (c.auth_method is "key") ≡ true
      → (trim_space c.private_key_pem is "") ≡ false
      → IsComplete c t
  webdav_login :
      (t : String)
      → (t is "webdav") ≡ true
      → (c.url is "") ≡ false
      → (c.username is "") ≡ false
      → (c.password is "") ≡ false
      → IsComplete c t
  s3_keys :
      (t : String)
      → (t is "s3") ≡ true
      → (c.host is "") ≡ false
      → matches_bucket c.bucket ≡ true
      → (c.access_key is "") ≡ false
      → (c.secret_key is "") ≡ false
      → IsComplete c t
  local_directory :
      (t : String) → (t is "local") ≡ true → (c.local_path is "") ≡ false → IsComplete c t

check_login-ok :
    (place msg : String) (c : StorageTargetConfig) {r : StorageTargetConfig}
    → check_login place msg c ≡ ok r
    → ((place is "") ≡ false)
      × ((c.username is "") ≡ false)
      × ((c.password is "") ≡ false)
      × (c ≡ r)
unfolding check_login
check_login-ok place msg c {r} h =
    let (p, h1) = refuse_if-ok (place is "") msg _ h in
    let (n, h2) = refuse_if-ok (c.username is "") "username is required" _ h1 in
    let (w, h3) = refuse_if-ok (c.password is "") "password is required" (ok c) h2 in
    (p, n, w, ok-injective h3)

check_sftp-IsComplete :
    (t : String) (c : StorageTargetConfig) {r : StorageTargetConfig}
    → (t is "sftp") ≡ true
    → (c.host is "") ≡ false
    → (c.username is "") ≡ false
    → check_sftp c ≡ ok r
    → IsComplete r t
unfolding check_sftp
check_sftp-IsComplete t c {r} s host user h =
    let (known, h1) =
      refuse_if-ok (not (c.auth_method is "password") && not (c.auth_method is "key"))
        "auth_method must be password or key" _ h in
    let (word, h2) =
      refuse_if-ok (c.auth_method is "password" && c.password is "") "password is required" _ h1 in
    let (key, h3) =
      refuse_if-ok (c.auth_method is "key" && trim_space c.private_key_pem is "")
        "private_key_pem is required" (ok c) h2 in
    subst (λ x. IsComplete x t) (ok-injective h3)
      (elim (Bool-cases (c.auth_method is "password")) [
        | inl p ↦ sftp_password t s host user p (rw p at word)
        | inr np ↦
            let k : (c.auth_method is "key") ≡ true = not-false _ (rw np at known) in
            sftp_key t s host user k (rw k at key)
      ])

check_storage-IsComplete :
    (t : String) (c : StorageTargetConfig) {r : StorageTargetConfig}
    → (t is "ftp" || t is "ftps" || t is "sftp" || t is "webdav" || t is "s3" || t is "local")
      ≡ true
    → check_storage t c ≡ ok r
    → IsComplete r t
unfolding check_storage
check_storage-IsComplete t c {r} known h = elim (Bool-cases (t is "ftp" || t is "ftps")) [
  | inl y ↦
      let (p, n, w, same) = check_login-ok c.host "host is required" c (rw y at h) in
      subst (λ x. IsComplete x t) same (ftp_login t y p n w)
  | inr n1 ↦ elim (Bool-cases (t is "sftp")) [
    | inl y ↦
        let (host, h1) = refuse_if-ok (c.host is "") "host is required" _ (rw (n1, y) at h) in
        let (user, h2) = refuse_if-ok (c.username is "") "username is required" _ h1 in
        check_sftp-IsComplete t _ y host user h2
    | inr n2 ↦ elim (Bool-cases (t is "webdav")) [
      | inl y ↦
          let (p, n, w, same) = check_login-ok c.url "url is required" c (rw (n1, n2, y) at h) in
          subst (λ x. IsComplete x t) same (webdav_login t y p n w)
      | inr n3 ↦ elim (Bool-cases (t is "s3")) [
        | inl y ↦
            let (host, h1) =
              refuse_if-ok (c.host is "") "endpoint host is required" _ (rw (n1, n2, n3, y) at h) in
            let (bucket, h2) =
              refuse_if-ok (not (matches_bucket c.bucket)) "bucket is invalid" _ h1 in
            let (keys, h3) =
              refuse_if-ok (c.access_key is "" || c.secret_key is "")
                "access_key and secret_key are required" (ok c) h2 in
            let (a, k) = neither _ _ keys in
            subst (λ x. IsComplete x t) (ok-injective h3)
              (s3_keys t y host (not-false _ bucket) a k)
        | inr n4 ↦
            let local : (t is "local") ≡ true = rw (n1, n2, n3, n4) at known in
            let (path, h1) =
              refuse_if-ok (c.local_path is "") "local_path is required" (ok c)
                (rw (n1, n2, n3, n4, local) at h) in
            subst (λ x. IsComplete x t) (ok-injective h1) (local_directory t local path)
      ]
    ]
  ]
]

or_chain :
    (a b c d e f : Bool)
    → (a || (b || (c || (d || (e || (f || false)))))) ≡ true
    → (a || b || c || d || e || f) ≡ true
or_chain a b c d e f h = ground arith

is_supported-trimmed :
    (v : String)
    → is_supported_storage_type (trim_space v) ≡ true
    → let t = trim_space v in
      (t is "ftp" || t is "ftps" || t is "sftp" || t is "webdav" || t is "s3" || t is "local")
      ≡ true
unfolding is_supported_storage_type
is_supported-trimmed v h =
    let t = trim_space v in
    or_chain (t is "ftp") (t is "ftps") (t is "sftp") (t is "webdav") (t is "s3") (t is "local")
      (rw (trim_space_idem v) at h)

-- An accepted storage target has the credentials that its type asks for, and a bucket whose name is
-- allowed: no branch of the check lets a target pass without them.
pub validate_storage_config-IsComplete :
    (target_type : String) (cfg r : StorageTargetConfig)
    → validate_storage_config target_type cfg ≡ ok r
    → IsComplete r (trim_space target_type)
unfolding validate_storage_config
validate_storage_config-IsComplete target_type cfg r h =
    let t = trim_space target_type in
    let (known, h1) =
      refuse_if-ok (not (is_supported_storage_type t)) "unsupported storage target type"
        (check_storage t (tidied t cfg)) h in
    check_storage-IsComplete t (tidied t cfg) (is_supported-trimmed target_type (not-false _ known))
      h1
