-- ===== src/Backup/Source/Safe.antt =====
-- What an accepted source satisfies.
use x_ui_aggr.Prelude.{
  neither, not-false, ◌≡◌, refl, subst, String, Bool, true, false, ◌||◌, not, ◌is◌, Bool-cases, inl,
  inr, sym, str_eq_iff,
}
use x_ui_aggr.Prelude.Strings.{trim_space}
use x_ui_aggr.Prelude.Results.{
  ok-injective, Result, ok, fail, and_then, refuse_if-ok, and_then-ok, fail≢ok,
}
use x_ui_aggr.Backup.Source
use x_ui_aggr.Backup.Source.Path.{IsSafePath, check_path-IsSafePath}

-- What a source of a type is made of, and what it has shown.
pub data IsSafe (unsafe : Bool) : String → Source.SourceConfig → Type 0 where
  safe_file :
      (cfg : Source.PathSourceConfig)
      → IsSafePath cfg.path
      → IsSafe unsafe "file_path" (Source.path_source cfg)
  safe_directory :
      (cfg : Source.PathSourceConfig)
      → IsSafePath cfg.path
      → cfg.archive ≡ true
      → IsSafe unsafe "directory_path" (Source.path_source cfg)
  safe_volume :
      (cfg : Source.DockerVolumeSourceConfig)
      → Source.allowed_volume cfg.volume_name ≡ true
      → IsSafe unsafe "docker_volume" (Source.docker_volume_source cfg)
  safe_container :
      (cfg : Source.PostgresContainerSourceConfig)
      → (cfg.container_name is "") ≡ false
      → IsSafe unsafe "postgres_container_dump" (Source.postgres_container_source cfg)
  safe_manual :
      (cfg : Source.PostgresManualSourceConfig)
      → (cfg.host is "") ≡ false
      → (cfg.db_name is "") ≡ false
      → (cfg.db_user is "") ≡ false
      → IsSafe unsafe "postgres_manual_dump" (Source.postgres_manual_source cfg)
  nginx_unchecked :
      (cfg : Source.NginxSnapshotSourceConfig)
      → IsSafe unsafe "nginx_snapshot" (Source.nginx_source cfg)
  cron_unchecked :
      (cfg : Source.CronSnapshotSourceConfig)
      → IsSafe unsafe "cron_snapshot" (Source.cron_source cfg)
  inventory_unchecked :
      (name : String)
      → IsSafe unsafe "docker_inventory_snapshot" (Source.docker_inventory_source name)
  system_unchecked : (name : String) → IsSafe unsafe "system_snapshot" (Source.system_source name)
  allowed_custom :
      (cfg : Source.CustomCommandSourceConfig)
      → (cfg.command is "") ≡ false
      → unsafe ≡ true
      → cfg.allow_untrusted_command ≡ true
      → IsSafe unsafe "custom_command" (Source.custom_source cfg)

or_left : (a b : Bool) → (a || b) ≡ true → b ≡ false → a ≡ true
or_left true b h n = refl
or_left false b h n = cc

module _ (unsafe : Bool) where
  check_file-IsSafe :
      (cfg : Source.PathSourceConfig) {r : Source.SourceConfig}
      → Source.check_path false cfg ≡ ok r
      → IsSafe unsafe "file_path" r
  check_file-IsSafe cfg {r} h =
      let (c, same, safe, _) = check_path-IsSafePath false cfg h in
      subst (IsSafe unsafe "file_path") same (safe_file c safe)

  check_directory-IsSafe :
      (cfg : Source.PathSourceConfig) {r : Source.SourceConfig}
      → Source.check_path true cfg ≡ ok r
      → IsSafe unsafe "directory_path" r
  check_directory-IsSafe cfg {r} h =
      let (c, same, safe, archived) = check_path-IsSafePath true cfg h in
      subst (IsSafe unsafe "directory_path") same (safe_directory c safe archived)

  check_docker_volume-IsSafe :
      (cfg : Source.DockerVolumeSourceConfig) {r : Source.SourceConfig}
      → Source.check_docker_volume cfg ≡ ok r
      → IsSafe unsafe "docker_volume" r
  unfolding Source.check_docker_volume
  check_docker_volume-IsSafe cfg {r} h =
      let name = trim_space cfg.volume_name in
      let (_, h1) = refuse_if-ok (name is "") "volume_name is required" _ h in
      let (allowed, same) =
        refuse_if-ok (not (Source.allowed_volume name))
          "volume_name contains unsupported characters" _ h1 in
      subst (IsSafe unsafe "docker_volume") (ok-injective same)
        (safe_volume _ (not-false _ allowed))

  check_postgres_container-IsSafe :
      (cfg : Source.PostgresContainerSourceConfig) {r : Source.SourceConfig}
      → Source.check_postgres_container cfg ≡ ok r
      → IsSafe unsafe "postgres_container_dump" r
  unfolding Source.check_postgres_container
  check_postgres_container-IsSafe cfg {r} h =
      let (named, h1) =
        refuse_if-ok (trim_space cfg.container_name is "") "container_name is required" _ h in
      let (_, same) =
        refuse_if-ok _ "db_name and db_user are required when auto detection is disabled" _ h1 in
      subst (IsSafe unsafe "postgres_container_dump") (ok-injective same) (safe_container _ named)

  check_postgres_manual-IsSafe :
      (cfg : Source.PostgresManualSourceConfig) {r : Source.SourceConfig}
      → Source.check_postgres_manual cfg ≡ ok r
      → IsSafe unsafe "postgres_manual_dump" r
  unfolding Source.check_postgres_manual
  check_postgres_manual-IsSafe cfg {r} h =
      let (given, same) =
        refuse_if-ok
          (trim_space cfg.host is ""
            || trim_space cfg.db_name is ""
            || trim_space cfg.db_user is "")
          "host, db_name and db_user are required" _ h in
      let (host_db, user) = neither _ _ given in
      let (host, db) = neither _ _ host_db in
      subst (IsSafe unsafe "postgres_manual_dump") (ok-injective same) (safe_manual _ host db user)

  check_custom-IsSafe :
      (cfg : Source.CustomCommandSourceConfig) {r : Source.SourceConfig}
      → Source.check_custom unsafe cfg ≡ ok r
      → IsSafe unsafe "custom_command" r
  unfolding Source.check_custom
  check_custom-IsSafe cfg {r} h =
      let (given, h1) = refuse_if-ok (trim_space cfg.command is "") "command is required" _ h in
      let (enabled, same) =
        refuse_if-ok (not unsafe || not cfg.allow_untrusted_command)
          "custom commands require explicit unsafe enablement" _ h1 in
      let (a, b) = neither _ _ enabled in
      subst (IsSafe unsafe "custom_command") (ok-injective same)
        (allowed_custom _ given (not-false _ a) (not-false _ b))

  -- A result of the checks for one kind of source.
  from_raw :
      {A : Type 0} (t name : String) (raw : Result A) (check : A → Result Source.SourceConfig)
      {r : Source.SourceConfig}
      → (t is name) ≡ true
      → ((a : A) → check a ≡ ok r → IsSafe unsafe name r)
      → and_then raw check ≡ ok r
      → IsSafe unsafe t r
  from_raw t name raw check {r} same safe h =
      let (a, _, k) = and_then-ok raw check h in
      subst (λ x. IsSafe unsafe x r) (sym ((str_eq_iff t name).0 same)) (safe a k)

  check_snapshot-IsSafe :
      (t : String) (raw : Source.RawConfig) {r : Source.SourceConfig}
      → Source.check_snapshot unsafe t raw ≡ ok r
      → IsSafe unsafe t r
  unfolding Source.check_snapshot Source.check_nginx
  check_snapshot-IsSafe t raw {r} h = elim (Bool-cases (t is "nginx_snapshot")) [
    | inl y ↦
        from_raw t "nginx_snapshot" raw.nginx Source.check_nginx y
          (λ a k. subst (IsSafe unsafe "nginx_snapshot") (ok-injective k) (nginx_unchecked _))
          (rw y at h)
    | inr n1 ↦ elim (Bool-cases (t is "cron_snapshot")) [
      | inl y ↦
          from_raw t "cron_snapshot" raw.cron _ y
            (λ a k. subst (IsSafe unsafe "cron_snapshot") (ok-injective k) (cron_unchecked _))
            (rw (n1, y) at h)
      | inr n2 ↦ elim (Bool-cases (t is "docker_inventory_snapshot")) [
        | inl y ↦
            from_raw t "docker_inventory_snapshot" raw.docker_inventory _ y
              (λ a k.
                subst (IsSafe unsafe "docker_inventory_snapshot") (ok-injective k)
                  (inventory_unchecked _))
              (rw (n1, n2, y) at h)
        | inr n3 ↦ elim (Bool-cases (t is "system_snapshot")) [
          | inl y ↦
              from_raw t "system_snapshot" raw.system _ y
                (λ a k.
                  subst (IsSafe unsafe "system_snapshot") (ok-injective k) (system_unchecked _))
                (rw (n1, n2, n3, y) at h)
          | inr n4 ↦ elim (Bool-cases (t is "custom_command")) [
            | inl y ↦
                from_raw t "custom_command" raw.custom (Source.check_custom unsafe) y
                  (λ a k. check_custom-IsSafe a k) (rw (n1, n2, n3, n4, y) at h)
            | inr n5 ↦ elim (Bool-cases (t is "mysql_container_dump" || t is "mysql_manual_dump")) [
              | inl y ↦
                  let bad : fail "mysql sources are not implemented yet" ≡ ok r =
                    rw (n1, n2, n3, n4, n5, y) at h in
                  absurd (fail≢ok bad)
              | inr n6 ↦
                  let bad : fail "unsupported source type" ≡ ok r =
                    rw (n1, n2, n3, n4, n5, n6) at h in
                  absurd (fail≢ok bad)
            ]
          ]
        ]
      ]
    ]
  ]

  check_source-IsSafe :
      (t : String) (raw : Source.RawConfig) {r : Source.SourceConfig}
      → Source.check_source unsafe t raw ≡ ok r
      → IsSafe unsafe t r
  unfolding Source.check_source Source.check_nginx
  check_source-IsSafe t raw {r} h = elim (Bool-cases (t is "file_path" || t is "directory_path")) [
    | inl y ↦ elim (Bool-cases (t is "directory_path")) [
      | inl d ↦
          from_raw t "directory_path" raw.path (Source.check_path true) d
            (λ a k. check_directory-IsSafe a k) (rw (y, d) at h)
      | inr nd ↦
          from_raw t "file_path" raw.path (Source.check_path false) (or_left _ _ y nd)
            (λ a k. check_file-IsSafe a k) (rw (y, nd) at h)
    ]
    | inr n1 ↦ elim (Bool-cases (t is "docker_volume")) [
      | inl y ↦
          from_raw t "docker_volume" raw.docker_volume Source.check_docker_volume y
            (λ a k. check_docker_volume-IsSafe a k) (rw (n1, y) at h)
      | inr n2 ↦ elim (Bool-cases (t is "postgres_container_dump")) [
        | inl y ↦
            from_raw t "postgres_container_dump" raw.postgres_container
              Source.check_postgres_container y (λ a k. check_postgres_container-IsSafe a k)
              (rw (n1, n2, y) at h)
        | inr n3 ↦ elim (Bool-cases (t is "postgres_manual_dump")) [
          | inl y ↦
              from_raw t "postgres_manual_dump" raw.postgres_manual Source.check_postgres_manual y
                (λ a k. check_postgres_manual-IsSafe a k) (rw (n1, n2, n3, y) at h)
          | inr n4 ↦ check_snapshot-IsSafe t raw (rw (n1, n2, n3, n4) at h)
        ]
      ]
    ]
  ]

-- A source that is accepted has the contents of its type, and these are checked: the path of a file or
-- a directory begins with a slash, has only characters of the allowed class and no part `..`; a volume
-- matches its pattern; a database dump names its container, or its host, database and user; and a
-- custom command is enabled both in the service and in the source. Of a snapshot of nginx, of cron, of
-- docker or of the system nothing is asked, also not of the command that nginx is to be read with.
pub validate_source_config-IsSafe :
    (source_type : String) (raw : Source.RawConfig) (unsafe : Bool) (r : Source.SourceConfig)
    → Source.validate_source_config source_type raw unsafe ≡ ok r
    → IsSafe unsafe (trim_space source_type) r
unfolding Source.validate_source_config
validate_source_config-IsSafe source_type raw unsafe r h =
    check_source-IsSafe unsafe (trim_space source_type) raw
      (refuse_if-ok _ "unsupported source type" _ h).1
