-- ===== src/Backup/Run/Steps.antt =====
-- The steps of a running backup leave its status as it is.
use x_ui_aggr.Prelude.{
  ℕ, sym, subst, String, Bool, true, false, Option, none, some, List, [], ◌∷◌, if◌then◌else◌,
}
use x_ui_aggr.Prelude.Results.{Result, ok, fail}
use x_ui_aggr.Backup.Types.{queued, running}
use x_ui_aggr.Backup.Rows.{ArtifactFile, BackupRun, BackupSource}
use x_ui_aggr.Backup.Collect.{
  BackupRunItem, Exec, Write, run_row, job_row, item_row, total_size, uploaded_size, try_write,
  Script, SourceEnv, execute_source, CollectEnv, Gathered, gather, or_end, or_stop,
  collect_artifacts, collect_sources, names_node,
}
use x_ui_aggr.Backup.Upload.{
  UploadEnv, upload_failure, count_upload, count_uploaded, upload_artifacts,
}
use x_ui_aggr.Backup.Upload
use x_ui_aggr.Backup.Collect
use x_ui_aggr.Backup.Finish.{RunEnv, add_manifest}
use x_ui_aggr.Backup.Run.Lifecycle.{
  ◌⟶◌, continue, Follows, row, uploaded, At, try_item, execute_source-At,
}

module _ {id job_id : ℕ} where
  gather-At :
      (artifacts : List ArtifactFile) (first : Option String) (r : Result ArtifactFile × Exec)
      → At id job_id running r.1
      → At id job_id running (gather artifacts first r).1
  gather-At artifacts first (fail msg, x) a = a
  gather-At artifacts first (ok artifact, x) a = a

  end-At :
      (err : Option String) (artifacts : List ArtifactFile) (x : Exec) (next : Gathered)
      → At id job_id running x
      → At id job_id running next.1
      → At id job_id running (Collect.or_end err artifacts x next).1
  end-At none artifacts x next a h = h
  end-At (some msg) artifacts x next a h = a

  -- One source, taken or not.
  taken-At :
      (enabled : Bool) (taken skipped : Gathered)
      → At id job_id running taken.1
      → At id job_id running skipped.1
      → At id job_id running (if enabled then taken else skipped).1
  taken-At true taken skipped a h = a
  taken-At false taken skipped a h = h

  collect_sources-At :
      (sources : List (SourceEnv × BackupSource)) (artifacts : List ArtifactFile)
      (first : Option String) (x : Exec)
      → At id job_id running x
      → At id job_id running (collect_sources sources artifacts first x).1
  unfolding collect_sources
  collect_sources-At [] artifacts first x a = a
  collect_sources-At ((e, source) ∷ rest) artifacts first x a =
      let ran = gather artifacts first (execute_source e source x) in
      let g = if source.enabled then ran else ((artifacts, first), x) in
      let ga =
        taken-At source.enabled ran ((artifacts, first), x)
          (gather-At artifacts first (execute_source e source x) (execute_source-At e source x a))
          a in
      let next = collect_sources rest g.0.0 g.0.1 g.1 in
      let na = collect_sources-At rest g.0.0 g.0.1 g.1 ga in
      taken-At source.enabled (Collect.or_end e.cancelled artifacts x next) next
        (end-At e.cancelled artifacts x next a na) na

  stop-At :
      (err : Option String) (x : Exec) (next : Gathered)
      → At id job_id running x
      → At id job_id running next.1
      → At id job_id running (or_stop err x next).1
  stop-At none x next a h = h
  stop-At (some msg) x next a h = a

  try_run :
      (b : Bool) (x : Exec)
      → At id job_id running x
      → At id job_id running (try_write b (run_row x.run) x)
  unfolding try_write
  try_run true x a = record {
    trace =
        subst (λ s. Follows id job_id queued (run_row x.run ∷ x.writes) s) a.status
          (row x.run a.trace (subst (λ s. running ⟶ s) (sym a.status) continue) a.same_id
            a.same_job);
    status = a.status;
    same_id = a.same_id;
    same_job = a.same_job;
  }
  try_run false x a = a

  pub collect_artifacts-At :
      (e : CollectEnv) (x : Exec)
      → At id job_id running x
      → At id job_id running (collect_artifacts e x).1
  unfolding collect_artifacts
  collect_artifacts-At e x a =
      let run : BackupRun = record x.run { remote_workdir = some e.remote_workdir } in
      let x1 = try_write e.workdir_saved (run_row run) (record x { run = run }) in
      let a1 : At id job_id running x1 =
        try_run e.workdir_saved (record x { run = run })
          (record {
            trace = a.trace;
            status = a.status;
            same_id = a.same_id;
            same_job = a.same_job;
          }) in
      taken-At (names_node x.job.node_id) _ _
        (stop-At e.node_error x _ a (
          stop-At e.open_error x _ a
            (stop-At e.mkdir_error x1 _ a1 (collect_sources-At e.sources [] none x1 a1))))
        a

  try_uploaded :
      (b : Bool) (n : ℕ) (x : Exec)
      → At id job_id running x
      → At id job_id running (try_write b (uploaded_size n) x)
  unfolding try_write
  try_uploaded true n x a = record {
    trace = uploaded a.trace;
    status = a.status;
    same_id = a.same_id;
    same_job = a.same_job;
  }
  try_uploaded false n x a = a

  count_upload-At :
      (failure : Option String) (saved : Bool) (artifact : ArtifactFile) (x : Exec)
      → At id job_id running x
      → At id job_id running (count_upload failure saved artifact x)
  unfolding count_uploaded
  count_upload-At none saved artifact x a =
      try_uploaded saved _ _
        (record { trace = a.trace; status = a.status; same_id = a.same_id; same_job = a.same_job })
  count_upload-At (some msg) saved artifact x a = a

  upload_end-At :
      (err : Option String) (x : Exec) (next : Option String × Exec)
      → At id job_id running x
      → At id job_id running next.1
      → At id job_id running (Upload.or_end err x next).1
  upload_end-At none x next a h = h
  upload_end-At (some msg) x next a h = a

  pub upload_artifacts-At :
      (env : ArtifactFile → UploadEnv) (artifacts : List ArtifactFile) (first : Option String)
      (x : Exec)
      → At id job_id running x
      → At id job_id running (upload_artifacts env artifacts first x).1
  unfolding upload_artifacts
  upload_artifacts-At env [] first x a = a
  upload_artifacts-At env (artifact ∷ rest) first x a =
      let e = env artifact in
      upload_end-At e.cancelled x _ a (
        upload_artifacts-At env rest _ _
          (count_upload-At (upload_failure e) e.size_saved artifact x a))

  pub add_manifest-At :
      (e : RunEnv) (r : Result (String × String × ℕ)) (artifacts : List ArtifactFile) (x : Exec)
      → At id job_id running x
      → At id job_id running (add_manifest e r artifacts x).1
  unfolding add_manifest
  add_manifest-At e (fail msg) artifacts x a = record {
    trace = a.trace;
    status = a.status;
    same_id = a.same_id;
    same_job = a.same_job;
  }
  add_manifest-At e (ok (path, checksum, size)) artifacts x a =
      try_item e.manifest_item_saved _ _
        (record { trace = a.trace; status = a.status; same_id = a.same_id; same_job = a.same_job })
