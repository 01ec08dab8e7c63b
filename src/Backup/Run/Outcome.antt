-- ===== src/Backup/Run/Outcome.antt =====
-- What the status of a run says about what it has stored.
use x_ui_aggr.Prelude.{
  ℕ, ◌+◌, ◌≡◌, refl, sym, ap, ◌∙◌, String, Option, none, some, List, [], ◌∷◌, length, length-append,
  arith,
}
use x_ui_aggr.Prelude.Results.{Result, ok, fail}
use x_ui_aggr.Backup.Types.{RunStatus, success, StepStatus}
use x_ui_aggr.Backup.Rows.{ArtifactFile, BackupRun}
use x_ui_aggr.Backup.Collect.{Exec, run_row, job_row, item_row, try_write, Gathered}
use x_ui_aggr.Backup.Collect.Complete.{sum_sizes, sum_sizes-append, try_write-rows}
use x_ui_aggr.Backup.Upload.{upload_artifacts}
use x_ui_aggr.Backup.Upload.Complete.{upload_artifacts-Uploads}
use x_ui_aggr.Backup.Finish.{
  RunEnv, derive_final_status, finish_run_with_error, add_manifest, save_rows, settled_run, settle,
  manifest_item, manifest_artifact,
}
use x_ui_aggr.Backup.Retention.{apply_retention}
use x_ui_aggr.Backup.Run.{upload_and_settle, after_collect}

-- The files of the manifest, none or one, and their size.
abbrev pub manifest_files : Result (String × String × ℕ) → ℕ
manifest_files (fail msg) = 0
manifest_files (ok m) = 1

abbrev pub manifest_size : Result (String × String × ℕ) → ℕ
manifest_size (fail msg) = 0
manifest_size (ok (path, checksum, size)) = size

derive-success :
    (exec upload cancel : Option String)
    → derive_final_status exec upload cancel ≡ success
    → (exec ≡ none) × (upload ≡ none) × (cancel ≡ none)
unfolding derive_final_status
derive-success none none none h = (refl, refl, refl)
derive-success (some e) none none h = absurd cc
derive-success none (some u) none h = absurd cc
derive-success (some e) (some u) none h = absurd cc
derive-success exec upload (some c) h = absurd cc

pub save_rows-run : (e : RunEnv) (x : Exec) → (save_rows e x).run ≡ x.run
unfolding save_rows
save_rows-run e x =
    (try_write-rows e.job_saved (job_row x.job) (try_write e.run_saved (run_row x.run) x)).0
    ∙ (try_write-rows e.run_saved (run_row x.run) x).0

pub settle-run :
    (e : RunEnv) (artifacts : List ArtifactFile) (exec upload cleanup : Option String) (x : Exec)
    → (settle e artifacts exec upload cleanup x).run
      ≡ settled_run e artifacts exec upload cleanup x.run
unfolding settle
settle-run e artifacts exec upload cleanup x = save_rows-run e _

pub finish-status :
    (e : RunEnv) (excerpt : Option String) (summary : String) (err : Option String) (x : Exec)
    → (finish_run_with_error e excerpt summary err x).1.run.status ≡ RunStatus.failed
unfolding finish_run_with_error
finish-status e excerpt summary err x = ap (λ (r : BackupRun). r.status) (save_rows-run e _)

add_manifest-sizes :
    (e : RunEnv) (r : Result (String × String × ℕ)) (artifacts : List ArtifactFile) (x : Exec)
    → let m = add_manifest e r artifacts x in
      (length m.0 ≡ length artifacts + manifest_files r)
      × (sum_sizes m.0 ≡ sum_sizes artifacts + manifest_size r)
      × (m.1.run.total_size_bytes ≡ x.run.total_size_bytes)
      × (m.1.run.uploaded_size_bytes ≡ x.run.uploaded_size_bytes)
unfolding add_manifest
add_manifest-sizes e (fail msg) artifacts x = (omega arith, omega arith, refl, refl)
add_manifest-sizes e (ok (path, checksum, size)) artifacts x =
    let a = manifest_artifact e path checksum size in
    let (same, job) =
      try_write-rows e.manifest_item_saved (item_row (manifest_item e checksum size x.run))
        (record x { run = record x.run { checksum_status = StepStatus.done } }) in
    (
      omega (arith, length-append artifacts (a ∷ [])),
      sum_sizes-append artifacts a,
      ap (λ (r : BackupRun). r.total_size_bytes) same,
      ap (λ (r : BackupRun). r.uploaded_size_bytes) same,
    )

pub not_failed : success ≡ RunStatus.failed → ⊥
not_failed h = cc

-- What the end of a run says where its status is success.
pub record Stored (e : RunEnv) (artifacts : List ArtifactFile) (exec : Option String) (x : Exec)
    (run : BackupRun) : Type 0 where
  pub collected : exec ≡ none
  pub files : run.file_count ≡ length artifacts + manifest_files e.manifest
  pub uploaded :
      run.uploaded_size_bytes
      ≡ x.run.uploaded_size_bytes + (sum_sizes artifacts + manifest_size e.manifest)
  pub total : run.total_size_bytes ≡ x.run.total_size_bytes

upload_and_settle-Stored :
    (e : RunEnv) (artifacts : List ArtifactFile) (exec : Option String) (x : Exec)
    → (upload_and_settle e artifacts exec x).1.run.status ≡ success
    → Stored e artifacts exec x (upload_and_settle e artifacts exec x).1.run
unfolding upload_and_settle
upload_and_settle-Stored e artifacts exec x h =
    let m = add_manifest e e.manifest artifacts x in
    let x1 : Exec = record m.1 { run = record m.1.run { remote_path = some e.remote_path } } in
    let up = upload_artifacts e.uploads m.0 none x1 in
    let cleanup = (apply_retention e.retention x.job.retention_days).1 in
    let row = settle-run e m.0 exec up.0 cleanup up.1 in
    let status = ap (λ (r : BackupRun). r.status) row in
    let (c, u, k) = derive-success exec up.0 e.cancelled (sym status ∙ h) in
    let (n, all, grown) = upload_artifacts-Uploads e.uploads m.0 none x1 u in
    let (files, sizes, total, uploaded) = add_manifest-sizes e e.manifest artifacts x in
    record {
      collected = c;
      files = ap (λ (r : BackupRun). r.file_count) row ∙ files;
      uploaded =
          ap (λ (r : BackupRun). r.uploaded_size_bytes) row
          ∙ omega (arith, grown.uploaded, sizes, uploaded);
      total = ap (λ (r : BackupRun). r.total_size_bytes) row ∙ grown.total ∙ total;
    }

pub after_collect-Stored :
    (e : RunEnv) (g : Gathered)
    → (after_collect e g).1.run.status ≡ success
    → Stored e g.0.0 g.0.1 g.1 (after_collect e g).1.run
unfolding after_collect
after_collect-Stored e (([], some msg), x) h = absurd (not_failed (sym h ∙ finish-status e _ _ _ x))
after_collect-Stored e (([], none), x) h = upload_and_settle-Stored e [] none x h
after_collect-Stored e ((a ∷ artifacts, err), x) h =
    upload_and_settle-Stored e (a ∷ artifacts) err x h
