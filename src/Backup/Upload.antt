-- ===== src/Backup/Upload.antt =====
-- uploadArtifacts and writeChecksumsManifest of backend/internal/services/backup/runner.go.
pub mod Complete
use Prim.Native.String
use x_ui_aggr.Prelude.{ℕ, ◌+◌, String, Bool, Option, none, some, List, [], ◌∷◌, map}
use x_ui_aggr.Prelude.Strings.{join}
use x_ui_aggr.Backup.Rows.{ArtifactFile, BackupRun}
use x_ui_aggr.Backup.Collect.{Exec, uploaded_size, try_write, noted}

-- What happens to an artifact: ctx.Err() where the loop comes to it, the errors of os.Open and of
-- the uploader, and whether the column is updated.
pub record UploadEnv : Type 0 where
  pub cancelled : Option String
  pub open_error : Option String
  pub upload_error : Option String
  pub size_saved : Bool

unfoldable pub count_uploaded : Bool → ArtifactFile → Exec → Exec
count_uploaded saved artifact x =
    let size = x.run.uploaded_size_bytes + artifact.size in
    let grown : Exec = record x { run = record x.run { uploaded_size_bytes = size } } in
    try_write saved (uploaded_size size) grown

-- The error of opening the file, or of the upload.
abbrev pub upload_failure : UploadEnv → Option String
upload_failure e = elim e.open_error [ some msg ↦ some msg | none ↦ e.upload_error ]

abbrev pub count_upload : Option String → Bool → ArtifactFile → Exec → Exec
count_upload none saved artifact x = count_uploaded saved artifact x
count_upload (some msg) saved artifact x = x

abbrev pub or_end : Option String → Exec → Option String × Exec → Option String × Exec
or_end none x next = next
or_end (some msg) x next = (some msg, x)

-- The loop over the artifacts with the first error; an error of the context ends it and takes the
-- place of the first.
unfoldable pub upload_artifacts :
    (ArtifactFile → UploadEnv) → List ArtifactFile → Option String → Exec → Option String × Exec
upload_artifacts env [] first x = (first, x)
upload_artifacts env (artifact ∷ rest) first x =
    let e = env artifact in
    let failure = upload_failure e in
    or_end e.cancelled x (
      upload_artifacts env rest (noted first failure)
        (count_upload failure e.size_saved artifact x))

-- What the file SHA256SUMS holds.
unfoldable pub manifest_content : List ArtifactFile → String
manifest_content artifacts =
    String.◌++◌
      (join
        (map (λ (a : ArtifactFile). String.◌++◌ a.checksum (String.◌++◌ "  " a.object_name))
          artifacts)
        "\n")
      "\n"
