-- ===== src/Backup/Upload/Complete.antt =====
-- What uploads without an error have count_upload.
use x_ui_aggr.Prelude.{
  ℕ, ◌+◌, ◌≡◌, refl, ◌∙◌, Bool, true, false, Option, none, some, List, [], ◌∷◌, All, arith,
}
use x_ui_aggr.Backup.Rows.{ArtifactFile}
use x_ui_aggr.Backup.Collect.{Exec, try_write, noted}
use x_ui_aggr.Backup.Collect.Complete.{sum_sizes}
use x_ui_aggr.Backup.Upload.{
  String, UploadEnv, upload_failure, count_upload, or_end, count_uploaded, upload_artifacts,
}

-- The artifact is opened and count_upload while the context lasts.
abbrev pub IsStored : UploadEnv → Type 0
IsStored e = (e.cancelled ≡ none) × (upload_failure e ≡ none)

-- The rows are as they were, but for the uploaded size of the run, which grows.
pub record Uploads (n : ℕ) (x y : Exec) : Type 0 where
  pub uploaded : y.run.uploaded_size_bytes ≡ x.run.uploaded_size_bytes + n
  pub total : y.run.total_size_bytes ≡ x.run.total_size_bytes
  pub job : y.job ≡ x.job

count_uploaded-Uploads :
    (saved : Bool) (a : ArtifactFile) (x : Exec) → Uploads a.size x (count_uploaded saved a x)
unfolding count_uploaded try_write
count_uploaded-Uploads true a x = record { uploaded = refl; total = refl; job = refl }
count_uploaded-Uploads false a x = record { uploaded = refl; total = refl; job = refl }

or_end-none :
    (err : Option String) (x : Exec) (next : Option String × Exec)
    → (or_end err x next).0 ≡ none
    → (err ≡ none) × (next.0 ≡ none) × (or_end err x next ≡ next)
or_end-none none x next h = (refl, h, refl)
or_end-none (some msg) x next h = absurd cc

noted-none :
    (first failure : Option String) → noted first failure ≡ none → (first ≡ none) × (failure ≡ none)
noted-none first none h = (h, refl)
noted-none none (some msg) h = absurd cc
noted-none (some m) (some msg) h = absurd cc

Uploads-trans : (m n : ℕ) (x y z : Exec) → Uploads m x y → Uploads n y z → Uploads (m + n) x z
Uploads-trans m n x y z a b = record {
  uploaded = omega (arith, a.uploaded, b.uploaded);
  total = b.total ∙ a.total;
  job = b.job ∙ a.job;
}

count_upload-Uploads :
    (failure : Option String) (saved : Bool) (a : ArtifactFile) (x : Exec)
    → failure ≡ none
    → Uploads a.size x (count_upload failure saved a x)
count_upload-Uploads none saved a x h = count_uploaded-Uploads saved a x
count_upload-Uploads (some msg) saved a x h = absurd cc

-- A loop without an error has count_upload every artifact, and counted its size.
pub upload_artifacts-Uploads :
    (env : ArtifactFile → UploadEnv) (artifacts : List ArtifactFile) (first : Option String)
    (x : Exec)
    → (upload_artifacts env artifacts first x).0 ≡ none
    → (first ≡ none)
      × All (λ a. IsStored (env a)) artifacts
      × Uploads (sum_sizes artifacts) x (upload_artifacts env artifacts first x).1
unfolding upload_artifacts
upload_artifacts-Uploads env [] first x h =
    (h, tt, record { uploaded = omega arith; total = refl; job = refl })
upload_artifacts-Uploads env (a ∷ rest) first x h =
    let e = env a in
    let failure = upload_failure e in
    let y = count_upload failure e.size_saved a x in
    let (c, h1, same) =
      or_end-none e.cancelled x (upload_artifacts env rest (noted first failure) y) h in
    let (h2, later, up) = upload_artifacts-Uploads env rest (noted first failure) y h1 in
    let (h3, h4) = noted-none first failure h2 in
    (
      h3,
      ((c, h4), later),
      rw same (
          Uploads-trans a.size (sum_sizes rest) x y _
            (count_upload-Uploads failure e.size_saved a x h4) up),
    )
