-- ===== src/Backup/Collect/Complete.antt =====
-- What a loop over the sources without an error has gathered.
use native.Mathlib.Nat.{zero-add}
use x_ui_aggr.Prelude.{
  ℕ, ◌+◌, ◌≡◌, refl, sym, ap, ◌∙◌, subst, String, Bool, true, false, Option, none, some, List, [],
  ◌∷◌, ◌++◌, length, length-append, if◌then◌else◌, Bool-cases, inl, inr, arith,
}
use x_ui_aggr.Prelude.Results.{Result, ok, fail}
use x_ui_aggr.Backup.Rows.{ArtifactFile, BackupSource}
use x_ui_aggr.Backup.Collect.{
  BackupRunItem, Write, Exec, try_write, Script, SourceEnv, fail_run_item, or_fail_item, or_return,
  with_value, finish_source, measure, run_script, execute_source, artifact_of, Gathered, gather,
  or_end, collect_sources,
}

pub try_write-rows :
    (b : Bool) (w : Write) (x : Exec)
    → ((try_write b w x).run ≡ x.run) × ((try_write b w x).job ≡ x.job)
unfolding try_write
try_write-rows true w x = (refl, refl)
try_write-rows false w x = (refl, refl)

-- A call that gives an artifact leaves the rows of the run and the job as they are, but for the
-- total size of the run, which grows by the size of the artifact.
abbrev pub Grows : Exec → Result ArtifactFile × Exec → Type 0
Grows x (fail msg, y) = Unit
Grows x (ok a, y) =
    (y.run.total_size_bytes ≡ x.run.total_size_bytes + a.size)
    × (y.run.uploaded_size_bytes ≡ x.run.uploaded_size_bytes)
    × (y.job ≡ x.job)

or_return-Grows :
    (err : Option String) (x y : Exec) (next : Result ArtifactFile × Exec)
    → Grows x next
    → Grows x (or_return err y next)
or_return-Grows none x y next h = h
or_return-Grows (some msg) x y next h = tt

fail_run_item-Grows :
    (e : SourceEnv) (item : BackupRunItem) (msg : String) (x y : Exec)
    → Grows x (fail_run_item e item msg y)
unfolding fail_run_item
fail_run_item-Grows e item msg x y = tt

or_fail_item-Grows :
    (e : SourceEnv) (item : BackupRunItem) (context : String) (err : Option String) (x y : Exec)
    (next : Result ArtifactFile × Exec)
    → Grows x next
    → Grows x (or_fail_item e item context err y next)
or_fail_item-Grows e item context none x y next h = h
or_fail_item-Grows e item context (some msg) x y next h = fail_run_item-Grows e item _ x y

with_value-Grows {ℓ} :
    {A : Type ℓ} (e : SourceEnv) (item : BackupRunItem) (context : String) (r : Result A)
    (x y : Exec) (next : A → Result ArtifactFile × Exec)
    → ((a : A) → Grows x (next a))
    → Grows x (with_value e item context r y next)
with_value-Grows e item context (fail msg) x y next h = fail_run_item-Grows e item _ x y
with_value-Grows e item context (ok a) x y next h = h a

try_write-Grows :
    (b : Bool) (w : Write) (x y : Exec) (a : ArtifactFile)
    → Grows x (ok a, y)
    → Grows x (ok a, try_write b w y)
unfolding try_write
try_write-Grows true w x y a h = h
try_write-Grows false w x y a h = h

finish_source-Grows :
    (e : SourceEnv) (item : BackupRunItem) (script : Script) (size : ℕ) (checksum : String)
    (x : Exec)
    → Grows x (finish_source e item script size checksum x)
unfolding finish_source
finish_source-Grows e item script size checksum x = or_return-Grows e.save_error x x _ (
    try_write-Grows e.total_saved _ x _ (artifact_of e item script size checksum)
      (refl, refl, refl))

run_script-Grows :
    (e : SourceEnv) (item : BackupRunItem) (script : Script) (x : Exec)
    → Grows x (run_script e item script x)
unfolding run_script measure
run_script-Grows e item script x = or_fail_item-Grows e item _ e.upload_error x x _ (
    or_fail_item-Grows e item _ _ x x _ (
      or_fail_item-Grows e item _ e.download_error x x _ (
        with_value-Grows e item _ e.size x x _ (λ size.
          with_value-Grows e item _ e.checksum x x _
            (λ checksum. finish_source-Grows e item script size checksum x)))))

execute_source-Grows :
    (e : SourceEnv) (source : BackupSource) (x : Exec) → Grows x (execute_source e source x)
unfolding execute_source
execute_source-Grows e source x =
    or_return-Grows e.create_error x x _
      (with_value-Grows e _ _ e.script x _ _ (λ script. run_script-Grows e _ script _))

abbrev pub count_enabled : List (SourceEnv × BackupSource) → ℕ
count_enabled [] = 0
count_enabled ((e, source) ∷ rest) = (if source.enabled then 1 else 0) + count_enabled rest

abbrev pub sum_sizes : List ArtifactFile → ℕ
sum_sizes [] = 0
sum_sizes (a ∷ rest) = a.size + sum_sizes rest

pub sum_sizes-append :
    (xs : List ArtifactFile) (a : ArtifactFile) → sum_sizes (xs ++ a ∷ []) ≡ sum_sizes xs + a.size
sum_sizes-append [] a = omega arith
sum_sizes-append (x ∷ xs) a = omega (arith, sum_sizes-append xs a)

-- The artifacts grow by one for each of a number of sources, and the total by their sizes.
pub record Adds (n : ℕ) (artifacts : List ArtifactFile) (x : Exec) (g : Gathered) : Type 0 where
  pub files : length g.0.0 ≡ length artifacts + n
  pub total :
      g.1.run.total_size_bytes + sum_sizes artifacts ≡ x.run.total_size_bytes + sum_sizes g.0.0
  pub uploaded : g.1.run.uploaded_size_bytes ≡ x.run.uploaded_size_bytes
  pub job : g.1.job ≡ x.job

Adds-trans :
    (m n : ℕ) (artifacts : List ArtifactFile) (x : Exec) (g k : Gathered)
    → Adds m artifacts x g
    → Adds n g.0.0 g.1 k
    → Adds (m + n) artifacts x k
Adds-trans m n artifacts x g k a b = record {
  files = omega (arith, a.files, b.files);
  total = omega (arith, a.total, b.total);
  uploaded = b.uploaded ∙ a.uploaded;
  job = b.job ∙ a.job;
}

gather-Adds :
    (artifacts : List ArtifactFile) (first : Option String) (x : Exec)
    (r : Result ArtifactFile × Exec)
    → Grows x r
    → (gather artifacts first r).0.1 ≡ none
    → (first ≡ none) × Adds 1 artifacts x (gather artifacts first r)
gather-Adds artifacts none x (fail msg, y) g h = absurd cc
gather-Adds artifacts (some m) x (fail msg, y) g h = absurd cc
gather-Adds artifacts first x (ok a, y) (t, u, j) h = (
  h,
  record {
    files = omega (arith, length-append artifacts (a ∷ []));
    total = omega (arith, sum_sizes-append artifacts a, t);
    uploaded = u;
    job = j;
  },
)

or_end-none :
    (err : Option String) (artifacts : List ArtifactFile) (x : Exec) (next : Gathered)
    → (or_end err artifacts x next).0.1 ≡ none
    → (next.0.1 ≡ none) × (or_end err artifacts x next ≡ next)
or_end-none none artifacts x next h = (h, refl)
or_end-none (some msg) artifacts x next h = absurd cc

abbrev looped :
    Bool
    → SourceEnv
    → BackupSource
    → List (SourceEnv × BackupSource)
    → List ArtifactFile
    → Option String
    → Exec
    → Gathered
looped enabled e source rest artifacts first x =
    let g =
      if enabled
      then gather artifacts first (execute_source e source x)
      else ((artifacts, first), x) in
    let next = collect_sources rest g.0.0 g.0.1 g.1 in
    if enabled then or_end e.cancelled artifacts x next else next

collect_sources-on :
    (e : SourceEnv) (source : BackupSource) (rest : List (SourceEnv × BackupSource))
    (artifacts : List ArtifactFile) (first : Option String) (x : Exec)
    → source.enabled ≡ true
    → collect_sources ((e, source) ∷ rest) artifacts first x
      ≡ looped true e source rest artifacts first x
unfolding collect_sources
collect_sources-on e source rest artifacts first x on =
    ap (λ b. looped b e source rest artifacts first x) on

-- The loop ends without an error only where it was without one before, and then each enabled source
-- has given an artifact.
pub collect_sources-Adds :
    (sources : List (SourceEnv × BackupSource)) (artifacts : List ArtifactFile)
    (first : Option String) (x : Exec)
    → (collect_sources sources artifacts first x).0.1 ≡ none
    → (first ≡ none)
      × Adds (count_enabled sources) artifacts x (collect_sources sources artifacts first x)
unfolding collect_sources
collect_sources-Adds [] artifacts first x h =
    (h, record { files = omega arith; total = omega arith; uploaded = refl; job = refl })
collect_sources-Adds ((e, source) ∷ rest) artifacts first x h = elim (Bool-cases source.enabled) [
  | inr off ↦
      rw (off, zero-add (count_enabled rest))
        (collect_sources-Adds rest artifacts first x (rw off at h))
  | inl on ↦
      let g = gather artifacts first (execute_source e source x) in
      let next = collect_sources rest g.0.0 g.0.1 g.1 in
      let taken = collect_sources-on e source rest artifacts first x on in
      let (h1, same) = or_end-none e.cancelled artifacts x next (rw taken at h) in
      let (h2, later) = collect_sources-Adds rest g.0.0 g.0.1 g.1 h1 in
      let (h3, now) =
        gather-Adds artifacts first x (execute_source e source x) (execute_source-Grows e source x)
          h2 in
      (
        h3,
        subst (λ k. Adds (count_enabled ((e, source) ∷ rest)) artifacts x k) (sym (taken ∙ same))
            (subst (λ n. Adds (n + count_enabled rest) artifacts x next)
              (sym (ap (λ b. if b then 1 else 0) on))
              (Adds-trans 1 (count_enabled rest) artifacts x g next now later)),
      )
]
