-- ===== src/Backup/Run/Whole.antt =====
-- A run that ends as a success has backed up and stored all that its job asks for.
use x_ui_aggr.Prelude.{
  ℕ, ◌+◌, ◌≡◌, refl, sym, ap, ◌∙◌, subst, String, Bool, true, false, Option, none, some, [], arith,
  if◌then◌else◌, ◌∷◌,
}
use x_ui_aggr.Backup.Types.{success}
use x_ui_aggr.Backup.Rows.{BackupRun}
use x_ui_aggr.Backup.Collect.{
  Exec, run_row, try_write, CollectEnv, Gathered, or_stop, collect_artifacts, collect_sources,
  names_node,
}
use x_ui_aggr.Backup.Collect.Complete.{
  count_enabled, sum_sizes, collect_sources-Adds, try_write-rows,
}
use x_ui_aggr.Backup.Finish.{RunEnv}
use x_ui_aggr.Backup.Run.{
  execute_loaded, ok, fail, Result, execute_in, started_run, start_run, or_quit, running, length,
  after_collect, or_finish, run_backup,
}
use x_ui_aggr.Backup.Run.Outcome.{
  manifest_files, manifest_size, finish-status, not_failed, after_collect-Stored,
}

or_stop-none :
    (err : Option String) (x : Exec) (next : Gathered)
    → (or_stop err x next).0.1 ≡ none
    → or_stop err x next ≡ next
or_stop-none none x next h = refl
or_stop-none (some msg) x next h = absurd cc

node-none :
    (b : Bool) (msg : String) (x : Exec) (next : Gathered)
    → (if b then next else (([], some msg), x)).0.1 ≡ none
    → (if b then next else (([], some msg), x)) ≡ next
node-none true msg x next h = refl
node-none false msg x next h = absurd cc

-- Without an error each enabled source has given an artifact, and their sizes make the total.
record Collected (n : ℕ) (x : Exec) (g : Gathered) : Type 0 where
  pub files : sum_sizes g.0.0 + x.run.total_size_bytes ≡ g.1.run.total_size_bytes
  pub number : length g.0.0 ≡ n
  pub uploaded : g.1.run.uploaded_size_bytes ≡ x.run.uploaded_size_bytes

collect_artifacts-Collected :
    (e : CollectEnv) (x : Exec)
    → (collect_artifacts e x).0.1 ≡ none
    → Collected (count_enabled e.sources) x (collect_artifacts e x)
unfolding collect_artifacts
collect_artifacts-Collected e x h =
    let run : BackupRun = record x.run { remote_workdir = some e.remote_workdir } in
    let x1 = try_write e.workdir_saved (run_row run) (record x { run = run }) in
    let g = collect_sources e.sources [] none x1 in
    let mkdir = or_stop e.mkdir_error x1 g in
    let opened = or_stop e.open_error x mkdir in
    let noded = or_stop e.node_error x opened in
    let e1 = node-none (names_node x.job.node_id) _ x noded h in
    let e2 = or_stop-none e.node_error x opened (ap (λ (g : Gathered). g.0.1) (sym e1) ∙ h) in
    let e3 = or_stop-none e.open_error x mkdir (ap (λ (g : Gathered). g.0.1) (sym (e1 ∙ e2)) ∙ h) in
    let e4 =
      or_stop-none e.mkdir_error x1 g (ap (λ (g : Gathered). g.0.1) (sym (e1 ∙ e2 ∙ e3)) ∙ h) in
    let (same, job) = try_write-rows e.workdir_saved (run_row run) (record x { run = run }) in
    let all = e1 ∙ e2 ∙ e3 ∙ e4 in
    let (n, adds) =
      collect_sources-Adds e.sources [] none x1 (ap (λ (g : Gathered). g.0.1) (sym all) ∙ h) in
    let total = ap (λ (r : BackupRun). r.total_size_bytes) same in
    let uploaded = ap (λ (r : BackupRun). r.uploaded_size_bytes) same in
    subst (λ k. Collected (count_enabled e.sources) x k) (sym all)
      (record {
        files = omega (arith, adds.total, total);
        number = omega (arith, adds.files);
        uploaded = adds.uploaded ∙ uploaded;
      })

or_finish-success :
    (e : RunEnv) (err excerpt : Option String) (summary : String) (x : Exec)
    (next : Option String × Exec)
    → (or_finish e err excerpt summary x next).1.run.status ≡ success
    → or_finish e err excerpt summary x next ≡ next
or_finish-success e none excerpt summary x next h = refl
or_finish-success e (some msg) excerpt summary x next h =
    absurd (not_failed (sym h ∙ finish-status e excerpt summary (some msg) x))

-- The sizes and the number of files that a run of these sources has, where all is stored.
abbrev pub IsWhole : RunEnv → BackupRun → Type 0
IsWhole e run =
    (run.file_count ≡ count_enabled e.collect.sources + manifest_files e.manifest)
    × (run.uploaded_size_bytes ≡ run.total_size_bytes + manifest_size e.manifest)

abbrev Ends : RunEnv → Exec → Option String × Exec → Type 0
Ends e x r =
    x.run.total_size_bytes ≡ 0
    → x.run.uploaded_size_bytes ≡ 0
    → r.1.run.status ≡ success
    → IsWhole e r.1.run

run_backup-Ends : (e : RunEnv) (x : Exec) → Ends e x (run_backup e x)
unfolding run_backup
run_backup-Ends e x t0 u0 h =
    let g = collect_artifacts e.collect x in
    let last = after_collect e g in
    let tested = or_finish e e.test_error (some e.excerpt) "storage test failed" x last in
    let e1 =
      or_finish-success e e.uploader_error (some e.excerpt) "storage adapter initialization failed"
        x tested h in
    let status = λ (r : Option String × Exec). r.1.run.status in
    let h1 = ap status (sym e1) ∙ h in
    let e2 = or_finish-success e e.test_error (some e.excerpt) "storage test failed" x last h1 in
    let s = after_collect-Stored e g (ap status (sym e2) ∙ h1) in
    let c = collect_artifacts-Collected e.collect x s.collected in
    subst (λ (r : Option String × Exec). IsWhole e r.1.run) (sym (e1 ∙ e2))
      (
        omega (arith, s.files, c.number),
        omega (arith, s.uploaded, s.total, c.files, c.uploaded, t0, u0),
      )

not_running : success ≡ running → ⊥
not_running h = cc

or_quit-success :
    (err : Option String) (x : Exec) (next : Option String × Exec)
    → x.run.status ≡ running
    → (or_quit err x next).1.run.status ≡ success
    → or_quit err x next ≡ next
or_quit-success none x next r h = refl
or_quit-success (some msg) x next r h = absurd (not_running (sym h ∙ r))

start_run-Ends : (e : RunEnv) (workdir : String) (x : Exec) → Ends e x (start_run e workdir x)
unfolding start_run
start_run-Ends e workdir x t0 u0 h =
    let x1 : Exec = record x { run = started_run e workdir x.run } in
    let x2 : Exec = record x1 { writes = run_row x1.run ∷ x1.writes } in
    let e1 = or_quit-success e.start_error x1 (run_backup e x2) refl h in
    let status = λ (r : Option String × Exec). r.1.run.status in
    subst (λ (r : Option String × Exec). IsWhole e r.1.run) (sym e1)
      (run_backup-Ends e x2 t0 u0 (ap status (sym e1) ∙ h))

execute_in-Ends : (e : RunEnv) (r : Result String) (x : Exec) → Ends e x (execute_in e r x)
unfolding execute_in
execute_in-Ends e (fail msg) x t0 u0 h =
    absurd (not_failed (sym h ∙ finish-status e none "failed to create local workdir" (some msg) x))
execute_in-Ends e (ok workdir) x t0 u0 h =
    let e1 =
      or_finish-success e e.logger_error none "failed to create run logger" x
        (start_run e workdir x) h in
    let status = λ (r : Option String × Exec). r.1.run.status in
    subst (λ (r : Option String × Exec). IsWhole e r.1.run) (sym e1)
      (start_run-Ends e workdir x t0 u0 (ap status (sym e1) ∙ h))

-- A new run, which has no sizes yet, is whole where it ends as a success: it has one file for every
-- enabled source, and the file of the checksums where that could be written, and the bytes it has
-- uploaded are the sizes of all of them.
pub execute_loaded-IsWhole :
    (e : RunEnv) (x : Exec)
    → x.run.total_size_bytes ≡ 0
    → x.run.uploaded_size_bytes ≡ 0
    → (execute_loaded e x).1.run.status ≡ success
    → IsWhole e (execute_loaded e x).1.run
unfolding execute_loaded
execute_loaded-IsWhole e x t0 u0 h = execute_in-Ends e e.workdir x t0 u0 h
