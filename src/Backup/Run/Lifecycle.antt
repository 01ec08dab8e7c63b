-- ===== src/Backup/Run/Lifecycle.antt =====
-- The abstract view of a run: the diagram of its status. It forgets all columns but the status, and
-- all writes but those of the row of the run.
use x_ui_aggr.Prelude.{ℕ, ◌≡◌, String, Bool, true, false, Option, none, some, List, [], ◌∷◌}
use x_ui_aggr.Prelude.Results.{Result, ok, fail}
use x_ui_aggr.Backup.Types.{RunStatus, queued, running, success, partial_success, cancelled}
use x_ui_aggr.Backup.Rows.{ArtifactFile, BackupJob, BackupRun, BackupSource}
use x_ui_aggr.Backup.Collect.{
  BackupRunItem, Exec, Write, run_row, job_row, item_row, total_size, uploaded_size, try_write,
  Script, SourceEnv, fail_run_item, or_fail_item, or_return, with_value, finish_source, measure,
  run_script, execute_source,
}

-- The edges: a run starts or fails early, and a running one ends in one of the four ways.
infix 40 ◌⟶◌
pub data ◌⟶◌ : RunStatus → RunStatus → Type 0 where
  begin : queued ⟶ running
  fail_early : queued ⟶ RunStatus.failed
  continue : running ⟶ running
  succeed : running ⟶ success
  fall_short : running ⟶ partial_success
  give_up : running ⟶ RunStatus.failed
  stop : running ⟶ cancelled

-- The writes of a run, the last first, follow the edges from one status to another. Each row of the
-- run that is written keeps its identifier and its job.
pub data Follows (id job_id : ℕ) (s : RunStatus) : List Write → RunStatus → Type 0 where
  here : Follows id job_id s [] s
  row :
      {t : RunStatus} {ws : List Write} (r : BackupRun)
      → Follows id job_id s ws t
      → t ⟶ r.status
      → r.id ≡ id
      → r.job_id ≡ job_id
      → Follows id job_id s (run_row r ∷ ws) r.status
  job :
      {t : RunStatus} {ws : List Write} {j : BackupJob}
      → Follows id job_id s ws t
      → Follows id job_id s (job_row j ∷ ws) t
  item :
      {t : RunStatus} {ws : List Write} {i : BackupRunItem}
      → Follows id job_id s ws t
      → Follows id job_id s (item_row i ∷ ws) t
  total :
      {t : RunStatus} {ws : List Write} {n : ℕ}
      → Follows id job_id s ws t
      → Follows id job_id s (total_size n ∷ ws) t
  uploaded :
      {t : RunStatus} {ws : List Write} {n : ℕ}
      → Follows id job_id s ws t
      → Follows id job_id s (uploaded_size n ∷ ws) t

-- Where a run stands: its writes lead to the status that it holds.
pub record At (id job_id : ℕ) (t : RunStatus) (x : Exec) : Type 0 where
  pub trace : Follows id job_id queued x.writes t
  pub status : x.run.status ≡ t
  pub same_id : x.run.id ≡ id
  pub same_job : x.run.job_id ≡ job_id

module _ {id job_id : ℕ} {t : RunStatus} where
  pub try_item :
      (b : Bool) (i : BackupRunItem) (x : Exec)
      → At id job_id t x
      → At id job_id t (try_write b (item_row i) x)
  unfolding try_write
  try_item true i x a = record {
    trace = item a.trace;
    status = a.status;
    same_id = a.same_id;
    same_job = a.same_job;
  }
  try_item false i x a = a

  fail_run_item-At :
      (e : SourceEnv) (i : BackupRunItem) (msg : String) (x : Exec)
      → At id job_id t x
      → At id job_id t (fail_run_item e i msg x).1
  unfolding fail_run_item
  fail_run_item-At e i msg x a = try_item e.fail_saved _ x a

  or_fail_item-At :
      (e : SourceEnv) (i : BackupRunItem) (context : String) (err : Option String) (x : Exec)
      (next : Result ArtifactFile × Exec)
      → At id job_id t x
      → At id job_id t next.1
      → At id job_id t (or_fail_item e i context err x next).1
  or_fail_item-At e i context none x next a h = h
  or_fail_item-At e i context (some msg) x next a h = fail_run_item-At e i _ x a

  with_value-At {ℓ} :
      {A : Type ℓ} (e : SourceEnv) (i : BackupRunItem) (context : String) (r : Result A) (x : Exec)
      (next : A → Result ArtifactFile × Exec)
      → At id job_id t x
      → ((v : A) → At id job_id t (next v).1)
      → At id job_id t (with_value e i context r x next).1
  with_value-At e i context (fail msg) x next a h = fail_run_item-At e i _ x a
  with_value-At e i context (ok v) x next a h = h v

  or_return-At :
      (err : Option String) (x : Exec) (next : Result ArtifactFile × Exec)
      → At id job_id t x
      → At id job_id t next.1
      → At id job_id t (or_return err x next).1
  or_return-At none x next a h = h
  or_return-At (some msg) x next a h = a

  try_total :
      (b : Bool) (n : ℕ) (x : Exec)
      → At id job_id t x
      → At id job_id t (try_write b (total_size n) x)
  unfolding try_write
  try_total true n x a = record {
    trace = total a.trace;
    status = a.status;
    same_id = a.same_id;
    same_job = a.same_job;
  }
  try_total false n x a = a

  finish_source-At :
      (e : SourceEnv) (i : BackupRunItem) (script : Script) (size : ℕ) (checksum : String)
      (x : Exec)
      → At id job_id t x
      → At id job_id t (finish_source e i script size checksum x).1
  unfolding finish_source
  finish_source-At e i script size checksum x a = or_return-At e.save_error x _ a (
      try_total e.total_saved _ _ (record {
        trace = item a.trace;
        status = a.status;
        same_id = a.same_id;
        same_job = a.same_job;
      }))

  run_script-At :
      (e : SourceEnv) (i : BackupRunItem) (script : Script) (x : Exec)
      → At id job_id t x
      → At id job_id t (run_script e i script x).1
  unfolding run_script measure
  run_script-At e i script x a = or_fail_item-At e i _ e.upload_error x _ a (
      or_fail_item-At e i _ _ x _ a (
        or_fail_item-At e i _ e.download_error x _ a (
          with_value-At e i _ e.size x _ a (λ size.
            with_value-At e i _ e.checksum x _ a
              (λ checksum. finish_source-At e i script size checksum x a)))))

  pub execute_source-At :
      (e : SourceEnv) (source : BackupSource) (x : Exec)
      → At id job_id t x
      → At id job_id t (execute_source e source x).1
  unfolding execute_source
  execute_source-At e source x a =
      let created : At id job_id t (record x { writes = _ ∷ x.writes }) = record {
        trace = item a.trace;
        status = a.status;
        same_id = a.same_id;
        same_job = a.same_job;
      } in
      or_return-At e.create_error x _ a
        (with_value-At e _ _ e.script _ _ created (λ script. run_script-At e _ script _ created))
