-- ===== src/Backup/Run/Blocked.antt =====
-- A run whose end is not written blocks its job.
use x_ui_aggr.Prelude.{
  ℕ, ◌≡◌, refl, sym, ap, ◌∙◌, subst, String, true, false, ◌||◌, Option, some, List, [], ◌∷◌, ◌==◌,
  ==_refl, or_right, if◌then◌else◌, any, Bool-cases, inl, inr, if_true, if_false,
}
use x_ui_aggr.Prelude.Results.{Result, ok, fail}
use x_ui_aggr.Backup.Types.{queued, Trigger}
use x_ui_aggr.Backup.Rows.{BackupJob, BackupRun, State}
use x_ui_aggr.Backup.Queue.{
  is_active, is_active_run, is_job_running, get_job, trigger_run, TriggerEnv, new_run, enqueue,
}
use x_ui_aggr.Backup.Collect.{Exec}
use x_ui_aggr.Backup.Finish.{RunEnv}
use x_ui_aggr.Backup.Run.{run_of, load_run_context, execute_run, apply_writes}
use x_ui_aggr.Backup.Run.Table.{held}

some-injective : {a b : BackupRun} → some a ≡ some b → a ≡ b
some-injective h = cc

active_there :
    (id job_id : ℕ) (runs : List BackupRun) (r : BackupRun)
    → run_of id runs ≡ some r
    → r.job_id ≡ job_id
    → is_active r.status ≡ true
    → any (is_active_run job_id) runs ≡ true
unfolding run_of
active_there id job_id [] r h j a = absurd cc
active_there id job_id (x ∷ xs) r h j a = elim (Bool-cases (x.id == id)) [
  | inl y ↦
      let e : x ≡ r = some-injective (sym (if_true (x.id == id) _ _ y) ∙ h) in
      subst (λ q. (is_active_run job_id q || any (is_active_run job_id) xs) ≡ true) (sym e)
        (rw (a, j, ==_refl job_id) refl)
  | inr n ↦
      or_right (is_active_run job_id x) _
        (active_there id job_id xs r (sym (if_false (x.id == id) _ _ n) ∙ h) j a)
]

abbrev triggered : TriggerEnv → ℕ → BackupRun → State → Result BackupJob → Result BackupRun × State
triggered e job_id run st (fail msg) = (fail msg, st)
triggered e job_id run st (ok job) =
    if is_job_running e.count_answers job_id st.runs
    then (fail "job already has a queued or running backup", st)
    else enqueue e.create_error run st

refuses_trigger :
    (te : TriggerEnv) (org_id job_id : ℕ) (trigger : Trigger) (by : Option ℕ) (st : State)
    (job : BackupJob)
    → get_job te.job_error org_id job_id st.jobs ≡ ok job
    → te.count_answers ≡ true
    → any (is_active_run job_id) st.runs ≡ true
    → trigger_run te org_id job_id trigger by st
      ≡ (fail "job already has a queued or running backup", st)
unfolding trigger_run is_job_running
refuses_trigger te org_id job_id trigger by st job h counts busy =
    ap (triggered te job_id (new_run te org_id job_id trigger by) st) h ∙ rw (counts, busy) refl

-- A run that is cancelled once it is loaded blocks its job. The database refuses a write whose
-- context has ended, so that the last write of the row fails; the row stays queued or running, and
-- each later trigger of the job is refuses_trigger while the row is so.
pub cancelled_run_blocks_job :
    (e : RunEnv) (id : ℕ) (st : State) (x : Exec) (msg : String)
    (needs_context : e.cancelled ≡ some msg → e.run_saved ≡ false) (te : TriggerEnv) (org_id : ℕ)
    (trigger : Trigger) (by : Option ℕ) (job : BackupJob)
    → e.cancelled ≡ some msg
    → load_run_context e id st ≡ ok x
    → x.run.status ≡ queued
    → let after = apply_writes id (execute_run e id st).1 st in
      get_job te.job_error org_id x.run.job_id after.jobs ≡ ok job
      → te.count_answers ≡ true
      → trigger_run te org_id x.run.job_id trigger by after
        ≡ (fail "job already has a queued or running backup", after)
cancelled_run_blocks_job e id st x msg needs_context te org_id trigger by job gone h q found
      counts =
    let (ended, holds) = held e id st x h q in
    let (r, there, i, j, s) = holds in
    let after = apply_writes id (execute_run e id st).1 st in
    refuses_trigger te org_id x.run.job_id trigger by after job found counts (
      active_there id x.run.job_id after.runs r there j
        (ap is_active s ∙ ended.left (needs_context gone)))
