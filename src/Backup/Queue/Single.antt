-- ===== src/Backup/Queue/Single.antt =====
-- Each call leaves a table without two active runs of a job so.
use x_ui_aggr.Prelude.{
  ℕ, ◌+◌, ◌≤◌, ◌≡◌, refl, sym, ap, ◌∙◌, String, true, false, Option, none, some, List, ◌∷◌, ◌==◌,
  ==_iff, if◌then◌else◌, any, Bool-cases, inl, inr, arith,
}
use x_ui_aggr.Prelude.Results.{Result, ok, fail, fail≢ok}
use x_ui_aggr.Backup.Types.{Trigger}
use x_ui_aggr.Backup.Rows.{BackupJob, BackupRun, State}
use x_ui_aggr.Backup.Queue.{
  is_active_run, is_job_running, TriggerEnv, get_job, new_run, enqueue, trigger_run, find_run,
  get_run, save_run,
}
use x_ui_aggr.Backup.Queue.Active.{
  has_run_id, count_active, IsKeyed, Allows, count_active-save_run, save_run-IsKeyed, none_active,
  count_active-append, append-IsKeyed,
}

-- The identifiers are keys, and no job has two runs that are queued or running.
pub record IsSingle (runs : List BackupRun) : Type 0 where
  pub keyed : IsKeyed runs
  pub single : (job : ℕ) → count_active job runs ≤ 1

-- The database answers the count, and the identifier is new.
pub record Answers (e : TriggerEnv) (runs : List BackupRun) : Type 0 where
  pub counts : e.count_answers ≡ true
  pub fresh : has_run_id e.run_id runs ≡ false

start_counts :
    (job job_id n : ℕ) (r : BackupRun)
    → r.job_id ≡ job_id
    → n ≤ 1
    → (job ≡ job_id → n ≡ 0)
    → n + (if is_active_run job r then 1 else 0) ≤ 1
start_counts job job_id n r same le z = elim (Bool-cases (r.job_id == job)) [
  | inl y ↦
      let zero : n ≡ 0 = z (sym ((==_iff r.job_id job).0 y) ∙ same) in
      elim (Bool-cases (is_active_run job r)) [
        | inl h ↦ rw (h, zero) (omega arith)
        | inr h ↦ rw (h, zero) (omega arith)
      ]
  | inr y ↦ rw y (omega (arith, le))
]

enqueue-IsSingle :
    (err : Option String) (run : BackupRun) (st : State)
    → any (is_active_run run.job_id) st.runs ≡ false
    → has_run_id run.id st.runs ≡ false
    → IsSingle st.runs
    → IsSingle (enqueue err run st).1.runs
unfolding enqueue
enqueue-IsSingle (some msg) run st idle fresh s = s
enqueue-IsSingle none run st idle fresh s = record {
  keyed = append-IsKeyed st.runs run s.keyed fresh;
  single = λ job.
      let z : job ≡ run.job_id → count_active job st.runs ≡ 0 =
        λ e. ap (λ j. count_active j st.runs) e ∙ none_active run.job_id st.runs idle in
      let b = start_counts job run.job_id (count_active job st.runs) run refl (s.single job) z in
      omega (arith, count_active-append job st.runs run, b);
}

abbrev triggered : TriggerEnv → ℕ → BackupRun → State → Result BackupJob → Result BackupRun × State
triggered e job_id run st (fail msg) = (fail msg, st)
triggered e job_id run st (ok job) =
    if is_job_running e.count_answers job_id st.runs
    then (fail "job already has a queued or running backup", st)
    else enqueue e.create_error run st

triggered-IsSingle :
    (e : TriggerEnv) (run : BackupRun) (st : State) (r : Result BackupJob)
    → run.id ≡ e.run_id
    → Answers e st.runs
    → IsSingle st.runs
    → IsSingle (triggered e run.job_id run st r).1.runs
unfolding is_job_running
triggered-IsSingle e run st (fail msg) i answers s = s
triggered-IsSingle e run st (ok job) i answers s =
    rw answers.counts (elim (Bool-cases (any (is_active_run run.job_id) st.runs)) [
      | inl busy ↦ rw busy s
      | inr idle ↦ rw idle (
          enqueue-IsSingle e.create_error run st idle
            (ap (λ n. has_run_id n st.runs) i ∙ answers.fresh) s)
    ])

pub trigger_run-IsSingle :
    (e : TriggerEnv) (org_id job_id : ℕ) (trigger : Trigger) (initiated_by : Option ℕ) (st : State)
    → Answers e st.runs
    → IsSingle st.runs
    → IsSingle (trigger_run e org_id job_id trigger initiated_by st).1.runs
unfolding trigger_run new_run
trigger_run-IsSingle e org_id job_id trigger initiated_by st answers s =
    triggered-IsSingle e (new_run e org_id job_id trigger initiated_by) st
      (get_job e.job_error org_id job_id st.jobs) refl answers s

abbrev retried : TriggerEnv → ℕ → Option ℕ → State → Result BackupRun → Result BackupRun × State
retried e org_id initiated_by st (fail msg) = (fail msg, st)
retried e org_id initiated_by st (ok run) =
    trigger_run e org_id run.job_id Trigger.retry initiated_by st

pub retried-IsSingle :
    (e : TriggerEnv) (org_id : ℕ) (initiated_by : Option ℕ) (st : State) (r : Result BackupRun)
    → Answers e st.runs
    → IsSingle st.runs
    → IsSingle (retried e org_id initiated_by st r).1.runs
retried-IsSingle e org_id initiated_by st (fail msg) answers s = s
retried-IsSingle e org_id initiated_by st (ok run) answers s =
    trigger_run-IsSingle e org_id run.job_id Trigger.retry initiated_by st answers s

pub write-IsSingle :
    (new : BackupRun) (runs : List BackupRun)
    → Allows new runs
    → IsSingle runs
    → IsSingle (save_run new runs)
write-IsSingle new runs allowed s = record {
  keyed = save_run-IsKeyed new runs s.keyed;
  single = λ job.
      let less = count_active-save_run job new runs allowed in omega (arith, less, s.single job);
}

abbrev cancelled_at : Option String → ℕ → State → Result BackupRun → Option String × State
cancelled_at save_error now st (fail msg) = (some msg, st)
cancelled_at save_error now st (ok run) = elim save_error [
  | some msg ↦ (some msg, st)
  | none ↦ (
    none,
    record st {
      runs = save_run (record run { cancel_requested_at = some now }) st.runs;
      cancelled =
          if any (λ id. id == run.id) st.running then run.id ∷ st.cancelled else st.cancelled;
    },
  )
]

abbrev looked_up : Option BackupRun → Result BackupRun
looked_up none = fail "record not found"
looked_up (some r) = ok r

looked_up-ok : (o : Option BackupRun) (r : BackupRun) → looked_up o ≡ ok r → o ≡ some r
looked_up-ok none r h = absurd (fail≢ok h)
looked_up-ok (some x) r h = cc

pub get_run-found :
    (err : Option String) (org_id run_id : ℕ) (runs : List BackupRun) (r : BackupRun)
    → get_run err org_id run_id runs ≡ ok r
    → find_run org_id run_id runs ≡ some r
unfolding get_run
get_run-found (some msg) org_id run_id runs r h = absurd (fail≢ok h)
get_run-found none org_id run_id runs r h = looked_up-ok (find_run org_id run_id runs) r h

pub cancelled_at-IsSingle :
    (save_error : Option String) (now : ℕ) (st : State) (r : Result BackupRun)
    → ((run : BackupRun)
        → r ≡ ok run
        → Allows (record run { cancel_requested_at = some now }) st.runs)
    → IsSingle st.runs
    → IsSingle (cancelled_at save_error now st r).1.runs
cancelled_at-IsSingle save_error now st (fail msg) allowed s = s
cancelled_at-IsSingle (some msg) now st (ok run) allowed s = s
cancelled_at-IsSingle none now st (ok run) allowed s = write-IsSingle _ st.runs (allowed run refl) s
