-- ===== src/Backup/Run/Table.antt =====
-- What a run leaves in the table of runs, and what the next trigger of its job makes of it.
use x_ui_aggr.Prelude.{
  ℕ, ◌≡◌, refl, sym, ap, ◌∙◌, subst, String, false, Option, none, some, List, [], ◌∷◌, ◌==◌, ==_iff,
  Bool-cases, inl, inr, if_true, if_false,
}
use x_ui_aggr.Prelude.Results.{Result, ok, fail, and_then-ok, fail≢ok, ok-injective}
use x_ui_aggr.Backup.Types.{RunStatus, queued}
use x_ui_aggr.Backup.Rows.{BackupJob, BackupRun, State}
use x_ui_aggr.Backup.Queue.{save_run, get_job}
use x_ui_aggr.Backup.Collect.{Exec, Write}
use x_ui_aggr.Backup.Finish.{RunEnv}
use x_ui_aggr.Backup.Run.{
  execute_loaded, run_of, load_run, with_target, load_run_context, executed, execute_run, set_sizes,
  apply_write, apply_writes,
}
use x_ui_aggr.Backup.Run.Lifecycle.{Follows, here, row, job, item, total, uploaded}
use x_ui_aggr.Backup.Run.Refines.{Ended, execute_in-Ended}

-- The row of a run of this job, with this status.
abbrev pub Holds : ℕ → ℕ → RunStatus → List BackupRun → Type 0
Holds id job_id t runs =
    (r : BackupRun) × (run_of id runs ≡ some r) × (r.id ≡ id) × (r.job_id ≡ job_id) × (r.status ≡ t)

pub run_of-cons :
    (id : ℕ) (r : BackupRun) (rs : List BackupRun) → r.id ≡ id → run_of id (r ∷ rs) ≡ some r
unfolding run_of
run_of-cons id r rs same = if_true (r.id == id) _ _ ((==_iff r.id id).1 same)

pub run_of-skip :
    (id : ℕ) (r : BackupRun) (rs : List BackupRun)
    → (r.id == id) ≡ false
    → run_of id (r ∷ rs) ≡ run_of id rs
unfolding run_of
run_of-skip id r rs other = if_false (r.id == id) _ _ other

run_of-nil : (id : ℕ) {r : BackupRun} → run_of id [] ≡ some r → ⊥
unfolding run_of
run_of-nil id h = cc

some-injective : {a b : BackupRun} → some a ≡ some b → a ≡ b
some-injective h = cc

run_of-save_run :
    (id : ℕ) (new r : BackupRun) (runs : List BackupRun)
    → new.id ≡ id
    → run_of id runs ≡ some r
    → run_of id (save_run new runs) ≡ some new
unfolding save_run
run_of-save_run id new r [] same h = absurd (run_of-nil id h)
run_of-save_run id new r (x ∷ xs) same h = elim (Bool-cases (x.id == new.id)) [
  | inl y ↦ ap (run_of id) (if_true (x.id == new.id) _ _ y) ∙ run_of-cons id new xs same
  | inr n ↦
      let n2 : (x.id == id) ≡ false = subst (λ i. (x.id == i) ≡ false) same n in
      ap (run_of id) (if_false (x.id == new.id) _ _ n)
      ∙ run_of-skip id x (save_run new xs) n2
      ∙ run_of-save_run id new r xs same (sym (run_of-skip id x xs n2) ∙ h)
]

run_of-set_sizes :
    (id : ℕ) (f : BackupRun → BackupRun) (r : BackupRun) (runs : List BackupRun)
    → (f r).id ≡ id
    → run_of id runs ≡ some r
    → run_of id (set_sizes id f runs) ≡ some (f r)
unfolding set_sizes
run_of-set_sizes id f r [] same h = absurd (run_of-nil id h)
run_of-set_sizes id f r (x ∷ xs) same h = elim (Bool-cases (x.id == id)) [
  | inl y ↦
      let e : x ≡ r = some-injective (sym (run_of-cons id x xs ((==_iff x.id id).0 y)) ∙ h) in
      ap (run_of id) (if_true (x.id == id) _ _ y)
      ∙ ap (λ (q : BackupRun). run_of id (f q ∷ xs)) e
      ∙ run_of-cons id (f r) xs same
  | inr n ↦
      ap (run_of id) (if_false (x.id == id) _ _ n)
      ∙ run_of-skip id x (set_sizes id f xs) n
      ∙ run_of-set_sizes id f r xs same (sym (run_of-skip id x xs n) ∙ h)
]

-- The table holds the status that the writes lead to.
pub apply_writes-Holds :
    (id job_id : ℕ) (s t : RunStatus) (ws : List Write) (st : State)
    → Follows id job_id s ws t
    → Holds id job_id s st.runs
    → Holds id job_id t (apply_writes id ws st).runs
unfolding apply_writes apply_write
apply_writes-Holds id job_id s t ws st (here) h = h
apply_writes-Holds id job_id s t ws st (row {ws = ws'} r f edge i j) h =
    let (q, found, i', j', k') = apply_writes-Holds id job_id s _ ws' st f h in
    (r, run_of-save_run id r q (apply_writes id ws' st).runs i found, i, j, refl)
apply_writes-Holds id job_id s t ws st (job f) h = apply_writes-Holds id job_id s t _ st f h
apply_writes-Holds id job_id s t ws st (item f) h = apply_writes-Holds id job_id s t _ st f h
apply_writes-Holds id job_id s t ws st (total {ws = ws'} {n = n} f) h =
    let (q, found, i, j, k) = apply_writes-Holds id job_id s t ws' st f h in
    (
      _,
      run_of-set_sizes id (λ (r : BackupRun). record r { total_size_bytes = n }) q
          (apply_writes id ws' st).runs i found,
      i,
      j,
      k,
    )
apply_writes-Holds id job_id s t ws st (uploaded {ws = ws'} {n = n} f) h =
    let (q, found, i, j, k) = apply_writes-Holds id job_id s t ws' st f h in
    (
      _,
      run_of-set_sizes id (λ (r : BackupRun). record r { uploaded_size_bytes = n }) q
          (apply_writes id ws' st).runs i found,
      i,
      j,
      k,
    )

-- The row that is loaded is the one of the table, and nothing is written yet.
with_target-ok :
    (err : Option String) (run : BackupRun) (j : BackupJob) (x : Exec)
    → with_target err run j ≡ ok x
    → (x.run ≡ run) × (x.writes ≡ [])
with_target-ok none run j x h = (
  ap (λ (x : Exec). x.run) (sym (ok-injective h)),
  ap (λ (x : Exec). x.writes) (sym (ok-injective h)),
)
with_target-ok (some msg) run j x h = absurd (fail≢ok h)

abbrev row_or_fail : Option BackupRun → Result BackupRun
row_or_fail none = fail "record not found"
row_or_fail (some r) = ok r

row_or_fail-ok : (o : Option BackupRun) (r : BackupRun) → row_or_fail o ≡ ok r → o ≡ some r
row_or_fail-ok none r h = absurd (fail≢ok h)
row_or_fail-ok (some q) r h = cc

load_run-ok :
    (err : Option String) (id : ℕ) (runs : List BackupRun) (r : BackupRun)
    → load_run err id runs ≡ ok r
    → run_of id runs ≡ some r
unfolding load_run
load_run-ok none id runs r h = row_or_fail-ok (run_of id runs) r h
load_run-ok (some msg) id runs r h = absurd (fail≢ok h)

run_of-id : (id : ℕ) (runs : List BackupRun) (r : BackupRun) → run_of id runs ≡ some r → r.id ≡ id
run_of-id id [] r h = absurd (run_of-nil id h)
run_of-id id (x ∷ xs) r h = elim (Bool-cases (x.id == id)) [
  | inl y ↦
      let e : x ≡ r = some-injective (sym (run_of-cons id x xs ((==_iff x.id id).0 y)) ∙ h) in
      sym (ap (λ (q : BackupRun). q.id) e) ∙ (==_iff x.id id).0 y
  | inr n ↦ run_of-id id xs r (sym (run_of-skip id x xs n) ∙ h)
]

pub load_run_context-ok :
    (e : RunEnv) (id : ℕ) (st : State) (x : Exec)
    → load_run_context e id st ≡ ok x
    → (run_of id st.runs ≡ some x.run) × (x.run.id ≡ id) × (x.writes ≡ [])
unfolding load_run_context
load_run_context-ok e id st x h =
    let (run, h1, h2) = and_then-ok (load_run e.run_error id st.runs) _ h in
    let (j, h3, h4) = and_then-ok (get_job e.job_error run.org_id run.job_id st.jobs) _ h2 in
    let (same, nothing) = with_target-ok e.target_error run j x h4 in
    let found = load_run-ok e.run_error id st.runs run h1 in
    (
      found ∙ ap (λ r. some r) (sym same),
      ap (λ (r : BackupRun). r.id) same ∙ run_of-id id st.runs run found,
      nothing,
    )

-- The writes of the row of a run that is queued when it is loaded follow the diagram of the status: it
-- is set running, or has failed; while it runs it stays so; it ends as a success, a partial success, a
-- failure or cancelled, and its row is not written again. Each of them keeps the identifier and the
-- job. If the row can be set running and the last write of the row succeeds, the run ends; if that
-- write fails, the run stays queued or running.
pub execute_run-Ended :
    (e : RunEnv) (id : ℕ) (st : State) (x : Exec)
    → load_run_context e id st ≡ ok x
    → x.run.status ≡ queued
    → Ended id x.run.job_id e (execute_run e id st).1
unfolding execute_run execute_loaded
execute_run-Ended e id st x h q =
    let (found, i, nothing) = load_run_context-ok e id st x h in
    subst (λ (r : Result Exec). Ended id x.run.job_id e (executed e r).1) (sym h)
      (execute_in-Ended e e.workdir x (record {
        trace = subst (λ ws. Follows id x.run.job_id queued ws queued) (sym nothing) here;
        status = q;
        same_id = i;
        same_job = refl;
      }))

pub held :
    (e : RunEnv) (id : ℕ) (st : State) (x : Exec)
    → load_run_context e id st ≡ ok x
    → x.run.status ≡ queued
    → (ended : Ended id x.run.job_id e (execute_run e id st).1) × Holds id x.run.job_id ended.last
        (apply_writes id (execute_run e id st).1 st).runs
held e id st x h q =
    let ended = execute_run-Ended e id st x h q in
    let (found, i, nothing) = load_run_context-ok e id st x h in
    (
      ended,
      apply_writes-Holds id x.run.job_id queued ended.last _ st ended.follows
          (x.run, found, i, refl, q),
    )
