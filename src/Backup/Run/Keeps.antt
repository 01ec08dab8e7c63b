-- ===== src/Backup/Run/Keeps.antt =====
-- The writes of a run never give its job a second active run.
use x_ui_aggr.Prelude.{
  ℕ, ◌≡◌, refl, sym, ap, ◌∙◌, true, false, some, List, [], ◌∷◌, ◌==◌, ==_iff, Bool-cases, inl, inr,
  arith,
}
use x_ui_aggr.Backup.Types.{RunStatus, queued}
use x_ui_aggr.Backup.Rows.{BackupRun, State}
use x_ui_aggr.Backup.Queue.{is_active}
use x_ui_aggr.Backup.Queue.Active.{has_run_id, IsKeyed, Allows, count_active, absent}
use x_ui_aggr.Backup.Queue.Single.{IsSingle, write-IsSingle}
use x_ui_aggr.Backup.Collect.{Exec, Write}
use x_ui_aggr.Backup.Finish.{RunEnv}
use x_ui_aggr.Prelude.Results.{ok}
use x_ui_aggr.Backup.Run.{
  run_of, set_sizes, apply_write, apply_writes, load_run_context, execute_run,
}
use x_ui_aggr.Backup.Run.Lifecycle.{
  ◌⟶◌, begin, fail_early, continue, succeed, fall_short, give_up, stop, Follows, here, row, job,
  item, total, uploaded,
}
use x_ui_aggr.Backup.Run.Table.{
  Holds, run_of-cons, run_of-skip, apply_writes-Holds, execute_run-Ended, load_run_context-ok,
}

-- An edge leaves an active status.
edge_active : {s t : RunStatus} → s ⟶ t → is_active s ≡ true
unfolding is_active
edge_active begin = refl
edge_active fail_early = refl
edge_active continue = refl
edge_active succeed = refl
edge_active fall_short = refl
edge_active give_up = refl
edge_active stop = refl

some-injective : {a b : BackupRun} → some a ≡ some b → a ≡ b
some-injective h = cc

held-Allows :
    (id : ℕ) (runs : List BackupRun) (q new : BackupRun)
    → IsKeyed runs
    → run_of id runs ≡ some q
    → new.id ≡ id
    → new.job_id ≡ q.job_id
    → is_active q.status ≡ true
    → Allows new runs
held-Allows id [] q new k h i j a = tt
held-Allows id (x ∷ xs) q new (k, ks) h i j a = elim (Bool-cases (x.id == id)) [
  | inl y ↦
      let e : x ≡ q = some-injective (sym (run_of-cons id x xs ((==_iff x.id id).0 y)) ∙ h) in
      let same_id : new.id ≡ x.id = i ∙ sym ((==_iff x.id id).0 y) in
      (
        (λ same. (
          ap (λ (r : BackupRun). r.job_id) e ∙ sym j,
          λ active. ap (λ (r : BackupRun). is_active r.status) e ∙ a,
        )),
        absent new xs (ap (λ n. has_run_id n xs) same_id ∙ k),
      )
  | inr n ↦
      let n2 : (x.id == new.id) ≡ false = ap (λ i. x.id == i) i ∙ n in
      ((λ same. absurd cc), held-Allows id xs q new ks (sym (run_of-skip id x xs n) ∙ h) i j a)
]

-- A change of columns that leaves the identifier, the job and the status.
abbrev IsQuiet : (BackupRun → BackupRun) → Type 0
IsQuiet f =
    (r : BackupRun) → ((f r).id ≡ r.id) × ((f r).job_id ≡ r.job_id) × ((f r).status ≡ r.status)

has_run_id-set_sizes :
    (k id : ℕ) (f : BackupRun → BackupRun) (runs : List BackupRun)
    → IsQuiet f
    → has_run_id k (set_sizes id f runs) ≡ has_run_id k runs
unfolding set_sizes
has_run_id-set_sizes k id f [] quiet = refl
has_run_id-set_sizes k id f (x ∷ xs) quiet = elim (Bool-cases (x.id == id)) [
  | inl y ↦ rw (y, (quiet x).0) refl
  | inr n ↦ rw (n, has_run_id-set_sizes k id f xs quiet) refl
]

set_sizes-IsKeyed :
    (id : ℕ) (f : BackupRun → BackupRun) (runs : List BackupRun)
    → IsQuiet f
    → IsKeyed runs
    → IsKeyed (set_sizes id f runs)
unfolding set_sizes
set_sizes-IsKeyed id f [] quiet k = tt
set_sizes-IsKeyed id f (x ∷ xs) quiet (k, ks) = elim (Bool-cases (x.id == id)) [
  | inl y ↦ rw (y, (quiet x).0) (k, ks)
  | inr n ↦ rw n (has_run_id-set_sizes x.id id f xs quiet ∙ k, set_sizes-IsKeyed id f xs quiet ks)
]

count_active-set_sizes :
    (j id : ℕ) (f : BackupRun → BackupRun) (runs : List BackupRun)
    → IsQuiet f
    → count_active j (set_sizes id f runs) ≡ count_active j runs
unfolding set_sizes count_active
count_active-set_sizes j id f [] quiet = refl
count_active-set_sizes j id f (x ∷ xs) quiet = elim (Bool-cases (x.id == id)) [
  | inl y ↦ rw (y, (quiet x).1, (quiet x).2) refl
  | inr n ↦ rw n (omega (arith, count_active-set_sizes j id f xs quiet))
]

set_sizes-IsSingle :
    (id : ℕ) (f : BackupRun → BackupRun) (runs : List BackupRun)
    → IsQuiet f
    → IsSingle runs
    → IsSingle (set_sizes id f runs)
set_sizes-IsSingle id f runs quiet s = record {
  keyed = set_sizes-IsKeyed id f runs quiet s.keyed;
  single = λ j. omega (arith, count_active-set_sizes j id f runs quiet, s.single j);
}

pub apply_writes-IsSingle :
    (id job_id : ℕ) (s t : RunStatus) (ws : List Write) (st : State)
    → Follows id job_id s ws t
    → Holds id job_id s st.runs
    → IsSingle st.runs
    → IsSingle (apply_writes id ws st).runs
unfolding apply_writes apply_write
apply_writes-IsSingle id job_id s t ws st (here) h single = single
apply_writes-IsSingle id job_id s t ws st (row {t = b} {ws = ws'} r f edge i j) h single =
    let before = apply_writes-IsSingle id job_id s b ws' st f h single in
    let (q, found, i', j', k') = apply_writes-Holds id job_id s b ws' st f h in
    write-IsSingle r _
      (held-Allows id _ q r before.keyed found i (j ∙ sym j') (ap is_active k' ∙ edge_active edge))
      before
apply_writes-IsSingle id job_id s t ws st (job f) h single =
    apply_writes-IsSingle id job_id s t _ st f h single
apply_writes-IsSingle id job_id s t ws st (item f) h single =
    apply_writes-IsSingle id job_id s t _ st f h single
apply_writes-IsSingle id job_id s t ws st (total {n = n} f) h single =
    set_sizes-IsSingle id (λ (r : BackupRun). record r { total_size_bytes = n }) _
      (λ r. (refl, refl, refl)) (apply_writes-IsSingle id job_id s t _ st f h single)
apply_writes-IsSingle id job_id s t ws st (uploaded {n = n} f) h single =
    set_sizes-IsSingle id (λ (r : BackupRun). record r { uploaded_size_bytes = n }) _
      (λ r. (refl, refl, refl)) (apply_writes-IsSingle id job_id s t _ st f h single)

-- Executing a queued run, whatever fails in it, keeps the keys and leaves each job at most one active run.
pub execute_run-IsSingle :
    (e : RunEnv) (id : ℕ) (st : State) (x : Exec)
    → load_run_context e id st ≡ ok x
    → x.run.status ≡ queued
    → IsSingle st.runs
    → IsSingle (apply_writes id (execute_run e id st).1 st).runs
execute_run-IsSingle e id st x h q single =
    let ended = execute_run-Ended e id st x h q in
    let (found, i, nothing) = load_run_context-ok e id st x h in
    apply_writes-IsSingle id x.run.job_id queued ended.last _ st ended.follows
      (x.run, found, i, refl, q) single
