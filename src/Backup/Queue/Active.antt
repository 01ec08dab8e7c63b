-- ===== src/Backup/Queue/Active.antt =====
-- How many runs of a job are queued or running, and what a write of a row does to that number.
use x_ui_aggr.Prelude.{
  if_false, or_right, ==_refl, if_true, ℕ, ◌+◌, ◌≤◌, ◌≡◌, refl, sym, ap, ◌∙◌, subst, Bool, true,
  false, ◌&&◌, some, List, [], ◌∷◌, ◌++◌, ◌==◌, ==_iff, if◌then◌else◌, any, All, Bool-cases,
  neither, inl, inr, arith,
}
use x_ui_aggr.Backup.Rows.{BackupRun}
use x_ui_aggr.Backup.Queue.{is_active, is_active_run, find_run, save_run}

unfoldable pub count_active : ℕ → List BackupRun → ℕ
count_active job_id [] = 0
count_active job_id (r ∷ rs) = (if is_active_run job_id r then 1 else 0) + count_active job_id rs

abbrev pub has_run_id : ℕ → List BackupRun → Bool
has_run_id id runs = any (λ (r : BackupRun). r.id == id) runs

-- The primary key: no two rows have one identifier.
abbrev pub IsKeyed : List BackupRun → Type 0
IsKeyed [] = Unit
IsKeyed (r ∷ rs) = (has_run_id r.id rs ≡ false) × IsKeyed rs

-- A write of a row that leaves the run with its job, and does not make a finished run active.
abbrev pub Allows : BackupRun → List BackupRun → Type 0
Allows new runs =
    All
      (λ (r : BackupRun).
        (r.id == new.id) ≡ true
        → (r.job_id ≡ new.job_id) × (is_active new.status ≡ true → is_active r.status ≡ true))
      runs

fits :
    (job : ℕ) (new r : BackupRun)
    → r.job_id ≡ new.job_id
    → (is_active new.status ≡ true → is_active r.status ≡ true)
    → (if is_active_run job new then 1 else 0) ≤ (if is_active_run job r then 1 else 0)
fits job new r same keeps = elim (Bool-cases (is_active new.status)) [
  | inl h ↦ rw (same, h, keeps h) (omega arith)
  | inr h ↦ rw h (ground arith)
]

pub count_active-save_run :
    (job : ℕ) (new : BackupRun) (runs : List BackupRun)
    → Allows new runs
    → count_active job (save_run new runs) ≤ count_active job runs
unfolding count_active save_run
count_active-save_run job new [] h = omega arith
count_active-save_run job new (r ∷ rs) (h, hs) = elim (Bool-cases (r.id == new.id)) [
  | inl same ↦ let (j, a) = h same in let f = fits job new r j a in rw same (omega (arith, f))
  | inr other ↦ let ih = count_active-save_run job new rs hs in rw other (omega (arith, ih))
]

has_run_id-save_run :
    (id : ℕ) (new : BackupRun) (runs : List BackupRun)
    → has_run_id id (save_run new runs) ≡ has_run_id id runs
unfolding save_run
has_run_id-save_run id new [] = refl
has_run_id-save_run id new (r ∷ rs) = elim (Bool-cases (r.id == new.id)) [
  | inl same ↦ rw (same, (==_iff r.id new.id).0 same) refl
  | inr other ↦ rw (other, has_run_id-save_run id new rs) refl
]

pub save_run-IsKeyed :
    (new : BackupRun) (runs : List BackupRun) → IsKeyed runs → IsKeyed (save_run new runs)
unfolding save_run
save_run-IsKeyed new [] k = tt
save_run-IsKeyed new (r ∷ rs) (k, ks) = elim (Bool-cases (r.id == new.id)) [
  | inl same ↦ rw same (rw ((==_iff r.id new.id).0 same) at k, ks)
  | inr other ↦ rw other (has_run_id-save_run r.id new rs ∙ k, save_run-IsKeyed new rs ks)
]

pub none_active :
    (job : ℕ) (runs : List BackupRun)
    → any (is_active_run job) runs ≡ false
    → count_active job runs ≡ 0
unfolding count_active
none_active job [] h = refl
none_active job (r ∷ rs) h =
    let (h1, h2) = neither (is_active_run job r) (any (is_active_run job) rs) h in
    rw h1 (omega (arith, none_active job rs h2))

pub count_active-append :
    (job : ℕ) (runs : List BackupRun) (r : BackupRun)
    → count_active job (runs ++ r ∷ [])
      ≡ count_active job runs + (if is_active_run job r then 1 else 0)
unfolding count_active
count_active-append job [] r = omega arith
count_active-append job (x ∷ xs) r = omega (arith, count_active-append job xs r)

not_same : (a b : ℕ) → (a == b) ≡ false → (b == a) ≡ false
not_same a b h = ground arith

has_run_id-append :
    (id : ℕ) (runs : List BackupRun) (r : BackupRun)
    → has_run_id id runs ≡ false
    → (r.id == id) ≡ false
    → has_run_id id (runs ++ r ∷ []) ≡ false
has_run_id-append id [] r h hr = rw hr refl
has_run_id-append id (x ∷ xs) r h hr =
    let (h1, h2) = neither (x.id == id) (has_run_id id xs) h in
    rw (h1, has_run_id-append id xs r h2 hr) refl

pub append-IsKeyed :
    (runs : List BackupRun) (r : BackupRun)
    → IsKeyed runs
    → has_run_id r.id runs ≡ false
    → IsKeyed (runs ++ r ∷ [])
append-IsKeyed [] r k h = (refl, tt)
append-IsKeyed (x ∷ xs) r (k, ks) h =
    let (h1, h2) = neither (x.id == r.id) (has_run_id r.id xs) h in
    (has_run_id-append x.id xs r k (not_same x.id r.id h1), append-IsKeyed xs r ks h2)

some-injective : {a b : BackupRun} → some a ≡ some b → a ≡ b
some-injective h = cc

other :
    (a b c : ℕ) (xs : List BackupRun)
    → has_run_id a xs ≡ false
    → (a == b) ≡ true
    → b ≡ c
    → has_run_id c xs ≡ true
    → ⊥
other a b c xs k same e h =
    let there : has_run_id a xs ≡ true = ap (λ n. has_run_id n xs) ((==_iff a b).0 same ∙ e) ∙ h in
    cc

-- What a run is, stays: its identifier, its job and its status.
abbrev pub IsSame : BackupRun → BackupRun → Type 0
IsSame new r = (new.id ≡ r.id) × (new.job_id ≡ r.job_id) × (new.status ≡ r.status)

pub absent :
    (new : BackupRun) (runs : List BackupRun) → has_run_id new.id runs ≡ false → Allows new runs
absent new [] h = tt
absent new (x ∷ xs) h =
    let (h1, h2) = neither (x.id == new.id) (has_run_id new.id xs) h in
    ((λ same. absurd cc), absent new xs h2)

cons-Allows :
    (new r : BackupRun) (rs : List BackupRun)
    → IsSame new r
    → has_run_id r.id rs ≡ false
    → Allows new (r ∷ rs)
cons-Allows new r rs (i, j, s) h = (
  (λ same. (sym j, λ a. ap is_active (sym s) ∙ a)),
  absent new rs (ap (λ n. has_run_id n rs) i ∙ h),
)

is_there :
    (org_id run_id : ℕ) (runs : List BackupRun) (r : BackupRun)
    → find_run org_id run_id runs ≡ some r
    → has_run_id r.id runs ≡ true
unfolding find_run
is_there org_id run_id [] r h = absurd cc
is_there org_id run_id (x ∷ xs) r h = elim (Bool-cases (x.org_id == org_id && x.id == run_id)) [
  | inl y ↦
      let e : x ≡ r = some-injective (sym (if_true _ (some x) _ y) ∙ h) in
      rw (ap (λ (q : BackupRun). q.id) e, ==_refl r.id) refl
  | inr n ↦
      or_right (x.id == r.id) _ (is_there org_id run_id xs r (sym (if_false _ (some x) _ n) ∙ h))
]

pub found_run :
    (org_id run_id : ℕ) (runs : List BackupRun) (r new : BackupRun)
    → IsKeyed runs
    → find_run org_id run_id runs ≡ some r
    → IsSame new r
    → Allows new runs
unfolding find_run
found_run org_id run_id [] r new k h same = tt
found_run org_id run_id (x ∷ xs) r new (k, ks) h same =
    elim (Bool-cases (x.org_id == org_id && x.id == run_id)) [
      | inl y ↦
          let e : x ≡ r = some-injective (sym (if_true _ (some x) _ y) ∙ h) in
          cons-Allows new x xs (subst (λ (q : BackupRun). IsSame new q) (sym e) same) k
      | inr n ↦
          let h2 = sym (if_false _ (some x) _ n) ∙ h in
          (
            (λ there.
                absurd (other x.id new.id r.id xs k there same.0 (is_there org_id run_id xs r h2))),
            found_run org_id run_id xs r new ks h2 same,
          )
    ]
