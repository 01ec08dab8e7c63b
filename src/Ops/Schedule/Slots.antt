-- ===== src/Ops/Schedule/Slots.antt =====
-- The number of jobs that run at once.
use x_ui_aggr.Prelude.{
  ℕ, zero, suc, ◌+◌, ◌-◌, ◌≤◌, ◌≡◌, refl, sym, min, Bool, true, false, Option, none, some, List, [],
  ◌∷◌, ◌++◌, length, arith, Bool-cases, Option-cases, inl, inr, if◌then◌else◌, ap, ◌==◌,
}
use x_ui_aggr.Ops.Types.{OpsJob, Store, Status, queued, running, success, failed}
use x_ui_aggr.Ops.Schedule.{
  max_concurrent_jobs, is_queued, is_running, count_running, available_job_slots, mark_first,
  pick_queued_job, pick_jobs, pick_and_run, save_job,
}

abbrev pub count_queued : List OpsJob → ℕ
count_queued [] = 0
count_queued (j ∷ js) = (if is_queued j.status then 1 else 0) + count_queued js

queued_or_running :
    (s : Status) → (if is_queued s then 1 else 0) + (if is_running s then 1 else 0) ≤ 1
queued_or_running queued = omega arith
queued_or_running running = omega arith
queued_or_running success = omega arith
queued_or_running failed = omega arith

-- What picking one job does to the two counts.
abbrev pub Picks : List OpsJob → Option (OpsJob × List OpsJob) → Type 0
Picks jobs none = count_queued jobs ≡ 0
Picks jobs (some (picked, jobs')) =
    (count_running jobs' ≡ suc (count_running jobs))
    × (suc (count_queued jobs') ≡ count_queued jobs)

abbrev after_pick :
    (ℕ → Bool) → ℕ → ℕ → List OpsJob → Option (OpsJob × List OpsJob) → List OpsJob × List OpsJob
after_pick tx_ok now slots jobs none = ([], jobs)
after_pick tx_ok now slots jobs (some (picked, jobs')) =
    (picked ∷ (pick_jobs tx_ok now slots jobs').0, (pick_jobs tx_ok now slots jobs').1)

keep_first :
    (j : OpsJob) (js : List OpsJob) (o : Option (OpsJob × List OpsJob))
    → is_queued j.status ≡ false
    → Picks js o
    → Picks (j ∷ js) (elim o [ none ↦ none | some (picked, js') ↦ some (picked, j ∷ js') ])
unfolding count_running
keep_first j js none h p = rw h (omega (arith, p))
keep_first j js (some (picked, js')) h (r, q) = (omega (arith, r), omega (arith, q))

mark_first-Picks : (now : ℕ) (js : List OpsJob) → Picks js (mark_first now js)
unfolding mark_first count_running
mark_first-Picks now [] = refl
mark_first-Picks now (j ∷ js) = elim (Bool-cases (is_queued j.status)) [
  | inl h ↦ rw h (ground arith)
  | inr h ↦ rw h (keep_first j js (mark_first now js) h (mark_first-Picks now js))
]

pick_jobs-zero :
    (tx_ok : ℕ → Bool) (now : ℕ) (jobs : List OpsJob) → pick_jobs tx_ok now 0 jobs ≡ ([], jobs)
unfolding pick_jobs
pick_jobs-zero tx_ok now jobs = refl

pick_jobs-none :
    (tx_ok : ℕ → Bool) (now slots : ℕ) (jobs : List OpsJob)
    → pick_queued_job (tx_ok slots) now jobs ≡ none
    → pick_jobs tx_ok now (suc slots) jobs ≡ ([], jobs)
unfolding pick_jobs
pick_jobs-none tx_ok now slots jobs h =
    ap (λ (o : Option (OpsJob × List OpsJob)). after_pick tx_ok now slots jobs o) h

pick_jobs-some :
    (tx_ok : ℕ → Bool) (now slots : ℕ) (jobs : List OpsJob) (picked : OpsJob) (jobs' : List OpsJob)
    → pick_queued_job (tx_ok slots) now jobs ≡ some (picked, jobs')
    → pick_jobs tx_ok now (suc slots) jobs
      ≡ (picked ∷ (pick_jobs tx_ok now slots jobs').0, (pick_jobs tx_ok now slots jobs').1)
unfolding pick_jobs
pick_jobs-some tx_ok now slots jobs picked jobs' h =
    ap (λ (o : Option (OpsJob × List OpsJob)). after_pick tx_ok now slots jobs o) h

pick_queued_job-true :
    (now : ℕ) (jobs : List OpsJob) → pick_queued_job true now jobs ≡ mark_first now jobs
unfolding pick_queued_job
pick_queued_job-true now jobs = refl

picked_runs :
    (tx_ok : Bool) (now : ℕ) (jobs : List OpsJob) (picked : OpsJob) (jobs' : List OpsJob)
    → pick_queued_job tx_ok now jobs ≡ some (picked, jobs')
    → Picks jobs (some (picked, jobs'))
unfolding pick_queued_job
picked_runs true now jobs picked jobs' h = rw h at (mark_first-Picks now jobs)
picked_runs false now jobs picked jobs' h = absurd cc

-- With a database that answers every slot takes a queued job while there is one.
pick_jobs-counts :
    (now slots : ℕ) (jobs : List OpsJob)
    → (count_running (pick_jobs (λ _. true) now slots jobs).1
        ≡ count_running jobs + min slots (count_queued jobs))
      × (length (pick_jobs (λ _. true) now slots jobs).0 ≡ min slots (count_queued jobs))
pick_jobs-counts now zero jobs = rw (pick_jobs-zero (λ _. true) now jobs) (omega arith, omega arith)
pick_jobs-counts now (suc slots) jobs = elim (Option-cases (pick_queued_job true now jobs)) [
  | inl h ↦
      let p : count_queued jobs ≡ 0 =
        rw (sym (pick_queued_job-true now jobs), h) at (mark_first-Picks now jobs) in
      rw (pick_jobs-none (λ _. true) now slots jobs h) (omega (arith, p), omega (arith, p))
  | inr ((picked, jobs'), h) ↦
      let (r, q) = picked_runs true now jobs picked jobs' h in
      let (rs, ls) = pick_jobs-counts now slots jobs' in
      rw (pick_jobs-some (λ _. true) now slots jobs picked jobs' h)
        (omega (arith, r, q, rs), omega (arith, q, ls))
]

pick_jobs-bound :
    (tx_ok : ℕ → Bool) (now slots : ℕ) (jobs : List OpsJob)
    → count_running (pick_jobs tx_ok now slots jobs).1 ≤ count_running jobs + slots
pick_jobs-bound tx_ok now zero jobs = rw (pick_jobs-zero tx_ok now jobs) (omega arith)
pick_jobs-bound tx_ok now (suc slots) jobs =
    elim (Option-cases (pick_queued_job (tx_ok slots) now jobs)) [
      | inl h ↦ rw (pick_jobs-none tx_ok now slots jobs h) (omega arith)
      | inr ((picked, jobs'), h) ↦
          let (r, q) = picked_runs (tx_ok slots) now jobs picked jobs' h in
          let ih = pick_jobs-bound tx_ok now slots jobs' in
          rw (pick_jobs-some tx_ok now slots jobs picked jobs' h) (omega (arith, r, ih))
    ]

-- With a database that answers, a tick starts as many queued jobs as there are free slots and
-- queued jobs, and no job stops.
pub pick_and_run-counts :
    (now : ℕ) (st : Store)
    → let (picked, after) = pick_and_run true (λ _. true) now st in
      (length picked ≡ min (max_concurrent_jobs - count_running st.jobs) (count_queued st.jobs))
      × (count_running after.jobs ≡ count_running st.jobs + length picked)
unfolding pick_and_run available_job_slots
pick_and_run-counts now st =
    let (r, l) = pick_jobs-counts now (max_concurrent_jobs - count_running st.jobs) st.jobs in
    (l, omega (arith, r, l))

count_running-append-queued :
    (jobs : List OpsJob) (j : OpsJob)
    → is_running j.status ≡ false
    → count_running (jobs ++ j ∷ []) ≡ count_running jobs
unfolding count_running
count_running-append-queued [] j h = rw h refl
count_running-append-queued (k ∷ ks) j h = omega (arith, count_running-append-queued ks j h)

count_running-save_job :
    (done : OpsJob) (jobs : List OpsJob)
    → is_running done.status ≡ false
    → count_running (save_job done jobs) ≤ count_running jobs
unfolding count_running save_job
count_running-save_job done [] h = omega arith
count_running-save_job done (j ∷ js) h =
    let ih = count_running-save_job done js h in
    elim (Bool-cases (j.id == done.id)) [
      | inl same ↦ rw (same, h) (omega (arith, ih))
      | inr other ↦ rw other (omega (arith, ih))
    ]

-- What can happen to the table of jobs: a tick of the loop, with any failures of the database, the
-- end of a job, and a new job.
pub data Event : Store → Store → Type 0 where
  tick :
      (read_ok : Bool) (tx_ok : ℕ → Bool) (now : ℕ) (st : Store)
      → Event st (pick_and_run read_ok tx_ok now st).1
  finish :
      (done : OpsJob) (st : Store)
      → is_running done.status ≡ false
      → Event st (record st { jobs = save_job done st.jobs })
  create :
      (j : OpsJob) (st : Store)
      → is_running j.status ≡ false
      → Event st (record st { jobs = st.jobs ++ j ∷ [] })

pub data History : Store → Store → Type 0 where
  start : (st : Store) → History st st
  next : {a b c : Store} → History a b → Event b c → History a c

tick_bound :
    (read_ok : Bool) (tx_ok : ℕ → Bool) (now : ℕ) (st : Store)
    → count_running st.jobs ≤ max_concurrent_jobs
    → count_running (pick_and_run read_ok tx_ok now st).1.jobs ≤ max_concurrent_jobs
unfolding pick_and_run available_job_slots
tick_bound true tx_ok now st h =
    let b = pick_jobs-bound tx_ok now (max_concurrent_jobs - count_running st.jobs) st.jobs in
    omega (arith, b, h)
tick_bound false tx_ok now st h = let b = pick_jobs-bound tx_ok now 0 st.jobs in omega (arith, b, h)

event_bound :
    {a b : Store}
    → Event a b
    → count_running a.jobs ≤ max_concurrent_jobs
    → count_running b.jobs ≤ max_concurrent_jobs
event_bound (tick read_ok tx_ok now st) h = tick_bound read_ok tx_ok now st h
event_bound (finish done st idle) h =
    let s = count_running-save_job done st.jobs idle in omega (arith, s, h)
event_bound (create j st idle) h =
    let s = count_running-append-queued st.jobs j idle in omega (arith, s, h)

-- However ticks, ends of jobs and new jobs follow one another, and whatever accesses of the
-- database fail, at most three jobs run at once, if that was so at the start.
pub at_most_three_run :
    {a b : Store}
    → History a b
    → count_running a.jobs ≤ max_concurrent_jobs
    → count_running b.jobs ≤ max_concurrent_jobs
at_most_three_run (start st) h = h
at_most_three_run (next before event) h = event_bound event (at_most_three_run before h)
