-- ===== src/Ops/Schedule.antt =====
-- The loop that starts queued jobs: availableJobSlots, pickQueuedJob and pickAndRun.
pub mod Slots
use x_ui_aggr.Prelude.{
  ℕ, zero, suc, ◌+◌, ◌-◌, Bool, true, false, Option, none, some, List, [], ◌∷◌, if◌then◌else◌, ◌==◌,
  ◌&&◌,
}
use x_ui_aggr.Ops.Types.{OpsJob, Store, Status, queued, running, success, failed}

abbrev pub max_concurrent_jobs : ℕ
max_concurrent_jobs = 3

abbrev pub is_queued : Status → Bool
is_queued queued = true
is_queued _ = false

abbrev pub is_running : Status → Bool
is_running running = true
is_running _ = false

unfoldable pub count_running : List OpsJob → ℕ
count_running [] = 0
count_running (j ∷ js) = (if is_running j.status then 1 else 0) + count_running js

-- Subtraction stops at 0, as the source makes it do.
unfoldable pub available_job_slots : Bool → Store → ℕ
available_job_slots read_ok st = if read_ok then max_concurrent_jobs - count_running st.jobs else 0

abbrev pub start_job : ℕ → OpsJob → OpsJob
start_job now j = record j { status = running; started_at = some now }

-- The oldest queued job is marked as running; none if there is none.
unfoldable pub mark_first : ℕ → List OpsJob → Option (OpsJob × List OpsJob)
mark_first now [] = none
mark_first now (j ∷ js) =
    let rest = mark_first now js in
    if is_queued j.status
    then some (start_job now j, start_job now j ∷ js)
    else elim rest [ none ↦ none | some (picked, js') ↦ some (picked, j ∷ js') ]

-- `tx_ok` tells whether the transaction begins, saves and commits.
unfoldable pub pick_queued_job : Bool → ℕ → List OpsJob → Option (OpsJob × List OpsJob)
pick_queued_job tx_ok now jobs = if tx_ok then mark_first now jobs else none

-- The loop over the slots; it returns the jobs that it hands to runJob, the first one first.
unfoldable pub pick_jobs : (ℕ → Bool) → ℕ → ℕ → List OpsJob → List OpsJob × List OpsJob
pick_jobs tx_ok now zero jobs = ([], jobs)
pick_jobs tx_ok now (suc slots) jobs = elim (pick_queued_job (tx_ok slots) now jobs) [
  | none ↦ ([], jobs)
  | some (picked, jobs') ↦
      let (more, jobs'') = pick_jobs tx_ok now slots jobs' in (picked ∷ more, jobs'')
]

unfoldable pub pick_and_run : Bool → (ℕ → Bool) → ℕ → Store → List OpsJob × Store
pick_and_run read_ok tx_ok now st =
    let (picked, jobs) = pick_jobs tx_ok now (available_job_slots read_ok st) st.jobs in
    (picked, record st { jobs = jobs })

-- `s.DB.Save(job)` at the end of runJob: the row with the job's id is replaced.
unfoldable pub save_job : OpsJob → List OpsJob → List OpsJob
save_job done [] = []
save_job done (j ∷ js) = (if j.id == done.id then done else j) ∷ save_job done js
