-- ===== src/Backup/Run/Refines.antt =====
-- A run follows the diagram of its status, to an end.
use x_ui_aggr.Prelude.{
  ℕ, ◌≡◌, refl, sym, ◌∙◌, String, Bool, true, false, Option, none, some, List, [], ◌∷◌,
  if◌then◌else◌,
}
use x_ui_aggr.Prelude.Results.{Result, ok, fail}
use x_ui_aggr.Backup.Types.{RunStatus, queued, running}
use x_ui_aggr.Backup.Rows.{ArtifactFile, BackupJob}
use x_ui_aggr.Backup.Queue.{is_active}
use x_ui_aggr.Backup.Collect.{Exec, Write, run_row, job_row, try_write, Gathered}
use x_ui_aggr.Backup.Finish.{
  RunEnv, derive_final_status, finish_run_with_error, add_manifest, save_rows, settle,
}
use x_ui_aggr.Backup.Run.{
  upload_and_settle, after_collect, or_finish, or_quit, run_backup, started_run, start_run,
  execute_in,
}
use x_ui_aggr.Backup.Run.Lifecycle.{
  ◌⟶◌, begin, fail_early, succeed, fall_short, give_up, stop, Follows, row, job, At,
}
use x_ui_aggr.Backup.Run.Steps.{collect_artifacts-At, upload_artifacts-At, add_manifest-At}

-- How a run ends: its writes follow the diagram. It is finished where the row can be written, and
-- where the last write of the row fails it is left as active as it was.
pub record Ended (id job_id : ℕ) (e : RunEnv) (ws : List Write) : Type 0 where
  pub last : RunStatus
  pub follows : Follows id job_id queued ws last
  pub finished : e.run_saved ≡ true → e.start_error ≡ none → is_active last ≡ false
  pub left : e.run_saved ≡ false → is_active last ≡ true

final : (exec upload cancel : Option String) → running ⟶ derive_final_status exec upload cancel
unfolding derive_final_status
final none none none = succeed
final (some e) none none = fall_short
final none (some u) none = fall_short
final (some e) (some u) none = give_up
final exec upload (some c) = stop

final_inactive :
    (exec upload cancel : Option String)
    → is_active (derive_final_status exec upload cancel) ≡ false
unfolding derive_final_status is_active
final_inactive none none none = refl
final_inactive (some e) none none = refl
final_inactive none (some u) none = refl
final_inactive (some e) (some u) none = refl
final_inactive exec upload (some c) = refl

some≢none : {msg : String} → some msg ≡ none → ⊥
some≢none h = cc

module _ {id job_id : ℕ} where
  -- The last two writes, of a run that stands at an active status and is given a final one.
  try_job :
      (b : Bool) (j : BackupJob) (x : Exec) (t : RunStatus)
      → Follows id job_id queued x.writes t
      → Follows id job_id queued (try_write b (job_row j) x).writes t
  unfolding try_write
  try_job true j x t f = job f
  try_job false j x t f = f

  try_final :
      (b : Bool) (x : Exec) (t : RunStatus)
      → Follows id job_id queued x.writes t
      → t ⟶ x.run.status
      → x.run.id ≡ id
      → x.run.job_id ≡ job_id
      → Follows id job_id queued
          (try_write b (run_row x.run) x).writes
          (if b then x.run.status else t)
  unfolding try_write
  try_final true x t f edge i j = row x.run f edge i j
  try_final false x t f edge i j = f

  saved-Ended :
      (e : RunEnv) (x : Exec) (t : RunStatus)
      → Follows id job_id queued x.writes t
      → t ⟶ x.run.status
      → x.run.id ≡ id
      → x.run.job_id ≡ job_id
      → is_active t ≡ true
      → is_active x.run.status ≡ false
      → Ended id job_id e (save_rows e x).writes
  unfolding save_rows
  saved-Ended e x t f edge i j active done = record {
    last = if e.run_saved then x.run.status else t;
    follows = try_job e.job_saved x.job _ _ (try_final e.run_saved x t f edge i j);
    finished = λ saved started. rw saved done;
    left = λ lost. rw lost active;
  }

  finish-Ended :
      (e : RunEnv) (excerpt : Option String) (summary : String) (err : Option String) (x : Exec)
      (t : RunStatus)
      → At id job_id t x
      → t ⟶ RunStatus.failed
      → is_active t ≡ true
      → Ended id job_id e (finish_run_with_error e excerpt summary err x).1.writes
  unfolding finish_run_with_error is_active
  finish-Ended e excerpt summary err x t a edge active =
      saved-Ended e _ t a.trace edge a.same_id a.same_job active refl

  settle-Ended :
      (e : RunEnv) (artifacts : List ArtifactFile) (exec upload cleanup : Option String) (x : Exec)
      → At id job_id running x
      → Ended id job_id e (settle e artifacts exec upload cleanup x).writes
  unfolding settle is_active
  settle-Ended e artifacts exec upload cleanup x a =
      saved-Ended e _ running a.trace (final exec upload e.cancelled) a.same_id a.same_job refl
        (final_inactive exec upload e.cancelled)

  upload_and_settle-Ended :
      (e : RunEnv) (artifacts : List ArtifactFile) (exec : Option String) (x : Exec)
      → At id job_id running x
      → Ended id job_id e (upload_and_settle e artifacts exec x).1.writes
  unfolding upload_and_settle
  upload_and_settle-Ended e artifacts exec x a =
      let m = add_manifest e e.manifest artifacts x in
      let b = add_manifest-At e e.manifest artifacts x a in
      let x1 : Exec = record m.1 { run = record m.1.run { remote_path = some e.remote_path } } in
      let c : At id job_id running x1 = record {
        trace = b.trace;
        status = b.status;
        same_id = b.same_id;
        same_job = b.same_job;
      } in
      settle-Ended e m.0 exec _ _ _ (upload_artifacts-At e.uploads m.0 none x1 c)

  after_collect-Ended :
      (e : RunEnv) (g : Gathered)
      → At id job_id running g.1
      → Ended id job_id e (after_collect e g).1.writes
  unfolding after_collect is_active
  after_collect-Ended e (([], some msg), x) a = finish-Ended e _ _ _ x running a give_up refl
  after_collect-Ended e (([], none), x) a = upload_and_settle-Ended e [] none x a
  after_collect-Ended e ((f ∷ files, err), x) a = upload_and_settle-Ended e (f ∷ files) err x a

  or_finish-Ended :
      (e : RunEnv) (err excerpt : Option String) (summary : String) (x : Exec)
      (next : Option String × Exec) (t : RunStatus)
      → At id job_id t x
      → t ⟶ RunStatus.failed
      → is_active t ≡ true
      → Ended id job_id e next.1.writes
      → Ended id job_id e (or_finish e err excerpt summary x next).1.writes
  or_finish-Ended e none excerpt summary x next t a edge active h = h
  or_finish-Ended e (some msg) excerpt summary x next t a edge active h =
      finish-Ended e excerpt summary (some msg) x t a edge active

  run_backup-Ended :
      (e : RunEnv) (x : Exec) → At id job_id running x → Ended id job_id e (run_backup e x).1.writes
  unfolding run_backup is_active
  run_backup-Ended e x a = or_finish-Ended e e.uploader_error _ _ x _ running a give_up refl (
      or_finish-Ended e e.test_error _ _ x _ running a give_up refl
        (after_collect-Ended e _ (collect_artifacts-At e.collect x a)))

  quit-Ended :
      (e : RunEnv) (err : Option String) (x : Exec) (next : Option String × Exec)
      → e.start_error ≡ err
      → Follows id job_id queued x.writes queued
      → Ended id job_id e next.1.writes
      → Ended id job_id e (or_quit err x next).1.writes
  unfolding is_active
  quit-Ended e none x next same f h = h
  quit-Ended e (some msg) x next same f h = record {
    last = queued;
    follows = f;
    finished = λ saved started. absurd (some≢none (sym same ∙ started));
    left = λ lost. refl;
  }

  start_run-Ended :
      (e : RunEnv) (workdir : String) (x : Exec)
      → At id job_id queued x
      → Ended id job_id e (start_run e workdir x).1.writes
  unfolding start_run
  start_run-Ended e workdir x a =
      let run = started_run e workdir x.run in
      quit-Ended e e.start_error _ _ refl a.trace (
        run_backup-Ended e _ (record {
          trace = row run a.trace begin a.same_id a.same_job;
          status = refl;
          same_id = a.same_id;
          same_job = a.same_job;
        }))

  pub execute_in-Ended :
      (e : RunEnv) (r : Result String) (x : Exec)
      → At id job_id queued x
      → Ended id job_id e (execute_in e r x).1.writes
  unfolding execute_in is_active
  execute_in-Ended e (fail msg) x a = finish-Ended e _ _ _ x queued a fail_early refl
  execute_in-Ended e (ok workdir) x a =
      or_finish-Ended e e.logger_error _ _ x _ queued a fail_early refl
        (start_run-Ended e workdir x a)
