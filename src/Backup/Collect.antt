-- ===== src/Backup/Collect.antt =====
-- collectArtifacts of backend/internal/services/backup/runner.go: the loop over the sources of a job,
-- of which Item has the work on one.
pub mod Item
pub mod Complete
use Prim.Native.String
use x_ui_aggr.Prelude.{
  ℕ, ◌+◌, String, Bool, true, false, Option, none, some, List, [], ◌∷◌, ◌++◌, ◌is◌, ◌==◌,
  if◌then◌else◌,
}
use x_ui_aggr.Prelude.Strings.{trim_space}
use x_ui_aggr.Prelude.Results.{Result, ok, fail}
use x_ui_aggr.Backup.Types.{RunStatus, running, success}
use x_ui_aggr.Backup.Rows.{ArtifactFile, BackupJob, BackupRun, BackupSource}
unfoldable pub use Item.*

abbrev pub or_first : Option String → String → Option String
or_first none msg = some msg
or_first (some first) msg = some first

abbrev pub noted : Option String → Option String → Option String
noted first none = first
noted first (some msg) = or_first first msg

abbrev pub Gathered : Type 0
Gathered = (List ArtifactFile × Option String) × Exec

-- What a source adds: an artifact, or its error where it is the first.
abbrev pub gather : List ArtifactFile → Option String → Result ArtifactFile × Exec → Gathered
gather artifacts first (fail msg, x) = ((artifacts, or_first first msg), x)
gather artifacts first (ok artifact, x) = ((artifacts ++ artifact ∷ [], first), x)

-- A context that has ended ends the loop, and its error takes the place of the first.
abbrev pub or_end : Option String → List ArtifactFile → Exec → Gathered → Gathered
or_end none artifacts x next = next
or_end (some msg) artifacts x next = ((artifacts, some msg), x)

-- The loop over the sources: the artifacts so far and the first error.
unfoldable pub collect_sources :
    List (SourceEnv × BackupSource) → List ArtifactFile → Option String → Exec → Gathered
collect_sources [] artifacts first x = ((artifacts, first), x)
collect_sources ((e, source) ∷ rest) artifacts first x =
    let g =
      if source.enabled
      then gather artifacts first (execute_source e source x)
      else ((artifacts, first), x) in
    let next = collect_sources rest g.0.0 g.0.1 g.1 in
    if source.enabled then or_end e.cancelled artifacts x next else next

pub record CollectEnv : Type 0 where
  pub node_error : Option String
  pub open_error : Option String
  pub remote_workdir : String
  pub workdir_saved : Bool
  pub mkdir_error : Option String
  pub sources : List (SourceEnv × BackupSource)

abbrev pub or_stop : Option String → Exec → Gathered → Gathered
or_stop none x next = next
or_stop (some msg) x next = (([], some msg), x)

-- The nil UUID counts as no node.
abbrev pub names_node : Option ℕ → Bool
names_node none = false
names_node (some node_id) = if node_id == 0 then false else true

unfoldable pub collect_artifacts : CollectEnv → Exec → Gathered
collect_artifacts e x =
    if names_node x.job.node_id
    then or_stop e.node_error x (
        or_stop e.open_error x (
          let run : BackupRun = record x.run { remote_workdir = some e.remote_workdir } in
          let x1 = try_write e.workdir_saved (run_row run) (record x { run = run }) in
          or_stop e.mkdir_error x1 (collect_sources e.sources [] none x1)))
    else (([], some "backup jobs currently require node_id for real execution"), x)
