-- ===== src/Ops/Create/Accepted.antt =====
-- What an accepted request guarantees.
use x_ui_aggr.Prelude.{
  Option, ℕ, String, ◌≡◌, ◌≤◌, Bool, true, false, List, [], ◌∷◌, ◌++◌, ◌⊎◌, arith,
}
use x_ui_aggr.Prelude.Int.{ℤ, pos, negsuc}
use x_ui_aggr.Prelude.Results.{ok}
use x_ui_aggr.Prelude.Strings.{trim_space}
use x_ui_aggr.Alerts.Types.{UuidCodec}
use x_ui_aggr.Ops.Types.{CreateJobRequest, OpsJob, OpsJobItem, Store, queued}
use x_ui_aggr.Ops.Create.{CreateEnv, clamp_parallelism, node_ids_of, parse_ids}
use x_ui_aggr.Ops.Create.Kinds.{IsJobType, IsConfirmed}
use x_ui_aggr.Ops.Create.Targets.{TargetsFit}

pub clamp_parallelism_bounds : (n : ℤ) → (1 ≤ clamp_parallelism n) × (clamp_parallelism n ≤ 10)
unfolding clamp_parallelism
clamp_parallelism_bounds (pos n) = ground arith
clamp_parallelism_bounds (negsuc n) = ground arith

-- Item for item: the item belongs to the job and the node, and waits.
abbrev pub Waits : ℕ → List ℕ → List OpsJobItem → Type 0
Waits job [] [] = Unit
Waits job (id ∷ ids) (x ∷ xs) =
    ((x.job_id ≡ job) × (x.node_id ≡ id) × (x.status ≡ queued)) × Waits job ids xs
Waits job _ _ = ⊥

-- The targets are all the nodes, or those of the request.
abbrev pub IsChosen : UuidCodec → CreateJobRequest → Store → List ℕ → Type 0
IsChosen u req st ids =
    ((req.all_nodes ≡ true) × (ids ≡ node_ids_of st.nodes))
    ⊎ ((req.all_nodes ≡ false) × (parse_ids u req.node_ids ≡ ok ids))

-- What an accepted request gives, for the ids of its targets.
pub record Accepted (u : UuidCodec) (e : CreateEnv) (req : CreateJobRequest) (st : Store)
    (job : OpsJob) (after : Store) : Type 0 where
  pub ids : List ℕ
  pub items : List OpsJobItem
  pub phrase : Option String
  pub agent : Bool
  pub job_type : IsJobType (trim_space req.kind) phrase agent
  pub confirmed :
      (req.all_nodes ≡ false) ⊎ (req.params.dry_run ≡ true) ⊎ IsConfirmed phrase req.params.confirm
  pub chosen : IsChosen u req st ids
  pub fit : TargetsFit req (trim_space req.kind) agent st ids
  pub waiting : Waits e.job_id ids items
  pub kind : job.kind ≡ trim_space req.kind
  pub status : job.status ≡ queued
  pub parallelism : (1 ≤ job.parallelism) × (job.parallelism ≤ 10)
  pub targets : job.targets ≡ ids
  pub jobs : after.jobs ≡ st.jobs ++ job ∷ []
  pub stored : after.items ≡ st.items ++ items
