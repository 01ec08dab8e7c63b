-- ===== src/Ops/Types.antt =====
-- The rows of the tables ops_jobs, ops_job_items and nodes (backend/internal/db/models.go) as far as
-- the service of the jobs uses them, and its request.
use x_ui_aggr.Prelude.{ℕ, String, Bool, Option, List}
use x_ui_aggr.Prelude.Int.{ℤ}

-- The four texts that the service writes into the columns named status.
pub data Status : Type 0 where
  queued running success failed : Status

-- The parameters that decide a branch; the others are passed to the executors.
pub record JobParams : Type 0 where
  pub dry_run : Bool
  pub simulate_delay_ms : ℤ
  pub confirm : String
  pub sandbox : Bool
  pub force_redeploy : Bool
  pub install_docker : Bool
  pub restart_service : String

pub record CreateJobRequest : Type 0 where
  pub kind : String
  pub node_ids : List String
  pub all_nodes : Bool
  pub parallelism : ℤ
  pub params : JobParams
  pub actor : String

pub record OpsJob : Type 0 where
  pub id : ℕ
  pub kind : String
  pub status : Status
  pub created_by_actor : String
  pub parallelism : ℕ
  pub targets : List ℕ
  pub params : JobParams
  pub error : Option String
  pub started_at : Option ℕ
  pub finished_at : Option ℕ

pub record OpsJobItem : Type 0 where
  pub id : ℕ
  pub job_id : ℕ
  pub node_id : ℕ
  pub status : Status
  pub log : String
  pub exit_code : Option ℤ
  pub error : Option String
  pub started_at : Option ℕ
  pub finished_at : Option ℕ

pub record Node : Type 0 where
  pub id : ℕ
  pub is_sandbox : Bool
  pub agent_enabled : Bool
  pub agent_installed : Bool
  pub agent_url : Option String

-- The tables; the jobs are in the order of created_at.
pub record Store : Type 0 where
  pub jobs : List OpsJob
  pub items : List OpsJobItem
  pub nodes : List Node
