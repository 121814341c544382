-- ===== src/Models/Deploy.antt =====
-- The hotfix pipeline's configuration and results.
use wow_server_sim.Common.{ℕ, ℤ, String, Bool, Option, List}
use wow_server_sim.Models.Control.{Params}

pub data Action : Type 0 where
  activate_action deactivate_action : Action

abbrev pub action_name : Action → String
action_name activate_action = "activate"
action_name deactivate_action = "deactivate"

pub record PipelineConfig (R : Type 0) : Type 0 where
  pub version : String
  pub fault_id : String
  pub action : Action
  pub params : Params
  pub target_zone_id : ℤ
  pub duration_ticks : ℤ
  pub canary_duration_seconds : R
  pub canary_poll_interval_seconds : R
  pub rollback_on : String  -- "critical" or "degraded"
  pub game_host : String
  pub game_port : ℕ
  pub control_host : String
  pub control_port : ℕ
  pub log_file : Option String

pub data Stage : Type 0 where
  build validate canary promote rollback : Stage

abbrev pub stage_name : Stage → String
stage_name build = "build"
stage_name validate = "validate"
stage_name canary = "canary"
stage_name promote = "promote"
stage_name rollback = "rollback"

-- `samples` is the one key that `details` may have.
pub record StageResult (R : Type 0) : Type 0 where
  pub stage : Stage
  pub passed : Bool
  pub message : String
  pub duration_seconds : R
  pub health_status : Option String
  pub samples : List String

pub data Outcome : Type 0 where
  promoted rolled_back aborted : Outcome

abbrev pub outcome_name : Outcome → String
outcome_name promoted = "promoted"
outcome_name rolled_back = "rolled_back"
outcome_name aborted = "aborted"

pub record PipelineResult (R : Type 0) : Type 0 where
  pub config : PipelineConfig R
  pub stages : List (StageResult R)
  pub outcome : Outcome
  pub total_duration_seconds : R
