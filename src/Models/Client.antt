-- ===== src/Models/Client.antt =====
-- Mock clients.
use wow_server_sim.Common.{ℕ, String, Bool, Option, List}

pub record ClientConfig (R : Type 0) : Type 0 where
  pub host : String
  pub port : ℕ
  pub actions_per_second : R
  pub duration_seconds : R

pub record ClientResult (R : Type 0) : Type 0 where
  pub client_id : ℕ
  pub connected : Bool
  pub actions_sent : ℕ
  pub duration_seconds : R
  pub error : Option String

pub record SpawnResult (R : Type 0) : Type 0 where
  pub total_clients : ℕ
  pub successful_connections : ℕ
  pub failed_connections : ℕ
  pub total_actions_sent : ℕ
  pub total_duration_seconds : R
  pub clients : List (ClientResult R)
