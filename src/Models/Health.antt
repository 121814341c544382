-- ===== src/Models/Health.antt =====
-- Health reports.
use wow_server_sim.Common.{ℕ, String, Bool, Option, List}
use wow_server_sim.Models.Telemetry.{Anomaly}
use wow_server_sim.Models.Control.{FaultInfo}
use wow_server_sim.Models.Mechanics.{GameMechanicSummary}

pub record TickHealth (R : Type 0) : Type 0 where
  pub total_ticks : ℕ
  pub avg_duration_ms : R
  pub max_duration_ms : R
  pub min_duration_ms : R
  pub overrun_count : ℕ
  pub overrun_pct : R

pub record ZoneHealthSummary (R : Type 0) : Type 0 where
  pub zone_id : ℕ
  pub state : String
  pub tick_count : ℕ
  pub error_count : ℕ
  pub avg_tick_duration_ms : R
  pub total_casts : ℕ
  pub total_damage : ℕ
  pub zone_dps : R

pub data Status : Type 0 where
  healthy degraded critical : Status

abbrev pub status_name : Status → String
status_name healthy = "healthy"
status_name degraded = "degraded"
status_name critical = "critical"

pub record HealthReport (R : Type 0) : Type 0 where
  pub timestamp : ℕ
  pub status : Status
  pub server_reachable : Bool
  pub tick : Option (TickHealth R)
  pub zones : List (ZoneHealthSummary R)
  pub connected_players : ℕ
  pub anomalies : List (Anomaly R)
  pub active_faults : List FaultInfo
  pub error_count : ℕ
  pub uptime_ticks : ℕ
  pub game_mechanics : Option (GameMechanicSummary R)
