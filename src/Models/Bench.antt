-- ===== src/Models/Bench.antt =====
-- Benchmark configuration and results.
use wow_server_sim.Common.{ℕ, ℤ, String, Bool, Option, List}
use wow_server_sim.Models.Health.{TickHealth}

pub record PercentileStats (R : Type 0) : Type 0 where
  pub p50_ms : R
  pub p95_ms : R
  pub p99_ms : R
  pub jitter_ms : R

pub record ScenarioResult (R : Type 0) : Type 0 where
  pub client_count : ℤ
  pub tick_health : TickHealth R
  pub percentiles : PercentileStats R
  pub throughput_actions_per_sec : R
  pub passed : Bool
  pub message : String

pub record BenchmarkConfig (R : Type 0) : Type 0 where
  pub game_host : String
  pub game_port : ℕ
  pub log_file : Option String
  pub client_counts : List ℤ
  pub duration_seconds : R
  pub actions_per_second : R
  pub settle_seconds : R
  pub max_avg_tick_ms : R
  pub max_p99_tick_ms : R
  pub max_overrun_pct : R

pub record BenchmarkResult (R : Type 0) : Type 0 where
  pub config : BenchmarkConfig R
  pub scenarios : List (ScenarioResult R)
  pub overall_passed : Bool
  pub summary_message : String
  pub total_duration_seconds : R
