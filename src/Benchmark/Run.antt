-- ===== src/Benchmark/Run.antt =====
-- `run_benchmark` of tools/wowsim/benchmark.py with the calls that it makes.
pub mod Report
use wow_server_sim.Common.{
  ℕ, ℤ, pos, negsuc, ◌+◌, String, Bool, Option, none, some, List, [], ◌∷◌, ltb, if◌then◌else◌,
}
use wow_server_sim.Float.{Float}
use wow_server_sim.Effects.{Env, Session, Exec, value_error, pure, throw, now, ask, ◌>>=◌, ◌>>◌}
use wow_server_sim.Models.{
  TelemetryEntry, TickHealth, PercentileStats, ScenarioResult, BenchmarkConfig, BenchmarkResult,
  ClientConfig, SpawnResult,
}
use wow_server_sim.Logs.Parse.{recent_entries}
use wow_server_sim.Health.Ticks.{compute_tick_health}
use wow_server_sim.MockClient.Run.{World}
use wow_server_sim.MockClient.Spawn.{spawn_clients}
use wow_server_sim.Benchmark.Percentiles.{compute_percentiles, compute_throughput}
use wow_server_sim.Benchmark.Verdict.{evaluate_scenario, evaluate_benchmark}

module _ {R : Type 0} ⦃fl : Float R⦄ where
  open fl use {of_ℕ}

  abbrev pub tick_health_or_zero : Option (TickHealth R) → TickHealth R
  tick_health_or_zero (some t) = t
  tick_health_or_zero none = record {
    total_ticks = 0;
    avg_duration_ms = of_ℕ 0;
    max_duration_ms = of_ℕ 0;
    min_duration_ms = of_ℕ 0;
    overrun_count = 0;
    overrun_pct = of_ℕ 0;
  }

  abbrev pub percentiles_or_zero : Option (PercentileStats R) → PercentileStats R
  percentiles_or_zero (some p) = p
  percentiles_or_zero none = record {
    p50_ms = of_ℕ 0;
    p95_ms = of_ℕ 0;
    p99_ms = of_ℕ 0;
    jitter_ms = of_ℕ 0;
  }

-- `worlds i` are the worlds of the clients of scenario `i`.
module _ {R : Type 0} ⦃fl : Float R⦄ (env : Env R) (worlds : ℕ → ℕ → World R) (fuel : ℕ)
    (config : BenchmarkConfig R) where
  open fl use {of_ℕ, lt}

  abbrev pub client_config : ClientConfig R
  client_config = record {
    host = config.game_host;
    port = config.game_port;
    actions_per_second = config.actions_per_second;
    duration_seconds = config.duration_seconds;
  }

  -- `run_spawn`, which reads the clock around the clients' run.
  unfoldable pub spawn : (i count : ℕ) → Exec (SpawnResult R)
  spawn i count = do
    start ← now env
    end ← now env
    λ s. (spawn_clients (worlds i) fuel start end client_config count, s)

  -- `if count > 0: ... else: throughput = 0.0`
  unfoldable pub measure : (i : ℕ) (count : ℤ) → Exec R
  unfolding spawn
  measure i (pos count) =
      if ltb 0 count
      then (do spawn_result ← spawn i count; pure (compute_throughput spawn_result))
      else pure (of_ℕ 0)
  measure i (negsuc n) = pure (of_ℕ 0)

  abbrev pub read_telemetry : Option String → Exec (List (TelemetryEntry R))
  read_telemetry none = pure []
  read_telemetry (some path) = do
    lines ← ask env (λ n. env.read_lines n path)
    pure (recent_entries env.decode_entry 2000 lines)

  abbrev pub settle : R → Exec (Unit {0})
  settle seconds =
      if lt seconds (of_ℕ 0)
      then throw (value_error "sleep length must be non-negative")
      else pure tt

  abbrev pub judge : List (TelemetryEntry R) → R → ℤ → ScenarioResult R
  judge entries throughput count =
      evaluate_scenario (tick_health_or_zero (compute_tick_health entries))
        (percentiles_or_zero (compute_percentiles entries)) throughput count config

  unfoldable pub run_scenario : (i : ℕ) (count : ℤ) → Exec (ScenarioResult R)
  unfolding measure
  run_scenario i count = do
    throughput ← measure i count
    settle config.settle_seconds
    entries ← read_telemetry config.log_file
    pure (judge entries throughput count)

  -- The loop over the client counts, from scenario `i` on.
  unfoldable pub run_scenarios : (i : ℕ) → List ℤ → Exec (List (ScenarioResult R))
  run_scenarios i [] = pure []
  run_scenarios i (count ∷ counts) = do
    scenario ← run_scenario i count
    rest ← run_scenarios (i + 1) counts
    pure (scenario ∷ rest)

  unfoldable pub run_benchmark : Exec (BenchmarkResult R)
  unfolding run_scenarios
  run_benchmark = do
    start ← now env
    scenarios ← run_scenarios 0 config.client_counts
    end ← now env
    pure (record {
      config = config;
      scenarios = scenarios;
      overall_passed = (evaluate_benchmark scenarios).0;
      summary_message = (evaluate_benchmark scenarios).1;
      total_duration_seconds = fl.sub end start;
    })
