-- ===== src/Cli/Deploy.antt =====
-- The commands `deploy` and `benchmark` of tools/wowsim/cli.py. `dump` is pydantic's
-- `model_dump_json(indent=2)`.
pub mod Exits
pub mod Runs
use wow_server_sim.Common.{
  ℕ, ℤ, String, Bool, true, false, Option, none, some, List, [], ◌∷◌, if◌then◌else◌,
}
use wow_server_sim.Float.{Float}
use wow_server_sim.Effects.{Env, Outcome, Session, Exec, pure, continue, ◌>>=◌}
use wow_server_sim.Models.{Action, PipelineConfig, PipelineResult, BenchmarkConfig, BenchmarkResult}
use wow_server_sim.Pipeline.Run.{run_pipeline}
use wow_server_sim.Pipeline.Format.{format_pipeline_result}
use wow_server_sim.MockClient.Run.{World}
use wow_server_sim.Benchmark.Run.{run_benchmark}
use wow_server_sim.Benchmark.Format.{format_benchmark_result}
use wow_server_sim.Cli.{Format, text, json, Tuning, params_of}
use wow_server_sim.Cli.Faults.{ticks_of}
use wow_server_sim.Cli.Counts.{parse_counts}

-- The options of `deploy`.
pub record DeployOptions (R : Type 0) : Type 0 where
  pub fault_id : String
  pub action : Action
  pub deploy_version : String
  pub canary_duration : R
  pub canary_interval : R
  pub rollback_on : String
  pub log_file : Option String
  pub host : String
  pub port : ℕ
  pub control_port : ℕ
  pub tuning : Tuning
  pub duration : Option String
  pub target_zone_id : ℤ
  pub output_format : Format

-- What a command echoes, and the exit code of the process.
pub record Exit : Type 0 where
  pub echoed : List String
  pub code : ℕ

module _ {R : Type 0} where
  unfoldable pub deploy_config : DeployOptions R → (duration_ticks : ℤ) → PipelineConfig R
  unfolding params_of
  deploy_config options duration_ticks = record {
    version = options.deploy_version;
    fault_id = options.fault_id;
    action = options.action;
    params = params_of options.tuning;
    target_zone_id = options.target_zone_id;
    duration_ticks = duration_ticks;
    canary_duration_seconds = options.canary_duration;
    canary_poll_interval_seconds = options.canary_interval;
    rollback_on = options.rollback_on;
    game_host = options.host;
    game_port = options.port;
    control_host = options.host;
    control_port = options.control_port;
    log_file = options.log_file;
  }

module _ {R : Type 0} (fl : Float R) (env : Env R) (dump : PipelineResult R → String) where
  abbrev pub pipeline_text : Format → PipelineResult R → String
  pipeline_text json result = dump result
  pipeline_text text result = format_pipeline_result ⦃fl = fl⦄ result

  abbrev pub echo_result : Format → PipelineResult R → Exit
  echo_result output_format result = record {
    echoed = pipeline_text output_format result ∷ [];
    code = 0;
  }

  unfoldable pub run_deploy : (fuel : ℕ) → DeployOptions R → (duration_ticks : ℤ) → Exec Exit
  unfolding deploy_config
  run_deploy fuel options duration_ticks =
      run_pipeline ⦃fl = fl⦄ env (deploy_config options duration_ticks) fuel >>= λ result.
      pure (echo_result options.output_format result)

  unfoldable pub deploy : (fuel : ℕ) → DeployOptions R → Exec Exit
  unfolding run_deploy ticks_of
  deploy fuel options s = continue (ticks_of fl options.duration) (run_deploy fuel options) s

-- The options of `benchmark`.
pub record BenchmarkOptions (R : Type 0) : Type 0 where
  pub log_file : String
  pub host : String
  pub port : ℕ
  pub counts : String
  pub duration : R
  pub rate : R
  pub settle : R
  pub max_avg_tick : R
  pub max_p99_tick : R
  pub max_overrun_pct : R
  pub output_format : Format

module _ {R : Type 0} where
  unfoldable pub benchmark_config :
      BenchmarkOptions R → (client_counts : List ℤ) → BenchmarkConfig R
  benchmark_config options client_counts = record {
    game_host = options.host;
    game_port = options.port;
    log_file = some options.log_file;
    client_counts = client_counts;
    duration_seconds = options.duration;
    actions_per_second = options.rate;
    settle_seconds = options.settle;
    max_avg_tick_ms = options.max_avg_tick;
    max_p99_tick_ms = options.max_p99_tick;
    max_overrun_pct = options.max_overrun_pct;
  }

module _ {R : Type 0} ⦃fl : Float R⦄ (env : Env R) (worlds : ℕ → ℕ → World R) (fuel : ℕ)
    (dump : BenchmarkResult R → String) where
  abbrev pub benchmark_text : Format → BenchmarkResult R → String
  benchmark_text json result = dump result
  benchmark_text text result = format_benchmark_result result

  -- `sys.exit(0 if result.overall_passed else 1)`
  unfoldable pub exit_by : Format → BenchmarkResult R → Exit
  exit_by output_format result = record {
    echoed = benchmark_text output_format result ∷ [];
    code = if result.overall_passed then 0 else 1;
  }

  unfoldable pub run_counts : BenchmarkOptions R → (client_counts : List ℤ) → Exec Exit
  unfolding benchmark_config exit_by
  run_counts options client_counts =
      run_benchmark env worlds fuel (benchmark_config options client_counts) >>= λ result.
      pure (exit_by options.output_format result)

  unfoldable pub benchmark : BenchmarkOptions R → Exec Exit
  unfolding run_counts parse_counts
  benchmark options s = continue (parse_counts options.counts) (run_counts options) s
