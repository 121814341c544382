-- ===== src/Cli/Deploy/Exits.antt =====
-- How the command `benchmark` ends.
use wow_server_sim.Common.{ℕ, ℤ, ◌≡◌, ◌↔◌, ◌⊎◌, String, true, false, some, List, [], ◌∷◌, map, All}
use wow_server_sim.Float.{Float}
use wow_server_sim.Effects.{Env, Outcome, ok, raise, spent, Session}
use wow_server_sim.Effects.Rules.{Holds}
use wow_server_sim.Models.{ScenarioResult, BenchmarkConfig, BenchmarkResult}
use wow_server_sim.Benchmark.Format.{format_benchmark_result}
use wow_server_sim.Cli.{Format, text, json}
use wow_server_sim.MockClient.Run.{World}
use wow_server_sim.Benchmark.Verdict.Judges.{Judges}
use wow_server_sim.Cli.Deploy.{BenchmarkOptions, Exit}

-- The text that is echoed in each format.
abbrev pub Echoes : {A : Type 0} → (dump format : A → String) → Format → A → Exit → Type 0
Echoes dump format json result exit = exit.echoed ≡ dump result ∷ []
Echoes dump format text result exit = exit.echoed ≡ format result ∷ []

module _ {R : Type 0} ⦃fl : Float R⦄ (env : Env R) (worlds : ℕ → ℕ → World R) (fuel : ℕ)
    (dump : BenchmarkResult R → String) (options : BenchmarkOptions R) where
  -- A scenario passed exactly when its figures keep within the limits of the options.
  abbrev pub WithinLimits : ScenarioResult R → Type 0
  WithinLimits s = (s.passed ≡ true) ↔ (
      (fl.lt options.max_avg_tick s.tick_health.avg_duration_ms ≡ false)
      × (fl.lt options.max_p99_tick s.percentiles.p99_ms ≡ false)
      × (fl.lt options.max_overrun_pct s.tick_health.overrun_pct ≡ false))

  -- The benchmark ran against the server, the log and the load of the options.
  pub record Serves (config : BenchmarkConfig R) : Type 0 where
    pub host : config.game_host ≡ options.host
    pub port : config.game_port ≡ options.port
    pub log_file : config.log_file ≡ some options.log_file
    pub duration : config.duration_seconds ≡ options.duration
    pub rate : config.actions_per_second ≡ options.rate
    pub settle : config.settle_seconds ≡ options.settle

  -- How a benchmark with these client counts exits.
  pub record Exits (counts : List ℤ) (exit : Exit) : Type 0 where
    pub result : BenchmarkResult R
    pub serves : Serves result.config
    pub covers : map (λ s. s.client_count) result.scenarios ≡ counts
    pub limits : All WithinLimits result.scenarios
    pub summary : Judges result.scenarios (result.overall_passed, result.summary_message)
    pub echoes : Echoes dump (λ r. format_benchmark_result r) options.output_format result exit
    pub zero : (exit.code ≡ 0) ↔ All (λ s. s.passed ≡ true) result.scenarios
    pub one : (exit.code ≡ 0) ⊎ (exit.code ≡ 1)

  -- How the command ends, by what the text of the counts is read as.
  abbrev pub CountsEnd : Session → Outcome (List ℤ) → Outcome Exit × Session → Type 0
  CountsEnd s (ok counts) out = Holds (λ exit s'. Exits counts exit) (λ _. ⊥) (λ _. ⊥) out.0 out.1
  CountsEnd s (raise e) out = out ≡ (raise e, s)
  CountsEnd s spent out = ⊥
