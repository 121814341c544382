-- ===== src/Benchmark/Format.antt =====
-- `format_scenario_result` and `format_benchmark_result` of tools/wowsim/benchmark.py.
use wow_server_sim.Common.{String, Bool, [], ◌∷◌, ◌++◌, concat, join, int_text, map, if◌then◌else◌}
use wow_server_sim.Float.{Float}
use wow_server_sim.Models.{ScenarioResult, BenchmarkResult}

abbrev tag : Bool → String
tag passed = if passed then "PASS" else "FAIL"

module _ {R : Type 0} ⦃fl : Float R⦄ where
  open fl use {fixed, repr}

  unfoldable pub format_scenario_result : ScenarioResult R → String
  format_scenario_result result = concat (
      "["
      ∷ tag result.passed
      ∷ "] "
      ∷ int_text result.client_count
      ∷ " clients — avg "
      ∷ fixed 1 result.tick_health.avg_duration_ms
      ∷ "ms, p99 "
      ∷ fixed 1 result.percentiles.p99_ms
      ∷ "ms, "
      ∷ fixed 1 result.tick_health.overrun_pct
      ∷ "% overrun"
      ∷ [])

  -- `{result.config.client_counts}` is the `repr` of a list.
  unfoldable pub format_benchmark_result : BenchmarkResult R → String
  unfolding format_scenario_result
  format_benchmark_result result = join "\n" (
      "=== Benchmark Report ==="
        ∷ concat (
            "Clients: ["
            ∷ join ", " (map int_text result.config.client_counts)
            ∷ "]  Duration: "
            ∷ repr result.config.duration_seconds
            ∷ "s/scenario"
            ∷ [])
        ∷ ""
        ∷ "Scenarios:"
        ∷ map (λ scenario. concat ("  " ∷ format_scenario_result scenario ∷ [])) result.scenarios
      ++ (""
          ∷ concat ("Result: [" ∷ tag result.overall_passed ∷ "] " ∷ result.summary_message ∷ [])
          ∷ concat ("Total:  " ∷ fixed 2 result.total_duration_seconds ∷ "s" ∷ [])
          ∷ []))
