-- ===== src/Benchmark/Verdict.antt =====
-- `evaluate_scenario` and `evaluate_benchmark` of tools/wowsim/benchmark.py.
pub mod Judges
use wow_server_sim.Common.{
  ℤ, pos, int_lt, int_text, ◌≤◌, ◌≡◌, ◌↔◌, refl, String, Bool, true, false, not, ◌&&◌, Option, none,
  some, List, [], ◌∷◌, ◌++◌, map, select, all, All, In, concat, join, is_nil, if◌then◌else◌, arith,
}
use wow_server_sim.Float.{Float}
use wow_server_sim.Models.{TickHealth, PercentileStats, ScenarioResult, BenchmarkConfig}

module _ {R : Type 0} ⦃fl : Float R⦄ where
  open fl use {lt, fixed}

  -- `if value > limit: failures.append(...)`
  pub exceeded : (name unit : String) (value limit : R) → List String
  exceeded name unit value limit =
      if lt limit value
      then concat (name ∷ " " ∷ fixed 1 value ∷ unit ∷ " > " ∷ fixed 1 limit ∷ unit ∷ []) ∷ []
      else []

  unfoldable pub evaluate_scenario :
      TickHealth R
      → PercentileStats R
      → (throughput : R) (client_count : ℤ) (config : BenchmarkConfig R) → ScenarioResult R
  unfolding exceeded
  evaluate_scenario tick_health percentiles throughput client_count config =
      let failures =
        exceeded "avg" "ms" tick_health.avg_duration_ms config.max_avg_tick_ms
        ++ (exceeded "p99" "ms" percentiles.p99_ms config.max_p99_tick_ms
            ++ exceeded "overrun" "%" tick_health.overrun_pct config.max_overrun_pct) in
      let passed = is_nil failures in
      record {
        client_count = client_count;
        tick_health = tick_health;
        percentiles = percentiles;
        throughput_actions_per_sec = throughput;
        passed = passed;
        message = if passed then "All thresholds met" else join "; " failures;
      }

-- `max(xs)` of a list that is not empty, given its head apart.
pub maximum : ℤ → List ℤ → ℤ
maximum b [] = b
maximum b (x ∷ xs) = maximum (if int_lt b x then x else b) xs

abbrev pub passed_text : (max_count : ℤ) → String
passed_text max_count =
    concat ("All scenarios passed (max " ∷ int_text max_count ∷ " clients)" ∷ [])

module _ {R : Type 0} where
  -- `max(s.client_count for s in passing) if passing else 0`
  pub max_clients : List (ScenarioResult R) → ℤ
  unfolding maximum
  max_clients [] = pos 0
  max_clients (s ∷ ss) = maximum s.client_count (map (λ s. s.client_count) ss)

  abbrev pub failed_text : ScenarioResult R → (max_passing : ℤ) → String
  failed_text first_fail max_passing = concat (
      "Failed at "
      ∷ int_text first_fail.client_count
      ∷ " clients (max passing: "
      ∷ int_text max_passing
      ∷ ")"
      ∷ [])

  -- `failing[0]`; the list is not empty when some scenario failed.
  abbrev pub failure_summary : List (ScenarioResult R) → (max_passing : ℤ) → String
  failure_summary [] max_passing = ""
  failure_summary (s ∷ ss) max_passing = failed_text s max_passing

  unfoldable pub evaluate_benchmark : List (ScenarioResult R) → Bool × String
  unfolding max_clients
  evaluate_benchmark scenarios =
      let passing = select (λ s. s.passed) scenarios in
      let failing = select (λ s. not s.passed) scenarios in
      if all (λ s. s.passed) scenarios
      then (true, passed_text (max_clients passing))
      else (false, failure_summary failing (max_clients passing))
