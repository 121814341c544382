-- ===== src/Benchmark/Percentiles.antt =====
-- `compute_percentiles` and `compute_throughput` of tools/wowsim/benchmark.py.
pub mod Ranks
use wow_server_sim.Common.{
  ℕ, ◌-◌, Bool, Option, none, some, List, [], ◌∷◌, map, select, length, get_elem?, leb, ◌==◌,
  if◌then◌else◌,
}
use wow_server_sim.Common.Sort.{sort_by}
use wow_server_sim.Float.{Float}
use wow_server_sim.Models.{TelemetryEntry, PercentileStats, SpawnResult}
use wow_server_sim.Logs.Entries.{is_tick, tick_duration}

-- `min(math.ceil(pct / 100.0 * n), n)`
unfoldable pub rank : (R : Type 0) ⦃fl : Float R⦄ (pct n : ℕ) → ℕ
rank R ⦃fl⦄ pct n =
    let r = fl.ceil (fl.mul (fl.div (fl.of_ℕ pct) (fl.of_ℕ 100)) (fl.of_ℕ n)) in
    if leb r n then r else n

-- `durations[rank - 1]` of a list of length `n`, where index -1 is the last item.
abbrev pub position : (rank n : ℕ) → ℕ
position r n = if r == 0 then n - 1 else r - 1

module _ {R : Type 0} ⦃fl : Float R⦄ where
  open fl use {of_ℕ, mul, div, sub, sum, sqrt, round, le}

  abbrev pub item : R → List R → ℕ → R
  item x xs i = elim (get_elem? (x ∷ xs) i) [ none ↦ x | some y ↦ y ]

  unfoldable pub percentile : R → List R → (pct : ℕ) → R
  unfolding rank
  percentile x xs pct = let n = length (x ∷ xs) in item x xs (position (rank R pct n) n)

  -- The statistics of the sorted durations. The OverflowError of a square that is too large for a
  -- float is left out.
  unfoldable pub stats_of : R → List R → PercentileStats R
  unfolding percentile
  stats_of x xs =
      let n = of_ℕ (length (x ∷ xs)) in
      let mean = div (sum (x ∷ xs)) n in
      let variance = div (sum (map (λ d. mul (sub d mean) (sub d mean)) (x ∷ xs))) n in
      record {
        p50_ms = percentile x xs 50;
        p95_ms = percentile x xs 95;
        p99_ms = percentile x xs 99;
        jitter_ms = round (sqrt variance) 6;
      }

  unfoldable pub percentile_stats : List R → Option (PercentileStats R)
  unfolding stats_of
  percentile_stats [] = none
  percentile_stats (x ∷ xs) = some (stats_of x xs)

  unfoldable pub compute_percentiles : List (TelemetryEntry R) → Option (PercentileStats R)
  unfolding percentile_stats
  compute_percentiles entries =
      percentile_stats (sort_by le (map tick_duration (select is_tick entries)))

  unfoldable pub compute_throughput : SpawnResult R → R
  compute_throughput spawn_result =
      if le spawn_result.total_duration_seconds (of_ℕ 0)
      then of_ℕ 0
      else div (of_ℕ spawn_result.total_actions_sent) spawn_result.total_duration_seconds
