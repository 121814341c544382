-- ===== src/Tests/Benchmark.antt =====
-- The theorems about the benchmark on three ticks.
use wow_server_sim.Common.{refl, List, [], ◌∷◌, map, select}
use wow_server_sim.Float.Fixed.{Thousandths, thousandths, thousandths-IsFloat}
use wow_server_sim.Models.{PercentileStats}
use wow_server_sim.Logs.Entries.{is_tick, tick_duration}
use wow_server_sim.Benchmark.Percentiles.{
  compute_percentiles, percentile_stats, stats_of, percentile, rank,
}
use wow_server_sim.Benchmark.Percentiles.Ranks.{ArePercentiles, compute_percentiles-ArePercentiles}
use wow_server_sim.Tests.Samples.{Entry, tick}
use wow_server_sim.Common.Sort.{sort_by, insert_by}

abbrev ticks : List Entry
ticks = tick 1 3 ∷ tick 2 1 ∷ tick 3 2 ∷ []

-- A difference below 0 is 0 in `Thousandths`, so only one of the three counts for the jitter.
abbrev tick_percentiles : PercentileStats Thousandths
tick_percentiles = record { p50_ms = 2000; p95_ms = 3000; p99_ms = 3000; jitter_ms = 577 }

compute_percentiles-ArePercentiles_example :
    ArePercentiles (map tick_duration (select is_tick ticks)) tick_percentiles
unfolding compute_percentiles percentile_stats stats_of percentile rank sort_by insert_by is_tick
    tick_duration
compute_percentiles-ArePercentiles_example =
    compute_percentiles-ArePercentiles thousandths-IsFloat ticks tick_percentiles refl
