-- ===== src/Health/Ticks.antt =====
-- `compute_tick_health` of tools/wowsim/health_check.py.
pub mod Bounds
use wow_server_sim.Common.{
  ℕ, Bool, false, Option, none, some, List, [], ◌∷◌, map, select, tally, length, if◌then◌else◌,
}
use wow_server_sim.Float.{Float}
use wow_server_sim.Models.{TelemetryEntry, TickHealth}
use wow_server_sim.Logs.Entries.{get_or, is_tick, tick_duration}

module _ {R : Type 0} where
  abbrev pub overran : TelemetryEntry R → Bool
  overran e = get_or e.payload.overrun false

module _ {R : Type 0} ⦃fl : Float R⦄ where
  open fl use {of_ℕ, true_div, div, mul, sum, lt}

  -- `max` and `min` keep the first of equal items.
  pub largest : R → List R → R
  largest best [] = best
  largest best (x ∷ xs) = largest (if lt best x then x else best) xs

  pub smallest : R → List R → R
  smallest best [] = best
  smallest best (x ∷ xs) = smallest (if lt x best then x else best) xs

  pub stats : R → List R → (overruns : ℕ) → TickHealth R
  unfolding largest smallest
  stats d ds overruns =
      let total = length (d ∷ ds) in
      record {
        total_ticks = total;
        avg_duration_ms = div (sum (d ∷ ds)) (of_ℕ total);
        max_duration_ms = largest d ds;
        min_duration_ms = smallest d ds;
        overrun_count = overruns;
        overrun_pct = mul (true_div overruns total) (of_ℕ 100);
      }

  pub tick_stats : List R → (overruns : ℕ) → Option (TickHealth R)
  unfolding stats
  tick_stats [] overruns = none
  tick_stats (d ∷ ds) overruns = some (stats d ds overruns)

  unfoldable pub compute_tick_health : List (TelemetryEntry R) → Option (TickHealth R)
  unfolding tick_stats
  compute_tick_health entries =
      let tick_entries = select is_tick entries in
      tick_stats (map tick_duration tick_entries) (tally overran tick_entries)
