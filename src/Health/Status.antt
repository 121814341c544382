-- ===== src/Health/Status.antt =====
-- `determine_status` of tools/wowsim/health_check.py.
pub mod Levels
pub mod Signals
use wow_server_sim.Common.{
  ℕ, Bool, true, false, ◌&&◌, ◌||◌, Option, none, some, List, any, str_eq, ltb, ◌==◌, if◌then◌else◌,
}
use wow_server_sim.Float.{Float}
use wow_server_sim.Models.{
  Anomaly, TickHealth, ZoneHealthSummary, GameMechanicSummary, Status, healthy, degraded, critical,
}
use wow_server_sim.Logs.Entries.{is_critical, is_warning}

module _ {R : Type 0} ⦃fl : Float R⦄ where
  open fl use {of_ℕ, true_div, lt}

  -- `tick is not None and tick.overrun_pct > 10.0`
  abbrev pub overruns_often : Option (TickHealth R) → Bool
  overruns_often none = false
  overruns_often (some t) = lt (of_ℕ 10) t.overrun_pct

  pub mechanics_status : Option (GameMechanicSummary R) → (connected_players : ℕ) → Status
  mechanics_status none connected_players = healthy
  mechanics_status (some gm) connected_players =
      if lt (true_div 1 2) gm.cast_metrics.gcd_block_rate
      then degraded
      else if ltb 0 gm.cast_metrics.casts_started
          && lt gm.cast_metrics.cast_success_rate (true_div 1 2)
      then degraded
      else if ltb 0 connected_players
          && (gm.combat_metrics.total_attacks == 0 && gm.cast_metrics.casts_started == 0)
      then degraded
      else healthy

  unfoldable pub determine_status :
      Option (TickHealth R)
      → List (ZoneHealthSummary R)
      → List (Anomaly R)
      → Option (GameMechanicSummary R)
      → (connected_players : ℕ) → Status
  unfolding mechanics_status
  determine_status tick zones anomalies game_mechanics connected_players =
      if any is_critical anomalies
      then critical
      else if any (λ z. str_eq z.state "CRASHED") zones
      then critical
      else if any is_warning anomalies
      then degraded
      else if any (λ z. str_eq z.state "DEGRADED") zones
      then degraded
      else if overruns_often tick
      then degraded
      else mechanics_status game_mechanics connected_players
