-- ===== src/Mechanics/Summary.antt =====
-- `aggregate_game_mechanics` of tools/wowsim/game_metrics.py.
pub mod Leaders
use wow_server_sim.Common.{ℕ, some, List, take}
use wow_server_sim.Float.{Float}
use wow_server_sim.Models.{TelemetryEntry, GameMechanicSummary}
use wow_server_sim.Mechanics.{compute_duration_seconds}
use wow_server_sim.Mechanics.Casts.{aggregate_cast_metrics}
use wow_server_sim.Mechanics.Combat.{compute_entity_dps, aggregate_combat_metrics}

module _ {R : Type 0} ⦃fl : Float R⦄ where
  unfoldable pub aggregate_game_mechanics :
      List (TelemetryEntry R) → (top_n : ℕ) → GameMechanicSummary R
  aggregate_game_mechanics entries top_n =
      let duration = compute_duration_seconds entries in
      record {
        cast_metrics = aggregate_cast_metrics entries (some duration);
        combat_metrics = aggregate_combat_metrics entries (some duration);
        top_damage_dealers = take top_n (compute_entity_dps entries (some duration));
        duration_seconds = duration;
      }
