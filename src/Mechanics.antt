-- ===== src/Mechanics.antt =====
-- tools/wowsim/game_metrics.py: cast and combat statistics.
pub mod Casts
pub mod Combat
pub mod Summary
use wow_server_sim.Common.{ℕ, List, [], ◌∷◌, map, Option, none, some}
use wow_server_sim.Float.{Float}
use wow_server_sim.Models.{TelemetryEntry}
use wow_server_sim.Logs.Summary.{min_from, max_from, total_seconds}

module _ {R : Type 0} ⦃fl : Float R⦄ where
  open fl use {of_ℕ}

  -- With two entries or more, the seconds between the earliest and the latest.
  unfoldable pub compute_duration_seconds : List (TelemetryEntry R) → R
  compute_duration_seconds [] = of_ℕ 0
  compute_duration_seconds (e ∷ []) = of_ℕ 0
  compute_duration_seconds (e ∷ f ∷ es) =
      let times = map (λ x. x.timestamp) (f ∷ es) in
      total_seconds (min_from e.timestamp times) (max_from e.timestamp times)

  -- `if duration_seconds is None`
  abbrev pub or_computed : Option R → List (TelemetryEntry R) → R
  or_computed none entries = compute_duration_seconds entries
  or_computed (some duration) entries = duration
