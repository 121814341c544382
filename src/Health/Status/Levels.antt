-- ===== src/Health/Status/Levels.antt =====
-- When a report is critical or healthy, and that more evidence never makes it look better.
use wow_server_sim.Common.{
  ℕ, ◌≤◌, ◌≡◌, ◌↔◌, true, ◌||◌, Option, List, ◌++◌, any, any-append, str_eq, arith,
}
use wow_server_sim.Float.{Float}
use wow_server_sim.Models.{
  Anomaly, TickHealth, ZoneHealthSummary, GameMechanicSummary, Status, healthy, degraded, critical,
}
use wow_server_sim.Logs.Entries.{is_critical, is_warning}
use wow_server_sim.Health.Status.{mechanics_status, determine_status}

abbrev pub level : Status → ℕ
level healthy = 0
level degraded = 1
level critical = 2

module _ {R : Type 0} ⦃fl : Float R⦄ where
  module _ (tick : Option (TickHealth R)) (zones : List (ZoneHealthSummary R))
      (anomalies : List (Anomaly R)) (gm : Option (GameMechanicSummary R)) (players : ℕ) where
    pub mechanics_status-ne-critical : level (mechanics_status gm players) ≤ 1
    unfolding mechanics_status
    mechanics_status-ne-critical = ground arith

    -- The status is critical exactly for a critical anomaly or a crashed zone.
    pub determine_status_critical :
        (determine_status tick zones anomalies gm players ≡ critical)
        ↔ ((any is_critical anomalies || any (λ z. str_eq z.state "CRASHED") zones) ≡ true)
    unfolding determine_status
    determine_status_critical = ground arith

    -- Further anomalies and further zones never lower the level.
    pub determine_status_mono :
        (more : List (Anomaly R)) (more_zones : List (ZoneHealthSummary R))
        → level (determine_status tick zones anomalies gm players)
          ≤ level (determine_status tick (zones ++ more_zones) (anomalies ++ more) gm players)
    unfolding determine_status
    determine_status_mono more more_zones = ground (
      arith,
      any-append is_critical anomalies more,
      any-append is_warning anomalies more,
      any-append (λ (z : ZoneHealthSummary R). str_eq z.state "CRASHED") zones more_zones,
      any-append (λ (z : ZoneHealthSummary R). str_eq z.state "DEGRADED") zones more_zones,
      mechanics_status-ne-critical,
    )
