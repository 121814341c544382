-- ===== src/Health/Format.antt =====
-- `format_health_report` of tools/wowsim/health_check.py.
use wow_server_sim.Common.{
  String, ◌||◌, Option, none, some, List, [], ◌∷◌, ◌++◌, concat, join, str, map, length, pad_right,
  isoformat, upper, ltb, if◌then◌else◌,
}
use wow_server_sim.Float.{Float}
use wow_server_sim.Models.{
  HealthReport, TickHealth, ZoneHealthSummary, GameMechanicSummary, FaultInfo, Anomaly, status_name,
}
use wow_server_sim.Logs.Format.{anomaly_line}

abbrev fault_line : List FaultInfo → String
fault_line [] = "Active Faults: none"
fault_line (f ∷ fs) =
    concat ("Active Faults: " ∷ join ", " (map (λ (g : FaultInfo). g.id) (f ∷ fs)) ∷ [])

module _ {R : Type 0} where
  abbrev anomaly_lines : List (Anomaly R) → List String
  anomaly_lines [] = "Anomalies: none" ∷ []
  anomaly_lines (a ∷ rest) =
      concat ("Anomalies: " ∷ str (length (a ∷ rest)) ∷ []) ∷ map anomaly_line (a ∷ rest)

module _ {R : Type 0} ⦃fl : Float R⦄ where
  open fl use {of_ℕ, mul, fixed, lt}

  abbrev tick_lines : Option (TickHealth R) → List String
  tick_lines none = []
  tick_lines (some t) =
      "Tick Rate:"
      ∷ concat ("  Total ticks:    " ∷ str t.total_ticks ∷ [])
      ∷ concat ("  Avg duration:   " ∷ fixed 1 t.avg_duration_ms ∷ "ms" ∷ [])
      ∷ concat (
          "  Max:            "
          ∷ fixed 1 t.max_duration_ms
          ∷ "ms  Min: "
          ∷ fixed 1 t.min_duration_ms
          ∷ "ms"
          ∷ [])
      ∷ concat
          ("  Overruns:       " ∷ str t.overrun_count ∷ " (" ∷ fixed 1 t.overrun_pct ∷ "%)" ∷ [])
      ∷ ""
      ∷ []

  abbrev zone_line : ZoneHealthSummary R → String
  zone_line z = concat (
      "  Zone "
      ∷ pad_right 3 (str z.zone_id)
      ∷ "  "
      ∷ pad_right 10 z.state
      ∷ "  "
      ∷ str z.tick_count
      ∷ " ticks   "
      ∷ str z.error_count
      ∷ " errors   avg "
      ∷ fixed 1 z.avg_tick_duration_ms
      ∷ "ms"
      ∷ (if ltb 0 z.total_casts || lt (of_ℕ 0) z.zone_dps
          then concat ("   " ∷ str z.total_casts ∷ " casts  DPS " ∷ fixed 1 z.zone_dps ∷ [])
          else "")
      ∷ [])

  abbrev zone_lines : List (ZoneHealthSummary R) → List String
  zone_lines [] = []
  zone_lines (z ∷ zs) = "Zones:" ∷ map zone_line (z ∷ zs) ++ "" ∷ []

  abbrev percent : R → String
  percent rate = concat (fixed 1 (mul rate (of_ℕ 100)) ∷ "%" ∷ [])

  abbrev mechanics_lines : Option (GameMechanicSummary R) → List String
  mechanics_lines none = []
  mechanics_lines (some gm) =
      let c = gm.cast_metrics in
      let cm = gm.combat_metrics in
      "Game Mechanics:"
      ∷ concat (
          "  Cast success:   "
          ∷ percent c.cast_success_rate
          ∷ "  ("
          ∷ str c.casts_completed
          ∷ "/"
          ∷ str c.casts_started
          ∷ " casts)"
          ∷ [])
      ∷ concat ("  GCD block rate: " ∷ percent c.gcd_block_rate ∷ [])
      ∷ concat (
          "  Overall DPS:    "
          ∷ fixed 1 cm.overall_dps
          ∷ "  ("
          ∷ str cm.total_damage
          ∷ " dmg / "
          ∷ str cm.total_attacks
          ∷ " attacks)"
          ∷ [])
      ∷ concat ("  Kills:          " ∷ str cm.kills ∷ [])
      ∷ ""
      ∷ []

  unfoldable pub format_health_report : HealthReport R → String
  unfolding isoformat upper pad_right
  format_health_report report = join "\n" (
      "=== WoW Server Health Report ==="
        ∷ concat ("Timestamp: " ∷ isoformat report.timestamp ∷ [])
        ∷ concat ("Status:    " ∷ upper (status_name report.status) ∷ [])
        ∷ ""
        ∷ concat
            ("Server: " ∷ (if report.server_reachable then "reachable" else "unreachable") ∷ [])
        ∷ ""
        ∷ tick_lines report.tick
      ++ (zone_lines report.zones
          ++ (mechanics_lines report.game_mechanics
              ++ (concat ("Connected Players: " ∷ str report.connected_players ∷ [])
                  ∷ fault_line report.active_faults
                  ∷ anomaly_lines report.anomalies))))
