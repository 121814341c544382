-- ===== src/Dashboard/Panels.antt =====
-- The texts of the widgets: the formatting functions of tools/wowsim/dashboard.py.
use Prim.Native.String.{count}
use wow_server_sim.Common.{
  ℕ, ◌+◌, String, Bool, Option, none, some, List, [], ◌∷◌, concat, join, str, commas, clock, upper,
  pad_right, repeat, map, if◌then◌else◌,
}
use wow_server_sim.Float.{Float}
use wow_server_sim.Models.{
  TelemetryEntry, type_name, TickHealth, GameMechanicSummary, EntityDps, FaultInfo,
  ZoneHealthSummary,
}
use wow_server_sim.Dashboard.Hints.{status_to_style}

abbrev pub reachable_text : Bool → String
reachable_text reachable = if reachable then "reachable" else "unreachable"

unfoldable pub format_status_bar :
    (status : String) (reachable : Bool) (players uptime : ℕ) → String
unfolding status_to_style upper commas
format_status_bar status reachable players uptime = concat (
    "["
    ∷ status_to_style status
    ∷ "]"
    ∷ upper status
    ∷ "[/]  Server: "
    ∷ reachable_text reachable
    ∷ "  |  Players: "
    ∷ str players
    ∷ "  |  Uptime: "
    ∷ commas uptime
    ∷ " ticks"
    ∷ [])

module _ {R : Type 0} where
  unfoldable pub format_event_line : TelemetryEntry R → String
  unfolding pad_right
  format_event_line entry = concat (
      "["
      ∷ clock entry.timestamp
      ∷ "] "
      ∷ pad_right 7 (type_name entry.type)
      ∷ " "
      ∷ pad_right 14 entry.component
      ∷ " "
      ∷ entry.message
      ∷ [])

module _ {R : Type 0} ⦃fl : Float R⦄ where
  open fl use {of_ℕ, mul, fixed}

  abbrev pub percent : R → String
  percent rate = concat (fixed 1 (mul rate (of_ℕ 100)) ∷ "%" ∷ [])

  unfoldable pub format_tick_panel : Option (TickHealth R) → String
  format_tick_panel none = "No data"
  format_tick_panel (some tick) = concat (
      "Avg: "
      ∷ fixed 1 tick.avg_duration_ms
      ∷ "ms\nMax: "
      ∷ fixed 1 tick.max_duration_ms
      ∷ "ms  Min: "
      ∷ fixed 1 tick.min_duration_ms
      ∷ "ms\nOverruns: "
      ∷ str tick.overrun_count
      ∷ " ("
      ∷ fixed 1 tick.overrun_pct
      ∷ "%)"
      ∷ [])

  unfoldable pub format_game_mechanics_panel : Option (GameMechanicSummary R) → String
  format_game_mechanics_panel none = "No data"
  format_game_mechanics_panel (some summary) =
      let c = summary.cast_metrics in
      let cm = summary.combat_metrics in
      concat (
        "Cast: "
        ∷ percent c.cast_success_rate
        ∷ " success  ("
        ∷ str c.casts_completed
        ∷ "/"
        ∷ str c.casts_started
        ∷ ")\nGCD block: "
        ∷ percent c.gcd_block_rate
        ∷ "  Rate: "
        ∷ fixed 1 c.cast_rate_per_sec
        ∷ "/s\nDPS: "
        ∷ fixed 1 cm.overall_dps
        ∷ "  Dmg: "
        ∷ str cm.total_damage
        ∷ "  Kills: "
        ∷ str cm.kills
        ∷ [])

  abbrev dealer_line : (rank : ℕ) → EntityDps R → String
  dealer_line rank dealer = concat (
      "#"
      ∷ str rank
      ∷ " Entity "
      ∷ str dealer.entity_id
      ∷ "      "
      ∷ str dealer.total_damage
      ∷ " dmg  "
      ∷ fixed 1 dealer.dps
      ∷ " DPS  ("
      ∷ str dealer.attack_count
      ∷ " atk)"
      ∷ [])

  abbrev pub dealer_lines : (rank : ℕ) → List (EntityDps R) → List String
  dealer_lines rank [] = []
  dealer_lines rank (d ∷ ds) = dealer_line rank d ∷ dealer_lines (rank + 1) ds

  unfoldable pub format_threat_table_panel : Option (List (EntityDps R)) → String
  format_threat_table_panel none = "No data"
  format_threat_table_panel (some []) = "No data"
  format_threat_table_panel (some (d ∷ ds)) = join "\n" (dealer_lines 1 (d ∷ ds))

  -- The text of the game panel in `_update_health_ui`.
  abbrev pub threats : List (EntityDps R) → String
  unfolding format_threat_table_panel
  threats [] = ""
  threats (d ∷ ds) = concat ("\n\nTHREAT TABLE\n" ∷ format_threat_table_panel (some (d ∷ ds)) ∷ [])

  abbrev pub threats_of : Option (GameMechanicSummary R) → String
  threats_of none = ""
  threats_of (some summary) = threats summary.top_damage_dealers

  abbrev pub game_panel : Option (GameMechanicSummary R) → String
  game_panel game_mechanics = concat (
      "GAME MECHANICS\n\n"
      ∷ format_game_mechanics_panel game_mechanics
      ∷ threats_of game_mechanics
      ∷ [])

  -- A row of the zone table.
  abbrev pub zone_row : ZoneHealthSummary R → List String
  zone_row z =
      str z.zone_id
      ∷ z.state
      ∷ str z.tick_count
      ∷ str z.error_count
      ∷ fixed 1 z.avg_tick_duration_ms
      ∷ str z.total_casts
      ∷ fixed 1 z.zone_dps
      ∷ []

abbrev fault_row : FaultInfo → String
fault_row f = join " " (
    pad_right 24 f.id
    ∷ pad_right 14 f.mode
    ∷ pad_right 10 (if f.active then "[bold]ACTIVE[/]" else "inactive")
    ∷ str f.activations
    ∷ [])

abbrev fault_header : String
fault_header =
    join " " (pad_right 24 "ID" ∷ pad_right 14 "MODE" ∷ pad_right 10 "STATUS" ∷ "ACTIVATIONS" ∷ [])

unfoldable pub format_fault_table : List FaultInfo → String
unfolding pad_right
format_fault_table [] = "No faults registered"
format_fault_table (f ∷ fs) =
    join "\n" (fault_header ∷ repeat "-" (count fault_header) ∷ map fault_row (f ∷ fs))
