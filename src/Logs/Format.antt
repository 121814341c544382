-- ===== src/Logs/Format.antt =====
-- The reports of tools/wowsim/log_parser.py.
use Prim.Native.Nat.{Ordering}
use Prim.Native.String.{compare}
use wow_server_sim.Common.{
  ℕ, ◌+◌, String, Bool, true, false, Option, some, List, [], ◌∷◌, ◌++◌, concat, join, str, map,
  length, pad_left, pad_right, repeat, isoformat, leb,
}
use wow_server_sim.Common.Sort.{sort_by}
use wow_server_sim.Float.{Float}
use wow_server_sim.Models.{
  TelemetryEntry, type_name, LogSummary, Anomaly, Severity, warning, critical_severity,
  GameMechanicSummary, EntityDps,
}

-- The order of pairs of a text and a count.
abbrev pub pair_le : String × ℕ → String × ℕ → Bool
pair_le (s, n) (t, m) = elim (compare s t) [
  | Ordering.lt ↦ true
  | Ordering.eq ↦ leb n m
  | Ordering.gt ↦ false
]

abbrev count_line : String × ℕ → String
count_line (name, n) = concat ("    " ∷ pad_right 15 name ∷ " " ∷ str n ∷ [])

abbrev pub count_lines : List (String × ℕ) → List String
count_lines counts = map count_line (sort_by pair_le counts)

abbrev pub rule : String
rule = repeat "=" 40

abbrev pub severity_tag : Severity → String
severity_tag warning = "WARNING"
severity_tag critical_severity = "CRITICAL"

module _ {R : Type 0} where
  abbrev pub anomaly_line : Anomaly R → String
  anomaly_line a = concat ("  [" ∷ severity_tag a.severity ∷ "] " ∷ a.type ∷ ": " ∷ a.message ∷ [])

  abbrev anomaly_lines : List (Anomaly R) → List String
  anomaly_lines [] = []
  anomaly_lines (a ∷ rest) =
      anomaly_line a ∷ concat ("           at " ∷ isoformat a.timestamp ∷ []) ∷ anomaly_lines rest

  unfoldable pub format_anomalies : List (Anomaly R) → String
  unfolding isoformat
  format_anomalies [] = "No anomalies detected."
  format_anomalies (a ∷ rest) = join "\n" (
      concat ("Anomalies (" ∷ str (length (a ∷ rest)) ∷ ")" ∷ []) ∷ rule ∷ anomaly_lines (a ∷ rest))

  abbrev entry_line : TelemetryEntry R → String
  entry_line e = concat (
      "["
      ∷ isoformat e.timestamp
      ∷ "] "
      ∷ pad_right 7 (type_name e.type)
      ∷ " "
      ∷ pad_right 15 e.component
      ∷ " "
      ∷ e.message
      ∷ [])

  unfoldable pub format_entries : List (TelemetryEntry R) → String
  unfolding isoformat pad_right
  format_entries entries = join "\n" (map entry_line entries)

module _ {R : Type 0} ⦃fl : Float R⦄ where
  open fl use {of_ℕ, mul, fixed}

  -- The two ends of the range are both there or both missing.
  abbrev range_lines : Option ℕ → Option ℕ → (seconds : R) → List String
  range_lines (some start) (some end) seconds =
      concat ("  Time range:     " ∷ isoformat start ∷ [])
      ∷ concat ("                  " ∷ isoformat end ∷ [])
      ∷ concat ("  Duration:       " ∷ fixed 1 seconds ∷ "s" ∷ [])
      ∷ []
  range_lines _ _ seconds = []

  unfoldable pub format_summary : LogSummary R → String
  unfolding isoformat pad_right sort_by
  format_summary summary = join "\n" (
      "Log Summary"
        ∷ rule
        ∷ concat ("  Total entries:  " ∷ str summary.total_entries ∷ [])
        ∷ concat ("  Errors:         " ∷ str summary.error_count ∷ [])
        ∷ range_lines summary.time_range_start summary.time_range_end summary.duration_seconds
      ++ ("" ∷ "  By type:" ∷ count_lines summary.entries_by_type
          ++ ("" ∷ "  By component:" ∷ count_lines summary.entries_by_component)))

  abbrev percent : R → String
  percent rate = concat (fixed 1 (mul rate (of_ℕ 100)) ∷ "%" ∷ [])

  abbrev dealer_line : (rank : ℕ) → EntityDps R → String
  dealer_line rank dealer = concat (
      "    #"
      ∷ str rank
      ∷ " Entity "
      ∷ pad_right 6 (str dealer.entity_id)
      ∷ " "
      ∷ pad_left 8 (str dealer.total_damage)
      ∷ " dmg  "
      ∷ fixed 1 dealer.dps
      ∷ " DPS  ("
      ∷ str dealer.attack_count
      ∷ " attacks)"
      ∷ [])

  abbrev dealer_lines : (rank : ℕ) → List (EntityDps R) → List String
  dealer_lines rank [] = []
  dealer_lines rank (d ∷ ds) = dealer_line rank d ∷ dealer_lines (rank + 1) ds

  abbrev top_dealers : List (EntityDps R) → List String
  top_dealers [] = []
  top_dealers (d ∷ ds) = "" ∷ "  Top Damage Dealers:" ∷ dealer_lines 1 (d ∷ ds)

  unfoldable pub format_game_mechanics : GameMechanicSummary R → String
  unfolding pad_right pad_left
  format_game_mechanics summary =
      let c = summary.cast_metrics in
      let cm = summary.combat_metrics in
      join "\n" (
        "Game Mechanics"
          ∷ rule
          ∷ ""
          ∷ "  Spell Casting:"
          ∷ concat ("    Casts started:    " ∷ str c.casts_started ∷ [])
          ∷ concat ("    Casts completed:  " ∷ str c.casts_completed ∷ [])
          ∷ concat ("    Casts interrupted:" ∷ pad_left 5 (str c.casts_interrupted) ∷ [])
          ∷ concat ("    GCD blocked:      " ∷ str c.gcd_blocked ∷ [])
          ∷ concat ("    Success rate:     " ∷ percent c.cast_success_rate ∷ [])
          ∷ concat ("    GCD block rate:   " ∷ percent c.gcd_block_rate ∷ [])
          ∷ concat ("    Cast rate:        " ∷ fixed 2 c.cast_rate_per_sec ∷ "/s" ∷ [])
          ∷ ""
          ∷ "  Combat:"
          ∷ concat ("    Total damage:     " ∷ str cm.total_damage ∷ [])
          ∷ concat ("    Total attacks:    " ∷ str cm.total_attacks ∷ [])
          ∷ concat ("    Kills:            " ∷ str cm.kills ∷ [])
          ∷ concat ("    Active entities:  " ∷ str cm.active_entities ∷ [])
          ∷ concat ("    Overall DPS:      " ∷ fixed 1 cm.overall_dps ∷ [])
          ∷ top_dealers summary.top_damage_dealers
        ++ ("" ∷ concat ("  Duration: " ∷ fixed 1 summary.duration_seconds ∷ "s" ∷ []) ∷ []))
