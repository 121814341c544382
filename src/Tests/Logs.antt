-- ===== src/Tests/Logs.antt =====
-- The log parser's and the mechanics' theorems on the sample log.
use wow_server_sim.Common.{
  ◌≡◌, refl, String, true, not, ◌&&◌, ◌||◌, Option, none, some, List, [], ◌∷◌, map, select, any,
  is_nil, str_eq, if◌then◌else◌, arith,
}
use wow_server_sim.Float.Fixed.{Thousandths, thousandths, thousandths-IsFloat}
use wow_server_sim.Tests.Samples.{Entry, log, tick}
use wow_server_sim.Logs.Entries.{is_critical, is_error, is_zone_crash}
use wow_server_sim.Logs.Parse.{parse_line, parse_stream, strip}
use wow_server_sim.Logs.Parse.Stream.{
  Written, logged, noise, file_lines, logged_entries, parse_stream-file_lines,
}
use wow_server_sim.Logs.Summary.{summarize}
use wow_server_sim.Logs.Summary.Counts.{CountsEntries, summarize-CountsEntries}
use wow_server_sim.Logs.Summary.Range.{IsRange, summarize-IsRange}
use wow_server_sim.Logs.Spikes.Severities.{reaches}
use wow_server_sim.Logs.Bursts.{detect_error_bursts}
use wow_server_sim.Logs.Bursts.First.{Reports, detect_error_bursts-Reports}
use wow_server_sim.Logs.Disconnects.{detect_unexpected_disconnects, disconnect}
use wow_server_sim.Logs.Disconnects.Unmatched.{
  left_server, accepts, detect_unexpected_disconnects-eq-map,
}
use wow_server_sim.Logs.Anomalies.{detect_anomalies}
use wow_server_sim.Logs.Anomalies.Critical.{detect_anomalies_critical}
use wow_server_sim.Mechanics.Casts.{aggregate_cast_metrics, cast_rates_bounds}
use wow_server_sim.Mechanics.Combat.{compute_entity_dps, aggregate_combat_metrics}
use wow_server_sim.Mechanics.Combat.Conservation.{Accounts, compute_entity_dps-Accounts}
use wow_server_sim.Mechanics.Summary.{aggregate_game_mechanics}
use wow_server_sim.Mechanics.Summary.Leaders.{Leaders, aggregate_game_mechanics-Leaders}

abbrev decode : String → Option Entry
decode line = if str_eq line "tick" then some (tick 1 20) else none

abbrev encode : Entry → String
encode e = "tick"

abbrev file : List (Written Thousandths)
file = logged (tick 1 20) ∷ noise "  \n" ∷ logged (tick 1 20) ∷ []

parse_stream-file_lines_example : parse_stream decode (file_lines encode file) ≡ logged_entries file
unfolding parse_line strip
parse_stream-file_lines_example =
    parse_stream-file_lines encode decode file
      (record {
        tight = (record { left = refl; right = refl }, (record { left = refl; right = refl }, tt));
        decode-encode = (refl, (refl, tt));
      })
      (refl, tt)

summarize-CountsEntries_example : CountsEntries log (summarize log)
summarize-CountsEntries_example = summarize-CountsEntries log

summarize-IsRange_example : IsRange (tick 3 20 ∷ log) (summarize (tick 3 20 ∷ log))
summarize-IsRange_example = summarize-IsRange (tick 3 20) log

detect_error_bursts-Reports_example :
    Reports 10000 1 (select (λ e. is_error e.type) log) (detect_error_bursts log 1 10000)
detect_error_bursts-Reports_example = detect_error_bursts-Reports 10000 1 log

detect_unexpected_disconnects-eq-map_example :
    detect_unexpected_disconnects log
    ≡ map disconnect
        (select (λ e. left_server e && not (any (accepts e.payload.session_id) log)) log)
detect_unexpected_disconnects-eq-map_example = detect_unexpected_disconnects-eq-map log

detect_anomalies_critical_example : any is_critical (detect_anomalies log 60000 100000 5 10000) ≡ (
    any (reaches 100000) log
    || any is_zone_crash log
    || not (is_nil (detect_error_bursts log 5 10000)))
detect_anomalies_critical_example = detect_anomalies_critical 60000 100000 5 10000 log

cast_rates_bounds_example :
    let m = aggregate_cast_metrics log none in
    (thousandths.le 0 m.gcd_block_rate ≡ true)
    × (thousandths.le m.gcd_block_rate 1000 ≡ true)
    × (thousandths.le 0 m.cast_success_rate ≡ true)
    × (thousandths.le m.cast_success_rate 1000 ≡ true)
cast_rates_bounds_example = cast_rates_bounds log none thousandths-IsFloat (omega arith)

compute_entity_dps-Accounts_example :
    Accounts log (compute_entity_dps log none) (aggregate_combat_metrics log none)
compute_entity_dps-Accounts_example = compute_entity_dps-Accounts log none

aggregate_game_mechanics-Leaders_example :
    let summary = aggregate_game_mechanics log 1 in
    Leaders 1 (compute_entity_dps log (some summary.duration_seconds)) summary.top_damage_dealers
aggregate_game_mechanics-Leaders_example = aggregate_game_mechanics-Leaders log 1
