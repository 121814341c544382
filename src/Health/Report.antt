-- ===== src/Health/Report.antt =====
-- `check_server_reachable`, `read_recent_entries` and `build_health_report` of
-- tools/wowsim/health_check.py.
pub mod Verdict
pub mod Effect
use wow_server_sim.Common.{
  ℕ, ◌+◌, String, Bool, true, false, Option, none, some, List, [], ◌∷◌, select, tally,
  if◌then◌else◌,
}
use wow_server_sim.Float.{Float}
use wow_server_sim.Effects.{
  Env, Error, os_error, Session, Exec, Outcome, ok, raise, spent, returned, pure, ask, try_except,
  ◌>>=◌, ◌>>◌,
}
use wow_server_sim.Models.{
  TelemetryEntry, FaultInfo, TickHealth, HealthReport, ControlResponse, GameMechanicSummary,
}
use wow_server_sim.Logs.Parse.{recent_entries}
use wow_server_sim.Logs.Entries.{is_error}
use wow_server_sim.Logs.Anomalies.{detect_default}
use wow_server_sim.Mechanics.Summary.{aggregate_game_mechanics}
use wow_server_sim.Control.{list_all_faults}
use wow_server_sim.Health.Ticks.{compute_tick_health}
use wow_server_sim.Health.Zones.{compute_zone_health}
use wow_server_sim.Health.Players.{estimate_player_count}
use wow_server_sim.Health.Status.{determine_status}

abbrev pub uptime : {R : Type 0} → Option (TickHealth R) → ℕ
uptime none = 0
uptime (some t) = t.total_ticks

module _ {R : Type 0} ⦃fl : Float R⦄ where
  abbrev pub mechanics_of : List (TelemetryEntry R) → Option (GameMechanicSummary R)
  mechanics_of [] = none
  mechanics_of (e ∷ es) = some (aggregate_game_mechanics (e ∷ es) 5)

  -- The report for what was read: the computations between the calls of `build_health_report`.
  unfoldable pub assess :
      (timestamp : ℕ) (reachable : Bool) → List (TelemetryEntry R) → List FaultInfo → HealthReport R
  assess timestamp reachable entries active_faults =
      let tick = compute_tick_health entries in
      let zones = compute_zone_health entries in
      let players = estimate_player_count entries in
      let anomalies = detect_default entries in
      let game_mechanics = mechanics_of entries in
      record {
        timestamp = timestamp;
        status = determine_status tick zones anomalies game_mechanics players;
        server_reachable = reachable;
        tick = tick;
        zones = zones;
        connected_players = players;
        anomalies = anomalies;
        active_faults = active_faults;
        error_count = tally (λ e. is_error e.type) entries;
        uptime_ticks = uptime tick;
        game_mechanics = game_mechanics;
      }

-- `[f for f in resp.faults if f.active]`, if there are faults.
abbrev pub active_of : Option (List FaultInfo) → List FaultInfo
active_of none = []
active_of (some faults) = select (λ f. f.active) faults

module _ {R : Type 0} (env : Env R) where
  -- `except OSError: return False`; any other exception goes on.
  abbrev pub probe : Outcome (Unit {0}) → Exec Bool
  probe (ok u) s = (ok true, record s { opened = s.opened + 1; closed = s.closed + 1 })
  probe (raise (os_error m)) s = (ok false, s)
  probe (raise e) s = (raise e, s)
  probe spent s = (spent, s)

  unfoldable pub check_server_reachable : String → ℕ → Exec Bool
  check_server_reachable host port s =
      let (r, s') = ask env (λ n. env.open_connection n host port) s in probe r s'

  abbrev pub read_recent_entries : ℕ → Option String → Exec (List (TelemetryEntry R))
  read_recent_entries max_lines none = pure []
  read_recent_entries max_lines (some path) = do
    lines ← ask env (λ n. env.read_lines n path)
    pure (recent_entries env.decode_entry max_lines lines)

  pub query_faults : (skip_faults : Bool) → String → ℕ → Exec (List FaultInfo)
  query_faults true host port = pure []
  query_faults false host port =
      try_except (do resp ← list_all_faults env host port; pure (active_of resp.faults)) (pure [])

module _ {R : Type 0} ⦃fl : Float R⦄ (env : Env R) where
  unfoldable pub build_health_report :
      (log_path : Option String) (control_host : String) (control_port : ℕ) (skip_faults : Bool)
      → Exec (HealthReport R)
  unfolding check_server_reachable query_faults
  build_health_report log_path control_host control_port skip_faults = do
    reachable ← check_server_reachable env control_host control_port
    entries ← read_recent_entries env 500 log_path
    active_faults ← query_faults env skip_faults control_host control_port
    λ s. (ok (assess (env.utc_now s.calls) reachable entries active_faults), s)
