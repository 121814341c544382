-- ===== src/Cli/Reports.antt =====
-- The commands `health`, `parse-logs` and `spawn-clients` of tools/wowsim/cli.py. `dump` is
-- pydantic's `model_dump_json(indent=2)`, for the results of each kind.
use wow_server_sim.Common.{
  ℕ, zero, suc, ℤ, pos, negsuc, String, Bool, not, Option, some, List, [], ◌∷◌, concat, str_eq,
  if◌then◌else◌,
}
use wow_server_sim.Float.{Float}
use wow_server_sim.Effects.{
  Env, click_exception, value_error, spent, Exec, pure, throw, ask, now, ◌>>=◌, ◌>>◌,
}
use wow_server_sim.Models.{
  TelemetryEntry, HealthReport, ParseResult, Anomaly, SpawnResult, ClientConfig,
}
use wow_server_sim.Logs.Parse.{parse_stream}
use wow_server_sim.Logs.Filter.{filter_entries}
use wow_server_sim.Logs.Summary.{summarize}
use wow_server_sim.Logs.Anomalies.{detect_default}
use wow_server_sim.Logs.Format.{format_summary, format_anomalies, format_game_mechanics}
use wow_server_sim.Mechanics.Summary.{aggregate_game_mechanics}
use wow_server_sim.Health.Report.{build_health_report}
use wow_server_sim.Health.Format.{format_health_report}
use wow_server_sim.MockClient.Run.{World}
use wow_server_sim.MockClient.Spawn.{spawn_clients}
use wow_server_sim.MockClient.Format.{format_spawn_result}
use wow_server_sim.Cli.{Format, text, json}

-- The options of `health`.
pub record HealthOptions : Type 0 where
  pub log_file : String
  pub host : String
  pub control_port : ℕ
  pub watch : Bool
  pub interval : ℤ
  pub output_format : Format
  pub no_faults : Bool

-- The options of `parse-logs`.
pub record LogOptions : Type 0 where
  pub file : String
  pub type_filter : Option String
  pub component_filter : Option String
  pub message_filter : Option String
  pub anomalies : Bool
  pub game_mechanics : Bool
  pub output_format : Format

-- `time.sleep(seconds)`
abbrev pub sleep : ℤ → Exec (Unit {0})
sleep (pos n) = pure tt
sleep (negsuc n) = throw (value_error "sleep length must be non-negative")

module _ {R : Type 0} ⦃fl : Float R⦄ (env : Env R) (dump : HealthReport R → String)
    (options : HealthOptions) where
  unfoldable pub report_text : Format → HealthReport R → String
  report_text json report = dump report
  report_text text report = format_health_report report

  unfoldable pub health_round : Exec String
  unfolding report_text
  health_round =
      build_health_report env (some options.log_file) options.host options.control_port
        options.no_faults
      >>= λ report. pure (report_text options.output_format report)

  -- The loop, which only an exception or an interrupt ends in watch mode: what it has echoed after
  -- as many rounds as there is fuel.
  unfoldable pub health : (fuel : ℕ) → Exec (List String)
  unfolding health_round
  health zero = λ s. (spent, s)
  health (suc fuel) =
      let rest = health fuel in
      do
        echoed ← health_round
        if not options.watch
            then pure (echoed ∷ [])
            else (sleep options.interval >> rest >>= λ more. pure (echoed ∷ more))

module _ {R : Type 0} ⦃fl : Float R⦄ where
  unfoldable pub parse_result : List (TelemetryEntry R) → ParseResult R
  parse_result entries = record {
    entries = entries;
    summary = summarize entries;
    anomalies = detect_default entries;
  }

  abbrev pub anomaly_texts : List (Anomaly R) → List String
  anomaly_texts [] = []
  anomaly_texts (a ∷ rest) = "" ∷ format_anomalies (a ∷ rest) ∷ []

  -- What `parse-logs` echoes about the entries that are left.
  unfoldable pub log_texts :
      (dump : ParseResult R → String) → LogOptions → List (TelemetryEntry R) → List String
  unfolding parse_result
  log_texts dump options entries = elim options.output_format [
    | json ↦ dump (parse_result entries) ∷ []
    | text ↦
        if options.game_mechanics
        then format_game_mechanics (aggregate_game_mechanics entries 5) ∷ []
        else if options.anomalies
        then format_anomalies (detect_default entries) ∷ []
        else format_summary (summarize entries) ∷ anomaly_texts (detect_default entries)
  ]

module _ {R : Type 0} ⦃fl : Float R⦄ (env : Env R) (stdin : List String) (exists : String → Bool)
    (dump : ParseResult R → String) where
  abbrev pub read_file : String → Exec (List (TelemetryEntry R))
  read_file file = do
    lines ← ask env (λ n. env.read_lines n file)
    pure (parse_stream env.decode_entry lines)

  unfoldable pub read_entries : (file : String) → Exec (List (TelemetryEntry R))
  read_entries file =
      if str_eq file "-"
      then pure (parse_stream env.decode_entry stdin)
      else if not (exists file)
      then throw (click_exception (concat ("File not found: " ∷ file ∷ [])))
      else read_file file

  unfoldable pub parse_logs : LogOptions → Exec (List String)
  unfolding read_entries log_texts
  parse_logs options = do
    entries ← read_entries options.file
    pure (
        log_texts dump options (
          filter_entries entries options.type_filter options.component_filter
            options.message_filter))

-- The options of `spawn-clients`.
pub record SpawnOptions (R : Type 0) : Type 0 where
  pub count : ℕ
  pub duration : R
  pub host : String
  pub port : ℕ
  pub rate : R
  pub output_format : Format

module _ {R : Type 0} ⦃fl : Float R⦄ (env : Env R) (worlds : ℕ → World R) (fuel : ℕ)
    (dump : SpawnResult R → String) where
  abbrev pub spawn_text : Format → SpawnResult R → String
  spawn_text json result = dump result
  spawn_text text result = format_spawn_result result

  abbrev pub spawn_config : SpawnOptions R → ClientConfig R
  spawn_config options = record {
    host = options.host;
    port = options.port;
    actions_per_second = options.rate;
    duration_seconds = options.duration;
  }

  unfoldable pub spawn_clients_command : SpawnOptions R → Exec (List String)
  spawn_clients_command options = do
    start ← now env
    end ← now env
    result ← λ s. (spawn_clients worlds fuel start end (spawn_config options) options.count, s)
    pure (spawn_text options.output_format result ∷ [])
