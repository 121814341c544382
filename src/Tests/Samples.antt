-- ===== src/Tests/Samples.antt =====
-- Entries of a log, a server that answers, and the configuration of a pipeline.
use wow_server_sim.Common.{
  ℕ, pos, ◌*◌, String, true, none, some, List, [], ◌∷◌, str_eq, if◌then◌else◌,
}
use wow_server_sim.Float.Fixed.{Thousandths, thousandths}
use wow_server_sim.Effects.{Env, got}
use wow_server_sim.Models.{
  EntryType, metric, event, error, EntryData, TelemetryEntry, PipelineConfig, activate_action,
}

abbrev pub Entry : Type 0
Entry = TelemetryEntry Thousandths

abbrev no_data : EntryData Thousandths
no_data = record {
  duration_ms = none;
  overrun = none;
  zone_id = none;
  error_text = none;
  casts_started = none;
  total_damage_dealt = none;
  attacker_id = none;
  actual_damage = none;
  session_id = none;
}

abbrev entry : EntryType → (component message : String) → (time : ℕ) → EntryData Thousandths → Entry
entry type component message time payload = record {
  v = 1;
  timestamp = time * 1000000;
  type = type;
  component = component;
  message = message;
  payload = payload;
}

abbrev pub tick : (time ms : ℕ) → Entry
tick time ms =
    entry metric "game_loop" "Tick completed" time
      (record no_data { duration_ms = some (ms * 1000); overrun = some true })

abbrev pub crash : (time zone : ℕ) → Entry
crash time zone =
    entry error "zone" "Zone tick exception" time (record no_data { zone_id = some zone })

abbrev pub zone_tick : (time zone : ℕ) → Entry
zone_tick time zone = entry metric "zone" "Zone tick completed" time (record no_data {
  zone_id = some zone;
  duration_ms = some 4000;
  casts_started = some 2;
  total_damage_dealt = some 30;
})

abbrev pub hit : (time attacker damage : ℕ) → Entry
hit time attacker damage =
    entry metric "combat" "Damage dealt" time
      (record no_data { attacker_id = some attacker; actual_damage = some damage })

abbrev pub cast : (time : ℕ) (message : String) → Entry
cast time message = entry event "spellcast" message time no_data

abbrev pub session : (time : ℕ) (message : String) (id : ℕ) → Entry
session time message id =
    entry event "game_server" message time (record no_data { session_id = some id })

abbrev pub log : List Entry
log =
    session 1 "Connection accepted" 7
    ∷ tick 1 20
    ∷ cast 1 "Cast started"
    ∷ hit 2 7 40
    ∷ hit 2 9 15
    ∷ zone_tick 2 1
    ∷ cast 2 "Cast completed"
    ∷ tick 3 70
    ∷ crash 3 1
    ∷ hit 3 7 5
    ∷ tick 4 130
    ∷ session 4 "Client disconnected" 8
    ∷ []

-- A server that answers every call. Its log holds one fast tick, and its clock shows a second more
-- at every reading.
abbrev pub server : Env Thousandths
server = record {
  monotonic = λ n. n * 1000;
  utc_now = λ n. n;
  open_connection = λ n host port. got tt;
  read_lines = λ n path. got ("tick\n" ∷ []);
  exchange = λ n request. got "{}";
  decode_entry = λ line. if str_eq line "tick" then some (tick 1 20) else none;
  decode_response = λ line. got (record {
    success = true;
    command = none;
    fault_id = none;
    error = none;
    status = none;
    faults = none;
  });
}

abbrev pub config : PipelineConfig Thousandths
config = record {
  version = "1.0";
  fault_id = "f1";
  action = activate_action;
  params = [];
  target_zone_id = pos 1;
  duration_ticks = pos 10;
  canary_duration_seconds = 3000;
  canary_poll_interval_seconds = 1000;
  rollback_on = "critical";
  game_host = "localhost";
  game_port = 8080;
  control_host = "localhost";
  control_port = 8081;
  log_file = some "telemetry.jsonl";
}
