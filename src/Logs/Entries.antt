-- ===== src/Logs/Entries.antt =====
-- The tests on one telemetry entry that the functions of log_parser.py, health_check.py and
-- benchmark.py share, and the reading of its data.
use wow_server_sim.Common.{ℕ, String, Bool, true, false, ◌&&◌, Option, none, some, str_eq, str}
use wow_server_sim.Float.{Float}
use wow_server_sim.Models.{
  Anomaly, warning, critical_severity, TelemetryEntry, EntryType, metric, event, error,
}

abbrev pub is_error : EntryType → Bool
is_error error = true
is_error _ = false

abbrev pub is_metric : EntryType → Bool
is_metric metric = true
is_metric _ = false

abbrev pub is_event : EntryType → Bool
is_event event = true
is_event _ = false

abbrev pub or_unknown : Option ℕ → String
or_unknown none = "unknown"
or_unknown (some n) = str n

-- `data.get(key, default)`
abbrev pub get_or {ℓ} : {A : Type ℓ} → Option A → A → A
get_or none d = d
get_or (some a) d = a

-- `a.severity == "critical"`, and so for the warning.
abbrev pub is_critical : {R : Type 0} → Anomaly R → Bool
is_critical a = elim a.severity [ critical_severity ↦ true | warning ↦ false ]

abbrev pub is_warning : {R : Type 0} → Anomaly R → Bool
is_warning a = elim a.severity [ critical_severity ↦ false | warning ↦ true ]

module _ {R : Type 0} where
  unfoldable pub is_tick : TelemetryEntry R → Bool
  is_tick e =
      is_metric e.type && str_eq e.component "game_loop" && str_eq e.message "Tick completed"

  unfoldable pub is_zone_crash : TelemetryEntry R → Bool
  is_zone_crash e =
      is_error e.type && str_eq e.component "zone" && str_eq e.message "Zone tick exception"

  unfoldable pub is_server_event : TelemetryEntry R → Bool
  is_server_event e = is_event e.type && str_eq e.component "game_server"

module _ {R : Type 0} ⦃fl : Float R⦄ where
  open fl use {of_ℕ}

  unfoldable pub tick_duration : TelemetryEntry R → R
  tick_duration e = get_or e.payload.duration_ms (of_ℕ 0)
