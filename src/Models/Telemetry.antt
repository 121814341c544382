-- ===== src/Models/Telemetry.antt =====
-- Telemetry entries, log summaries and anomalies.
use wow_server_sim.Common.{ℕ, String, Bool, Option, List}

pub data EntryType : Type 0 where
  metric event health error : EntryType

abbrev pub type_name : EntryType → String
type_name metric = "metric"
type_name event = "event"
type_name health = "health"
type_name error = "error"

-- The keys of `data` that the tools read, each at the type that the server writes. `none` is a
-- missing key.
pub record EntryData (R : Type 0) : Type 0 where
  pub duration_ms : Option R
  pub overrun : Option Bool
  pub zone_id : Option ℕ
  pub error_text : Option String  -- "error"
  pub casts_started : Option ℕ
  pub total_damage_dealt : Option ℕ
  pub attacker_id : Option ℕ
  pub actual_damage : Option ℕ
  pub session_id : Option ℕ

pub record TelemetryEntry (R : Type 0) : Type 0 where
  pub v : ℕ
  pub timestamp : ℕ
  pub type : EntryType
  pub component : String
  pub message : String
  pub payload : EntryData R  -- `data`

pub record LogSummary (R : Type 0) : Type 0 where
  pub total_entries : ℕ
  pub entries_by_type : List (String × ℕ)
  pub entries_by_component : List (String × ℕ)
  pub error_count : ℕ
  pub time_range_start : Option ℕ
  pub time_range_end : Option ℕ
  pub duration_seconds : R

pub data Severity : Type 0 where
  warning critical_severity : Severity

-- What `details` holds: one constructor for each dictionary that the detectors build.
pub data Details (R : Type 0) : Type 0 where
  over_threshold : (duration_ms threshold_ms : R) → Details R
  copied : EntryData R → Details R
  burst : (error_count : ℕ) (window_sec : R) → Details R

pub record Anomaly (R : Type 0) : Type 0 where
  pub type : String
  pub severity : Severity
  pub timestamp : ℕ
  pub message : String
  pub details : Details R

pub record ParseResult (R : Type 0) : Type 0 where
  pub entries : List (TelemetryEntry R)
  pub summary : LogSummary R
  pub anomalies : List (Anomaly R)
