-- ===== src/Logs/Spikes.antt =====
-- `_detect_latency_spikes` and `_detect_zone_crashes` of tools/wowsim/log_parser.py.
pub mod Severities
use wow_server_sim.Common.{String, List, [], ◌∷◌, concat, if◌then◌else◌}
use wow_server_sim.Float.{Float}
use wow_server_sim.Models.{
  TelemetryEntry, Anomaly, Severity, warning, critical_severity, over_threshold, copied,
}
use wow_server_sim.Logs.Entries.{get_or, or_unknown, is_tick, is_zone_crash, tick_duration}

module _ {R : Type 0} ⦃fl : Float R⦄ where
  open fl use {of_ℕ, true_div, le, repr}

  pub spike : (kind : String) → Severity → R → TelemetryEntry R → Anomaly R
  spike kind severity threshold e = record {
    type = "latency_spike";
    severity = severity;
    timestamp = e.timestamp;
    message = concat (
        "Tick duration "
        ∷ repr (tick_duration e)
        ∷ "ms exceeds "
        ∷ kind
        ∷ " threshold ("
        ∷ repr threshold
        ∷ "ms)"
        ∷ []);
    details = over_threshold (tick_duration e) threshold;
  }

  unfoldable pub detect_latency_spikes :
      List (TelemetryEntry R) → (warn_ms crit_ms : R) → List (Anomaly R)
  detect_latency_spikes [] warn_ms crit_ms = []
  detect_latency_spikes (e ∷ entries) warn_ms crit_ms =
      let rest = detect_latency_spikes entries warn_ms crit_ms in
      if is_tick e
      then (if le crit_ms (tick_duration e)
          then spike "critical" critical_severity crit_ms e ∷ rest
          else if le warn_ms (tick_duration e)
          then spike "warning" warning warn_ms e ∷ rest
          else rest)
      else rest

module _ {R : Type 0} where
  pub crash : TelemetryEntry R → Anomaly R
  crash e = record {
    type = "zone_crash";
    severity = critical_severity;
    timestamp = e.timestamp;
    message = concat (
        "Zone "
        ∷ or_unknown e.payload.zone_id
        ∷ " crashed: "
        ∷ get_or e.payload.error_text "unknown error"
        ∷ []);
    details = copied e.payload;
  }

  unfoldable pub detect_zone_crashes : List (TelemetryEntry R) → List (Anomaly R)
  detect_zone_crashes [] = []
  detect_zone_crashes (e ∷ entries) =
      let rest = detect_zone_crashes entries in if is_zone_crash e then crash e ∷ rest else rest
