-- ===== src/Logs/Anomalies.antt =====
-- `detect_anomalies` of tools/wowsim/log_parser.py.
pub mod Critical
use wow_server_sim.Common.{ℕ, List, ◌++◌}
use wow_server_sim.Float.{Float}
use wow_server_sim.Models.{TelemetryEntry, Anomaly}
use wow_server_sim.Logs.Spikes.{detect_latency_spikes, detect_zone_crashes}
use wow_server_sim.Logs.Bursts.{detect_error_bursts}
use wow_server_sim.Logs.Disconnects.{detect_unexpected_disconnects}

module _ {R : Type 0} ⦃fl : Float R⦄ where
  open fl use {of_ℕ}

  unfoldable pub detect_anomalies :
      List (TelemetryEntry R)
      → (tick_warn_ms tick_crit_ms : R) (error_burst_threshold : ℕ) (error_burst_window_sec : R)
      → List (Anomaly R)
  detect_anomalies entries tick_warn_ms tick_crit_ms error_burst_threshold error_burst_window_sec =
      detect_latency_spikes entries tick_warn_ms tick_crit_ms
      ++ (detect_zone_crashes entries
          ++ (detect_error_bursts entries error_burst_threshold error_burst_window_sec
              ++ detect_unexpected_disconnects entries))

  abbrev pub default_tick_duration_warn_ms : R
  default_tick_duration_warn_ms = of_ℕ 60

  abbrev pub default_tick_duration_crit_ms : R
  default_tick_duration_crit_ms = of_ℕ 100

  abbrev pub default_error_burst_window_sec : R
  default_error_burst_window_sec = of_ℕ 10

  -- The call with the default thresholds.
  unfoldable pub detect_default : List (TelemetryEntry R) → List (Anomaly R)
  detect_default entries =
      detect_anomalies entries default_tick_duration_warn_ms default_tick_duration_crit_ms 5
        default_error_burst_window_sec
