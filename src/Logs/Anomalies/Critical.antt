-- ===== src/Logs/Anomalies/Critical.antt =====
-- When `detect_anomalies` reports something critical, and when a warning.
use wow_server_sim.Common.{ℕ, ◌≡◌, not, ◌&&◌, ◌||◌, List, any, any-append, is_nil, arith}
use wow_server_sim.Float.{Float}
use wow_server_sim.Models.{TelemetryEntry}
use wow_server_sim.Logs.Entries.{is_critical, is_warning, is_zone_crash}
use wow_server_sim.Logs.Spikes.Severities.{
  reaches, detect_latency_spikes_severities, detect_zone_crashes_severities,
}
use wow_server_sim.Logs.Bursts.{detect_error_bursts}
use wow_server_sim.Logs.Bursts.First.{detect_error_bursts_severities}
use wow_server_sim.Logs.Disconnects.Unmatched.{unmatched, detect_unexpected_disconnects_severities}
use wow_server_sim.Logs.Anomalies.{detect_anomalies}

module _ {R : Type 0} ⦃fl : Float R⦄ (warn crit : R) (threshold : ℕ) (window_sec : R)
    (es : List (TelemetryEntry R)) where
  -- Something critical is reported exactly when a tick reaches the critical limit, a zone crashed,
  -- or there is a burst of errors.
  pub detect_anomalies_critical :
      any is_critical (detect_anomalies es warn crit threshold window_sec) ≡ (
        any (reaches crit) es
        || any is_zone_crash es
        || not (is_nil (detect_error_bursts es threshold window_sec)))
  unfolding detect_anomalies
  detect_anomalies_critical = simp (any-append) (
      ground (
        arith,
        detect_latency_spikes_severities warn crit es,
        detect_zone_crashes_severities es,
        detect_error_bursts_severities window_sec threshold es,
        detect_unexpected_disconnects_severities es,
      ))

  -- A warning is reported exactly when a tick below the critical limit reaches the warning limit,
  -- or a client left whose connection no entry of the window accepts.
  pub detect_anomalies_warning :
      any is_warning (detect_anomalies es warn crit threshold window_sec)
      ≡ (any (λ e. not (reaches crit e) && reaches warn e) es || any (unmatched es) es)
  unfolding detect_anomalies
  detect_anomalies_warning = simp (any-append) (
      ground (
        arith,
        detect_latency_spikes_severities warn crit es,
        detect_zone_crashes_severities es,
        detect_error_bursts_severities window_sec threshold es,
        detect_unexpected_disconnects_severities es,
      ))
