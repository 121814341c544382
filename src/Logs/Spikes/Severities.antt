-- ===== src/Logs/Spikes/Severities.antt =====
-- How often the spike and crash detectors report, and how severe.
use wow_server_sim.Common.{
  ◌+◌, ◌≡◌, refl, Bool, false, not, ◌&&◌, List, [], ◌∷◌, length, tally, any, arith,
}
use wow_server_sim.Float.{Float}
use wow_server_sim.Models.{TelemetryEntry}
use wow_server_sim.Logs.Entries.{is_critical, is_warning, is_tick, is_zone_crash, tick_duration}
use wow_server_sim.Logs.Spikes.{spike, detect_latency_spikes, crash, detect_zone_crashes}

module _ {R : Type 0} ⦃fl : Float R⦄ where
  open fl use {le}

  abbrev pub reaches : R → TelemetryEntry R → Bool
  reaches limit e = is_tick e && le limit (tick_duration e)

  module _ (warn crit : R) where
    -- Each tick that reaches the critical limit gives one critical anomaly, each other tick that
    -- reaches the warning limit one warning, and nothing else is reported.
    pub detect_latency_spikes_counts :
        (es : List (TelemetryEntry R))
        → (tally is_critical (detect_latency_spikes es warn crit) ≡ tally (reaches crit) es)
          × (tally is_warning (detect_latency_spikes es warn crit)
              ≡ tally (λ e. not (reaches crit e) && reaches warn e) es)
          × (length (detect_latency_spikes es warn crit)
              ≡ tally (reaches crit) es + tally (λ e. not (reaches crit e) && reaches warn e) es)
    unfolding detect_latency_spikes spike
    detect_latency_spikes_counts [] = omega arith
    detect_latency_spikes_counts (e ∷ es) = ground (arith, detect_latency_spikes_counts es)

module _ {R : Type 0} where
  pub detect_zone_crashes_counts :
      (es : List (TelemetryEntry R))
      → (tally is_critical (detect_zone_crashes es) ≡ tally is_zone_crash es)
        × (length (detect_zone_crashes es) ≡ tally is_zone_crash es)
  unfolding detect_zone_crashes crash
  detect_zone_crashes_counts [] = omega arith
  detect_zone_crashes_counts (e ∷ es) = ground (arith, detect_zone_crashes_counts es)

  pub detect_zone_crashes_severities :
      (es : List (TelemetryEntry R))
      → (any is_critical (detect_zone_crashes es) ≡ any is_zone_crash es)
        × (any is_warning (detect_zone_crashes es) ≡ false)
  unfolding detect_zone_crashes crash
  detect_zone_crashes_severities [] = (refl, refl)
  detect_zone_crashes_severities (e ∷ es) = ground (arith, detect_zone_crashes_severities es)

module _ {R : Type 0} ⦃fl : Float R⦄ where
  pub detect_latency_spikes_severities :
      (warn crit : R) (es : List (TelemetryEntry R))
      → (any is_critical (detect_latency_spikes es warn crit) ≡ any (reaches crit) es)
        × (any is_warning (detect_latency_spikes es warn crit)
            ≡ any (λ e. not (reaches crit e) && reaches warn e) es)
  unfolding detect_latency_spikes spike
  detect_latency_spikes_severities warn crit [] = (refl, refl)
  detect_latency_spikes_severities warn crit (e ∷ es) =
      ground (arith, detect_latency_spikes_severities warn crit es)
