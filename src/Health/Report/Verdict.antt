-- ===== src/Health/Report/Verdict.antt =====
-- What the status of a report says of the telemetry behind it.
use wow_server_sim.Common.{ℕ, ◌≡◌, ◌↔◌, ◌∙◌, sym, Bool, true, not, ◌||◌, List, any, is_nil, arith}
use wow_server_sim.Float.{Float}
use wow_server_sim.Models.{TelemetryEntry, FaultInfo, critical}
use wow_server_sim.Logs.Entries.{is_critical, is_zone_crash}
use wow_server_sim.Logs.Spikes.Severities.{reaches}
use wow_server_sim.Logs.Bursts.{detect_error_bursts}
use wow_server_sim.Logs.Anomalies.{detect_default}
use wow_server_sim.Logs.Anomalies.Critical.{detect_anomalies_critical}
use wow_server_sim.Health.Zones.Ledger.{says_crashed, compute_zone_health_crashed}
use wow_server_sim.Health.Zones.{compute_zone_health}
use wow_server_sim.Health.Ticks.{compute_tick_health}
use wow_server_sim.Health.Players.{estimate_player_count}
use wow_server_sim.Health.Status.Levels.{determine_status_critical}
use wow_server_sim.Health.Report.{assess, mechanics_of}

module _ {R : Type 0} ⦃fl : Float R⦄ where
  open fl use {of_ℕ}

  -- Some tick took 100 ms or longer, a zone crashed, or five errors stand within ten seconds.
  abbrev pub alarming : List (TelemetryEntry R) → Bool
  alarming es =
      any (reaches (of_ℕ 100)) es
      || any is_zone_crash es
      || not (is_nil (detect_error_bursts es 5 (of_ℕ 10)))

  evidence :
      (es : List (TelemetryEntry R))
      → (any is_critical (detect_default es) || any says_crashed (compute_zone_health es))
        ≡ alarming es
  unfolding detect_default
  evidence es = ground (
    arith,
    detect_anomalies_critical (of_ℕ 60) (of_ℕ 100) 5 (of_ℕ 10) es,
    compute_zone_health_crashed es,
  )

  -- The assessment of the entries is critical exactly when they are alarming, whatever else was
  -- found: reachability, faults and players play no part.
  pub assess_critical :
      (timestamp : ℕ) (reachable : Bool) (es : List (TelemetryEntry R)) (faults : List FaultInfo)
      → ((assess timestamp reachable es faults).status ≡ critical) ↔ (alarming es ≡ true)
  unfolding assess
  assess_critical timestamp reachable es faults =
      let iff =
        determine_status_critical (compute_tick_health es) (compute_zone_health es)
          (detect_default es) (mechanics_of es) (estimate_player_count es) in
      (λ h. sym (evidence es) ∙ iff.0 h, λ h. iff.1 (evidence es ∙ h))
