-- ===== src/Tests/Health.antt =====
-- The theorems about health reports on the sample log and on servers that answer and that do not.
use wow_server_sim.Common.{
  pos, ℕ, ◌≤◌, ◌≡◌, ◌↔◌, refl, true, false, none, some, List, [], ◌∷◌, ◌++◌, select,
}
use wow_server_sim.Float.Fixed.{Thousandths, thousandths, thousandths-IsFloat}
use wow_server_sim.Effects.{Env, ok, failed, os_error, fresh}
use wow_server_sim.Models.{
  FaultInfo, TickHealth, ZoneHealthSummary, critical, activate, deactivate, deactivate_all, status,
  list_faults,
}
use wow_server_sim.Tests.Samples.{log, server}
use wow_server_sim.Logs.Entries.{is_tick, tick_duration}
use wow_server_sim.Logs.Anomalies.{detect_default}
use wow_server_sim.Logs.Parse.{recent_entries}
use wow_server_sim.Control.{
  activate_fault, deactivate_fault, deactivate_all_faults, fault_status, list_all_faults,
}
use wow_server_sim.Control.Connections.{Exchanges, commands-Exchanges}
use wow_server_sim.Health.Ticks.{compute_tick_health}
use wow_server_sim.Health.Ticks.Bounds.{Describes, compute_tick_health-Describes}
use wow_server_sim.Health.Zones.{compute_zone_health}
use wow_server_sim.Health.Zones.Ledger.{AnswersTo, compute_zone_health-AnswersTo}
use wow_server_sim.Health.Status.{determine_status}
use wow_server_sim.Health.Status.Levels.{level, determine_status_mono}
use wow_server_sim.Health.Status.Signals.{IsWorst, determine_status-IsWorst}
use wow_server_sim.Health.Report.{assess, build_health_report}
use wow_server_sim.Health.Report.Verdict.{alarming, assess_critical}
use wow_server_sim.Health.Report.Effect.{
  Quiet, build_health_report-Quiet, build_health_report_returns,
}

-- A server whose port refuses connections.
abbrev unreachable : Env Thousandths
unreachable = record server { open_connection = λ n host port. failed (os_error "refused") }

abbrev log_health : TickHealth Thousandths
log_health = record {
  total_ticks = 3;
  avg_duration_ms = 73333;
  max_duration_ms = 130000;
  min_duration_ms = 20000;
  overrun_count = 3;
  overrun_pct = 100000;
}

compute_tick_health-Describes_example : Describes (select is_tick log) log_health
unfolding compute_tick_health is_tick tick_duration
compute_tick_health-Describes_example =
    compute_tick_health-Describes thousandths-IsFloat log log_health refl

compute_zone_health-AnswersTo_example : AnswersTo log (compute_zone_health log)
compute_zone_health-AnswersTo_example = compute_zone_health-AnswersTo log

abbrev zones_of_log : List (ZoneHealthSummary Thousandths)
zones_of_log = []

determine_status-IsWorst_example :
    IsWorst
      (some log_health)
      zones_of_log
      (detect_default log)
      none
      1
      (determine_status (some log_health) zones_of_log (detect_default log) none 1)
determine_status-IsWorst_example =
    determine_status-IsWorst (some log_health) zones_of_log (detect_default log) none 1

determine_status_mono_example :
    level (determine_status (some log_health) (compute_zone_health log) [] none 1)
    ≤ level (
        determine_status
          (some log_health)
          (compute_zone_health log ++ zones_of_log)
          ([] ++ detect_default log)
          none
          1)
determine_status_mono_example =
    determine_status_mono (some log_health) (compute_zone_health log) [] none 1 (detect_default log)
      zones_of_log

assess_critical_example : ((assess 0 true log []).status ≡ critical) ↔ (alarming log ≡ true)
assess_critical_example = assess_critical 0 true log []

build_health_report-Quiet_example :
    Quiet server (build_health_report server (some "telemetry.jsonl") "localhost" 8081 true)
build_health_report-Quiet_example =
    build_health_report-Quiet server (some "telemetry.jsonl") "localhost" 8081

build_health_report_returns_example :
    (t : ℕ) × (fs : List FaultInfo) × ((build_health_report unreachable
        (some "telemetry.jsonl")
        "localhost"
        8081
        false
        fresh).0
      ≡ ok (assess t false (recent_entries unreachable.decode_entry 500 ("tick\n" ∷ [])) fs))
build_health_report_returns_example =
    build_health_report_returns unreachable "telemetry.jsonl" "localhost" 8081 false fresh false
      ("tick\n" ∷ []) refl refl

commands-Exchanges_example :
    Exchanges
      (activate "f1" [] (pos 1) (pos 10))
      (activate_fault server "localhost" 8081 "f1" [] (pos 1) (pos 10))
    × Exchanges (deactivate "f1") (deactivate_fault server "localhost" 8081 "f1")
    × Exchanges deactivate_all (deactivate_all_faults server "localhost" 8081)
    × Exchanges (status "f1") (fault_status server "localhost" 8081 "f1")
    × Exchanges list_faults (list_all_faults server "localhost" 8081)
commands-Exchanges_example = commands-Exchanges server "localhost" 8081 "f1" [] (pos 1) (pos 10)
