-- ===== src/Tests/Dashboard.antt =====
-- The theorems about the dashboard, on one that spawns clients, and on a log that grows.
use wow_server_sim.Common.{
  String, Option, str_eq, if◌then◌else◌, ◌≡◌, refl, Bool, true, false, none, some, List, [], ◌∷◌,
  ◌++◌, take_last, In, arith,
}
use wow_server_sim.Float.Fixed.{Thousandths, thousandths}
use wow_server_sim.Models.{FaultInfo}
use wow_server_sim.Logs.Parse.{strip, parse_line, parse_stream, recent_entries}
use wow_server_sim.Dashboard.Catalog.{DashboardConfig}
use wow_server_sim.Dashboard.App.{App, new_app}
use wow_server_sim.Dashboard.App.Actions.{
  action_spawn_clients, on_duration_picked, begin_spawn, action_despawn_clients, action_quit,
  set_fault_list,
}
use wow_server_sim.Dashboard.App.Steps.{Step, Reach, dismissed}
use wow_server_sim.Dashboard.App.Spawning.{IsOrderly, Reach-IsOrderly, despawn_reaches}
use wow_server_sim.Dashboard.App.Suggestion.{IsCurrent, Reach-IsCurrent}
use wow_server_sim.Dashboard.App.Refresh.{refreshes, all_of, refreshes_all}
use wow_server_sim.Dashboard.App.EventLog.{lines_of}
use wow_server_sim.Cli.Dashboard.{DashboardOptions, dashboard_config, dashboard}
use wow_server_sim.Tests.Samples.{Entry, tick, cast, crash}

abbrev config : DashboardConfig Thousandths
config = record {
  log_file = "telemetry.jsonl";
  host = "localhost";
  port = 8080;
  control_port = 8081;
  refresh_interval = 2000;
}

abbrev dashboard_options : DashboardOptions Thousandths
dashboard_options = record {
  log_file = "telemetry.jsonl";
  host = "localhost";
  port = 8080;
  control_port = 8081;
  refresh = 2000;
}

started : dashboard dashboard_options ≡ new_app config
unfolding dashboard dashboard_config
started = refl

-- The key for spawning, then ten seconds.
abbrev picking : App Thousandths
picking = action_spawn_clients (new_app config)

abbrev spawning : App Thousandths
spawning = on_duration_picked (some 10000) (dismissed [] picking)

spawning-Reach : Reach config spawning
unfolding action_spawn_clients
spawning-Reach =
    Reach.later (Reach.later Reach.start (Step.spawn_clients refl))
      (Step.pick_duration [] (some 10000) refl)

Reach-IsOrderly_example : IsOrderly spawning
Reach-IsOrderly_example = Reach-IsOrderly config spawning spawning-Reach

despawn_reaches_example :
    In 0 (action_despawn_clients spawning).set × In 0 (action_quit spawning).set
unfolding on_duration_picked begin_spawn action_spawn_clients
despawn_reaches_example = despawn_reaches config spawning 0 spawning-Reach (0, refl)

Reach-IsCurrent_example : IsCurrent spawning
Reach-IsCurrent_example = Reach-IsCurrent config spawning spawning-Reach

-- A log that is read as one entry to a line.
abbrev decode : String → Option Entry
decode line =
    if str_eq line "tick"
    then some (tick 1 20)
    else if str_eq line "cast"
    then some (cast 4 "Cast started")
    else if str_eq line "crash"
    then some (crash 6 1)
    else none

abbrev polls : List (Bool × List String)
polls = (true, "cast\n" ∷ "\n" ∷ []) ∷ (false, []) ∷ (true, "crash\n" ∷ []) ∷ []

refreshes_all_example :
    (refreshes decode (new_app config) [] ((true, "tick\n" ∷ []) ∷ polls)).event_log
    ≡ lines_of (take_last 20 (tick 1 20 ∷ []) ++ all_of decode polls)
unfolding recent_entries parse_stream parse_line strip
refreshes_all_example =
    refreshes_all decode config true ("tick\n" ∷ []) (tick 1 20) [] polls refl (tt, tt)
      (
        omega arith,
        (tt, tt),
        (omega arith, tt),
        (omega arith, tt, tt, (omega arith, (tt, tt), (omega arith, tt), tt)),
      )

abbrev spike : Bool → FaultInfo
spike active = record {
  id = "latency-spike";
  mode = "tick_scoped";
  active = active;
  activations = 1;
  ticks_elapsed = 5;
  config = [];
}

abbrev faulty : App Thousandths
faulty = set_fault_list (spike false ∷ spike true ∷ []) (new_app config)
