-- ===== src/Tests/Demo.antt =====
-- The theorems about the demo, on a machine where the server starts and answers.
use wow_server_sim.Common.{◌*◌, ◌≡◌, ◌≢◌, refl, arith, true, none, some, str_eq, [], ◌∷◌}
use wow_server_sim.Float.Fixed.{Thousandths, thousandths}
use wow_server_sim.Effects.{got, spent}
use wow_server_sim.Effects.Rules.{Holds}
use wow_server_sim.Demo.{World, Host, new_host, exited, terminate}
use wow_server_sim.Demo.Server.{
  ServerProcess, start, stop, wait_ready, look_around, has_telemetry, poll, popen, stop_process,
  terminate_running, wait_for, kill_after, wait,
}
use wow_server_sim.Demo.Lifecycle.{IsAccounted, IsStopped, Serves, start-Serves}
use wow_server_sim.Demo.Ending.{start_ends}
use wow_server_sim.Cli.Demo.{DemoOptions, demo}
use wow_server_sim.Cli.Demo.Processes.{demo-Safe}

abbrev world : World Thousandths
world = record {
  monotonic = λ n. n * 1000;
  is_file = λ n path. str_eq path "build/wow-server-sim";
  exists = λ n path. true;
  size = λ n path. got 120;
  touch = λ n path. got tt;
  unlink = λ n path. got tt;
  bind = λ n port. got tt;
  popen = λ n args. got tt;
  poll = λ n. none;
  wait = λ n. exited 0;
  wait_for = λ n. some (exited 0);
  dashboard = λ n. got tt;
}

abbrev server : ServerProcess
server = record {
  binary = "build/wow-server-sim";
  telemetry_path = "telemetry.jsonl";
  port = 8080;
  control_port = 8081;
}

abbrev options : DemoOptions
options = record { project_root = none; port = 8080; control_port = 8081 }

-- A start that is followed by a stop.
abbrev stopped : Host
stopped = (stop world (start world 3 server 10 new_host).1).1

stopped_signals : stopped.signals ≡ terminate ∷ []
unfolding start wait_ready look_around has_telemetry poll popen stop stop_process terminate_running
    wait_for kill_after wait
stopped_signals = refl

demo-Safe_example :
    let out = demo world "." 3 options new_host in
    Holds (λ _. IsStopped) IsAccounted IsAccounted out.0 out.1
demo-Safe_example = demo-Safe world "." 3 options new_host (refl, refl)

start-Serves_example :
    let out = start world 3 server 10 new_host in
    Holds (Serves world "telemetry.jsonl") IsAccounted IsAccounted out.0 out.1
start-Serves_example = start-Serves world 3 server 10 new_host (refl, refl)

start_ends_example : (start world 10 server 10 new_host).0 ≢ spent
start_ends_example = start_ends world 9 10 server 10 new_host (omega arith) refl
