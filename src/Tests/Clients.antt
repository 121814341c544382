-- ===== src/Tests/Clients.antt =====
-- The theorems about mock clients, in a world that sends everything.
use wow_server_sim.Common.{
  pos, String, some, [], ◌∷◌, ℕ, ◌*◌, ◌≢◌, refl, false, arith, ◌==◌, if◌then◌else◌,
}
use wow_server_sim.Float.Fixed.{Thousandths, thousandths}
use wow_server_sim.Effects.{got, spent, fresh}
use wow_server_sim.Models.{ClientConfig, BenchmarkConfig, BenchmarkResult}
use wow_server_sim.Cli.{text}
use wow_server_sim.Cli.Deploy.{BenchmarkOptions}
use wow_server_sim.Benchmark.Run.{client_config, run_benchmark}
use wow_server_sim.Benchmark.Run.Report.{Reported, run_benchmark-Reported}
use wow_server_sim.Effects.Rules.{Holds}
use wow_server_sim.Tests.Samples.{server}
use wow_server_sim.MockClient.Traffic.{Draw, IsDraw, movement, spell_cast, physical}
use wow_server_sim.MockClient.Run.{World, run_one}
use wow_server_sim.MockClient.Run.Honest.{Tells, run_one-Tells}
use wow_server_sim.MockClient.Run.Ending.{run_one_ends}
use wow_server_sim.MockClient.Spawn.{spawn_clients}
use wow_server_sim.MockClient.Spawn.Totals.{Spawns, spawn_clients-Spawns}

-- The first action is a cast, the others are movements.
abbrev draw : ℕ → Draw Thousandths
draw n = record {
  kind = if n == 0 then spell_cast else movement;
  dx = 1500;
  dy = 0;
  dz = 100;
  spell = 200;
  cast_time = 20;
  damage = 30;
  damage_type = physical;
}

draw-IsDraw : (n : ℕ) → IsDraw (draw n)
draw-IsDraw n = record {
  spell_In = (4, refl);
  cast_time_In = (2, refl);
  damage_range = (omega arith, omega arith);
}

abbrev world : World Thousandths
world = record {
  monotonic = λ n. n * 1000;
  open_connection = λ host port. got tt;
  stop = λ n. false;
  draw = draw;
  drain = λ n. got tt;
}

abbrev two_a_second : ClientConfig Thousandths
two_a_second = record {
  host = "localhost";
  port = 8080;
  actions_per_second = 2000;
  duration_seconds = 5000;
}

run_one-Tells_example : let out = run_one world 3 7 two_a_second in Tells 7 out.0 out.1
run_one-Tells_example = run_one-Tells world draw-IsDraw 3 7 two_a_second

run_one_ends_example : (run_one world 3 7 two_a_second).0 ≢ spent
run_one_ends_example = run_one_ends world 2 3 7 two_a_second (omega arith) refl

spawn_clients-Spawns_example :
    Spawns (λ i. world) 3 two_a_second 2 (spawn_clients (λ i. world) 3 0 6000 two_a_second 2)
spawn_clients-Spawns_example =
    spawn_clients-Spawns (λ i. world) 3 two_a_second (λ i n. draw-IsDraw n) 0 6000 2

abbrev bench : BenchmarkConfig Thousandths
bench = record {
  game_host = "localhost";
  game_port = 8080;
  log_file = some "telemetry.jsonl";
  client_counts = pos 0 ∷ pos 2 ∷ [];
  duration_seconds = 5000;
  actions_per_second = 2000;
  settle_seconds = 2000;
  max_avg_tick_ms = 50000;
  max_p99_tick_ms = 100000;
  max_overrun_pct = 5000;
}

run_benchmark-Reported_example :
    let out = run_benchmark server (λ i k. world) 3 bench fresh in
    Holds (Reported bench) (λ _. ⊥) (λ _. ⊥) out.0 out.1
run_benchmark-Reported_example =
    run_benchmark-Reported server (λ i k. world) 3 bench
      (record {
        draws = λ i k n. draw-IsDraw n;
        ends = λ i k.
            run_one_ends world 2 3 k (client_config server (λ i k. world) 3 bench) (omega arith)
              refl;
        settles = refl;
        readable = λ n path. tt;
      })
      fresh

-- The same benchmark from the command line.
abbrev bench_options : BenchmarkOptions Thousandths
bench_options = record {
  log_file = "telemetry.jsonl";
  host = "localhost";
  port = 8080;
  counts = "0,2";
  duration = 5000;
  rate = 2000;
  settle = 2000;
  max_avg_tick = 50000;
  max_p99_tick = 100000;
  max_overrun_pct = 5000;
  output_format = text;
}

abbrev dump : BenchmarkResult Thousandths → String
dump result = "{}"
