-- ===== src/Tests/Cli.antt =====
-- The theorems about the command line.
use Prim.Native.String.{◌++◌}
use wow_server_sim.Common.{
  pos, negsuc, int_text, ◌≡◌, ◌↔◌, refl, String, none, some, [], ◌∷◌, map, join, str, digits,
  parse_int, signed,
}
use wow_server_sim.Float.Fixed.{Thousandths, thousandths}
use wow_server_sim.Effects.{ok, overflow_error}
use wow_server_sim.Models.{PipelineResult, activate_action}
use wow_server_sim.Control.Duration.{parse_duration}
use wow_server_sim.Control.Duration.Meaning.{Means, parse_duration-Means, parse_duration-int_text}
use wow_server_sim.Cli.{Tuning, text}
use wow_server_sim.Cli.Faults.{ticks_of, activate}
use wow_server_sim.Cli.Faults.Outcomes.{EndsBy, activate-EndsBy, ticks_of-Stops, Stops}
use wow_server_sim.Cli.Deploy.{DeployOptions}
use wow_server_sim.Cli.Deploy.Runs.{Ends as DeployEnds}
use wow_server_sim.Cli.Counts.{parse_counts, parse_counts-join}
use wow_server_sim.Tests.Samples.{server}

-- Ticks of some durations.
half_a_minute : parse_duration thousandths "30s" ≡ ok (pos 600)
unfolding parse_duration digits
half_a_minute = refl

padded : parse_duration thousandths " -1_0 t" ≡ ok (negsuc 9)
unfolding parse_duration parse_int signed digits
padded = refl

parse_duration-Means_example :
    (parse_duration thousandths "30s" ≡ ok (pos 600)) ↔ Means thousandths "30s" (pos 600)
parse_duration-Means_example = parse_duration-Means thousandths "30s" (pos 600)

parse_duration-int_text_example :
    parse_duration thousandths (int_text (negsuc 4) ++ "t") ≡ ok (negsuc 4)
parse_duration-int_text_example = parse_duration-int_text thousandths (negsuc 4)

ticks_of-Stops_example :
    Stops thousandths "infs" (overflow_error "cannot convert float infinity to integer")
unfolding ticks_of parse_duration
ticks_of-Stops_example =
    ticks_of-Stops thousandths "infs" (overflow_error "cannot convert float infinity to integer")
      refl

abbrev tuning : Tuning
tuning = record { delay_ms = some (pos 300); megabytes = none; multiplier = none }

activate-EndsBy_example :
    EndsBy thousandths server "localhost" 8081 "latency-spike" tuning
      (pos 0)
      (ticks_of thousandths (some "30s"))
      (activate thousandths server "localhost" 8081 "latency-spike" tuning (some "30s") (pos 0))
activate-EndsBy_example =
    activate-EndsBy thousandths server "localhost" 8081 "latency-spike" tuning (some "30s") (pos 0)

parse_counts-join_example :
    parse_counts (join "," (map str (0 ∷ 10 ∷ 25 ∷ []))) ≡ ok (map pos (0 ∷ 10 ∷ 25 ∷ []))
parse_counts-join_example = parse_counts-join 0 (10 ∷ 25 ∷ [])

abbrev deploy_options : DeployOptions Thousandths
deploy_options = record {
  fault_id = "latency-spike";
  action = activate_action;
  deploy_version = "1.0.0";
  canary_duration = 3000;
  canary_interval = 1000;
  rollback_on = "critical";
  log_file = some "telemetry.jsonl";
  host = "localhost";
  port = 8080;
  control_port = 8081;
  tuning = tuning;
  duration = some "100t";
  target_zone_id = pos 0;
  output_format = text;
}

abbrev dump : PipelineResult Thousandths → String
dump result = "{}"
