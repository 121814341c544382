-- ===== src/Tests/Runs.antt =====
-- The theorems about the pipeline on a server that answers.
use wow_server_sim.Common.{◌≡◌, ◌≢◌, ◌↔◌, refl, true, [], ◌∷◌, All, arith}
use wow_server_sim.Float.Fixed.{thousandths}
use wow_server_sim.Effects.{fresh, spent}
use wow_server_sim.Effects.Rules.{Holds}
use wow_server_sim.Pipeline.Gates.{evaluate_canary_health}
use wow_server_sim.Pipeline.Gates.Canary.{Below, evaluate_canary_health_passed}
use wow_server_sim.Pipeline.Run.{run_pipeline}
use wow_server_sim.Pipeline.Run.Stages.{Wrote}
use wow_server_sim.Pipeline.Run.Outcomes.{Fulfils, Interrupted, deployed, run_pipeline-Fulfils}
use wow_server_sim.Pipeline.Run.Ending.{run_pipeline_ends}
use wow_server_sim.Tests.Samples.{server, config}

run_pipeline-Fulfils_example :
    Holds
      (Fulfils config [])
      (Interrupted config [])
      (Wrote (deployed config []))
      (run_pipeline server config 3 fresh).0
      (run_pipeline server config 3 fresh).1
run_pipeline-Fulfils_example = run_pipeline-Fulfils server config 3 fresh

run_pipeline_ends_example : (run_pipeline server config 3 fresh).0 ≢ spent
run_pipeline_ends_example = run_pipeline_ends server config 2 3 fresh (omega arith) refl

evaluate_canary_health_passed_example :
    ((evaluate_canary_health ("healthy" ∷ "degraded" ∷ []) "critical").0 ≡ true)
    ↔ All (Below "critical") ("healthy" ∷ "degraded" ∷ [])
evaluate_canary_health_passed_example =
    evaluate_canary_health_passed "critical" ("healthy" ∷ "degraded" ∷ [])
