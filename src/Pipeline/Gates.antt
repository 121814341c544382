-- ===== src/Pipeline/Gates.antt =====
-- The gates of tools/wowsim/pipeline.py, which do no input or output.
pub mod Canary
use wow_server_sim.Common.{
  ℕ, suc, ◌+◌, String, Bool, true, false, not, List, [], ◌∷◌, Option, none, some, str, concat,
  str_eq, leb, length, if◌then◌else◌,
}
use wow_server_sim.Float.{Float}
use wow_server_sim.Models.{
  HealthReport, status_name, PipelineConfig, StageResult, Stage, build, validate, Action,
  activate_action, deactivate_action,
}

module _ {R : Type 0} ⦃fl : Float R⦄ where
  open fl use {of_ℕ}

  -- A stage's result with the defaults of `StageResult`.
  abbrev pub gate : Stage → Bool → String → String → StageResult R
  gate stage passed message health_status = record {
    stage = stage;
    passed = passed;
    message = message;
    duration_seconds = of_ℕ 0;
    health_status = some health_status;
    samples = [];
  }

  unfoldable pub check_build_preconditions : (reachable : Bool) (status : String) → StageResult R
  check_build_preconditions reachable status =
      if not reachable
      then gate build false "Server unreachable — cannot deploy" status
      else if str_eq status "critical"
      then gate build false "Server is critical — resolve before deploying" status
      else gate build true "Build preconditions met" status

  unfoldable pub check_validate_gate : HealthReport R → StageResult R
  check_validate_gate report =
      if not report.server_reachable
      then gate validate false "Server unreachable during validation" (status_name report.status)
      else gate validate true "Validation passed" (status_name report.status)

-- `severity_order.get(name, 2)`
unfoldable pub severity_level : String → ℕ
severity_level name =
    if str_eq name "healthy"
    then 0
    else if str_eq name "degraded"
    then 1
    else if str_eq name "critical"
    then 2
    else 2

-- The loop of `evaluate_canary_health`, from sample `i` of `total` on.
pub scan_samples : (i total : ℕ) (threshold : String) → List String → Bool × String
scan_samples i total threshold [] =
    (true, concat ("Canary passed: " ∷ str total ∷ " samples all below " ∷ threshold ∷ []))
scan_samples i total threshold (sample ∷ samples) =
    let rest = scan_samples (i + 1) total threshold samples in
    if leb (severity_level threshold) (severity_level sample)
    then (
      false,
      concat (
          "Canary failed: sample "
          ∷ str (i + 1)
          ∷ "/"
          ∷ str total
          ∷ " was "
          ∷ sample
          ∷ " (threshold: "
          ∷ threshold
          ∷ ")"
          ∷ []),
    )
    else rest

unfoldable pub evaluate_canary_health : (samples : List String) (threshold : String) → Bool × String
unfolding scan_samples
evaluate_canary_health samples threshold = scan_samples 0 (length samples) threshold samples

abbrev pub reverse_action : Action → Action
reverse_action activate_action = deactivate_action
reverse_action deactivate_action = activate_action

module _ {R : Type 0} where
  unfoldable pub determine_rollback_action : PipelineConfig R → Action × String
  determine_rollback_action config = (reverse_action config.action, config.fault_id)
