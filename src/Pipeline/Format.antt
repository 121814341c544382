-- ===== src/Pipeline/Format.antt =====
-- `format_stage_result` and `format_pipeline_result` of tools/wowsim/pipeline.py.
use wow_server_sim.Common.{
  String, [], ◌∷◌, ◌++◌, concat, join, map, pad_right, upper, if◌then◌else◌,
}
use wow_server_sim.Float.{Float}
use wow_server_sim.Models.{StageResult, PipelineResult, stage_name, outcome_name, action_name}

module _ {R : Type 0} ⦃fl : Float R⦄ where
  open fl use {fixed}

  unfoldable pub format_stage_result : StageResult R → String
  unfolding pad_right
  format_stage_result result = concat (
      "["
      ∷ (if result.passed then "PASS" else "FAIL")
      ∷ "] "
      ∷ pad_right 10 (stage_name result.stage)
      ∷ " ("
      ∷ fixed 2 result.duration_seconds
      ∷ "s) — "
      ∷ result.message
      ∷ [])

  unfoldable pub format_pipeline_result : PipelineResult R → String
  unfolding format_stage_result upper
  format_pipeline_result result = join "\n" (
      "=== Hotfix Pipeline Report ==="
        ∷ concat ("Version: " ∷ result.config.version ∷ [])
        ∷ concat ("Fault:   " ∷ result.config.fault_id ∷ [])
        ∷ concat ("Action:  " ∷ action_name result.config.action ∷ [])
        ∷ ""
        ∷ "Stages:"
        ∷ map (λ stage. concat ("  " ∷ format_stage_result stage ∷ [])) result.stages
      ++ (""
          ∷ concat ("Outcome: " ∷ upper (outcome_name result.outcome) ∷ [])
          ∷ concat ("Total:   " ∷ fixed 2 result.total_duration_seconds ∷ "s" ∷ [])
          ∷ []))
