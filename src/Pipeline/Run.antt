-- ===== src/Pipeline/Run.antt =====
-- The staged run of tools/wowsim/pipeline.py with the calls that it makes.
pub mod Stages
pub mod Canary
pub mod Outcomes
pub mod Finishes
pub mod Ending
use wow_server_sim.Common.{
  ℕ, suc, zero, ◌+◌, String, Bool, true, false, not, List, [], ◌∷◌, ◌++◌, Option, none, some,
  get_last?, str_eq, if◌then◌else◌,
}
use wow_server_sim.Float.{Float}
use wow_server_sim.Effects.{Env, Session, Exec, spent, value_error, pure, throw, now, ◌>>=◌, ◌>>◌}
use wow_server_sim.Models.{
  HealthReport, status_name, PipelineConfig, StageResult, canary, promote, rollback, Action,
  activate_action, deactivate_action, PipelineResult, promoted, rolled_back, aborted,
  ControlResponse, Outcome as Ended,
}
use wow_server_sim.Control.{activate_fault, deactivate_fault}
use wow_server_sim.Health.Report.{build_health_report}
use wow_server_sim.Pipeline.Gates.{
  check_build_preconditions, check_validate_gate, evaluate_canary_health, reverse_action,
}

-- `Path(config.log_file) if config.log_file else None`
abbrev pub log_path : Option String → Option String
log_path none = none
log_path (some path) = if str_eq path "" then none else some path

module _ {R : Type 0} ⦃fl : Float R⦄ (env : Env R) where
  open fl use {of_ℕ, add, sub, lt}

  -- `time.sleep`, which refuses a negative length.
  abbrev pub sleep : R → Exec (Unit {0})
  sleep seconds =
      if lt seconds (of_ℕ 0)
      then throw (value_error "sleep length must be non-negative")
      else pure tt

  module _ (config : PipelineConfig R) where
    unfoldable pub get_health_report : Exec (HealthReport R)
    unfolding build_health_report
    get_health_report =
        build_health_report env (log_path config.log_file) config.control_host config.control_port
          true

    -- The command that an action of the configuration sends.
    abbrev pub execute : Action → Exec ControlResponse
    execute activate_action =
        activate_fault env config.control_host config.control_port config.fault_id config.params
          config.target_zone_id config.duration_ticks
    execute deactivate_action =
        deactivate_fault env config.control_host config.control_port config.fault_id

    unfoldable pub execute_deploy_action : Exec ControlResponse
    execute_deploy_action = execute config.action

    unfoldable pub execute_rollback : Exec ControlResponse
    execute_rollback = execute (reverse_action config.action)

    unfoldable pub build_stage : Exec (StageResult R)
    build_stage = do
      t0 ← now env
      report ← get_health_report
      t1 ← now env
      pure (record (check_build_preconditions report.server_reachable (status_name report.status)) {
        duration_seconds = sub t1 t0;
      })

    unfoldable pub validate_stage : Exec (StageResult R)
    validate_stage = do
      t0 ← now env
      report ← get_health_report
      t1 ← now env
      pure (record (check_validate_gate report) { duration_seconds = sub t1 t0 })

    -- The polling loop. A round of it reads the clock, sleeps, and takes a sample; it ends at the
    -- deadline or at the first sample that fails. The fuel bounds the number of rounds.
    pub poll : (fuel : ℕ) (deadline : R) → List String → Exec (List String)
    poll zero deadline samples = λ s. (spent, s)
    poll (suc fuel) deadline samples = do
      time ← now env
      if not (lt time deadline) then pure samples else (do
        sleep config.canary_poll_interval_seconds
        report ← get_health_report
        let taken = samples ++ status_name report.status ∷ []
        if not (evaluate_canary_health taken config.rollback_on).0
            then pure taken
            else poll fuel deadline taken)

    unfoldable pub canary_stage : (fuel : ℕ) → Exec (StageResult R)
    unfolding poll
    canary_stage fuel = do
      t0 ← now env
      execute_deploy_action
      start ← now env
      samples ← poll fuel (add start config.canary_duration_seconds) []
      t1 ← now env
      let (passed, message) = evaluate_canary_health samples config.rollback_on
      pure (record {
        stage = canary;
        passed = passed;
        message = message;
        duration_seconds = sub t1 t0;
        health_status = get_last? samples;
        samples = samples;
      })

    unfoldable pub rollback_stage : Exec (StageResult R)
    rollback_stage = do
      t0 ← now env
      execute_rollback
      t1 ← now env
      pure (record {
        stage = rollback;
        passed = true;
        message = "Rollback executed — deploy action reversed";
        duration_seconds = sub t1 t0;
        health_status = none;
        samples = [];
      })

    abbrev pub promote_stage : StageResult R
    promote_stage = record {
      stage = promote;
      passed = true;
      message = "Canary passed — deploy promoted";
      duration_seconds = of_ℕ 0;
      health_status = none;
      samples = [];
    }

    abbrev pub finish : (start : R) → List (StageResult R) → Ended → Exec (PipelineResult R)
    finish start stages outcome = do
      end ← now env
      pure (record {
        config = config;
        stages = stages;
        outcome = outcome;
        total_duration_seconds = sub end start;
      })

    unfoldable pub after_canary : (start : R) (b v c : StageResult R) → Exec (PipelineResult R)
    after_canary start b v c =
        if not c.passed
        then (do r ← rollback_stage; finish start (b ∷ v ∷ c ∷ r ∷ []) rolled_back)
        else finish start (b ∷ v ∷ c ∷ promote_stage ∷ []) promoted

    unfoldable pub after_validate :
        (fuel : ℕ) (start : R) (b v : StageResult R) → Exec (PipelineResult R)
    unfolding canary_stage
    after_validate fuel start b v =
        if not v.passed
        then finish start (b ∷ v ∷ []) aborted
        else (do c ← canary_stage fuel; after_canary start b v c)

    unfoldable pub after_build :
        (fuel : ℕ) (start : R) (b : StageResult R) → Exec (PipelineResult R)
    after_build fuel start b =
        if not b.passed
        then finish start (b ∷ []) aborted
        else (do v ← validate_stage; after_validate fuel start b v)

    unfoldable pub run_pipeline : (fuel : ℕ) → Exec (PipelineResult R)
    run_pipeline fuel = do start ← now env; b ← build_stage; after_build fuel start b
