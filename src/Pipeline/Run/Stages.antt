-- ===== src/Pipeline/Run/Stages.antt =====
-- What the two gates and the rollback of a run leave behind.
use wow_server_sim.Common.{◌+◌, ◌≡◌, refl, sym, ◌⊎◌, ◌∙◌, true, List, [], ◌∷◌, ◌++◌, arith}
use wow_server_sim.Float.{Float}
use wow_server_sim.Effects.{Env, Session}
use wow_server_sim.Effects.Rules.{Holds, Holds-bind, Holds-of}
use wow_server_sim.Models.{
  HealthReport, Request, activate, deactivate, PipelineConfig, StageResult, Stage, build, validate,
  rollback, Action, activate_action, deactivate_action,
}
use wow_server_sim.Control.Connections.{Exchanges, commands-Exchanges}
use wow_server_sim.Health.Report.Effect.{Quiet, build_health_report-Quiet}
use wow_server_sim.Pipeline.Run.{
  log_path, get_health_report, execute, execute_rollback, build_stage, validate_stage,
  rollback_stage,
}
use wow_server_sim.Pipeline.Gates.{reverse_action, check_build_preconditions, check_validate_gate}

-- The request of an action.
abbrev pub request : {R : Type 0} → PipelineConfig R → Action → Request
request config activate_action =
    activate config.fault_id config.params config.target_zone_id config.duration_ticks
request config deactivate_action = deactivate config.fault_id

-- The requests written so far are these.
abbrev pub Wrote : List Request → Session → Type 0
Wrote w s = s.written ≡ w

-- They are `w`, or `w` and `r`.
abbrev pub MaybeWrote : List Request → Request → Session → Type 0
MaybeWrote w r s = Wrote w s ⊎ Wrote (w ++ r ∷ []) s

-- The result of a stage that takes no samples, and the requests written by its end.
abbrev pub Left : {R : Type 0} → Stage → List Request → StageResult R → Session → Type 0
Left stage w result s = (result.stage ≡ stage) × (result.samples ≡ []) × Wrote w s

module _ {R : Type 0} ⦃fl : Float R⦄ (env : Env R) (config : PipelineConfig R) where
  pub execute-Exchanges : (a : Action) → Exchanges (request config a) (execute env config a)
  execute-Exchanges activate_action =
      (commands-Exchanges env config.control_host config.control_port config.fault_id config.params
        config.target_zone_id config.duration_ticks).0
  execute-Exchanges deactivate_action =
      (commands-Exchanges env config.control_host config.control_port config.fault_id config.params
        config.target_zone_id config.duration_ticks).1

  pub get_health_report-Quiet : Quiet env (get_health_report env config)
  unfolding get_health_report
  get_health_report-Quiet =
      build_health_report-Quiet env (log_path config.log_file) config.control_host
        config.control_port

  -- A command that an action of the run sends, as a step of a `do` block.
  pub execute-Holds :
      (F : Session → Type 0) (a : Action) (s : Session)
      → Holds
          (λ resp s'. Wrote (s.written ++ request config a ∷ []) s')
          (MaybeWrote s.written (request config a))
          F
          (execute env config a s).0
          (execute env config a s).1
  execute-Holds F a s =
      let ex = execute-Exchanges a in
      Holds-of _ _ _ (execute env config a) s (λ resp h. (ex.sent s resp h).1) (λ e h. ex.writes s)
        (λ h. absurd (ex.ends s h))

  module _ (F : Session → Type 0) (w : List Request) where
    pub report-Holds :
        (s : Session)
        → Wrote w s
        → Holds
            (λ (report : HealthReport R) s'. Wrote w s')
            (Wrote w)
            F
            (get_health_report env config s).0
            (get_health_report env config s).1
    report-Holds s h =
        let quiet = get_health_report-Quiet in
        Holds-of _ _ _ (get_health_report env config) s (λ _ _. quiet.written s ∙ h)
          (λ _ _. quiet.written s ∙ h) (λ e. absurd (quiet.ends s e))

    pub build_stage-Holds :
        (s : Session)
        → Wrote w s
        → Holds (Left build w) (Wrote w) F (build_stage env config s).0 (build_stage env config s).1
    unfolding build_stage check_build_preconditions
    build_stage-Holds s h =
        let s1 : Session = record s { readings = s.readings + 1 } in
        Holds-bind (λ _. Wrote w) (Left build w) (Wrote w) F (get_health_report env config) _ s1
          (report-Holds s1 h) (λ report s' h'. ground (arith, h'))

    pub validate_stage-Holds :
        (s : Session)
        → Wrote w s
        → Holds
            (Left validate w)
            (Wrote w)
            F
            (validate_stage env config s).0
            (validate_stage env config s).1
    unfolding validate_stage check_validate_gate
    validate_stage-Holds s h =
        let s1 : Session = record s { readings = s.readings + 1 } in
        Holds-bind (λ _. Wrote w) (Left validate w) (Wrote w) F (get_health_report env config) _ s1
          (report-Holds s1 h) (λ report s' h'. ground (arith, h'))

    pub rollback_stage-Holds :
        (s : Session)
        → Wrote w s
        → Holds
            (λ result s'.
              (result.passed ≡ true)
              × Left rollback (w ++ request config (reverse_action config.action) ∷ []) result s')
            (MaybeWrote w (request config (reverse_action config.action)))
            F
            (rollback_stage env config s).0
            (rollback_stage env config s).1
    unfolding rollback_stage execute_rollback
    rollback_stage-Holds s h =
        let s1 : Session = record s { readings = s.readings + 1 } in
        rw (sym h) (
          Holds-bind _ _ _ F (execute env config (reverse_action config.action)) _ s1
            (execute-Holds F (reverse_action config.action) s1)
            (λ resp s' h'. (refl, (refl, refl, h'))))
