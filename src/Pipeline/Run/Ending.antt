-- ===== src/Pipeline/Run/Ending.antt =====
-- The clock readings of a run, and the fuel with which it comes to an end.
use wow_server_sim.Common.{
  ℕ, suc, zero, ◌+◌, ◌<◌, ◌≡◌, ◌≢◌, refl, sym, ◌∙◌, String, true, false, not, List, [], ◌∷◌, ◌++◌,
  arith,
}
use mathlib.Core.Path.{subst}
use wow_server_sim.Float.{Float}
use wow_server_sim.Effects.{Env, Session, spent}
use wow_server_sim.Effects.Rules.{Holds-if, Holds-of}
use wow_server_sim.Models.{status_name, PipelineConfig, StageResult, Action}
use wow_server_sim.Pipeline.Gates.{evaluate_canary_health, reverse_action}
use wow_server_sim.Pipeline.Run.{
  get_health_report, sleep, execute, execute_deploy_action, execute_rollback, build_stage,
  validate_stage, canary_stage, poll, rollback_stage, after_canary, after_validate, after_build,
  run_pipeline,
}
use wow_server_sim.Pipeline.Run.Finishes.{
  Ends, Finishes, not_spent, Ends-bind, Finishes-bind, Finishes-then, Finishes-if,
}
use wow_server_sim.Pipeline.Run.Stages.{execute-Exchanges, get_health_report-Quiet}

zero_right : (n : ℕ) → n + 0 ≡ n
zero_right n = ground arith

ap_suc : (k n : ℕ) → k + 1 + 1 + n ≡ k + 2 + n
ap_suc k n = ground arith

module _ {R : Type 0} ⦃fl : Float R⦄ (env : Env R) (config : PipelineConfig R) where
  open fl use {add, lt}

  report-Ends : (s : Session) → Ends s.readings (get_health_report env config) s
  report-Ends s =
      let quiet = get_health_report-Quiet env config in
      Holds-of _ _ _ (get_health_report env config) s (λ _ _. quiet.readings s) (λ _ _. tt)
        (λ e. quiet.ends s e)

  execute-Ends : (a : Action) (s : Session) → Ends s.readings (execute env config a) s
  execute-Ends a s =
      let ex = execute-Exchanges env config a in
      Holds-of _ _ _ (execute env config a) s (λ _ _. ex.readings s) (λ _ _. tt) (λ e. ex.ends s e)

  -- A round of the loop ends if the rounds after it do.
  round-Finishes :
      (fuel : ℕ) (deadline : R) (samples : List String) (s : Session)
      → (lt (env.monotonic s.readings) deadline ≡ true
          → (taken : List String) (s' : Session) → s'.readings ≡ s.readings + 1
          → Finishes (poll env config fuel deadline taken) s')
      → Finishes (poll env config (suc fuel) deadline samples) s
  unfolding poll
  round-Finishes fuel deadline samples s rest =
      let s1 : Session = record s { readings = s.readings + 1 } in
      Finishes-if (not (lt (env.monotonic s.readings) deadline)) _ _ s1 (λ e. tt)
        (λ going.
          Finishes-bind s1.readings (sleep env config.canary_poll_interval_seconds) _ s1
            (Holds-if (λ _ s'. s'.readings ≡ s1.readings) (λ _. Unit) (λ _. ⊥)
              (lt config.canary_poll_interval_seconds (fl.of_ℕ 0)) _ _ s1 (λ e. tt) (λ e. refl))
            (λ u s2 h2.
              Finishes-bind s2.readings (get_health_report env config) _ s2 (report-Ends s2)
                (λ report s3 h3.
                  let taken = samples ++ status_name report.status ∷ [] in
                  Finishes-if (not (evaluate_canary_health taken config.rollback_on).0) _ _ s3
                    (λ e. tt) (λ e. rest (ground (arith, going)) taken s3 (h3 ∙ h2)))))

  -- The loop ends once a reading of the clock has passed the deadline.
  poll-Finishes :
      (n fuel : ℕ) (deadline : R) (samples : List String) (s : Session)
      → n < fuel
      → lt (env.monotonic (s.readings + n)) deadline ≡ false
      → Finishes (poll env config fuel deadline samples) s
  poll-Finishes n zero deadline samples s n<fuel h = ground arith
  poll-Finishes zero (suc fuel) deadline samples s n<fuel h =
      round-Finishes fuel deadline samples s (λ going taken s' r.
        let now_past =
          subst (λ k. lt (env.monotonic k) deadline ≡ false) (zero_right s.readings) h in
        cc)
  poll-Finishes (suc n) (suc fuel) deadline samples s n<fuel h =
      round-Finishes fuel deadline samples s (λ going taken s' r.
        poll-Finishes n fuel deadline taken s' (ground arith)
          (subst (λ k. lt (env.monotonic k) deadline ≡ false) (ground (arith, r)) h))

  rollback_stage-Finishes : (s : Session) → Finishes (rollback_stage env config) s
  unfolding rollback_stage execute_rollback
  rollback_stage-Finishes s =
      let s1 : Session = record s { readings = s.readings + 1 } in
      Finishes-bind s1.readings (execute env config (reverse_action config.action)) _ s1
        (execute-Ends (reverse_action config.action) s1) (λ _ _ _. tt)

  after_canary-Finishes :
      (start : R) (b v c : StageResult R) (s : Session)
      → Finishes (after_canary env config start b v c) s
  unfolding after_canary
  after_canary-Finishes start b v c s =
      Finishes-if (not c.passed) _ _ s
        (λ e. Finishes-then (rollback_stage env config) _ s (rollback_stage-Finishes s) (λ _ _. tt))
        (λ e. tt)

  -- For a canary that starts after `k` readings of the clock: the one after its `n`th round has
  -- passed the deadline.
  abbrev pub Past : (n k : ℕ) → Type 0
  Past n k =
      lt (env.monotonic (k + 2 + n)) (add (env.monotonic (k + 1)) config.canary_duration_seconds)
      ≡ false

  canary_stage-Finishes :
      (n fuel : ℕ) (s : Session)
      → n < fuel
      → Past n s.readings
      → Finishes (canary_stage env config fuel) s
  unfolding canary_stage execute_deploy_action
  canary_stage-Finishes n fuel s n<fuel h =
      let s1 : Session = record s { readings = s.readings + 1 } in
      Finishes-bind s1.readings (execute env config config.action) _ s1
        (execute-Ends config.action s1)
        (λ resp s' r.
          let s2 : Session = record s' { readings = s'.readings + 1 } in
          let deadline = add (env.monotonic s'.readings) config.canary_duration_seconds in
          Finishes-then (poll env config fuel deadline []) _ s2
            (poll-Finishes n fuel deadline [] s2 n<fuel (rw (r, ap_suc s.readings n) h))
            (λ _ _. tt))

  after_validate-Finishes :
      (n fuel : ℕ) (start : R) (b v : StageResult R) (s : Session)
      → n < fuel
      → Past n s.readings
      → Finishes (after_validate env config fuel start b v) s
  unfolding after_validate
  after_validate-Finishes n fuel start b v s n<fuel past =
      Finishes-if (not v.passed) _ _ s (λ e. tt)
        (λ e.
          Finishes-then (canary_stage env config fuel) _ s
            (canary_stage-Finishes n fuel s n<fuel past)
            (λ c s'. after_canary-Finishes start b v c s'))

  build_stage-Ends : (s : Session) → Ends (s.readings + 2) (build_stage env config) s
  unfolding build_stage
  build_stage-Ends s =
      let s1 : Session = record s { readings = s.readings + 1 } in
      Ends-bind s1.readings (s.readings + 2) (get_health_report env config) _ s1 (report-Ends s1)
        (λ report s' r. ground (arith, r))

  validate_stage-Ends : (s : Session) → Ends (s.readings + 2) (validate_stage env config) s
  unfolding validate_stage
  validate_stage-Ends s =
      let s1 : Session = record s { readings = s.readings + 1 } in
      Ends-bind s1.readings (s.readings + 2) (get_health_report env config) _ s1 (report-Ends s1)
        (λ report s' r. ground (arith, r))

  after_build-Finishes :
      (n fuel : ℕ) (start : R) (b : StageResult R) (s : Session)
      → n < fuel
      → Past n (s.readings + 2)
      → Finishes (after_build env config fuel start b) s
  unfolding after_build
  after_build-Finishes n fuel start b s n<fuel past =
      Finishes-if (not b.passed) _ _ s (λ e. tt)
        (λ e.
          Finishes-bind (s.readings + 2) (validate_stage env config) _ s (validate_stage-Ends s)
            (λ v s' r.
              after_validate-Finishes n fuel start b v s' n<fuel (subst (Past n) (sym r) past)))

  -- A run comes to an end, by a result or an exception, with fuel for more than `n` rounds, if the
  -- reading of the clock after `n` rounds of the canary has passed its deadline, which is the
  -- seventh reading of the run and the configured duration.
  pub run_pipeline_ends :
      (n fuel : ℕ) (s : Session)
      → n < fuel
      → Past n (s.readings + 5)
      → (run_pipeline env config fuel s).0 ≢ spent
  unfolding run_pipeline
  run_pipeline_ends n fuel s n<fuel past =
      let s1 : Session = record s { readings = s.readings + 1 } in
      let finishes =
        Finishes-bind (s1.readings + 2) (build_stage env config) _ s1 (build_stage-Ends s1)
          (λ b s' r.
            after_build-Finishes n fuel (env.monotonic s.readings) b s' n<fuel
              (subst (Past n) (ground (arith, r)) past)) in
      not_spent _ _ finishes
