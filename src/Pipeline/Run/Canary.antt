-- ===== src/Pipeline/Run/Canary.antt =====
-- The canary of a run: what its samples are, and what it has written.
use wow_server_sim.Common.{
  All-snoc, ℕ, suc, zero, ◌+◌, ◌≤◌, ◌≡◌, refl, sym, inl, inr, String, Bool, true, false, not, List,
  [], ◌∷◌, ◌++◌, All, ltb, Bool-cases, arith, if◌then◌else◌,
}
use wow_server_sim.Float.{Float}
use wow_server_sim.Effects.{Env, Session, pure}
use wow_server_sim.Effects.Rules.{Holds, Holds-bind, Holds-weaken}
use wow_server_sim.Models.{HealthReport, status_name, Request, PipelineConfig, StageResult, canary}
use wow_server_sim.Pipeline.Gates.{severity_level, evaluate_canary_health}
use wow_server_sim.Pipeline.Gates.Canary.{Below, evaluate_canary_health_passed}
use wow_server_sim.Pipeline.Run.{
  get_health_report, execute, execute_deploy_action, poll, canary_stage,
}
use wow_server_sim.Pipeline.Run.Stages.{request, Wrote, MaybeWrote, report-Holds, execute-Holds}

module _ (threshold : String) where
  -- All samples but the last are below the threshold, and the last one is not.
  abbrev pub Failed : List String → Type 0
  Failed samples =
      (init : List String) × (last : String) × (samples ≡ init ++ last ∷ [])
      × All (Below threshold) init
      × (severity_level threshold ≤ severity_level last)

  -- A new sample after samples that are all below.
  judged :
      (init : List String) (last : String)
      → All (Below threshold) init
      → (((evaluate_canary_health (init ++ last ∷ []) threshold).0 ≡ true)
          → All (Below threshold) (init ++ last ∷ []))
        × (((evaluate_canary_health (init ++ last ∷ []) threshold).0 ≡ false)
            → Failed (init ++ last ∷ []))
  judged init last h =
      let iff = evaluate_canary_health_passed threshold (init ++ last ∷ []) in
      (
        λ e. iff.0 e,
        λ e. elim (Bool-cases (ltb (severity_level last) (severity_level threshold))) [
          | inl lt ↦
              let passed = iff.1 (All-snoc (Below threshold) init last h (ground arith)) in cc
          | inr ge ↦ (init, last, refl, h, ground arith)
        ],
      )

-- What a canary has found: that every sample is below the threshold, or the first that is not.
abbrev pub Verdict : (threshold : String) (passed : Bool) → List String → Type 0
Verdict threshold true samples = All (Below threshold) samples
Verdict threshold false samples = Failed threshold samples

module _ {R : Type 0} ⦃fl : Float R⦄ (env : Env R) (config : PipelineConfig R) where
  abbrev verdict : List String → Bool
  verdict samples = (evaluate_canary_health samples config.rollback_on).0

  abbrev Sampled : List Request → List String → Session → Type 0
  Sampled w samples s = Verdict config.rollback_on (verdict samples) samples × Wrote w s

  judged_verdict :
      (init : List String) (last : String)
      → All (Below config.rollback_on) init
      → Verdict config.rollback_on (verdict (init ++ last ∷ [])) (init ++ last ∷ [])
  judged_verdict init last h =
      let j = judged config.rollback_on init last h in
      elim (Bool-cases (verdict (init ++ last ∷ []))) [
        | inl e ↦ rw e (j.0 e)
        | inr e ↦ rw e (j.1 e)
      ]

  passed_verdict :
      (samples : List String)
      → All (Below config.rollback_on) samples
      → Verdict config.rollback_on (verdict samples) samples
  passed_verdict samples h = rw ((evaluate_canary_health_passed config.rollback_on samples).1 h) h

  module _ (w : List Request) where
    poll-Holds :
        (fuel : ℕ) (deadline : R) (samples : List String) (s : Session)
        → All (Below config.rollback_on) samples
        → Wrote w s
        → Holds
            (Sampled w)
            (Wrote w)
            (Wrote w)
            (poll env config fuel deadline samples s).0
            (poll env config fuel deadline samples s).1
    unfolding poll
    poll-Holds zero deadline samples s all h = h
    poll-Holds (suc fuel) deadline samples s all h =
        let s1 : Session = record s { readings = s.readings + 1 } in
        let step : (report : HealthReport R) (s' : Session)
            → Wrote w s'
            → let taken = samples ++ status_name report.status ∷ [] in
              let next =
                (if not (verdict taken) then pure taken else poll env config fuel deadline taken) in
              Holds (Sampled w) (Wrote w) (Wrote w) (next s').0 (next s').1 =
          λ report s' h'.
            let last = status_name report.status in
            elim (Bool-cases (verdict (samples ++ last ∷ []))) [
              | inl e ↦ rw e (
                  poll-Holds fuel deadline (samples ++ last ∷ []) s'
                    ((judged config.rollback_on samples last all).0 e) h')
              | inr e ↦ rw e (judged_verdict samples last all, h')
            ] in
        elim (Bool-cases (fl.lt (env.monotonic s.readings) deadline)) [
          | inr e ↦ rw e (passed_verdict samples all, h)
          | inl e ↦
              rw e (elim (Bool-cases (fl.lt config.canary_poll_interval_seconds (fl.of_ℕ 0))) [
                | inl e' ↦ rw e' h
                | inr e' ↦ rw e' (
                    Holds-bind (λ _. Wrote w) (Sampled w) (Wrote w) (Wrote w)
                      (get_health_report env config) _ s1 (report-Holds env config (Wrote w) w s1 h)
                      step)
              ])
        ]

  -- The stage sends the deploy command and nothing else, and its result carries the verdict.
  abbrev pub Judged : List Request → StageResult R → Session → Type 0
  Judged w result s =
      (result.stage ≡ canary)
      × Verdict config.rollback_on result.passed result.samples
      × Wrote (w ++ request config config.action ∷ []) s

  pub canary_stage-Holds :
      (w : List Request) (fuel : ℕ) (s : Session)
      → Wrote w s
      → let r = request config config.action in
        Holds
          (Judged w)
          (MaybeWrote w r)
          (Wrote (w ++ r ∷ []))
          (canary_stage env config fuel s).0
          (canary_stage env config fuel s).1
  unfolding canary_stage execute_deploy_action
  canary_stage-Holds w fuel s h =
      let r = request config config.action in
      let w' = s.written ++ r ∷ [] in
      let E = MaybeWrote s.written r in
      let s1 : Session = record s { readings = s.readings + 1 } in
      rw (sym h) (
        Holds-bind (λ _. Wrote w') (Judged s.written) E (Wrote w')
          (execute env config config.action) _ s1
          (execute-Holds env config (Wrote w') config.action s1)
          (λ resp s' h'.
            let s2 : Session = record s' { readings = s'.readings + 1 } in
            let deadline = fl.add (env.monotonic s'.readings) config.canary_duration_seconds in
            Holds-bind (Sampled w') (Judged s.written) E (Wrote w')
              (poll env config fuel deadline []) _ s2
              (Holds-weaken (Sampled w') (Wrote w') (Wrote w') E (Wrote w') (λ _ e. inr e)
                (λ _ e. e) _ _ (poll-Holds w' fuel deadline [] s2 tt h'))
              (λ samples s'' h''. (refl, h''.0, h''.1))))
