-- ===== src/Pipeline/Run/Outcomes.antt =====
-- What a run of the pipeline has done by the time it returns or raises.
use wow_server_sim.Common.{
  ℕ, ◌≡◌, refl, ◌⊎◌, inl, inr, String, Bool, true, false, not, List, [], ◌∷◌, ◌++◌, map, Bool-cases,
  arith, ◌+◌,
}
use wow_server_sim.Float.{Float}
use wow_server_sim.Effects.{Env, Session, Exec}
use wow_server_sim.Effects.Rules.{Holds, Holds-bind, Holds-if, Holds-weaken}
use wow_server_sim.Models.{
  Request, PipelineConfig, StageResult, Stage, build, validate, canary, promote, rollback,
  PipelineResult, promoted, rolled_back, aborted, Outcome,
}
use wow_server_sim.Pipeline.Gates.{reverse_action}
use wow_server_sim.Pipeline.Run.{
  build_stage, validate_stage, canary_stage, rollback_stage, after_canary, after_validate,
  after_build, run_pipeline,
}
use wow_server_sim.Pipeline.Run.Stages.{
  request, Wrote, MaybeWrote, Left, build_stage-Holds, validate_stage-Holds, rollback_stage-Holds,
}
use wow_server_sim.Pipeline.Run.Canary.{Verdict, Judged, canary_stage-Holds}
use mathlib.Core.List.{append-nil}
use mathlib.Core.Path.{subst}

-- The stages of a run and whether each passed.
abbrev pub trail : {R : Type 0} → List (StageResult R) → List (Stage × Bool)
trail stages = map (λ r. (r.stage, r.passed)) stages

abbrev pub samples_of : {R : Type 0} → List (StageResult R) → List String
samples_of [] = []
samples_of (r ∷ rs) = r.samples ++ samples_of rs

module _ {R : Type 0} (config : PipelineConfig R) (w : List Request) where
  abbrev pub deployed : List Request
  deployed = w ++ request config config.action ∷ []

  abbrev pub reverted : List Request
  reverted = deployed ++ request config (reverse_action config.action) ∷ []

  -- The promise of each outcome, for the stages that a run reports and the requests it has
  -- written after `w`.
  abbrev pub Promise : Outcome → List (StageResult R) → Session → Type 0
  Promise aborted stages s =
      ((trail stages ≡ (build, false) ∷ [])
        ⊎ (trail stages ≡ (build, true) ∷ (validate, false) ∷ []))
      × Wrote w s
  Promise promoted stages s =
      (trail stages ≡ (build, true) ∷ (validate, true) ∷ (canary, true) ∷ (promote, true) ∷ [])
      × Verdict config.rollback_on true (samples_of stages)
      × Wrote deployed s
  Promise rolled_back stages s =
      (trail stages ≡ (build, true) ∷ (validate, true) ∷ (canary, false) ∷ (rollback, true) ∷ [])
      × Verdict config.rollback_on false (samples_of stages)
      × Wrote reverted s

  abbrev pub Fulfils : PipelineResult R → Session → Type 0
  Fulfils result s = Promise result.outcome result.stages s

  -- What an exception may leave: nothing, the deploy, or the deploy and its reversal.
  abbrev pub Interrupted : Session → Type 0
  Interrupted s = Wrote w s ⊎ (Wrote deployed s ⊎ Wrote reverted s)

passed : {b : Bool} → not b ≡ false → b ≡ true
passed {b} h = ground arith

failed : {b : Bool} → not b ≡ true → b ≡ false
failed {b} h = ground arith

-- A stage that passed and took no samples.
abbrev Passed : {R : Type 0} → Stage → StageResult R → Type 0
Passed stage r = (r.stage ≡ stage) × (r.samples ≡ []) × (r.passed ≡ true)

module _ {R : Type 0} ⦃fl : Float R⦄ (env : Env R) (config : PipelineConfig R)
    (w : List Request) where
  abbrev Done : {A : Type 0} → (A → Session → Type 0) → Exec A → Session → Type 0
  Done P m s = Holds P (Interrupted config w) (Wrote (deployed config w)) (m s).0 (m s).1

  after_canary-Done :
      (start : R) (b v c : StageResult R) (s : Session)
      → Passed build b
      → Passed validate v
      → Judged env config w c s
      → Done (Fulfils config w) (after_canary env config start b v c) s
  unfolding after_canary
  after_canary-Done start b v c s hb hv hc =
      let undone = reverse_action config.action in
      elim (Bool-cases c.passed) [
        | inl e ↦
            let verdict : Verdict config.rollback_on true c.samples =
              subst (λ p. Verdict config.rollback_on p c.samples) e hc.1 in
            rw e (
              rw (hb.0, hb.2, hv.0, hv.2, hc.0) refl,
              rw (hb.1, hv.1, append-nil c.samples) verdict,
              hc.2,
            )
        | inr e ↦
            let verdict : Verdict config.rollback_on false c.samples =
              subst (λ p. Verdict config.rollback_on p c.samples) e hc.1 in
            rw e (
              Holds-bind (λ r s'. (r.passed ≡ true) × Left rollback (reverted config w) r s')
                (Fulfils config w) (Interrupted config w) (Wrote (deployed config w))
                (rollback_stage env config) _ s
                (Holds-weaken (λ r s'. (r.passed ≡ true) × Left rollback (reverted config w) r s')
                  (MaybeWrote (deployed config w) (request config undone))
                  (Wrote (deployed config w)) (Interrupted config w) (Wrote (deployed config w))
                  (λ _ e. inr e) (λ _ e. e) _ _
                  (rollback_stage-Holds env config (Wrote (deployed config w)) (deployed config w) s
                    hc.2))
                (λ r s' hr. (
                  rw (hb.0, hb.2, hv.0, hv.2, hc.0, hr.0, hr.1.0) refl,
                  rw (hb.1, hv.1, hr.1.1, append-nil c.samples) verdict,
                  hr.1.2,
                )))
      ]

  after_validate-Done :
      (fuel : ℕ) (start : R) (b v : StageResult R) (s : Session)
      → Passed build b
      → Left validate w v s
      → Done (Fulfils config w) (after_validate env config fuel start b v) s
  unfolding after_validate
  after_validate-Done fuel start b v s hb hv =
      let r = request config config.action in
      Holds-if (Fulfils config w) (Interrupted config w) (Wrote (deployed config w)) (not v.passed)
        _ _ s (λ e. (inr (rw (hb.0, hb.2, hv.0, failed e) refl), hv.2))
        (λ e.
          Holds-bind (Judged env config w) (Fulfils config w) (Interrupted config w)
            (Wrote (deployed config w)) (canary_stage env config fuel) _ s
            (Holds-weaken (Judged env config w) (MaybeWrote w r) (Wrote (deployed config w))
              (Interrupted config w) (Wrote (deployed config w)) (λ s' h. ground (arith, h))
              (λ _ e. e) _ _ (canary_stage-Holds env config w fuel s hv.2))
            (λ c s' hc. after_canary-Done start b v c s' hb (hv.0, hv.1, passed e) hc))

  after_build-Done :
      (fuel : ℕ) (start : R) (b : StageResult R) (s : Session)
      → Left build w b s
      → Done (Fulfils config w) (after_build env config fuel start b) s
  unfolding after_build
  after_build-Done fuel start b s hb =
      Holds-if (Fulfils config w) (Interrupted config w) (Wrote (deployed config w)) (not b.passed)
        _ _ s (λ e. (inl (rw (hb.0, failed e) refl), hb.2))
        (λ e.
          Holds-bind (Left validate w) (Fulfils config w) (Interrupted config w)
            (Wrote (deployed config w)) (validate_stage env config) _ s
            (Holds-weaken (Left validate w) (Wrote w) (Wrote (deployed config w))
              (Interrupted config w) (Wrote (deployed config w)) (λ _ e. inl e) (λ _ e. e) _ _
              (validate_stage-Holds env config (Wrote (deployed config w)) w s hb.2))
            (λ v s' hv. after_validate-Done fuel start b v s' (hb.0, hb.1, passed e) hv))

module _ {R : Type 0} ⦃fl : Float R⦄ (env : Env R) (config : PipelineConfig R) where
  -- A run that returns has done what its outcome says, from whatever it starts. Aborted: a gate
  -- was the last stage and failed, and nothing was written. Promoted: the four stages passed, all
  -- samples were below the threshold, and just the deploy request was written. Rolled back: the
  -- canary failed, the last of its samples is the first that is not below the threshold, and the
  -- deploy request was written, then its reversal. An exception leaves nothing, the deploy, or the
  -- deploy and its reversal, and fuel that runs out leaves the deploy.
  pub run_pipeline-Fulfils :
      (fuel : ℕ) (s : Session)
      → Holds
          (Fulfils config s.written)
          (Interrupted config s.written)
          (Wrote (deployed config s.written))
          (run_pipeline env config fuel s).0
          (run_pipeline env config fuel s).1
  unfolding run_pipeline
  run_pipeline-Fulfils fuel s =
      let s1 : Session = record s { readings = s.readings + 1 } in
      Holds-bind (Left build s.written) (Fulfils config s.written) (Interrupted config s.written)
        (Wrote (deployed config s.written)) (build_stage env config) _ s1
        (Holds-weaken (Left build s.written) (Wrote s.written) (Wrote (deployed config s.written))
          (Interrupted config s.written) (Wrote (deployed config s.written)) (λ _ e. inl e)
          (λ _ e. e) _ _
          (build_stage-Holds env config (Wrote (deployed config s.written)) s.written s1 refl))
        (λ b s' hb. after_build-Done env config s.written fuel (env.monotonic s.readings) b s' hb)
