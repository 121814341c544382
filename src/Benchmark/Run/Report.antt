-- ===== src/Benchmark/Run/Report.antt =====
-- What a benchmark reports when it returns.
use wow_server_sim.Common.{
  ℕ, ℤ, pos, negsuc, ◌+◌, ◌≡◌, ◌≢◌, ◌↔◌, String, refl, true, false, List, [], ◌∷◌, map, All, Option,
  none, some, ltb,
}
use wow_server_sim.Float.{Float}
use wow_server_sim.Effects.{Env, Session, Exec, Outcome, ok, raise, spent, returned, ask, ◌>>=◌}
use wow_server_sim.Effects.Rules.{Holds, Holds-bind, Holds-if}
use wow_server_sim.Models.{ScenarioResult, BenchmarkConfig, BenchmarkResult}
use wow_server_sim.MockClient.Run.{World, run_one}
use wow_server_sim.MockClient.Traffic.{IsDraw}
use wow_server_sim.MockClient.Spawn.Success.{Succeeds, spawn_clients-Succeeds}
use wow_server_sim.Health.Ticks.{compute_tick_health}
use wow_server_sim.Benchmark.Percentiles.{compute_percentiles}
use wow_server_sim.Benchmark.Verdict.{evaluate_scenario}
use wow_server_sim.Benchmark.Verdict.Judges.{
  Judges, evaluate_benchmark-Judges, evaluate_scenario_passed,
}
use wow_server_sim.Benchmark.Run.{
  client_config, spawn, tick_health_or_zero, percentiles_or_zero, measure, settle, read_telemetry,
  run_scenario, run_scenarios, run_benchmark,
}

module _ {R : Type 0} ⦃fl : Float R⦄ (config : BenchmarkConfig R) where
  -- A scenario passed exactly when its figures keep within the limits.
  abbrev pub KeepsLimits : ScenarioResult R → Type 0
  KeepsLimits s = (s.passed ≡ true) ↔ (
      (fl.lt config.max_avg_tick_ms s.tick_health.avg_duration_ms ≡ false)
      × (fl.lt config.max_p99_tick_ms s.percentiles.p99_ms ≡ false)
      × (fl.lt config.max_overrun_pct s.tick_health.overrun_pct ≡ false))

  -- The scenarios answer to the client counts, one to each in order.
  abbrev pub Covers : List ℤ → List (ScenarioResult R) → Type 0
  Covers counts ss = (map (λ s. s.client_count) ss ≡ counts) × All KeepsLimits ss

  abbrev pub Reported : BenchmarkResult R → Session → Type 0
  Reported r s =
      (r.config ≡ config)
      × Covers config.client_counts r.scenarios
      × Judges r.scenarios (r.overall_passed, r.summary_message)

-- The action returns.
Returns : {A : Type 0} → Exec A → Session → Type 0
Returns m s = Holds (λ _ _. Unit {0}) (λ _. ⊥) (λ _. ⊥) (m s).0 (m s).1

Succeeds-Returns :
    {A : Type 0} (o : Outcome A) (s : Session)
    → Succeeds o
    → Holds (λ _ _. Unit {0}) (λ _. ⊥) (λ _. ⊥) o s
Succeeds-Returns (ok a) s h = tt
Succeeds-Returns (raise e) s h = h
Succeeds-Returns spent s h = h

-- A step that returns, and whose own result does not matter.
after :
    {A B : Type 0} (Q : B → Session → Type 0) (m : Exec A) (f : A → Exec B) (s : Session)
    → Returns m s
    → ((a : A) (s' : Session) → Holds Q (λ _. ⊥) (λ _. ⊥) (f a s').0 (f a s').1)
    → Holds Q (λ _. ⊥) (λ _. ⊥) ((m >>= f) s).0 ((m >>= f) s).1
unfolding Returns
after Q m f s h next = Holds-bind (λ _ _. Unit) Q (λ _. ⊥) (λ _. ⊥) m f s h (λ a s' _. next a s')

module _ {R : Type 0} ⦃fl : Float R⦄ (env : Env R) (worlds : ℕ → ℕ → World R) (fuel : ℕ)
    (config : BenchmarkConfig R) where
  -- What a benchmark needs to return: random numbers in their ranges, clients that come to their
  -- end, a settling time that is not negative, and files that can be read.
  pub record CanRun : Type 0 where
    pub draws : (i k n : ℕ) → IsDraw ((worlds i k).draw n)
    pub ends :
        (i k : ℕ) → (run_one (worlds i k) fuel k (client_config env worlds fuel config)).0 ≢ spent
    pub settles : fl.lt config.settle_seconds (fl.of_ℕ 0) ≡ false
    pub readable : (n : ℕ) (path : String) → Succeeds (returned (env.read_lines n path))

  module _ (can : CanRun) where
    Kept : ℤ → ScenarioResult R → Session → Type 0
    Kept count scenario s = (scenario.client_count ≡ count) × KeepsLimits config scenario

    measure-Returns :
        (i : ℕ) (count : ℤ) (s : Session) → Returns (measure env worlds fuel config i count) s
    unfolding measure spawn Returns
    measure-Returns i (negsuc n) s = tt
    measure-Returns i (pos count) s =
        Holds-if (λ _ _. Unit) (λ _. ⊥) (λ _. ⊥) (ltb 0 count) _ _ s
          (λ h.
            after (λ _ _. Unit) (spawn env worlds fuel config i count) _ s
              (Succeeds-Returns _ _ (
                spawn_clients-Succeeds (worlds i) fuel (client_config env worlds fuel config)
                  (can.draws i) (can.ends i) _ _ count))
              (λ r s'. tt))
          (λ h. tt)

    settle-Returns : (s : Session) → Returns (settle env worlds fuel config config.settle_seconds) s
    unfolding Returns
    settle-Returns s =
        Holds-if (λ _ _. Unit) (λ _. ⊥) (λ _. ⊥) (fl.lt config.settle_seconds (fl.of_ℕ 0)) _ _ s
          (λ h. let e = can.settles in cc) (λ h. tt)

    read-Returns :
        (path : Option String) (s : Session)
        → Returns (read_telemetry env worlds fuel config path) s
    unfolding Returns
    read-Returns none s = tt
    read-Returns (some path) s =
        after (λ _ _. Unit) (ask env (λ n. env.read_lines n path)) _ s
          (Succeeds-Returns (returned (env.read_lines s.calls path)) _ (can.readable s.calls path))
          (λ lines s'. tt)

    run_scenario-Kept :
        (i : ℕ) (count : ℤ) (s : Session)
        → let out = run_scenario env worlds fuel config i count s in
          Holds (Kept count) (λ _. ⊥) (λ _. ⊥) out.0 out.1
    unfolding run_scenario Kept evaluate_scenario
    run_scenario-Kept i count s =
        after (Kept count) (measure env worlds fuel config i count) _ s (measure-Returns i count s)
          (λ throughput s1.
            after (Kept count) (settle env worlds fuel config config.settle_seconds) _ s1
              (settle-Returns s1)
              (λ u s2.
                after (Kept count) (read_telemetry env worlds fuel config config.log_file) _ s2
                  (read-Returns config.log_file s2)
                  (λ entries s3. (
                    refl,
                    evaluate_scenario_passed (tick_health_or_zero (compute_tick_health entries))
                        (percentiles_or_zero (compute_percentiles entries)) throughput count config,
                  ))))

    run_scenarios-Covers :
        (i : ℕ) (counts : List ℤ) (s : Session)
        → let out = run_scenarios env worlds fuel config i counts s in
          Holds (λ ss s'. Covers config counts ss) (λ _. ⊥) (λ _. ⊥) out.0 out.1
    unfolding run_scenarios Kept
    run_scenarios-Covers i [] s = (refl, tt)
    run_scenarios-Covers i (count ∷ counts) s =
        Holds-bind (Kept count) (λ ss _. Covers config (count ∷ counts) ss) (λ _. ⊥) (λ _. ⊥)
          (run_scenario env worlds fuel config i count) _ s (run_scenario-Kept i count s)
          (λ scenario s1 kept.
            Holds-bind (λ ss s'. Covers config counts ss)
              (λ ss _. Covers config (count ∷ counts) ss) (λ _. ⊥) (λ _. ⊥)
              (run_scenarios env worlds fuel config (i + 1) counts) _ s1
              (run_scenarios-Covers (i + 1) counts s1)
              (λ rest s2 covers. (rw (kept.0, covers.0) refl, (kept.1, covers.1))))

    -- Where the random numbers are in their ranges, the clients come to their end, the settling time
    -- is not negative and files can be read, a benchmark returns; it carries the configuration
    -- that it was given, and has one scenario for each client count in order, each of which passed exactly when its average, its P99 and its overruns
    -- keep within their limits; and its verdict and summary are the ones these scenarios deserve.
    pub run_benchmark-Reported :
        (s : Session)
        → let out = run_benchmark env worlds fuel config s in
          Holds (Reported config) (λ _. ⊥) (λ _. ⊥) out.0 out.1
    unfolding run_benchmark
    run_benchmark-Reported s =
        let s1 : Session = record s { readings = s.readings + 1 } in
        Holds-bind (λ ss s'. Covers config config.client_counts ss) (Reported config) (λ _. ⊥)
          (λ _. ⊥) (run_scenarios env worlds fuel config 0 config.client_counts) _ s1
          (run_scenarios-Covers 0 config.client_counts s1)
          (λ ss s2 covers. (refl, covers, evaluate_benchmark-Judges ss))
