-- ===== src/Benchmark/Verdict/Judges.antt =====
-- The verdicts against the thresholds and the scenarios they are about.
use wow_server_sim.Common.{
  ℤ, pos, negsuc, int_lt, zero, In-choice, ◌≡◌, ◌↔◌, ◌⊎◌, inl, inr, refl, ap, String, Bool, true,
  false, not, ◌&&◌, List, [], ◌∷◌, ◌++◌, map, select, all, All, In, is_nil, if◌then◌else◌, arith,
  Bool-cases,
}
use wow_server_sim.Float.{Float}
use wow_server_sim.Models.{TickHealth, PercentileStats, ScenarioResult, BenchmarkConfig}
use wow_server_sim.Benchmark.Verdict.{
  exceeded, evaluate_scenario, maximum, max_clients, passed_text, failed_text, failure_summary,
  evaluate_benchmark,
}

module _ {R : Type 0} ⦃fl : Float R⦄ where
  open fl use {lt}

  exceeded-nil :
      (name unit : String) (value limit : R) (rest : List String)
      → is_nil (exceeded name unit value limit ++ rest) ≡ (not (lt limit value) && is_nil rest)
  unfolding exceeded
  exceeded-nil name unit value limit rest = elim (Bool-cases (lt limit value)) [
    | inl h ↦ rw h
    | inr h ↦ rw h
  ]

  exceeded-last :
      (name unit : String) (value limit : R)
      → is_nil (exceeded name unit value limit) ≡ not (lt limit value)
  unfolding exceeded
  exceeded-last name unit value limit = elim (Bool-cases (lt limit value)) [
    | inl h ↦ rw h
    | inr h ↦ rw h
  ]

  -- A scenario passes exactly when none of its three figures exceeds its limit.
  pub evaluate_scenario_passed :
      (t : TickHealth R) (p : PercentileStats R) (throughput : R) (n : ℤ)
      (config : BenchmarkConfig R)
      → ((evaluate_scenario t p throughput n config).passed ≡ true) ↔ (
          (lt config.max_avg_tick_ms t.avg_duration_ms ≡ false)
          × (lt config.max_p99_tick_ms p.p99_ms ≡ false)
          × (lt config.max_overrun_pct t.overrun_pct ≡ false))
  unfolding evaluate_scenario
  evaluate_scenario_passed t p throughput n config = ground (
    arith,
    exceeded-nil "avg" "ms" t.avg_duration_ms config.max_avg_tick_ms (
        exceeded "p99" "ms" p.p99_ms config.max_p99_tick_ms
        ++ exceeded "overrun" "%" t.overrun_pct config.max_overrun_pct),
    exceeded-nil "p99" "ms" p.p99_ms config.max_p99_tick_ms
        (exceeded "overrun" "%" t.overrun_pct config.max_overrun_pct),
    exceeded-last "overrun" "%" t.overrun_pct config.max_overrun_pct,
  )

int_lt_irrefl : (z : ℤ) → int_lt z z ≡ false
int_lt_irrefl (pos n) = ground arith
int_lt_irrefl (negsuc n) = ground arith

-- What is not below the larger of two is below neither.
int_le_max :
    (m b x : ℤ)
    → int_lt m (if int_lt b x then x else b) ≡ false
    → (int_lt m b ≡ false) × (int_lt m x ≡ false)
int_le_max (pos m) (pos b) (pos x) h = ground (arith, h)
int_le_max (pos m) (pos b) (negsuc x) h = ground (arith, h)
int_le_max (pos m) (negsuc b) (pos x) h = ground (arith, h)
int_le_max (pos m) (negsuc b) (negsuc x) h = ground (arith, h)
int_le_max (negsuc m) (pos b) (pos x) h = ground (arith, h)
int_le_max (negsuc m) (pos b) (negsuc x) h = ground (arith, h)
int_le_max (negsuc m) (negsuc b) (pos x) h = ground (arith, h)
int_le_max (negsuc m) (negsuc b) (negsuc x) h = ground (arith, h)

maximum-In : (b : ℤ) (xs : List ℤ) → In (maximum b xs) (b ∷ xs)
unfolding maximum
maximum-In b [] = (zero, refl)
maximum-In b (x ∷ xs) =
    In-choice (int_lt b x) b x _ xs (maximum-In (if int_lt b x then x else b) xs)

module _ {R : Type 0} where
  -- `m` is the largest client count of the scenarios, or 0 where there are none.
  pub record IsLargest (ss : List (ScenarioResult R)) (m : ℤ) : Type 0 where
    pub bounds : All (λ s. int_lt m s.client_count ≡ false) ss
    pub taken : ((ss ≡ []) × (m ≡ pos 0)) ⊎ (In m (map (λ s. s.client_count) ss))

  -- The verdict and the summary that a list of scenarios deserves: all passed, or a first one
  -- failed; with the largest client count that passed.
  pub data Judges (ss : List (ScenarioResult R)) : Bool × String → Type 0 where
    all_pass :
        (m : ℤ)
        → All (λ s. s.passed ≡ true) ss
        → IsLargest (select (λ s. s.passed) ss) m
        → Judges ss (true, passed_text m)
    one_fails :
        (before : List (ScenarioResult R)) (first : ScenarioResult R)
        (after : List (ScenarioResult R)) (m : ℤ)
        → ss ≡ before ++ first ∷ after
        → All (λ s. s.passed ≡ true) before
        → first.passed ≡ false
        → IsLargest (select (λ s. s.passed) ss) m
        → Judges ss (false, failed_text first m)

  maximum-bounds :
      (b : ℤ) (ss : List (ScenarioResult R))
      → (int_lt (maximum b (map (λ s. s.client_count) ss)) b ≡ false)
        × All (λ s. int_lt (maximum b (map (λ s. s.client_count) ss)) s.client_count ≡ false) ss
  unfolding maximum
  maximum-bounds b [] = (int_lt_irrefl b, tt)
  maximum-bounds b (s ∷ ss) =
      let ih = maximum-bounds (if int_lt b s.client_count then s.client_count else b) ss in
      let m =
        maximum (if int_lt b s.client_count then s.client_count else b)
          (map (λ s. s.client_count) ss) in
      let both = int_le_max m b s.client_count ih.0 in (both.0, (both.1, ih.1))

  max_clients-IsLargest : (ss : List (ScenarioResult R)) → IsLargest ss (max_clients ss)
  unfolding max_clients
  max_clients-IsLargest [] = record { bounds = tt; taken = inl (refl, refl) }
  max_clients-IsLargest (s ∷ ss) =
      let b = maximum-bounds s.client_count ss in
      record { bounds = (b.0, b.1); taken = inr (maximum-In s.client_count _) }

  all-All :
      (ss : List (ScenarioResult R)) → all (λ s. s.passed) ss ≡ true → All (λ s. s.passed ≡ true) ss
  all-All [] h = tt
  all-All (s ∷ ss) h = (ground arith, all-All ss (ground arith))

  first_fail :
      (ss : List (ScenarioResult R)) (m : ℤ)
      → all (λ s. s.passed) ss ≡ false
      → (before : List (ScenarioResult R)) × (first : ScenarioResult R) × (after : List
          (ScenarioResult R))
        × (ss ≡ before ++ first ∷ after)
        × All (λ s. s.passed ≡ true) before
        × (first.passed ≡ false)
        × (failure_summary (select (λ s. not s.passed) ss) m ≡ failed_text first m)
  first_fail [] m h = cc
  first_fail (s ∷ ss) m h = elim (Bool-cases s.passed) [
    | inl e ↦
        let (before, first, after, split, good, bad, text) = first_fail ss m (ground arith) in
        (s ∷ before, first, after, ap (λ l. s ∷ l) split, (e, good), bad, rw e text)
    | inr e ↦ ([], s, ss, refl, tt, e, rw e refl)
  ]

  -- The verdict on a benchmark is the one its scenarios deserve: it passes when all of them pass,
  -- and otherwise names the first that failed, and either way the largest count that passed.
  pub evaluate_benchmark-Judges : (ss : List (ScenarioResult R)) → Judges ss (evaluate_benchmark ss)
  unfolding evaluate_benchmark
  evaluate_benchmark-Judges ss =
      let m = max_clients (select (λ s. s.passed) ss) in
      let largest = max_clients-IsLargest (select (λ s. s.passed) ss) in
      elim (Bool-cases (all (λ s. s.passed) ss)) [
        | inl e ↦ rw e (all_pass m (all-All ss e) largest)
        | inr e ↦
            let (before, first, after, split, good, bad, text) = first_fail ss m e in
            rw (e, text) (one_fails before first after m split good bad largest)
      ]
