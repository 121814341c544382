-- ===== src/Health/Ticks/Bounds.antt =====
-- What the tick statistics say of the tick entries.
use mathlib.Core.Path.{subst}
use wow_server_sim.Common.{
  ℕ, suc, ◌≤◌, ◌≡◌, ◌↔◌, refl, true, none, some, List, [], ◌∷◌, map, select, tally, length, All,
  if◌then◌else◌, arith, tally-le-length, length-select,
}
use wow_server_sim.Float.{Float, IsFloat}
use wow_server_sim.Float.Ratio.{ratio-le_one}
use wow_server_sim.Models.{TelemetryEntry, TickHealth}
use wow_server_sim.Logs.Entries.{is_tick, tick_duration}
use wow_server_sim.Health.Ticks.{overran, largest, smallest, stats, tick_stats, compute_tick_health}

module _ {R : Type 0} ⦃fl : Float R⦄ (laws : IsFloat fl) where
  open fl use {of_ℕ, true_div, mul, le, lt}

  -- A step of `max` keeps what is at least both.
  step_largest :
      (b x : R) → (le b (if lt b x then x else b) ≡ true) × (le x (if lt b x then x else b) ≡ true)
  step_largest b x =
      ground (arith, laws.lt-not-le b x, laws.le_refl b, laws.le_refl x, laws.le_total x b)

  step_smallest :
      (b x : R) → (le (if lt x b then x else b) b ≡ true) × (le (if lt x b then x else b) x ≡ true)
  step_smallest b x =
      ground (arith, laws.lt-not-le x b, laws.le_refl b, laws.le_refl x, laws.le_total b x)

  largest_upper :
      (b : R) (xs : List R)
      → (le b (largest b xs) ≡ true) × All (λ x. le x (largest b xs) ≡ true) xs
  unfolding largest
  largest_upper b [] = (laws.le_refl b, tt)
  largest_upper b (x ∷ xs) =
      let ih = largest_upper (if lt b x then x else b) xs in
      let s = step_largest b x in
      (laws.le_trans _ _ _ s.0 ih.0, (laws.le_trans _ _ _ s.1 ih.0, ih.1))

  smallest_lower :
      (b : R) (xs : List R)
      → (le (smallest b xs) b ≡ true) × All (λ x. le (smallest b xs) x ≡ true) xs
  unfolding smallest
  smallest_lower b [] = (laws.le_refl b, tt)
  smallest_lower b (x ∷ xs) =
      let ih = smallest_lower (if lt x b then x else b) xs in
      let s = step_smallest b x in
      (laws.le_trans _ _ _ ih.0 s.0, (laws.le_trans _ _ _ ih.0 s.1, ih.1))

module _ {R : Type 0} ⦃fl : Float R⦄ where
  open fl use {of_ℕ, true_div, mul, le}

  -- The statistics `t` describe the tick entries `ticks`.
  pub record Describes (ticks : List (TelemetryEntry R)) (t : TickHealth R) : Type 0 where
    pub counted : t.total_ticks ≡ length ticks
    pub overruns : t.overrun_count ≡ tally overran ticks
    pub some_of : t.overrun_count ≤ t.total_ticks
    pub highest : All (λ x. le x t.max_duration_ms ≡ true) (map tick_duration ticks)
    pub lowest : All (λ x. le t.min_duration_ms x ≡ true) (map tick_duration ticks)
    pub percent : (le (of_ℕ 0) t.overrun_pct ≡ true) × (le t.overrun_pct (of_ℕ 100) ≡ true)

  module _ (laws : IsFloat fl) where
    percent_bounds :
        (o n : ℕ)
        → o ≤ suc n
        → let pct = mul (true_div o (suc n)) (of_ℕ 100) in
          (le (of_ℕ 0) pct ≡ true) × (le pct (of_ℕ 100) ≡ true)
    percent_bounds o n h = (
      subst (λ (x : R). le x (mul (true_div o (suc n)) (of_ℕ 100)) ≡ true) (laws.zero-mul 100)
          (laws.mul_mono _ _ 100 (laws.true_div_nonneg o n)),
      subst (λ (x : R). le (mul (true_div o (suc n)) (of_ℕ 100)) x ≡ true) (laws.one-mul (of_ℕ 100))
          (laws.mul_mono _ _ 100 (ratio-le_one laws o (suc n) h (omega arith))),
    )

    length-durations : (ts : List (TelemetryEntry R)) → length (map tick_duration ts) ≡ length ts
    length-durations [] = refl
    length-durations (e ∷ ts) = omega (arith, length-durations ts)

    stats-Describes :
        (e : TelemetryEntry R) (ts : List (TelemetryEntry R))
        → Describes
            (e ∷ ts)
            (stats (tick_duration e) (map tick_duration ts) (tally overran (e ∷ ts)))
    unfolding stats
    stats-Describes e ts =
        let n = length-durations ts in
        let some_of = tally-le-length overran (e ∷ ts) in
        record {
          counted = omega (arith, n);
          overruns = refl;
          some_of = omega (arith, some_of, n);
          highest = largest_upper laws (tick_duration e) (map tick_duration ts);
          lowest = smallest_lower laws (tick_duration e) (map tick_duration ts);
          percent =
              percent_bounds (tally overran (e ∷ ts)) (length (map tick_duration ts))
                (omega (arith, some_of, n));
        }

    tick_stats-Describes :
        (ts : List (TelemetryEntry R)) (t : TickHealth R)
        → tick_stats (map tick_duration ts) (tally overran ts) ≡ some t
        → Describes ts t
    unfolding tick_stats
    tick_stats-Describes [] t h = cc
    tick_stats-Describes (e ∷ ts) t h =
        let same : stats (tick_duration e) (map tick_duration ts) (tally overran (e ∷ ts)) ≡ t =
          cc in
        subst (Describes (e ∷ ts)) same (stats-Describes e ts)

    -- The statistics that are returned count the tick entries and the overruns among them, their
    -- maximum and minimum bound every duration, and the percentage lies between 0 and 100.
    pub compute_tick_health-Describes :
        (es : List (TelemetryEntry R)) (t : TickHealth R)
        → compute_tick_health es ≡ some t
        → Describes (select is_tick es) t
    unfolding compute_tick_health
    compute_tick_health-Describes es t h = tick_stats-Describes (select is_tick es) t h

  tick_stats-none :
      (ts : List (TelemetryEntry R))
      → (tick_stats (map tick_duration ts) (tally overran ts) ≡ none) ↔ (length ts ≡ 0)
  unfolding tick_stats
  tick_stats-none [] = (λ h. refl, λ h. refl)
  tick_stats-none (e ∷ ts) = (λ h. cc, λ h. absurd (omega arith))

  -- There are no statistics exactly when no entry is a completed tick.
  pub compute_tick_health-none :
      (es : List (TelemetryEntry R)) → (compute_tick_health es ≡ none) ↔ (tally is_tick es ≡ 0)
  unfolding compute_tick_health
  compute_tick_health-none es =
      rw (← length-select is_tick es) (tick_stats-none (select is_tick es))
