-- ===== src/Benchmark/Percentiles/Ranks.antt =====
-- The percentiles against the definition of a nearest rank.
use wow_server_sim.Common.{
  ℕ, zero, suc, ◌≤◌, ◌<◌, ◌≡◌, refl, sym, true, Option, none, some, List, [], ◌∷◌, map, select,
  length, get_elem?, tally, All, arith,
}
use mathlib.Core.Path.{subst}
use wow_server_sim.Common.Sort.{sort_by, IsSorted, sort_by-IsSorted, tally-sort_by, length-sort_by}
use wow_server_sim.Float.{Float, IsFloat}
use wow_server_sim.Models.{TelemetryEntry, PercentileStats}
use wow_server_sim.Logs.Entries.{is_tick, tick_duration}
use wow_server_sim.Benchmark.Percentiles.{
  rank, position, item, percentile, percentile_stats, stats_of, compute_percentiles,
}

get_elem-some :
    {A : Type 0} (xs : List A) (i : ℕ) → i < length xs → (y : A) × (get_elem? xs i ≡ some y)
get_elem-some [] i h = absurd (omega arith)
get_elem-some (x ∷ xs) zero h = (x, refl)
get_elem-some (x ∷ xs) (suc i) h = get_elem-some xs i (omega arith)

some_or :
    {A : Type 0} (o : Option A) (d : A)
    → (y : A) × (o ≡ some y)
    → o ≡ some (elim o [ none ↦ d | some z ↦ z ])
some_or none d h = let e = h.1 in cc
some_or (some z) d h = refl

position-suc : (r n : ℕ) → 1 ≤ r → suc (position r n) ≡ r
position-suc r n h = ground arith

position-lt : (r n : ℕ) → 1 ≤ r → r ≤ n → position r n < n
position-lt r n h k = ground arith

module _ {R : Type 0} ⦃fl : Float R⦄ where
  open fl use {le, lt}

  -- `p` is the nearest-rank percentile of `xs` at rank `k`: `k` items or more are at most `p`, and
  -- fewer than `k` are below it.
  pub record IsNearestRank (k : ℕ) (xs : List R) (p : R) : Type 0 where
    pub enough : k ≤ tally (λ x. le x p) xs
    pub fewer : tally (λ x. lt x p) xs < k

  module _ (laws : IsFloat fl) where
    All-le :
        {x p : R} (xs : List R) (i : ℕ)
        → All (λ y. le x y ≡ true) xs
        → get_elem? xs i ≡ some p
        → le x p ≡ true
    All-le [] i h e = cc
    All-le {x} (y ∷ xs) zero h e = let same : y ≡ _ = cc in subst (λ z. le x z ≡ true) same h.0
    All-le (y ∷ xs) (suc i) h e = All-le xs i h.1 e

    none_below : (x : R) (xs : List R) → All (λ y. le x y ≡ true) xs → tally (λ y. lt y x) xs ≡ 0
    none_below x [] h = refl
    none_below x (y ∷ xs) h = ground (arith, laws.lt-not-le y x, none_below x xs h.1, h.0)

    sorted-at :
        (xs : List R) (i : ℕ) (p : R)
        → IsSorted le xs
        → get_elem? xs i ≡ some p
        → IsNearestRank (suc i) xs p
    sorted-at [] i p h e = cc
    sorted-at (x ∷ xs) zero p h e =
        let same : x ≡ p = cc in
        subst (IsNearestRank 1 (x ∷ xs)) same (record {
          enough = ground (arith, laws.le_refl x);
          fewer = ground (arith, laws.le_refl x, laws.lt-not-le x x, none_below x xs h.0);
        })
    sorted-at (x ∷ xs) (suc i) p h e =
        let ih = sorted-at xs i p h.1 e in
        let below = All-le xs i h.0 e in
        record { enough = ground (arith, ih.enough, below); fewer = ground (arith, ih.fewer) }

    sorted-le :
        (xs : List R) (i j : ℕ) (p q : R)
        → IsSorted le xs
        → i ≤ j
        → get_elem? xs i ≡ some p
        → get_elem? xs j ≡ some q
        → le p q ≡ true
    sorted-le [] i j p q h i≤j e f = cc
    sorted-le (x ∷ xs) zero zero p q h i≤j e f =
        let same : p ≡ q = cc in subst (λ z. le p z ≡ true) same (laws.le_refl p)
    sorted-le (x ∷ xs) zero (suc j) p q h i≤j e f =
        let same : x ≡ p = cc in subst (λ z. le z q ≡ true) same (All-le xs j h.0 f)
    sorted-le (x ∷ xs) (suc i) zero p q h i≤j e f = ground arith
    sorted-le (x ∷ xs) (suc i) (suc j) p q h i≤j e f = sorted-le xs i j p q h.1 (ground arith) e f

    item_In :
        (x : R) (xs : List R) (i : ℕ)
        → i < length (x ∷ xs)
        → get_elem? (x ∷ xs) i ≡ some (item x xs i)
    item_In x xs i h = some_or (get_elem? (x ∷ xs) i) x (get_elem-some (x ∷ xs) i h)

    rank-le : (pct n : ℕ) → rank R pct n ≤ n
    unfolding rank
    rank-le pct n = ground arith

    rank_mono : (pct more n : ℕ) → pct ≤ more → rank R pct n ≤ rank R more n
    unfolding rank
    rank_mono pct more n h =
        let c =
          laws.ceil_mono _ _
            (laws.mul_mono _ _ n (laws.div_mono _ _ 99 (laws.of_ℕ_mono pct more h))) in
        ground (arith, c)

    rank_pos : (n : ℕ) → 1 ≤ rank R 50 (suc n)
    unfolding rank
    rank_pos n = let c = laws.ceil-half_pos n in ground (arith, c)

    percentile-In :
        (x : R) (xs : List R) (pct : ℕ)
        → 50 ≤ pct
        → (i : ℕ) × (suc i ≡ rank R pct (length (x ∷ xs)))
          × (get_elem? (x ∷ xs) i ≡ some (percentile x xs pct))
    unfolding percentile
    percentile-In x xs pct h =
        let n = length (x ∷ xs) in
        let r = rank R pct n in
        let low = rank_mono 50 pct n h in
        let pos = rank_pos (length xs) in
        let high = rank-le pct n in
        (
          position r n,
          position-suc r n (omega (arith, low, pos)),
          item_In x xs (position r n) (position-lt r n (omega (arith, low, pos)) high),
        )

  -- The percentiles of the durations `ds`.
  pub record ArePercentiles (ds : List R) (p : PercentileStats R) : Type 0 where
    pub median : IsNearestRank (rank R 50 (length ds)) ds p.p50_ms
    pub p95 : IsNearestRank (rank R 95 (length ds)) ds p.p95_ms
    pub p99 : IsNearestRank (rank R 99 (length ds)) ds p.p99_ms
    pub rising : (le p.p50_ms p.p95_ms ≡ true) × (le p.p95_ms p.p99_ms ≡ true)

  module _ (laws : IsFloat fl) where
    stats-ArePercentiles :
        (xs : List R) (p : PercentileStats R)
        → IsSorted le xs
        → percentile_stats xs ≡ some p
        → ArePercentiles xs p
    unfolding percentile_stats stats_of
    stats-ArePercentiles [] p sorted h = cc
    stats-ArePercentiles (x ∷ xs) p sorted h =
        let n = length (x ∷ xs) in
        let (i, r50, e50) = percentile-In laws x xs 50 (omega arith) in
        let (j, r95, e95) = percentile-In laws x xs 95 (omega arith) in
        let (k, r99, e99) = percentile-In laws x xs 99 (omega arith) in
        let m1 = rank_mono laws 50 95 n (omega arith) in
        let m2 = rank_mono laws 95 99 n (omega arith) in
        let near : (i k : ℕ) (q : R)
            → suc i ≡ k
            → get_elem? (x ∷ xs) i ≡ some q
            → IsNearestRank k (x ∷ xs) q =
          λ i k q r e.
            subst (λ k. IsNearestRank k (x ∷ xs) q) r (sorted-at laws (x ∷ xs) i q sorted e) in
        let same : stats_of x xs ≡ p = cc in
        subst (ArePercentiles (x ∷ xs)) same (record {
          median = near i _ _ r50 e50;
          p95 = near j _ _ r95 e95;
          p99 = near k _ _ r99 e99;
          rising = (
            sorted-le laws (x ∷ xs) i j _ _ sorted (omega (arith, r50, r95, m1)) e50 e95,
            sorted-le laws (x ∷ xs) j k _ _ sorted (omega (arith, r95, r99, m2)) e95 e99,
          );
        })

    ArePercentiles-sort_by :
        (ds : List R) (p : PercentileStats R)
        → ArePercentiles (sort_by le ds) p
        → ArePercentiles ds p
    ArePercentiles-sort_by ds p h =
        let n = length-sort_by le ds in
        let unsort : (pct : ℕ) (q : R)
            → IsNearestRank (rank R pct (length (sort_by le ds))) (sort_by le ds) q
            → IsNearestRank (rank R pct (length ds)) ds q =
          λ pct q r. record {
            enough =
                subst (λ n. rank R pct n ≤ tally (λ x. le x q) ds) n
                  (rw (sym (tally-sort_by le (λ x. le x q) ds)) r.enough);
            fewer =
                subst (λ n. tally (λ x. lt x q) ds < rank R pct n) n
                  (rw (sym (tally-sort_by le (λ x. lt x q) ds)) r.fewer);
          } in
        record {
          median = unsort 50 _ h.median;
          p95 = unsort 95 _ h.p95;
          p99 = unsort 99 _ h.p99;
          rising = h.rising;
        }

    -- The statistics that are returned are the nearest-rank percentiles of the durations of the
    -- completed ticks: the value at rank `k` has at least `k` durations at or under it and fewer
    -- than `k` strictly under it. They rise from P50 to P99.
    pub compute_percentiles-ArePercentiles :
        (es : List (TelemetryEntry R)) (p : PercentileStats R)
        → compute_percentiles es ≡ some p
        → ArePercentiles (map tick_duration (select is_tick es)) p
    unfolding compute_percentiles
    compute_percentiles-ArePercentiles es p h =
        let ds = map tick_duration (select is_tick es) in
        ArePercentiles-sort_by ds p (
          stats-ArePercentiles (sort_by le ds) p
            (sort_by-IsSorted le laws.le_total laws.le_trans ds) h)
