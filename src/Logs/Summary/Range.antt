-- ===== src/Logs/Summary/Range.antt =====
-- The time range of a summary.
use wow_server_sim.Common.{
  ℕ, zero, ◌-◌, ◌≤◌, ◌≡◌, refl, some, List, [], ◌∷◌, All, In, map, arith, ltb, if◌then◌else◌,
  In-choice,
}
use wow_server_sim.Float.{Float}
use wow_server_sim.Models.{LogSummary, TelemetryEntry}
use wow_server_sim.Logs.Summary.{min_from, max_from, total_seconds, time_range, summarize}
use wow_server_sim.Logs.Summary.Counts.{note_all-timestamps}

min_from-le : (b : ℕ) (xs : List ℕ) → (min_from b xs ≤ b) × All (λ x. min_from b xs ≤ x) xs
unfolding min_from
min_from-le b [] = (omega arith, tt)
min_from-le b (x ∷ xs) =
    let ih = min_from-le (if ltb x b then x else b) xs in
    (ground (arith, ih.0), (ground (arith, ih.0), ih.1))

max_from-le : (b : ℕ) (xs : List ℕ) → (b ≤ max_from b xs) × All (λ x. x ≤ max_from b xs) xs
unfolding max_from
max_from-le b [] = (omega arith, tt)
max_from-le b (x ∷ xs) =
    let ih = max_from-le (if ltb b x then x else b) xs in
    (ground (arith, ih.0), (ground (arith, ih.0), ih.1))

min_from-In : (b : ℕ) (xs : List ℕ) → In (min_from b xs) (b ∷ xs)
unfolding min_from
min_from-In b [] = (zero, refl)
min_from-In b (x ∷ xs) = In-choice (ltb x b) b x _ xs (min_from-In (if ltb x b then x else b) xs)

max_from-In : (b : ℕ) (xs : List ℕ) → In (max_from b xs) (b ∷ xs)
unfolding max_from
max_from-In b [] = (zero, refl)
max_from-In b (x ∷ xs) = In-choice (ltb b x) b x _ xs (max_from-In (if ltb b x then x else b) xs)

abbrev pub times : {R : Type 0} → List (TelemetryEntry R) → List ℕ
times es = map (λ e. e.timestamp) es

module _ {R : Type 0} ⦃fl : Float R⦄ where
  open fl use {of_ℕ, true_div, le}

  -- The range of a summary: the earliest and the latest time among the entries, and the seconds
  -- between them.
  pub record IsRange (es : List (TelemetryEntry R)) (s : LogSummary R) : Type 0 where
    pub first : ℕ
    pub last : ℕ
    pub start_first : s.time_range_start ≡ some first
    pub end_last : s.time_range_end ≡ some last
    pub lower : All (λ t. first ≤ t) (times es)
    pub upper : All (λ t. t ≤ last) (times es)
    pub first_In : In first (times es)
    pub last_In : In last (times es)
    pub seconds : s.duration_seconds ≡ true_div (last - first) 1000000

  total_seconds-le : (a b : ℕ) → a ≤ b → total_seconds a b ≡ true_div (b - a) 1000000
  unfolding total_seconds
  total_seconds-le a b h = ground arith

  -- With at least one entry, the summary has the earliest and the latest timestamp, both taken
  -- from entries, and its duration is their distance.
  pub summarize-IsRange :
      (e : TelemetryEntry R) (es : List (TelemetryEntry R)) → IsRange (e ∷ es) (summarize (e ∷ es))
  unfolding summarize time_range
  summarize-IsRange e es = rw note_all-timestamps (
      let low = min_from-le e.timestamp (times es) in
      let high = max_from-le e.timestamp (times es) in
      record {
        first = min_from e.timestamp (times es);
        last = max_from e.timestamp (times es);
        start_first = refl;
        end_last = refl;
        lower = low;
        upper = high;
        first_In = min_from-In e.timestamp (times es);
        last_In = max_from-In e.timestamp (times es);
        seconds = total_seconds-le _ _ (omega (arith, low.0, high.0));
      })
