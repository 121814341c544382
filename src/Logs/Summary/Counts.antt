-- ===== src/Logs/Summary/Counts.antt =====
-- The counters of a summary against plain counts over the entries.
use wow_server_sim.Common.{
  ℕ, ◌+◌, String, ◌≡◌, refl, ◌∙◌, List, [], ◌∷◌, ◌++◌, str_eq, eq_iff, if◌then◌else◌, sym, Option,
  none, some, tally, length, arith, map,
}
use mathlib.Core.List.{append-nil, append_assoc}
use wow_server_sim.Float.{Float}
use wow_server_sim.Models.{
  EntryType, metric, event, health, error, LogSummary, TelemetryEntry, type_name,
}
use wow_server_sim.Logs.Entries.{is_error}
use wow_server_sim.Logs.Summary.{bump, Tally, no_tally, note, note_all, range_summary, summarize}

-- `counts[key]` of a Counter, which is 0 for a key that is missing.
abbrev pub count_of : String → List (String × ℕ) → ℕ
count_of key [] = 0
count_of key ((k, n) ∷ counts) = if str_eq k key then n else count_of key counts

abbrev pub total : List (String × ℕ) → ℕ
total [] = 0
total ((k, n) ∷ counts) = n + total counts

count_of-bump :
    (key k : String) (counts : List (String × ℕ))
    → count_of k (bump key counts) ≡ count_of k counts + (if str_eq key k then 1 else 0)
unfolding bump
count_of-bump key k [] = ground arith
count_of-bump key k ((j, n) ∷ counts) =
    ground (arith, count_of-bump key k counts, eq_iff j key, eq_iff j k, eq_iff key k)

total-bump :
    (key : String) (counts : List (String × ℕ)) → total (bump key counts) ≡ total counts + 1
unfolding bump
total-bump key [] = refl
total-bump key ((j, n) ∷ counts) = ground (arith, total-bump key counts)

is_error-name : (t : EntryType) → is_error t ≡ str_eq (type_name t) "error"
is_error-name metric = refl
is_error-name event = refl
is_error-name health = refl
is_error-name error = refl

module _ {R : Type 0} where
  note_all-type_counts :
      (k : String) (t : Tally) (es : List (TelemetryEntry R))
      → count_of k (note_all t es).type_counts
        ≡ count_of k t.type_counts + tally (λ e. str_eq (type_name e.type) k) es
  unfolding note_all
  note_all-type_counts k t [] = omega arith
  note_all-type_counts k t (e ∷ es) = omega (
    arith,
    note_all-type_counts k (note t e) es,
    count_of-bump (type_name e.type) k t.type_counts,
  )

  note_all-component_counts :
      (k : String) (t : Tally) (es : List (TelemetryEntry R))
      → count_of k (note_all t es).component_counts
        ≡ count_of k t.component_counts + tally (λ e. str_eq e.component k) es
  unfolding note_all
  note_all-component_counts k t [] = omega arith
  note_all-component_counts k t (e ∷ es) = omega (
    arith,
    note_all-component_counts k (note t e) es,
    count_of-bump e.component k t.component_counts,
  )

  note_all-totals :
      (t : Tally) (es : List (TelemetryEntry R))
      → (total (note_all t es).type_counts ≡ total t.type_counts + length es)
        × (total (note_all t es).component_counts ≡ total t.component_counts + length es)
        × ((note_all t es).error_count ≡ t.error_count + tally (λ e. is_error e.type) es)
  unfolding note_all
  note_all-totals t [] = omega arith
  note_all-totals t (e ∷ es) = ground (
    arith,
    note_all-totals (note t e) es,
    total-bump (type_name e.type) t.type_counts,
    total-bump e.component t.component_counts,
  )

  pub note_all-timestamps :
      (t : Tally) (es : List (TelemetryEntry R))
      → (note_all t es).timestamps ≡ t.timestamps ++ map (λ e. e.timestamp) es
  unfolding note_all
  note_all-timestamps t [] = sym (append-nil t.timestamps)
  note_all-timestamps t (e ∷ es) =
      note_all-timestamps (note t e) es
      ∙ append_assoc t.timestamps (e.timestamp ∷ []) (map (λ x. x.timestamp) es)

  tally-is_error :
      (es : List (TelemetryEntry R))
      → tally (λ e. is_error e.type) es ≡ tally (λ e. str_eq (type_name e.type) "error") es
  tally-is_error [] = refl
  tally-is_error (e ∷ es) = cc (is_error-name e.type, tally-is_error es)

-- What the counters of a summary say of its entries.
pub record CountsEntries {R : Type 0} (es : List (TelemetryEntry R)) (s : LogSummary R)
    : Type 0 where
  pub all_entries : s.total_entries ≡ length es
  pub of_type :
      (k : String) → count_of k s.entries_by_type ≡ tally (λ e. str_eq (type_name e.type) k) es
  pub of_component :
      (k : String) → count_of k s.entries_by_component ≡ tally (λ e. str_eq e.component k) es
  pub types_total : total s.entries_by_type ≡ s.total_entries
  pub components_total : total s.entries_by_component ≡ s.total_entries
  pub errors : s.error_count ≡ count_of "error" s.entries_by_type

module _ {R : Type 0} ⦃fl : Float R⦄ where
  -- The time range plays no part.
  range_summary-CountsEntries :
      (es : List (TelemetryEntry R)) (t : Tally) (n : ℕ) (o : Option (ℕ × ℕ))
      → CountsEntries es (range_summary t n none)
      → CountsEntries es (range_summary t n o)
  range_summary-CountsEntries es t n none h = h
  range_summary-CountsEntries es t n (some (a, b)) h = record {
    all_entries = h.all_entries;
    of_type = h.of_type;
    of_component = h.of_component;
    types_total = h.types_total;
    components_total = h.components_total;
    errors = h.errors;
  }

  -- The counters of a summary agree with plain counts over the entries, for every type and
  -- component, each family adds up to the number of entries, and `error_count` is the count of
  -- the type "error".
  pub summarize-CountsEntries : (es : List (TelemetryEntry R)) → CountsEntries es (summarize es)
  unfolding summarize
  summarize-CountsEntries es =
      let totals = note_all-totals no_tally es in
      range_summary-CountsEntries es (note_all no_tally es) (length es) _ (record {
        all_entries = refl;
        of_type = λ k. omega (arith, note_all-type_counts k no_tally es);
        of_component = λ k. omega (arith, note_all-component_counts k no_tally es);
        types_total = omega (arith, totals.0);
        components_total = omega (arith, totals.1);
        errors =
            omega (arith, totals.2, note_all-type_counts "error" no_tally es, tally-is_error es);
      })
