-- ===== src/Logs/Summary.antt =====
-- `summarize` of tools/wowsim/log_parser.py.
pub mod Counts
pub mod Range
use wow_server_sim.Common.{
  ℕ, ◌+◌, ◌-◌, String, Option, none, some, List, [], ◌∷◌, ◌++◌, str_eq, ltb, leb, if◌then◌else◌,
  length,
}
use wow_server_sim.Float.{Float}
use wow_server_sim.Logs.Entries.{is_error}
use wow_server_sim.Models.{TelemetryEntry, type_name, LogSummary}

-- `counts[key] += 1` on a Counter, whose keys stand in the order of their first use.
pub bump : String → List (String × ℕ) → List (String × ℕ)
bump key [] = (key, 1) ∷ []
bump key ((k, n) ∷ counts) = if str_eq k key then (k, n + 1) ∷ counts else (k, n) ∷ bump key counts

-- `min` and `max` of a list that is not empty: the first item, and the rest.
unfoldable pub min_from : ℕ → List ℕ → ℕ
min_from best [] = best
min_from best (x ∷ xs) = min_from (if ltb x best then x else best) xs

unfoldable pub max_from : ℕ → List ℕ → ℕ
max_from best [] = best
max_from best (x ∷ xs) = max_from (if ltb best x then x else best) xs

module _ {R : Type 0} ⦃fl : Float R⦄ where
  open fl use {true_div, neg}

  -- `(end - start).total_seconds()`: the microseconds of a timedelta over a million.
  unfoldable pub total_seconds : (start end : ℕ) → R
  total_seconds start end =
      if leb start end then true_div (end - start) 1000000 else neg (true_div (start - end) 1000000)

-- The variables that the loop of `summarize` updates.
pub record Tally : Type 0 where
  pub type_counts : List (String × ℕ)
  pub component_counts : List (String × ℕ)
  pub error_count : ℕ
  pub timestamps : List ℕ

abbrev pub no_tally : Tally
no_tally = record { type_counts = []; component_counts = []; error_count = 0; timestamps = [] }

module _ {R : Type 0} where
  pub note : Tally → TelemetryEntry R → Tally
  unfolding bump
  note t entry = record {
    type_counts = bump (type_name entry.type) t.type_counts;
    component_counts = bump entry.component t.component_counts;
    error_count = if is_error entry.type then t.error_count + 1 else t.error_count;
    timestamps = t.timestamps ++ entry.timestamp ∷ [];
  }

  pub note_all : Tally → List (TelemetryEntry R) → Tally
  unfolding note
  note_all t [] = t
  note_all t (e ∷ entries) = note_all (note t e) entries

-- `start`, `end` of the timestamps, if there are any.
unfoldable pub time_range : List ℕ → Option (ℕ × ℕ)
unfolding min_from max_from
time_range [] = none
time_range (t ∷ ts) = some (min_from t ts, max_from t ts)

module _ {R : Type 0} ⦃fl : Float R⦄ where
  open fl use {of_ℕ}

  abbrev pub range_summary : Tally → ℕ → Option (ℕ × ℕ) → LogSummary R
  range_summary t total none = record {
    total_entries = total;
    entries_by_type = t.type_counts;
    entries_by_component = t.component_counts;
    error_count = t.error_count;
    time_range_start = none;
    time_range_end = none;
    duration_seconds = of_ℕ 0;
  }
  range_summary t total (some (start, end)) = record {
    total_entries = total;
    entries_by_type = t.type_counts;
    entries_by_component = t.component_counts;
    error_count = t.error_count;
    time_range_start = some start;
    time_range_end = some end;
    duration_seconds = total_seconds start end;
  }

  unfoldable pub summarize : List (TelemetryEntry R) → LogSummary R
  unfolding note_all time_range
  summarize entries =
      let t = note_all no_tally entries in
      range_summary t (length entries) (time_range t.timestamps)
