-- ===== src/Health/Zones/Ledger.antt =====
-- The zone summaries against sums over the entries of each zone.
use wow_server_sim.Common.{
  ℕ, ◌≤◌, ◌≡◌, refl, ◌∙◌, ap, sym, Bool-cases, inl, inr, String, Bool, true, List, [], ◌∷◌, map,
  length, length-append, tally, any, any-eq-tally, All, sum_by, str_eq, ltb, leb, ◌==◌,
  if◌then◌else◌, arith,
}
use wow_server_sim.Common.Sort.{sort_by, sort_by-IsSorted, IsSorted, tally-sort_by}
use wow_server_sim.Float.{Float}
use wow_server_sim.Models.{TelemetryEntry, ZoneHealthSummary}
use wow_server_sim.Logs.Entries.{get_or, is_zone_crash}
use wow_server_sim.Health.Zones.Tables.{ZoneRow, by_id, named, at_zone}
use wow_server_sim.Health.Zones.Rows.{
  share, at_zone-rows, crashed_row, crashed-note_zones, once-note_zones,
}
use wow_server_sim.Health.Zones.{note_zones, zone_summary, compute_zone_health}

abbrev pub state_of : ℕ → String
state_of errors = if ltb 0 errors then "CRASHED" else "ACTIVE"

state_of_crashed : (n : ℕ) → str_eq (state_of n) "CRASHED" ≡ ltb 0 n
state_of_crashed n = elim (Bool-cases (ltb 0 n)) [ inl h ↦ rw h | inr h ↦ rw h ]

-- The summaries of a zone, and what they add up to.
module _ {R : Type 0} where
  abbrev pub at_summary : (ZoneHealthSummary R → ℕ) → ℕ → List (ZoneHealthSummary R) → ℕ
  at_summary w i zones = sum_by (λ z. if z.zone_id == i then w z else 0) zones

  abbrev pub earlier_zone : ZoneHealthSummary R → ZoneHealthSummary R → Bool
  earlier_zone x y = leb x.zone_id y.zone_id

  abbrev pub says_crashed : ZoneHealthSummary R → Bool
  says_crashed z = str_eq z.state "CRASHED"

  pub record AnswersTo (es : List (TelemetryEntry R)) (zones : List (ZoneHealthSummary R))
      : Type 0 where
    pub once : (i : ℕ) → tally (λ z. z.zone_id == i) zones ≤ 1
    pub sorted : IsSorted earlier_zone zones
    pub ticks : (i : ℕ) → at_summary (λ z. z.tick_count) i zones ≡ sum_by (share (λ e. 1) 0 i) es
    pub errors : (i : ℕ) → at_summary (λ z. z.error_count) i zones ≡ sum_by (share (λ e. 0) 1 i) es
    pub casts :
        (i : ℕ)
        → at_summary (λ z. z.total_casts) i zones
          ≡ sum_by (share (λ e. get_or e.payload.casts_started 0) 0 i) es
    pub damage :
        (i : ℕ)
        → at_summary (λ z. z.total_damage) i zones
          ≡ sum_by (share (λ e. get_or e.payload.total_damage_dealt 0) 0 i) es
    pub states : All (λ z. z.state ≡ state_of z.error_count) zones

module _ {R : Type 0} ⦃fl : Float R⦄ where
  at_summary-map :
      (w : ZoneHealthSummary R → ℕ) (i : ℕ) (rows : List (ZoneRow R))
      → at_summary w i (map zone_summary rows) ≡ at_zone (λ row. w (zone_summary row)) i rows
  unfolding zone_summary
  at_summary-map w i [] = refl
  at_summary-map w i (row ∷ rows) = omega (arith, at_summary-map w i rows)

  once-map :
      (i : ℕ) (rows : List (ZoneRow R))
      → tally (λ z. z.zone_id == i) (map zone_summary rows) ≡ tally (named i) rows
  unfolding zone_summary
  once-map i [] = refl
  once-map i (row ∷ rows) = omega (arith, once-map i rows)

  later-map :
      (x : ZoneRow R) (rows : List (ZoneRow R))
      → All (λ y. by_id x y ≡ true) rows
      → All (λ z. earlier_zone (zone_summary x) z ≡ true) (map zone_summary rows)
  unfolding zone_summary
  later-map x [] h = tt
  later-map x (row ∷ rows) h = (h.0, later-map x rows h.1)

  IsSorted-map :
      (rows : List (ZoneRow R))
      → IsSorted by_id rows
      → IsSorted earlier_zone (map zone_summary rows)
  IsSorted-map [] h = tt
  IsSorted-map (row ∷ rows) h = (later-map row rows h.0, IsSorted-map rows h.1)

  states-map :
      (rows : List (ZoneRow R))
      → All (λ z. z.state ≡ state_of z.error_count) (map zone_summary rows)
  unfolding zone_summary
  states-map [] = tt
  states-map (row ∷ rows) = (refl, states-map rows)

  crashed-map :
      (rows : List (ZoneRow R)) → any says_crashed (map zone_summary rows) ≡ any crashed_row rows
  unfolding zone_summary
  crashed-map [] = refl
  crashed-map (row ∷ rows) = cc (state_of_crashed row.errors, crashed-map rows)

  -- Each zone has one summary at most, the zones stand in rising order, the counts and sums are
  -- those of the zone's own entries, and a zone is CRASHED when it had an error and else ACTIVE.
  pub compute_zone_health-AnswersTo :
      (es : List (TelemetryEntry R)) → AnswersTo es (compute_zone_health es)
  unfolding compute_zone_health
  compute_zone_health-AnswersTo es =
      let rows = sort_by by_id (note_zones [] es) in
      record {
        once = λ i. omega (
          arith,
          once-map i rows,
          tally-sort_by by_id (named i) (note_zones [] es),
          once-note_zones i es [] (omega arith),
        );
        sorted =
            IsSorted-map rows
              (sort_by-IsSorted by_id (λ x y h. ground arith) (λ x y z h k. ground arith) _);
        ticks = λ i.
            at_summary-map (λ z. z.tick_count) i rows
            ∙ at_zone-rows (λ row. length row.ticks) (λ e. 1) 0 (λ e row. length-append row.ticks _)
                (λ row. omega arith) (λ id. refl) i es;
        errors = λ i.
            at_summary-map (λ z. z.error_count) i rows
            ∙ at_zone-rows (λ row. row.errors) (λ e. 0) 1 (λ e row. omega arith) (λ row. refl)
                (λ id. refl) i es;
        casts = λ i.
            at_summary-map (λ z. z.total_casts) i rows
            ∙ at_zone-rows (λ row. row.casts) _ 0 (λ e row. refl) (λ row. omega arith) (λ id. refl)
                i es;
        damage = λ i.
            at_summary-map (λ z. z.total_damage) i rows
            ∙ at_zone-rows (λ row. row.damage) _ 0 (λ e row. refl) (λ row. omega arith) (λ id. refl)
                i es;
        states = states-map rows;
      }

  -- Some zone is reported as CRASHED exactly when some entry is a zone tick exception.
  pub compute_zone_health_crashed :
      (es : List (TelemetryEntry R))
      → any says_crashed (compute_zone_health es) ≡ any is_zone_crash es
  unfolding compute_zone_health
  compute_zone_health_crashed es =
      let rows = note_zones [] es in
      crashed-map (sort_by by_id rows)
      ∙ any-eq-tally crashed_row (sort_by by_id rows)
      ∙ ap (ltb 0) (tally-sort_by by_id crashed_row rows)
      ∙ sym (any-eq-tally crashed_row rows)
      ∙ crashed-note_zones es []
