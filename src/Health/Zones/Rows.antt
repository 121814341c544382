-- ===== src/Health/Zones/Rows.antt =====
-- What the entries of a zone leave in its row of the table that `compute_zone_health` keeps.
use wow_server_sim.Common.{
  ℕ, ◌+◌, ◌≤◌, ◌≡◌, refl, Bool, true, false, ◌||◌, List, [], ◌∷◌, tally, any, sum_by, ltb, ◌==◌,
  if◌then◌else◌, arith,
}
use wow_server_sim.Common.Sort.{sort_by}
use wow_server_sim.Float.{Float}
use wow_server_sim.Models.{TelemetryEntry}
use wow_server_sim.Logs.Entries.{is_zone_crash}
use wow_server_sim.Health.Zones.Tables.{
  ZoneRow, new_row, update, by_id, named, at_zone, at_zone-sort_by, at_zone-update, named-update,
}
use wow_server_sim.Health.Zones.{is_zone_tick, zone_of, add_tick, add_error, note_zone, note_zones}

module _ {R : Type 0} where
  -- What an entry adds at zone `i`: `dt e` as a tick, `de` as a crash.
  abbrev pub share : (dt : TelemetryEntry R → ℕ) (de i : ℕ) → TelemetryEntry R → ℕ
  share dt de i e =
      if zone_of e == i
      then (if is_zone_tick e then dt e else if is_zone_crash e then de else 0)
      else 0

module _ {R : Type 0} ⦃fl : Float R⦄ (w : ZoneRow R → ℕ) (dt : TelemetryEntry R → ℕ) (de : ℕ)
    (at_tick : (e : TelemetryEntry R) (row : ZoneRow R) → w (add_tick e row) ≡ w row + dt e)
    (at_error : (row : ZoneRow R) → w (add_error row) ≡ w row + de)
    (at_new : (id : ℕ) → w (new_row id) ≡ 0) where
  id-add_tick : (e : TelemetryEntry R) (row : ZoneRow R) → (add_tick e row).id ≡ row.id
  unfolding add_tick
  id-add_tick e row = refl

  id-add_error : (row : ZoneRow R) → (add_error row).id ≡ row.id
  unfolding add_error
  id-add_error row = refl

  at_zone-note_zone :
      (i : ℕ) (rows : List (ZoneRow R)) (e : TelemetryEntry R)
      → at_zone w i (note_zone rows e) ≡ at_zone w i rows + share dt de i e
  unfolding note_zone
  at_zone-note_zone i rows e =
      let z = zone_of e in
      ground (
        arith,
        at_zone-update w (add_tick e) (dt e) (at_tick e) (id-add_tick e) i z rows (at_new z),
        at_zone-update w add_error de at_error id-add_error i z rows (at_new z),
      )

  at_zone-note_zones :
      (i : ℕ) (es : List (TelemetryEntry R)) (rows : List (ZoneRow R))
      → at_zone w i (note_zones rows es) ≡ at_zone w i rows + sum_by (share dt de i) es
  unfolding note_zones
  at_zone-note_zones i [] rows = omega arith
  at_zone-note_zones i (e ∷ es) rows =
      omega (arith, at_zone-note_zones i es (note_zone rows e), at_zone-note_zone i rows e)

  pub at_zone-rows :
      (i : ℕ) (es : List (TelemetryEntry R))
      → at_zone w i (sort_by by_id (note_zones [] es)) ≡ sum_by (share dt de i) es
  at_zone-rows i es =
      omega (arith, at_zone-sort_by w i (note_zones [] es), at_zone-note_zones i es [])

exclusive : {R : Type 0} (e : TelemetryEntry R) → is_zone_crash e ≡ true → is_zone_tick e ≡ false
unfolding is_zone_crash is_zone_tick
exclusive e h = ground arith

module _ {R : Type 0} where
  abbrev pub crashed_row : ZoneRow R → Bool
  crashed_row row = ltb 0 row.errors

  crashed-update :
      (f : ZoneRow R → ZoneRow R) (b : Bool) (id : ℕ)
      → ((row : ZoneRow R) → crashed_row (f row) ≡ (b || crashed_row row))
      → (rows : List (ZoneRow R)) → any crashed_row (update id f rows) ≡ (b || any crashed_row rows)
  unfolding update
  crashed-update f b id h [] = ground (arith, h (new_row id))
  crashed-update f b id h (row ∷ rows) = ground (arith, h row, crashed-update f b id h rows)

module _ {R : Type 0} ⦃fl : Float R⦄ where
  crashed-add_tick :
      (e : TelemetryEntry R) (row : ZoneRow R) → crashed_row (add_tick e row) ≡ crashed_row row
  unfolding add_tick
  crashed-add_tick e row = refl

  crashed-add_error : (row : ZoneRow R) → crashed_row (add_error row) ≡ true
  unfolding add_error
  crashed-add_error row = ground arith

  pub crashed-note_zones :
      (es : List (TelemetryEntry R)) (rows : List (ZoneRow R))
      → any crashed_row (note_zones rows es) ≡ (any crashed_row rows || any is_zone_crash es)
  unfolding note_zones
  crashed-note_zones [] rows = ground arith
  crashed-note_zones (e ∷ es) rows = ground (
    arith,
    exclusive e,
    crashed-note_zones es (note_zone rows e),
    crashed-update (add_tick e) false (zone_of e) (crashed-add_tick e) rows,
    crashed-update add_error true (zone_of e) crashed-add_error rows,
  )

  pub once-note_zones :
      (i : ℕ) (es : List (TelemetryEntry R)) (rows : List (ZoneRow R))
      → tally (named i) rows ≤ 1
      → tally (named i) (note_zones rows es) ≤ 1
  unfolding note_zones
  once-note_zones i [] rows h = h
  once-note_zones i (e ∷ es) rows h = once-note_zones i es (note_zone rows e) (
      ground (
        arith,
        named-update (add_tick e) (λ row. refl) i (zone_of e) rows,
        named-update add_error (λ row. refl) i (zone_of e) rows,
      ))
