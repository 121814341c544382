-- ===== src/Health/Zones.antt =====
-- `compute_zone_health` of tools/wowsim/health_check.py. The dictionaries that are keyed by zone
-- are one table, a row to a zone, with each dictionary's default where the zone is no key of it.
pub mod Tables
pub mod Rows
pub mod Ledger
use wow_server_sim.Common.{
  ℕ, ◌+◌, String, Bool, true, false, ◌&&◌, Option, none, some, List, [], ◌∷◌, ◌++◌, map, length,
  str_eq, ltb, leb, ◌==◌, if◌then◌else◌,
}
use wow_server_sim.Common.Sort.{sort_by}
use wow_server_sim.Float.{Float}
use wow_server_sim.Models.{TelemetryEntry, ZoneHealthSummary}
use wow_server_sim.Logs.Entries.{get_or, is_metric, is_zone_crash}
use wow_server_sim.Health.Zones.Tables.{ZoneRow, update, by_id}

module _ {R : Type 0} where
  unfoldable pub is_zone_tick : TelemetryEntry R → Bool
  is_zone_tick e =
      is_metric e.type && str_eq e.component "zone" && str_eq e.message "Zone tick completed"

  abbrev pub zone_of : TelemetryEntry R → ℕ
  zone_of e = get_or e.payload.zone_id 0

module _ {R : Type 0} ⦃fl : Float R⦄ where
  open fl use {of_ℕ, true_div, div, sub, sum, lt}

  -- `if zone_id not in zone_first_ts: zone_first_ts[zone_id] = ts`
  abbrev pub or_first : Option R → R → Option R
  or_first none ts = some ts
  or_first (some t) ts = some t

  pub add_tick : TelemetryEntry R → ZoneRow R → ZoneRow R
  add_tick e row =
      let ts = true_div e.timestamp 1000000 in
      record row {
        ticks = row.ticks ++ get_or e.payload.duration_ms (of_ℕ 0) ∷ [];
        casts = row.casts + get_or e.payload.casts_started 0;
        damage = row.damage + get_or e.payload.total_damage_dealt 0;
        first_ts = or_first row.first_ts ts;
        last_ts = some ts;
      }

  pub add_error : ZoneRow R → ZoneRow R
  add_error row = record row { errors = row.errors + 1 }

  -- One round of the loop.
  pub note_zone : List (ZoneRow R) → TelemetryEntry R → List (ZoneRow R)
  unfolding add_tick add_error
  note_zone rows e =
      if is_zone_tick e
      then update (zone_of e) (add_tick e) rows
      else if is_zone_crash e
      then update (zone_of e) add_error rows
      else rows

  pub note_zones : List (ZoneRow R) → List (TelemetryEntry R) → List (ZoneRow R)
  unfolding note_zone
  note_zones rows [] = rows
  note_zones rows (e ∷ es) = note_zones (note_zone rows e) es

  abbrev pub fallback_dps : ℕ → R
  fallback_dps damage = if ltb 0 damage then of_ℕ damage else of_ℕ 0

  abbrev pub zone_dps : ℕ → (first_ts last_ts : Option R) → R
  zone_dps damage (some first) (some last) =
      if lt first last then div (of_ℕ damage) (sub last first) else fallback_dps damage
  zone_dps damage (some first) none = fallback_dps damage
  zone_dps damage none last = fallback_dps damage

  abbrev pub average : List R → R
  average [] = of_ℕ 0
  average (x ∷ xs) = div (sum (x ∷ xs)) (of_ℕ (length (x ∷ xs)))

  pub zone_summary : ZoneRow R → ZoneHealthSummary R
  zone_summary row = record {
    zone_id = row.id;
    state = if ltb 0 row.errors then "CRASHED" else "ACTIVE";
    tick_count = length row.ticks;
    error_count = row.errors;
    avg_tick_duration_ms = average row.ticks;
    total_casts = row.casts;
    total_damage = row.damage;
    zone_dps = zone_dps row.damage row.first_ts row.last_ts;
  }

  unfoldable pub compute_zone_health : List (TelemetryEntry R) → List (ZoneHealthSummary R)
  unfolding note_zones zone_summary
  compute_zone_health entries = map zone_summary (sort_by by_id (note_zones [] entries))
