-- ===== src/Health/Zones/Tables.antt =====
-- Tables keyed by zone, and what an update does to sums over the rows of one zone.
use wow_server_sim.Common.{
  ℕ, ◌+◌, ◌≡◌, refl, Bool, ◌&&◌, Option, none, List, [], ◌∷◌, tally, leb, ◌==◌, if◌then◌else◌,
  arith,
}
use wow_server_sim.Common.Sort.{sort_by, insert_by}

pub record ZoneRow (R : Type 0) : Type 0 where
  pub id : ℕ
  pub ticks : List R
  pub errors : ℕ
  pub casts : ℕ
  pub damage : ℕ
  pub first_ts : Option R
  pub last_ts : Option R

module _ {R : Type 0} where
  abbrev pub new_row : ℕ → ZoneRow R
  new_row id = record {
    id = id;
    ticks = [];
    errors = 0;
    casts = 0;
    damage = 0;
    first_ts = none;
    last_ts = none;
  }

  -- Change the row of a zone, which a missing key adds.
  unfoldable pub update : ℕ → (ZoneRow R → ZoneRow R) → List (ZoneRow R) → List (ZoneRow R)
  update id f [] = f (new_row id) ∷ []
  update id f (row ∷ rows) = if row.id == id then f row ∷ rows else row ∷ update id f rows

  -- `sorted(all_zone_ids)`
  abbrev pub by_id : ZoneRow R → ZoneRow R → Bool
  by_id x y = leb x.id y.id

  abbrev pub named : ℕ → ZoneRow R → Bool
  named i row = row.id == i

  -- The sum of `w` over the rows of zone `i`.
  abbrev pub at_zone : (ZoneRow R → ℕ) → ℕ → List (ZoneRow R) → ℕ
  at_zone w i [] = 0
  at_zone w i (row ∷ rows) = (if named i row then w row else 0) + at_zone w i rows

  module _ (w : ZoneRow R → ℕ) where
    at_zone-insert_by :
        (i : ℕ) (x : ZoneRow R) (rows : List (ZoneRow R))
        → at_zone w i (insert_by by_id x rows) ≡ at_zone w i (x ∷ rows)
    unfolding insert_by
    at_zone-insert_by i x [] = refl
    at_zone-insert_by i x (y ∷ rows) = ground (arith, at_zone-insert_by i x rows)

    pub at_zone-sort_by :
        (i : ℕ) (rows : List (ZoneRow R)) → at_zone w i (sort_by by_id rows) ≡ at_zone w i rows
    unfolding sort_by
    at_zone-sort_by i [] = refl
    at_zone-sort_by i (x ∷ rows) =
        omega (arith, at_zone-insert_by i x (sort_by by_id rows), at_zone-sort_by i rows)

  -- An update that adds `d` to `w` and keeps the ids adds `d` at its zone and nothing elsewhere.
  module _ (w : ZoneRow R → ℕ) (f : ZoneRow R → ZoneRow R) (d : ℕ)
      (adds : (row : ZoneRow R) → w (f row) ≡ w row + d)
      (keeps : (row : ZoneRow R) → (f row).id ≡ row.id) where
    pub at_zone-update :
        (i id : ℕ) (rows : List (ZoneRow R))
        → w (new_row id) ≡ 0
        → at_zone w i (update id f rows) ≡ at_zone w i rows + (if id == i then d else 0)
    unfolding update
    at_zone-update i id [] h = ground (arith, adds (new_row id), keeps (new_row id))
    at_zone-update i id (row ∷ rows) h =
        ground (arith, adds row, keeps row, at_zone-update i id rows h)

  module _ (f : ZoneRow R → ZoneRow R) (keeps : (row : ZoneRow R) → (f row).id ≡ row.id) where
    pub named-update :
        (i id : ℕ) (rows : List (ZoneRow R))
        → tally (named i) (update id f rows)
          ≡ (if (id == i) && (tally (named i) rows == 0) then 1 else tally (named i) rows)
    unfolding update
    named-update i id [] = ground (arith, keeps (new_row id))
    named-update i id (row ∷ rows) = ground (arith, keeps row, named-update i id rows)
