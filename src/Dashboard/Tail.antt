-- ===== src/Dashboard/Tail.antt =====
-- `filter_new_entries` of tools/wowsim/dashboard.py.
pub mod Watch
use wow_server_sim.Common.{ℕ, Option, none, some, List, [], ◌∷◌, select, take_last, get_last?, ltb}
use wow_server_sim.Models.{TelemetryEntry}

module _ {R : Type 0} where
  -- The timestamp of the last entry shown, or the old watermark.
  abbrev pub watermark : List (TelemetryEntry R) → Option ℕ → Option ℕ
  watermark result last_ts = elim (get_last? result) [ none ↦ last_ts | some e ↦ some e.timestamp ]

  abbrev pub newer : ℕ → TelemetryEntry R → List (TelemetryEntry R) → List (TelemetryEntry R)
  newer ts e es = select (λ x. ltb ts x.timestamp) (e ∷ es)

  unfoldable pub filter_new_entries :
      List (TelemetryEntry R) → (last_ts : Option ℕ) → List (TelemetryEntry R) × Option ℕ
  filter_new_entries [] last_ts = ([], none)
  filter_new_entries (e ∷ es) none =
      let result = take_last 20 (e ∷ es) in (result, watermark result none)
  filter_new_entries (e ∷ es) (some ts) =
      let result = newer ts e es in (result, watermark result (some ts))
