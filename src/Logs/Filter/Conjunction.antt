-- ===== src/Logs/Filter/Conjunction.antt =====
-- The chained filters against one pass over the entries.
use wow_server_sim.Common.{
  String, ◌≡◌, refl, ap, ◌∙◌, sym, Bool, true, ◌&&◌, Option, none, some, List, str_eq, select,
  select-select, select-all,
}
use wow_server_sim.Models.{TelemetryEntry, type_name}
use wow_server_sim.Logs.Filter.{contains, narrow, filter_entries}

-- A filter that is not given admits everything.
abbrev pub admits {ℓ} : {A : Type ℓ} → (String → A → Bool) → Option String → A → Bool
admits test none a = true
admits test (some wanted) a = test wanted a

narrow-eq-select {ℓ} :
    {A : Type ℓ} (test : String → A → Bool) (o : Option String) (xs : List A)
    → narrow test o xs ≡ select (admits test o) xs
narrow-eq-select test none xs = sym (select-all xs)
narrow-eq-select test (some w) xs = refl

module _ {R : Type 0} where
  abbrev pub by_type : String → TelemetryEntry R → Bool
  by_type wanted e = str_eq (type_name e.type) wanted

  abbrev pub by_component : String → TelemetryEntry R → Bool
  by_component wanted e = str_eq e.component wanted

  abbrev pub by_message : String → TelemetryEntry R → Bool
  by_message wanted e = contains wanted e.message

  -- Filtering keeps, in order, the entries that meet every filter that is given.
  pub filter_entries-eq-select :
      (entries : List (TelemetryEntry R)) (type component message : Option String)
      → filter_entries entries type component message
        ≡ select
            (λ e.
              admits by_type type e
              && admits by_component component e
              && admits by_message message e)
            entries
  unfolding filter_entries
  filter_entries-eq-select entries t c m =
      narrow-eq-select by_message m _
      ∙ ap (select (admits by_message m)) (
          narrow-eq-select by_component c _
          ∙ ap (select (admits by_component c)) (narrow-eq-select by_type t entries))
      ∙ ap (select (admits by_message m))
          (select-select (admits by_component c) (admits by_type t) entries)
      ∙ select-select (admits by_message m) (λ e. admits by_type t e && admits by_component c e)
          entries
