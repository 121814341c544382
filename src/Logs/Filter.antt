-- ===== src/Logs/Filter.antt =====
-- `filter_entries` of tools/wowsim/log_parser.py.
pub mod Conjunction
use text.Mathlib.Text.{find?}
use wow_server_sim.Common.{String, Bool, true, false, Option, none, some, List, str_eq, select}
use wow_server_sim.Models.{TelemetryEntry, type_name}

-- `part in whole`
abbrev pub contains : String → String → Bool
contains part whole = elim (find? whole part) [ none ↦ false | some i ↦ true ]

-- `if filter is not None: result = [e for e in result if test(filter, e)]`
abbrev pub narrow {ℓ} : {A : Type ℓ} → (String → A → Bool) → Option String → List A → List A
narrow test none result = result
narrow test (some wanted) result = select (test wanted) result

module _ {R : Type 0} where
  unfoldable pub filter_entries :
      List (TelemetryEntry R)
      → (type_filter component_filter message_filter : Option String) → List (TelemetryEntry R)
  filter_entries entries type_filter component_filter message_filter =
      let result = narrow (λ wanted e. str_eq (type_name e.type) wanted) type_filter entries in
      let result' = narrow (λ wanted e. str_eq e.component wanted) component_filter result in
      narrow (λ wanted e. contains wanted e.message) message_filter result'
