-- ===== src/Dashboard/Catalog.antt =====
-- The fault catalogue, the durations, the two pickers and the configuration of
-- tools/wowsim/dashboard.py.
use Prim.Native.String.{slice}
use text.Mathlib.Text.{find?}
use mathlib.Core.Option as Options
use wow_server_sim.Common.{
  ℕ, pos, String, ◌≡◌, refl, Option, none, some, List, [], ◌∷◌, concat, map, first, str_eq,
  get_elem?, All,
}
use wow_server_sim.Float.{Float}
use wow_server_sim.Models.{Params, int}

pub record Scenario : Type 0 where
  pub id : String
  pub description : String
  pub params : Params

abbrev scenario : (id description : String) → Params → Scenario
scenario id description params = record { id = id; description = description; params = params }

abbrev pub fault_catalog : List Scenario
fault_catalog =
    scenario "latency-spike" "Add 200ms delay to tick processing" (("delay_ms", int (pos 200)) ∷ [])
    ∷ scenario "session-crash" "Force-terminate a random player session" []
    ∷ scenario "event-queue-flood" "Inject 10x normal event volume"
        (("multiplier", int (pos 10)) ∷ [])
    ∷ scenario "memory-pressure" "Allocate and hold large buffers (50 MB)"
        (("megabytes", int (pos 50)) ∷ [])
    ∷ scenario "cascading-zone-failure" "Crash zone 1, flood zone 2 with redistributed load"
        (("source_zone", int (pos 1)) ∷ ("target_zone", int (pos 2)) ∷ [])
    ∷ scenario "slow-leak" "Increment tick delay by 1ms every 100 ticks"
        (("increment_ms", int (pos 1)) ∷ ("increment_every", int (pos 100)) ∷ [])
    ∷ scenario "split-brain" "Partition two zones so they can't sync state"
        (("phantom_count", int (pos 5)) ∷ [])
    ∷ scenario "thundering-herd" "Disconnect all players, reconnect simultaneously"
        (("reconnect_delay_ticks", int (pos 40)) ∷ [])
    ∷ []

abbrev pub format_fault_option : (fault_id description : String) → String
format_fault_option fault_id description = concat (fault_id ∷ " — " ∷ description ∷ [])

-- The lines of the fault picker.
abbrev pub fault_options : List String
fault_options = map (λ f. format_fault_option f.id f.description) fault_catalog

-- `text.split(sep)[0]`
abbrev pub before : (sep text : String) → String
before sep text = elim (find? text sep) [ none ↦ text | some i ↦ slice text 0 i ]

-- What the fault picker returns for the line that is chosen.
abbrev pub picked_fault : (prompt : String) → String
picked_fault prompt = before " — " prompt

-- `FAULT_CATALOG.get(fault_id, {}).get("params", {})`
abbrev pub params_of : Option Scenario → Params
params_of none = []
params_of (some f) = f.params

abbrev pub catalog_params : (fault_id : String) → Params
catalog_params fault_id = params_of (first (λ f. str_eq fault_id f.id) fault_catalog)

module _ {R : Type 0} ⦃fl : Float R⦄ where
  open fl use {of_ℕ, inf}

  abbrev pub duration_options : List (String × R)
  duration_options =
      ("10 seconds", of_ℕ 10)
      ∷ ("30 seconds", of_ℕ 30)
      ∷ ("60 seconds", of_ℕ 60)
      ∷ ("Persistent (until stopped)", inf)
      ∷ []

  abbrev pub picked_duration : (option_index : ℕ) → Option R
  picked_duration option_index = Options.map (λ o. o.1) (get_elem? duration_options option_index)

pub record DashboardConfig (R : Type 0) : Type 0 where
  pub log_file : String
  pub host : String
  pub port : ℕ
  pub control_port : ℕ
  pub refresh_interval : R

-- The line of a scenario stands for its id, and by the id for its parameters.
abbrev pub IsChosen : Scenario → Type 0
IsChosen f =
    let fault_id = picked_fault (format_fault_option f.id f.description) in
    (fault_id ≡ f.id) × (catalog_params fault_id ≡ f.params)

-- Each line of the fault picker, when it is chosen, stands for the scenario that it shows: for its
-- id, and by the id for its parameters.
pub fault_options-IsChosen : All IsChosen fault_catalog
fault_options-IsChosen = (
  (refl, refl),
  (
    (refl, refl),
    (
      (refl, refl),
      ((refl, refl), ((refl, refl), ((refl, refl), ((refl, refl), ((refl, refl), tt))))),
    ),
  ),
)
