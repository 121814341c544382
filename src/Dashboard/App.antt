-- ===== src/Dashboard/App.antt =====
-- The state of `WoWDashboardApp` of tools/wowsim/dashboard.py, and the handlers that run on its
-- main thread. Textual's widgets are the texts that they show.
pub mod Actions
pub mod Workers
pub mod EventLog
pub mod Refresh
pub mod Suggestion
pub mod Spawning
pub mod Steps
use wow_server_sim.Common.{
  ℕ, ◌+◌, String, Bool, true, false, not, ◌&&◌, ◌||◌, Option, none, some, List, [], ◌∷◌, ◌++◌,
  concat, str, map, first, select, tally, str_eq, upper, if◌then◌else◌,
}
use wow_server_sim.Float.{Float}
use wow_server_sim.Models.{
  EntryType, metric, TelemetryEntry, TickHealth, ZoneHealthSummary, GameMechanicSummary, Status,
  status_name, healthy, FaultInfo, SpawnResult, ClientResult, PipelineResult, StageResult,
  stage_name, outcome_name,
}
use wow_server_sim.Dashboard.Hints.{compute_suggestion}
use wow_server_sim.Dashboard.Catalog.{DashboardConfig}
use wow_server_sim.Dashboard.Panels.{
  format_status_bar, format_tick_panel, game_panel, zone_row, format_event_line, format_fault_table,
}

-- The modal screens, and the keys.
pub data Screen : Type 0 where
  duration_picker fault_picker : Screen

-- What one worker hands to `_update_health_ui`.
pub record Health (R : Type 0) : Type 0 where
  pub status : Status
  pub reachable : Bool
  pub players : ℕ
  pub uptime : ℕ
  pub tick : Option (TickHealth R)
  pub zones : List (ZoneHealthSummary R)
  pub new_entries : List (TelemetryEntry R)
  pub new_ts : Option ℕ
  pub game_mechanics : Option (GameMechanicSummary R)

-- The attributes of the app (an Event object is a number), then what lives outside of it: how many
-- Event objects were made and which of them are set, the threads that run a spawn with the Event
-- of each, the fault lists that wait for the main thread, the open modal screens, the texts of the
-- widgets, the notifications, and whether the app has exited.
pub record App (R : Type 0) : Type 0 where
  pub config : DashboardConfig R
  pub last_entry_ts : Option ℕ
  pub fault_list : List FaultInfo
  pub player_count : ℕ
  pub health_status : Status
  pub pipeline_ran : Bool
  pub spawn_stop_event : Option ℕ
  pub spawn_active : Bool
  pub made : ℕ
  pub set : List ℕ
  pub spawning : List ℕ
  pub pending_faults : List (List FaultInfo)
  pub screens : List Screen
  pub status_bar : String
  pub tick_panel : String
  pub game_panel : String
  pub zone_table : List (List String)
  pub fault_panel : String
  pub event_log : List String
  pub suggestion_bar : String
  pub notices : List String
  pub exited : Bool

module _ {R : Type 0} where
  abbrev pub new_app : DashboardConfig R → App R
  new_app config = record {
    config = config;
    last_entry_ts = none;
    fault_list = [];
    player_count = 0;
    health_status = healthy;
    pipeline_ran = false;
    spawn_stop_event = none;
    spawn_active = false;
    made = 0;
    set = [];
    spawning = [];
    pending_faults = [];
    screens = [];
    status_bar = "Loading...";
    tick_panel = "TICK METRICS\n\nLoading...";
    game_panel = "GAME MECHANICS\n\nLoading...";
    zone_table = [];
    fault_panel = "FAULT CONTROL\n\nLoading...";
    event_log = [];
    suggestion_bar = "Loading...";
    notices = [];
    exited = false;
  }

  abbrev pub notify : String → App R → App R
  notify text app = record app { notices = app.notices ++ text ∷ [] }

  -- The text that the state calls for.
  unfoldable pub current_suggestion : App R → String
  current_suggestion app =
      compute_suggestion app.player_count (tally (λ (f : FaultInfo). f.active) app.fault_list)
        (status_name app.health_status) app.pipeline_ran app.spawn_active

  abbrev pub update_suggestion : App R → App R
  update_suggestion app = record app { suggestion_bar = current_suggestion app }

  abbrev pub is_shown : TelemetryEntry R → Bool
  is_shown entry = elim entry.type [
    | metric ↦ false
    | _ ↦ not (str_eq entry.component "control_channel")
  ]

  -- `if new_entries:`
  unfoldable pub append_log : List (TelemetryEntry R) → (new_ts : Option ℕ) → App R → App R
  unfolding format_event_line
  append_log [] new_ts app = app
  append_log (e ∷ es) new_ts app = record app {
    last_entry_ts = new_ts;
    event_log = app.event_log ++ map format_event_line (select is_shown (e ∷ es));
  }

module _ {R : Type 0} ⦃fl : Float R⦄ where
  unfoldable pub show_health : Health R → App R → App R
  unfolding format_status_bar format_tick_panel
  show_health h app = record app {
    status_bar = format_status_bar (status_name h.status) h.reachable h.players h.uptime;
    tick_panel = concat ("TICK METRICS\n\n" ∷ format_tick_panel h.tick ∷ []);
    game_panel = game_panel h.game_mechanics;
    zone_table = map zone_row h.zones;
  }

  abbrev pub track_health : Health R → App R → App R
  track_health h app = record app { player_count = h.players; health_status = h.status }

  unfoldable pub update_health_ui : Health R → App R → App R
  unfolding show_health append_log
  update_health_ui h app =
      update_suggestion (track_health h (append_log h.new_entries h.new_ts (show_health h app)))
