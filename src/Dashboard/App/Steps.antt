-- ===== src/Dashboard/App/Steps.antt =====
-- What can happen to a running `WoWDashboardApp`, in any order: keys, choices in the pickers, and
-- reports of the threads. A modal screen takes the keys, so that they act while none is open.
use wow_server_sim.Common.{ℕ, String, ◌≡◌, Option, List, [], ◌∷◌, In}
use wow_server_sim.Float.{Float}
use wow_server_sim.Models.{FaultInfo, PipelineResult}
use wow_server_sim.Dashboard.Catalog.{DashboardConfig}
use wow_server_sim.Dashboard.App.{
  Screen, duration_picker, fault_picker, Health, App, new_app, notify, update_health_ui,
}
use wow_server_sim.Dashboard.App.Actions.{
  set_fault_list, update_fault_panel, action_refresh, action_spawn_clients, on_duration_picked,
  end_spawn, action_despawn_clients, action_quit, action_activate_fault, action_run_pipeline,
  log_results,
}

module _ {R : Type 0} ⦃fl : Float R⦄ where
  abbrev pub dismissed : List Screen → App R → App R
  dismissed rest app = record app { screens = rest }

  pub data Step (app : App R) : App R → Type 0 where
    refresh : app.screens ≡ [] → Step app (action_refresh app)
    spawn_clients : app.screens ≡ [] → Step app (action_spawn_clients app)
    despawn_clients : app.screens ≡ [] → Step app (action_despawn_clients app)
    activate_fault : app.screens ≡ [] → Step app (action_activate_fault app)
    run_pipeline : app.screens ≡ [] → Step app (action_run_pipeline app)
    quit : app.screens ≡ [] → Step app (action_quit app)
    pick_duration :
        (rest : List Screen) (duration : Option R)
        → app.screens ≡ duration_picker ∷ rest
        → Step app (on_duration_picked duration (dismissed rest app))
    pick_fault :
        (rest : List Screen) → app.screens ≡ fault_picker ∷ rest → Step app (dismissed rest app)
    spawn_ends :
        (event : ℕ) (notice : String)
        → In event app.spawning
        → Step app (end_spawn event notice app)
    health_fetched : (h : Health R) → Step app (update_health_ui h app)
    faults_fetched : (faults : List FaultInfo) → Step app (set_fault_list faults app)
    faults_shown :
        (faults : List FaultInfo) (rest : List (List FaultInfo))
        → app.pending_faults ≡ faults ∷ rest
        → Step app (update_fault_panel faults (record app { pending_faults = rest }))
    pipeline_ends : (result : PipelineResult R) → Step app (log_results result app)
    -- An error, or the end of a command of the control channel.
    noticed : (text : String) → Step app (notify text app)

  -- The states that a dashboard comes into from its start.
  pub data Reach (config : DashboardConfig R) : App R → Type 0 where
    start : Reach config (new_app config)
    later : {app next : App R} → Reach config app → Step app next → Reach config next
