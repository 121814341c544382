-- ===== src/Dashboard/App/Actions.antt =====
-- The actions of the keys and the reports of the threads, as `WoWDashboardApp` of
-- tools/wowsim/dashboard.py handles them on its main thread. A thread that is started may report at
-- any time; only those of a spawn are kept in the state.
use wow_server_sim.Common.{
  ℕ, ◌+◌, String, true, false, not, ◌==◌, Option, none, some, List, [], ◌∷◌, ◌++◌, concat, join,
  str, map, first, select, str_eq, upper, repeat, if◌then◌else◌,
}
use wow_server_sim.Float.{Float}
use wow_server_sim.Models.{
  FaultInfo, SpawnResult, ClientResult, PipelineResult, StageResult, stage_name, outcome_name,
}
use wow_server_sim.Dashboard.Panels.{format_fault_table}
use wow_server_sim.Dashboard.App.{
  Screen, duration_picker, fault_picker, App, notify, update_suggestion, current_suggestion,
}

-- The thread has returned, and no longer runs.
abbrev pub without : ℕ → List ℕ → List ℕ
without event spawning = select (λ e. not (e == event)) spawning

abbrev pub id_or : (default : String) → Option FaultInfo → String
id_or default none = default
id_or default (some f) = f.id

module _ {R : Type 0} where
  abbrev pub open_screen : Screen → App R → App R
  open_screen screen app = record app { screens = screen ∷ app.screens }

  -- The assignment in the thread of `_fetch_fault_list`; its `_update` waits for the main thread.
  unfoldable pub set_fault_list : List FaultInfo → App R → App R
  set_fault_list faults app = record app {
    fault_list = faults;
    pending_faults = app.pending_faults ++ faults ∷ [];
  }

  unfoldable pub update_fault_panel : List FaultInfo → App R → App R
  unfolding format_fault_table
  update_fault_panel faults app =
      update_suggestion
        (record app { fault_panel = concat ("FAULT CONTROL\n\n" ∷ format_fault_table faults ∷ []) })

  unfoldable pub action_refresh : App R → App R
  action_refresh app = notify "Refreshed" app

  unfoldable pub action_spawn_clients : App R → App R
  action_spawn_clients app =
      if app.spawn_active
      then notify "Clients already active — press k to despawn first" app
      else open_screen duration_picker app

  -- The worker of `_do_spawn_clients` starts, with the event that is made.
  unfoldable pub begin_spawn : (label : String) → App R → App R
  unfolding current_suggestion
  begin_spawn label app =
      let event = app.made in
      let started = record app {
        spawn_stop_event = some event;
        made = app.made + 1;
        spawn_active = true;
      } in
      record (notify (concat ("Spawning 5 clients (" ∷ label ∷ ")..." ∷ []))
        (update_suggestion started)) { spawning = event ∷ app.spawning }

  abbrev pub first_error : List (ClientResult R) → String
  first_error [] = "unknown"
  first_error (c ∷ cs) = elim c.error [
    | none ↦ first_error cs
    | some e ↦ if str_eq e "" then first_error cs else e
  ]

  abbrev pub spawn_notice : SpawnResult R → String
  spawn_notice result =
      if result.successful_connections == 0
      then concat ("Spawn failed: " ∷ first_error result.clients ∷ [])
      else concat ("Spawned " ∷ str result.successful_connections ∷ "/5 clients — finished" ∷ [])

  -- `_finish`, and `_error` with another notice, of the worker that was given `event`.
  unfoldable pub end_spawn : (event : ℕ) (notice : String) → App R → App R
  unfolding current_suggestion
  end_spawn event notice app = notify notice (
      update_suggestion (record app {
        spawn_active = false;
        spawn_stop_event = none;
        spawning = without event app.spawning;
      }))

  abbrev pub set_event : Option ℕ → App R → App R
  set_event none app = app
  set_event (some event) app = record app { set = event ∷ app.set }

  unfoldable pub action_despawn_clients : App R → App R
  action_despawn_clients app = elim app.spawn_stop_event [
    | none ↦ notify "No active clients to despawn" app
    | some event ↦
        if app.spawn_active
        then notify "Despawning clients..." (set_event (some event) app)
        else notify "No active clients to despawn" app
  ]

  unfoldable pub action_quit : App R → App R
  action_quit app = record (set_event app.spawn_stop_event app) { exited = true }

  unfoldable pub action_activate_fault : App R → App R
  action_activate_fault app = open_screen fault_picker app

  -- `for f in self._fault_list: if f.active: ...; break`
  unfoldable pub first_active : App R → Option FaultInfo
  first_active app = first (λ f. f.active) app.fault_list

  unfoldable pub pipeline_fault : App R → String
  unfolding first_active
  pipeline_fault app = id_or "latency-spike" (first_active app)

  unfoldable pub action_run_pipeline : App R → App R
  unfolding pipeline_fault
  action_run_pipeline app =
      notify (concat ("Running pipeline for " ∷ pipeline_fault app ∷ "..." ∷ [])) app

module _ {R : Type 0} ⦃fl : Float R⦄ where
  open fl use {fixed, is_inf}

  abbrev pub duration_label : R → String
  duration_label duration =
      if is_inf duration then "persistent" else concat (fixed 0 duration ∷ "s" ∷ [])

  unfoldable pub on_duration_picked : Option R → App R → App R
  unfolding begin_spawn
  on_duration_picked none app = app
  on_duration_picked (some duration) app = begin_spawn (duration_label duration) app

  abbrev stage_line : StageResult R → String
  stage_line stage = concat (
      "  "
      ∷ (if stage.passed then "PASS" else "FAIL")
      ∷ "  "
      ∷ stage_name stage.stage
      ∷ " ("
      ∷ fixed 1 stage.duration_seconds
      ∷ "s)"
      ∷ [])

  unfoldable pub log_results : PipelineResult R → App R → App R
  unfolding current_suggestion upper
  log_results result app =
      let bar = repeat "=" 40 in
      let title = concat ("  PIPELINE: " ∷ upper (outcome_name result.outcome) ∷ []) in
      let block = join "\n" (bar ∷ title ∷ map stage_line result.stages ++ bar ∷ []) in
      let logged = record app { event_log = app.event_log ++ block ∷ []; pipeline_ran = true } in
      notify (concat ("Pipeline: " ∷ outcome_name result.outcome ∷ [])) (update_suggestion logged)
