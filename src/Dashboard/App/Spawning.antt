-- ===== src/Dashboard/App/Spawning.antt =====
-- The threads of a dashboard that spawn clients.
use wow_server_sim.Common.{
  ℕ, ◌≡◌, ◌≢◌, ◌⊎◌, inl, inr, refl, true, false, none, some, [], ◌∷◌, arith, In, String, ap, ◌∙◌,
  zero, suc,
}
use mathlib.Core.Path.{subst}
use wow_server_sim.Float.{Float}
use wow_server_sim.Dashboard.Catalog.{DashboardConfig}
use wow_server_sim.Dashboard.App.{
  duration_picker, fault_picker, App, update_health_ui, append_log, show_health,
}
use wow_server_sim.Dashboard.App.Actions.{
  without, set_fault_list, update_fault_panel, action_refresh, action_spawn_clients,
  on_duration_picked, begin_spawn, end_spawn, action_despawn_clients, action_quit,
  action_activate_fault, action_run_pipeline, log_results,
}
use wow_server_sim.Dashboard.App.Steps.{Step, Reach}

module _ {R : Type 0} where
  -- No spawn runs, and none is remembered.
  abbrev pub IsIdle : App R → Type 0
  IsIdle app = (app.spawn_active ≡ false) × (app.spawn_stop_event ≡ none) × (app.spawning ≡ [])

  -- One spawn runs, with the event that is remembered, and no second one can be picked.
  abbrev pub IsSpawning : ℕ → App R → Type 0
  IsSpawning event app =
      (app.spawn_active ≡ true)
      × (app.spawn_stop_event ≡ some event)
      × (app.spawning ≡ event ∷ [])
      × (app.screens ≢ duration_picker ∷ [])

  abbrev pub IsOrderly : App R → Type 0
  IsOrderly app =
      ((app.screens ≡ [])
        ⊎ (app.screens ≡ duration_picker ∷ [])
        ⊎ (app.screens ≡ fault_picker ∷ []))
      × (IsIdle app ⊎ ((event : ℕ) × IsSpawning event app))

In-nil : {A : Type 0} (a : A) → In a [] → ⊥
In-nil a (i, e) = ground arith

In-single : {A : Type 0} (a x : A) → In a (x ∷ []) → x ≡ a
In-single a x (zero, e) = ground arith
In-single a x (suc i, e) = absurd (In-nil a (i, e))

without_self : (e : ℕ) → without e (e ∷ []) ≡ []
without_self e = ground arith

module _ {R : Type 0} where
  -- The one spawn that may end is the one that runs.
  spawn-IsOrderly :
      (app : App R) (event : ℕ) (notice : String)
      → IsOrderly app
      → In event app.spawning
      → IsOrderly (end_spawn event notice app)
  unfolding end_spawn
  spawn-IsOrderly app event notice (screens, inl (inactive, none_left, empty)) running =
      absurd (In-nil event (subst (In event) empty running))
  spawn-IsOrderly app event notice (screens, inr (e, (active, event_set, single, closed))) running =
      let same = In-single event e (subst (In event) single running) in
      (
        screens,
        inl (
          refl,
          refl,
          ap (without event) single ∙ ap (λ x. without event (x ∷ [])) same ∙ without_self event,
        ),
      )

module _ {R : Type 0} ⦃fl : Float R⦄ where
  Step-IsOrderly : (app next : App R) → IsOrderly app → Step app next → IsOrderly next
  unfolding action_refresh action_spawn_clients action_despawn_clients action_activate_fault
      action_run_pipeline action_quit on_duration_picked begin_spawn end_spawn update_health_ui
      append_log show_health set_fault_list update_fault_panel log_results
  Step-IsOrderly app _ h (Step.refresh e) = ground arith
  Step-IsOrderly app _ h (Step.spawn_clients e) = ground arith
  Step-IsOrderly app _ h (Step.despawn_clients e) = ground arith
  Step-IsOrderly app _ h (Step.activate_fault e) = ground arith
  Step-IsOrderly app _ h (Step.run_pipeline e) = ground arith
  Step-IsOrderly app _ h (Step.quit e) = ground arith
  Step-IsOrderly app _ h (Step.pick_duration rest none e) = ground arith
  Step-IsOrderly app _ h (Step.pick_duration rest (some d) e) = ground arith
  Step-IsOrderly app _ h (Step.pick_fault rest e) = ground arith
  Step-IsOrderly app _ h (Step.spawn_ends event notice e) = spawn-IsOrderly app event notice h e
  Step-IsOrderly app _ h (Step.health_fetched x) = ground arith
  Step-IsOrderly app _ h (Step.faults_fetched faults) = ground arith
  Step-IsOrderly app _ h (Step.faults_shown faults rest e) = ground arith
  Step-IsOrderly app _ h (Step.pipeline_ends result) = ground arith
  Step-IsOrderly app _ h (Step.noticed text) = ground arith

  -- In every state that a dashboard comes into, at most one modal screen is open, and either no
  -- spawn runs and none is remembered as active, or exactly one runs: the flag is up, the event
  -- that is remembered is the one that it was given, and no duration can be picked.
  pub Reach-IsOrderly :
      (config : DashboardConfig R) (app : App R) → Reach config app → IsOrderly app
  Reach-IsOrderly config app Reach.start = ground arith
  Reach-IsOrderly config app (Reach.later r step) =
      Step-IsOrderly _ app (Reach-IsOrderly config _ r) step

  -- The key for despawning and the key for quitting set the event of every spawn that runs.
  pub despawn_reaches :
      (config : DashboardConfig R) (app : App R) (event : ℕ)
      → Reach config app
      → In event app.spawning
      → In event (action_despawn_clients app).set × In event (action_quit app).set
  unfolding action_despawn_clients action_quit
  despawn_reaches config app event r running = elim (Reach-IsOrderly config app r).1 [
    | inl (inactive, none_left, empty) ↦ absurd (In-nil event (subst (In event) empty running))
    | inr (e, (active, kept, single, closed)) ↦
        let same = In-single event e (subst (In event) single running) in
        ((0, ground arith), (0, ground arith))
  ]
