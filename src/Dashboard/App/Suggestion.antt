-- ===== src/Dashboard/App/Suggestion.antt =====
-- The suggestion bar of a dashboard.
use wow_server_sim.Common.{◌≡◌, ◌≢◌, ◌⊎◌, inl, inr, refl, none, some, List, ◌++◌, [], ◌∷◌, arith}
use wow_server_sim.Float.{Float}
use wow_server_sim.Dashboard.Catalog.{DashboardConfig}
use wow_server_sim.Dashboard.App.{
  App, current_suggestion, update_health_ui, append_log, show_health,
}
use wow_server_sim.Dashboard.App.Actions.{
  set_fault_list, update_fault_panel, action_refresh, action_spawn_clients, on_duration_picked,
  begin_spawn, end_spawn, action_despawn_clients, action_quit, action_activate_fault,
  action_run_pipeline, log_results,
}
use wow_server_sim.Dashboard.App.Steps.{Step, Reach}

module _ {R : Type 0} where
  abbrev pub IsCurrent : App R → Type 0
  IsCurrent app =
      (app.pending_faults ≢ [])
      ⊎ (app.suggestion_bar ≡ "Loading...")
      ⊎ (app.suggestion_bar ≡ current_suggestion app)

snoc-ne : {A : Type 0} (xs : List A) (x : A) → xs ++ x ∷ [] ≢ []
snoc-ne [] x h = ground arith
snoc-ne (y ∷ ys) x h = ground arith

module _ {R : Type 0} ⦃fl : Float R⦄ where
  Step-IsCurrent : (app next : App R) → IsCurrent app → Step app next → IsCurrent next
  unfolding current_suggestion action_refresh action_spawn_clients action_despawn_clients
      action_activate_fault action_run_pipeline action_quit on_duration_picked begin_spawn end_spawn
      update_health_ui append_log show_health set_fault_list update_fault_panel log_results
  Step-IsCurrent app _ h (Step.refresh e) = h
  Step-IsCurrent app _ h (Step.spawn_clients e) = ground arith
  Step-IsCurrent app _ h (Step.despawn_clients e) = ground arith
  Step-IsCurrent app _ h (Step.activate_fault e) = h
  Step-IsCurrent app _ h (Step.run_pipeline e) = h
  Step-IsCurrent app _ h (Step.quit e) = ground arith
  Step-IsCurrent app _ h (Step.pick_duration rest none e) = h
  Step-IsCurrent app _ h (Step.pick_duration rest (some d) e) = inr (inr refl)
  Step-IsCurrent app _ h (Step.pick_fault rest e) = h
  Step-IsCurrent app _ h (Step.spawn_ends event notice e) = inr (inr refl)
  Step-IsCurrent app _ h (Step.health_fetched x) = inr (inr refl)
  Step-IsCurrent app _ h (Step.faults_fetched faults) = inl (snoc-ne app.pending_faults faults)
  Step-IsCurrent app _ h (Step.faults_shown faults rest e) = inr (inr refl)
  Step-IsCurrent app _ h (Step.pipeline_ends result) = inr (inr refl)
  Step-IsCurrent app _ h (Step.noticed text) = h

  -- In every state that a dashboard comes into, the suggestion bar shows the text that the state
  -- calls for, unless it still shows what it shows at first, or a fault list that was fetched waits
  -- to be shown.
  pub Reach-IsCurrent :
      (config : DashboardConfig R) (app : App R) → Reach config app → IsCurrent app
  Reach-IsCurrent config app Reach.start = inr (inl refl)
  Reach-IsCurrent config app (Reach.later r step) =
      Step-IsCurrent _ app (Reach-IsCurrent config _ r) step
