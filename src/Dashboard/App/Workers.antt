-- ===== src/Dashboard/App/Workers.antt =====
-- The threads and the asynchronous actions of `WoWDashboardApp` of tools/wowsim/dashboard.py: what
-- they do outside, and what they report to the main thread. `except Exception` is the last clause
-- of each, so that an exception is a report too.
pub mod Commands
use wow_server_sim.Common.{
  ℕ, pos, String, Bool, true, Option, none, some, List, [], ◌∷◌, concat, str, if◌then◌else◌,
}
use wow_server_sim.Float.{Float}
use wow_server_sim.Effects.{
  Env, Error, os_error, error_text, Session, Exec, Outcome, ok, raise, spent, pure, now, ◌>>=◌,
  ◌>>◌,
}
use wow_server_sim.Models.{
  TelemetryEntry, FaultInfo, ControlResponse, Params, ClientConfig, SpawnResult, PipelineConfig,
  PipelineResult, deactivate_action,
}
use wow_server_sim.Logs.Anomalies.{detect_default}
use wow_server_sim.Health.Ticks.{compute_tick_health}
use wow_server_sim.Health.Zones.{compute_zone_health}
use wow_server_sim.Health.Players.{estimate_player_count}
use wow_server_sim.Health.Status.{determine_status}
use wow_server_sim.Health.Report.{uptime, mechanics_of, check_server_reachable, read_recent_entries}
use wow_server_sim.Control.{
  list_all_faults, activate_fault, deactivate_fault, deactivate_all_faults,
}
use wow_server_sim.MockClient.Run.{World}
use wow_server_sim.MockClient.Spawn.{spawn_clients}
use wow_server_sim.Pipeline.Run.{run_pipeline}
use wow_server_sim.Dashboard.Tail.{filter_new_entries}
use wow_server_sim.Dashboard.Catalog.{DashboardConfig, catalog_params}
use wow_server_sim.Dashboard.App.{Health, App}
use wow_server_sim.Dashboard.App.Actions.{first_active}

-- What a worker reports: its result, or the exception.
pub data Report (A : Type 0) : Type 0 where
  done : A → Report A
  error : Error → Report A

module _ {A : Type 0} where
  abbrev pub report : Outcome A → Outcome (Report A)
  report (ok a) = ok (done a)
  report (raise e) = ok (error e)
  report spent = spent

  abbrev pub reported : Exec A → Exec (Report A)
  reported body s = let (r, s') = body s in (report r, s')

  -- `except OSError: return default`
  abbrev or_default : A → Outcome A → Outcome A
  or_default default (raise (os_error m)) = ok default
  or_default default r = r

  abbrev pub except_os : A → Exec A → Exec A
  except_os default body s = let (r, s') = body s in (or_default default r, s')

module _ {R : Type 0} ⦃fl : Float R⦄ where
  -- What `_fetch_health_data` computes from the entries and the watermark that it reads.
  unfoldable pub health_data :
      List (TelemetryEntry R) → (reachable : Bool) (last_ts : Option ℕ) → Health R
  health_data entries reachable last_ts =
      let tick = compute_tick_health entries in
      let zones = compute_zone_health entries in
      let players = estimate_player_count entries in
      let anomalies = detect_default entries in
      let game_mech = mechanics_of entries in
      let (new_entries, new_ts) = filter_new_entries entries last_ts in
      record {
        status = determine_status tick zones anomalies game_mech players;
        reachable = reachable;
        players = players;
        uptime = uptime tick;
        tick = tick;
        zones = zones;
        new_entries = new_entries;
        new_ts = new_ts;
        game_mechanics = game_mech;
      }

module _ {R : Type 0} ⦃fl : Float R⦄ (env : Env R) (config : DashboardConfig R) where
  open fl use {of_ℕ}

  unfoldable pub fetch_health_data : (last_ts : Option ℕ) → Exec (Report (Health R))
  unfolding health_data
  fetch_health_data last_ts = reported (do
    entries ← except_os [] (read_recent_entries env 500 (some config.log_file))
    reachable ← check_server_reachable env config.host config.control_port
    pure (health_data entries reachable last_ts))

  abbrev faults_or_none : ControlResponse → List FaultInfo
  faults_or_none resp = elim resp.faults [ none ↦ [] | some faults ↦ faults ]

  unfoldable pub fetch_fault_list : (fault_list : List FaultInfo) → Exec (Report (List FaultInfo))
  fetch_fault_list fault_list = reported (
      except_os fault_list (
        list_all_faults env config.host config.control_port >>= λ resp. pure (faults_or_none resp)))

  abbrev pub command_notice : (success : String) → Report ControlResponse → String
  command_notice success (done resp) = success
  command_notice success (error e) = concat ("Error: " ∷ error_text e ∷ [])

  -- The text that is notified.
  unfoldable pub do_activate_fault : (fault_id : String) → Params → Exec String
  do_activate_fault fault_id params = do
    report ←
        reported
          (activate_fault env config.host config.control_port fault_id params (pos 0) (pos 0))
    pure (command_notice (concat ("Activated " ∷ fault_id ∷ [])) report)

  -- None where the picker is cancelled.
  unfoldable pub on_fault_picked : (fault_id : Option String) → Exec (Option String)
  unfolding do_activate_fault
  on_fault_picked none = pure none
  on_fault_picked (some fault_id) =
      do_activate_fault fault_id (catalog_params fault_id) >>= λ notice. pure (some notice)

  -- The two actions open a ControlClient of their own, as the synchronous wrappers do.
  abbrev pub deactivate_target : Option FaultInfo → Exec String
  deactivate_target none = pure "No active faults"
  deactivate_target (some target) = do
    report ← reported (deactivate_fault env config.host config.control_port target.id)
    pure (command_notice (concat ("Deactivated " ∷ target.id ∷ [])) report)

  unfoldable pub action_deactivate_fault : App R → Exec String
  unfolding first_active
  action_deactivate_fault app = deactivate_target (first_active app)

  unfoldable pub action_deactivate_all : Exec String
  action_deactivate_all = do
    report ← reported (deactivate_all_faults env config.host config.control_port)
    pure (command_notice "All faults deactivated" report)

  unfoldable pub spawn_config : (duration : R) → ClientConfig R
  spawn_config duration = record {
    host = config.host;
    port = config.port;
    actions_per_second = of_ℕ 2;
    duration_seconds = duration;
  }

  unfoldable pub do_spawn_clients :
      (worlds : ℕ → World R) (fuel : ℕ) (duration : R) → Exec (Report (SpawnResult R))
  unfolding spawn_config
  do_spawn_clients worlds fuel duration = reported (do
    start ← now env
    end ← now env
    λ s. (spawn_clients worlds fuel start end (spawn_config duration) 5, s))

  unfoldable pub pipeline_config : (fault_id : String) → PipelineConfig R
  pipeline_config fault_id = record {
    version = "1.0.0";
    fault_id = fault_id;
    action = deactivate_action;
    params = [];
    target_zone_id = pos 0;
    duration_ticks = pos 0;
    canary_duration_seconds = of_ℕ 6;
    canary_poll_interval_seconds = of_ℕ 2;
    rollback_on = "critical";
    game_host = config.host;
    game_port = config.port;
    control_host = config.host;
    control_port = config.control_port;
    log_file = some config.log_file;
  }

  unfoldable pub do_run_pipeline : (fuel : ℕ) (fault_id : String) → Exec (Report (PipelineResult R))
  unfolding pipeline_config
  do_run_pipeline fuel fault_id = reported (run_pipeline env (pipeline_config fault_id) fuel)
