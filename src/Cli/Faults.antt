-- ===== src/Cli/Faults.antt =====
-- The commands of `wowsim inject-fault` in tools/wowsim/cli.py.
pub mod Outcomes
use wow_server_sim.Common.{ℕ, ℤ, pos, String, Option, none, some, List, [], ◌∷◌, concat}
use wow_server_sim.Float.{Float}
use wow_server_sim.Effects.{
  Env, Outcome, ok, raise, value_error, click_exception, Session, Exec, pure, continue, ◌>>=◌,
}
use wow_server_sim.Models.{ControlResponse, FaultInfo}
use wow_server_sim.Control.{
  activate_fault, deactivate_fault, deactivate_all_faults, fault_status, list_all_faults,
}
use wow_server_sim.Control.Duration.{parse_duration}
use wow_server_sim.Control.Format.{format_fault_info, format_fault_list}
use wow_server_sim.Cli.{guarded, value_clicked, Tuning, params_of}

-- `{resp.fault_id}`
abbrev pub fault_id_text : Option String → String
fault_id_text none = "None"
fault_id_text (some fault_id) = fault_id

abbrev pub done : (verb : String) → ControlResponse → List String
done verb resp = concat (verb ∷ " " ∷ fault_id_text resp.fault_id ∷ []) ∷ []

abbrev pub status_text : (fault_id : String) → Option FaultInfo → String
status_text fault_id none = concat ("No status returned for " ∷ fault_id ∷ [])
status_text fault_id (some info) = format_fault_info info

abbrev pub faults_text : Option (List FaultInfo) → String
faults_text none = "No faults registered"
faults_text (some []) = "No faults registered"
faults_text (some (f ∷ fs)) = format_fault_list (f ∷ fs)

-- `duration_ticks`, where `--duration` may be missing.
unfoldable pub ticks_of : {R : Type 0} → Float R → Option String → Outcome ℤ
ticks_of fl none = ok (pos 0)
ticks_of fl (some duration) = value_clicked (parse_duration fl duration)

module _ {R : Type 0} (env : Env R) (host : String) (port : ℕ) where
  unfoldable pub send_activate :
      (fault_id : String) → Tuning → (target_zone_id duration_ticks : ℤ) → Exec (List String)
  unfolding params_of
  send_activate fault_id tuning target_zone_id duration_ticks = guarded (
      activate_fault env host port fault_id (params_of tuning) target_zone_id duration_ticks
      >>= λ resp. pure (done "Activated" resp))

module _ {R : Type 0} (fl : Float R) (env : Env R) (host : String) (port : ℕ) where
  unfoldable pub activate :
      (fault_id : String)
      → Tuning
      → (duration : Option String) (target_zone_id : ℤ) → Exec (List String)
  unfolding ticks_of send_activate
  activate fault_id tuning duration target_zone_id s =
      continue (ticks_of fl duration) (send_activate env host port fault_id tuning target_zone_id) s

module _ {R : Type 0} (env : Env R) (host : String) (port : ℕ) where
  unfoldable pub deactivate : (fault_id : String) → Exec (List String)
  deactivate fault_id =
      guarded (deactivate_fault env host port fault_id >>= λ resp. pure (done "Deactivated" resp))

  unfoldable pub deactivate_all : Exec (List String)
  deactivate_all =
      guarded (deactivate_all_faults env host port >>= λ resp. pure ("All faults deactivated" ∷ []))

  unfoldable pub status : (fault_id : String) → Exec (List String)
  status fault_id =
      guarded (
        fault_status env host port fault_id >>= λ resp.
        pure (status_text fault_id resp.status ∷ []))

  unfoldable pub list_faults : Exec (List String)
  list_faults =
      guarded (list_all_faults env host port >>= λ resp. pure (faults_text resp.faults ∷ []))
