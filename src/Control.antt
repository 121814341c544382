-- ===== src/Control.antt =====
-- tools/wowsim/fault_trigger.py: the client of the control channel and its synchronous wrappers.
pub mod Client
pub mod Connections
pub mod Duration
pub mod Format
use wow_server_sim.Common.{ℕ, ℤ, String}
use wow_server_sim.Effects.{Env, Exec, try_finally, ◌>>=◌}
use wow_server_sim.Models.{Params, ControlResponse}
use wow_server_sim.Control.Client.{
  ControlClient, new_client, connect, close, send_command, activate, deactivate, deactivate_all,
  status, list_faults,
}

module _ {R : Type 0} (env : Env R) where
  -- `async with ControlClient(host, port) as client: return await coro_factory(client)`: the
  -- client is closed on every path on which it was opened.
  pub run_command : String → ℕ → (ControlClient → Exec ControlResponse) → Exec ControlResponse
  unfolding connect close
  run_command host port coro_factory = do
    client ← connect env (new_client host port)
    try_finally (coro_factory client) (close client)

  unfoldable pub activate_fault :
      String
      → ℕ
      → (fault_id : String) → Params
      → (target_zone_id duration_ticks : ℤ) → Exec ControlResponse
  unfolding run_command send_command
  activate_fault host port fault_id params target_zone_id duration_ticks =
      run_command host port (λ c. activate env c fault_id params target_zone_id duration_ticks)

  unfoldable pub deactivate_fault : String → ℕ → (fault_id : String) → Exec ControlResponse
  unfolding run_command send_command
  deactivate_fault host port fault_id = run_command host port (λ c. deactivate env c fault_id)

  unfoldable pub deactivate_all_faults : String → ℕ → Exec ControlResponse
  unfolding run_command send_command
  deactivate_all_faults host port = run_command host port (deactivate_all env)

  unfoldable pub fault_status : String → ℕ → (fault_id : String) → Exec ControlResponse
  unfolding run_command send_command
  fault_status host port fault_id = run_command host port (λ c. status env c fault_id)

  unfoldable pub list_all_faults : String → ℕ → Exec ControlResponse
  unfolding run_command send_command
  list_all_faults host port = run_command host port (list_faults env)
