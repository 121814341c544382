-- ===== src/Control/Connections.antt =====
-- Sockets and errors of a command.
use wow_server_sim.Common.{ℕ, ℤ, ◌+◌, ◌≡◌, ◌≢◌, ◌⊎◌, refl, String, true, [], ◌∷◌, ◌++◌, arith}
use wow_server_sim.Effects.{Env, Session, Exec, got, ok, spent}
use wow_server_sim.Models.{
  Request, Params, activate, deactivate, deactivate_all, status, list_faults, ControlResponse,
}
use wow_server_sim.Control.Client.{ControlClient, new_client, send_command}
use wow_server_sim.Control.{
  run_command, activate_fault, deactivate_fault, deactivate_all_faults, fault_status,
  list_all_faults,
}

-- The action leaves the sockets alone, and writes nothing but `r`, which it has written where it
-- returns; what it returns then reports success.
pub record Sends (r : Request) (m : Exec ControlResponse) : Type 0 where
  pub opened : (s : Session) → (m s).1.opened ≡ s.opened
  pub closed : (s : Session) → (m s).1.closed ≡ s.closed
  pub writes :
      (s : Session) → ((m s).1.written ≡ s.written) ⊎ ((m s).1.written ≡ s.written ++ r ∷ [])
  pub sent :
      (s : Session) (resp : ControlResponse)
      → (m s).0 ≡ ok resp
      → (resp.success ≡ true) × ((m s).1.written ≡ s.written ++ r ∷ [])
  pub readings : (s : Session) → (m s).1.readings ≡ s.readings
  pub ends : (s : Session) → (m s).0 ≢ spent

-- The same of a whole command, which closes the socket that it opens, whatever happens.
pub record Exchanges (r : Request) (m : Exec ControlResponse) : Type 0 where
  pub balanced : (s : Session) → (m s).1.opened + s.closed ≡ s.opened + (m s).1.closed
  pub writes :
      (s : Session) → ((m s).1.written ≡ s.written) ⊎ ((m s).1.written ≡ s.written ++ r ∷ [])
  pub sent :
      (s : Session) (resp : ControlResponse)
      → (m s).0 ≡ ok resp
      → (resp.success ≡ true) × ((m s).1.written ≡ s.written ++ r ∷ [])
  pub readings : (s : Session) → (m s).1.readings ≡ s.readings
  pub ends : (s : Session) → (m s).0 ≢ spent

module _ {R : Type 0} (env : Env R) where
  send_command-Sends : (c : ControlClient) (r : Request) → Sends r (send_command env c r)
  unfolding send_command
  send_command-Sends c r = record {
    opened = λ s. ground arith;
    closed = λ s. ground arith;
    writes = λ s. ground arith;
    sent = λ s resp h. ground arith;
    readings = λ s. ground arith;
    ends = λ s h. ground arith;
  }

  module _ (host : String) (port : ℕ) (r : Request) (body : ControlClient → Exec ControlResponse)
      (sends : (c : ControlClient) → Sends r (body c)) where
    abbrev client : ControlClient
    client = record (new_client host port) { connected = true }

    abbrev connected : Session → Session
    connected s = record s { calls = s.calls + 1; opened = s.opened + 1 }

    run_command-Exchanges : Exchanges r (run_command env host port body)
    unfolding run_command
    run_command-Exchanges = record {
      balanced = λ s.
          ground (arith, (sends client).opened (connected s), (sends client).closed (connected s));
      writes = λ s. ground (arith, (sends client).writes (connected s));
      sent = λ s resp h. ground (arith, (sends client).sent (connected s) resp);
      readings = λ s. ground (arith, (sends client).readings (connected s));
      ends = λ s h. ground (arith, (sends client).ends (connected s));
    }

  -- Every command of the control channel sends its own request and nothing else, at most once and
  -- for certain where it returns; what it returns reports success; and the socket that it opens
  -- is closed on every path, errors included. It reads no clock, and comes to an end.
  pub commands-Exchanges :
      (host : String) (port : ℕ) (fault_id : String) (params : Params)
      (target_zone_id duration_ticks : ℤ)
      → Exchanges
          (activate fault_id params target_zone_id duration_ticks)
          (activate_fault env host port fault_id params target_zone_id duration_ticks)
        × Exchanges (deactivate fault_id) (deactivate_fault env host port fault_id)
        × Exchanges deactivate_all (deactivate_all_faults env host port)
        × Exchanges (status fault_id) (fault_status env host port fault_id)
        × Exchanges list_faults (list_all_faults env host port)
  unfolding activate_fault deactivate_fault deactivate_all_faults fault_status list_all_faults
  commands-Exchanges host port f p z d = (
    run_command-Exchanges host port _ _ (λ c. send_command-Sends c _),
    run_command-Exchanges host port _ _ (λ c. send_command-Sends c _),
    run_command-Exchanges host port _ _ (λ c. send_command-Sends c _),
    run_command-Exchanges host port _ _ (λ c. send_command-Sends c _),
    run_command-Exchanges host port _ _ (λ c. send_command-Sends c _),
  )

  -- The action writes `r` wherever the connection to the server can be opened.
  abbrev pub Reaches : String → ℕ → Request → Exec ControlResponse → Type 0
  Reaches host port r m =
      (s : Session)
      → env.open_connection s.calls host port ≡ got tt
      → (m s).1.written ≡ s.written ++ r ∷ []

  send_command_written :
      (c : ControlClient) (r : Request) (s : Session)
      → c.connected ≡ true
      → (send_command env c r s).1.written ≡ s.written ++ r ∷ []
  unfolding send_command
  send_command_written c r s h = ground (arith, h)

  module _ (host : String) (port : ℕ) (r : Request) (body : ControlClient → Exec ControlResponse)
      (writes : (c : ControlClient) (s : Session)
        → c.connected ≡ true
        → (body c s).1.written ≡ s.written ++ r ∷ []) where
    run_command-Reaches : Reaches host port r (run_command env host port body)
    unfolding run_command
    run_command-Reaches s h =
        let opened : Session = record s { calls = s.calls + 1; opened = s.opened + 1 } in
        let c : ControlClient = record (new_client host port) { connected = true } in
        ground (arith, h, writes c opened refl)

  -- Where the connection can be opened, every command that the tools use is written.
  pub commands-Reach :
      (host : String) (port : ℕ) (fault_id : String) (params : Params)
      (target_zone_id duration_ticks : ℤ)
      → Reaches host port
          (activate fault_id params target_zone_id duration_ticks)
          (activate_fault env host port fault_id params target_zone_id duration_ticks)
        × Reaches host port (deactivate fault_id) (deactivate_fault env host port fault_id)
        × Reaches host port deactivate_all (deactivate_all_faults env host port)
  unfolding activate_fault deactivate_fault deactivate_all_faults
  commands-Reach host port f p z d = (
    run_command-Reaches host port _ _ (λ c. send_command_written c _),
    run_command-Reaches host port _ _ (λ c. send_command_written c _),
    run_command-Reaches host port _ _ (λ c. send_command_written c _),
  )
