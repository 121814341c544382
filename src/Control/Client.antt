-- ===== src/Control/Client.antt =====
-- `ControlClient` of tools/wowsim/fault_trigger.py. A method that needs the connection raises an
-- error without it.
use wow_server_sim.Common.{
  ℕ, ℤ, ◌+◌, String, Bool, true, false, not, Option, none, some, [], ◌∷◌, ◌++◌, str_eq,
  if◌then◌else◌,
}
use wow_server_sim.Effects.{
  Env, control_client_error, Session, Exec, ok, returned, pure, throw, ask, ◌>>=◌, ◌>>◌,
}
use wow_server_sim.Models.{
  Request, Params, activate as activate_request, deactivate as deactivate_request,
  deactivate_all as deactivate_all_request, status as status_request, list_faults as list_request,
  ControlResponse,
}

-- A client: `_writer` and `_reader` are both set or both None.
pub record ControlClient : Type 0 where
  pub host : String
  pub port : ℕ
  pub connected : Bool

abbrev pub new_client : String → ℕ → ControlClient
new_client host port = record { host = host; port = port; connected = false }

-- `resp.error or "Unknown server error"`: an empty text counts as none.
abbrev pub error_or_unknown : Option String → String
error_or_unknown none = "Unknown server error"
error_or_unknown (some e) = if str_eq e "" then "Unknown server error" else e

-- `close`, which does nothing the second time.
unfoldable pub close : ControlClient → Session → Session
close client s = if client.connected then record s { closed = s.closed + 1 } else s

module _ {R : Type 0} (env : Env R) where
  unfoldable pub connect : ControlClient → Exec ControlClient
  connect client = do
    ask env (λ n. env.open_connection n client.host client.port)
    λ s. (ok (record client { connected = true }), record s { opened = s.opened + 1 })

  abbrev pub check_success : ControlResponse → Exec ControlResponse
  check_success resp =
      if resp.success then pure resp else throw (control_client_error (error_or_unknown resp.error))

  abbrev pub receive : String → Exec ControlResponse
  receive line =
      if str_eq line ""
      then throw (control_client_error "Connection closed by server")
      else (λ s. (returned (env.decode_response line), s)) >>= check_success

  unfoldable pub send_command : ControlClient → Request → Exec ControlResponse
  send_command client request =
      if not client.connected
      then throw (control_client_error "Not connected — call connect() first")
      else do
        λ s. (ok tt, record s { written = s.written ++ request ∷ [] })
        line ← ask env (λ n. env.exchange n request)
        receive line

  abbrev pub activate :
      ControlClient
      → (fault_id : String) → Params
      → (target_zone_id duration_ticks : ℤ) → Exec ControlResponse
  activate client fault_id params target_zone_id duration_ticks =
      send_command client (activate_request fault_id params target_zone_id duration_ticks)

  abbrev pub deactivate : ControlClient → (fault_id : String) → Exec ControlResponse
  deactivate client fault_id = send_command client (deactivate_request fault_id)

  abbrev pub deactivate_all : ControlClient → Exec ControlResponse
  deactivate_all client = send_command client deactivate_all_request

  abbrev pub status : ControlClient → (fault_id : String) → Exec ControlResponse
  status client fault_id = send_command client (status_request fault_id)

  abbrev pub list_faults : ControlClient → Exec ControlResponse
  list_faults client = send_command client list_request
