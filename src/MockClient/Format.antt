-- ===== src/MockClient/Format.antt =====
-- `format_spawn_result` of tools/wowsim/mock_client.py.
use wow_server_sim.Common.{
  String, Option, none, some, [], ◌∷◌, concat, join, str, map, pad_left, pad_right, str_eq,
  if◌then◌else◌,
}
use wow_server_sim.Float.{Float}
use wow_server_sim.Models.{ClientResult, SpawnResult}

-- `if c.error:`
abbrev error_suffix : Option String → String
error_suffix none = ""
error_suffix (some e) = if str_eq e "" then "" else concat ("  (" ∷ e ∷ ")" ∷ [])

module _ {R : Type 0} ⦃fl : Float R⦄ where
  open fl use {fixed}

  abbrev client_line : ClientResult R → String
  client_line c = concat (
      "  Client "
      ∷ pad_right 5 (str c.client_id)
      ∷ " "
      ∷ pad_right 12 (if c.connected then "connected" else "FAILED")
      ∷ " "
      ∷ pad_left 4 (str c.actions_sent)
      ∷ " actions  "
      ∷ fixed 2 c.duration_seconds
      ∷ "s"
      ∷ error_suffix c.error
      ∷ [])

  unfoldable pub format_spawn_result : SpawnResult R → String
  unfolding pad_right pad_left
  format_spawn_result result = join "\n" (
      "=== Mock Client Spawn Results ==="
      ∷ concat (
          "Clients:     "
          ∷ str result.total_clients
          ∷ " total, "
          ∷ str result.successful_connections
          ∷ " connected, "
          ∷ str result.failed_connections
          ∷ " failed"
          ∷ [])
      ∷ concat ("Actions:     " ∷ str result.total_actions_sent ∷ " total" ∷ [])
      ∷ concat ("Duration:    " ∷ fixed 2 result.total_duration_seconds ∷ "s" ∷ [])
      ∷ ""
      ∷ "Per-client:"
      ∷ map client_line result.clients)
