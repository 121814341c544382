-- ===== src/Health/Players.antt =====
-- `estimate_player_count` of tools/wowsim/health_check.py.
use wow_server_sim.Common.{
  ℕ, ◌+◌, ◌-◌, ◌≡◌, refl, Bool, ◌&&◌, List, [], ◌∷◌, str_eq, distinct, if◌then◌else◌, tally, arith,
}
use wow_server_sim.Models.{TelemetryEntry}
use wow_server_sim.Logs.Entries.{is_server_event}

pub record Traffic : Type 0 where
  pub connections : ℕ
  pub disconnections : ℕ

module _ {R : Type 0} where
  pub note_traffic : Traffic → TelemetryEntry R → Traffic
  note_traffic t e =
      if is_server_event e
      then (if str_eq e.message "Connection accepted"
          then record t { connections = t.connections + 1 }
          else if str_eq e.message "Client disconnected"
          then record t { disconnections = t.disconnections + 1 }
          else t)
      else t

  pub traffic : Traffic → List (TelemetryEntry R) → Traffic
  unfolding note_traffic
  traffic t [] = t
  traffic t (e ∷ es) = traffic (note_traffic t e) es

  -- `max(0, connections - disconnections)`: subtraction on ℕ stops at 0.
  unfoldable pub estimate_player_count : List (TelemetryEntry R) → ℕ
  unfolding traffic
  estimate_player_count entries =
      let t = traffic (record { connections = 0; disconnections = 0 }) entries in
      t.connections - t.disconnections

  abbrev pub joined : TelemetryEntry R → Bool
  joined e = is_server_event e && str_eq e.message "Connection accepted"

  abbrev pub parted : TelemetryEntry R → Bool
  parted e = is_server_event e && str_eq e.message "Client disconnected"

  traffic-tally :
      (t : Traffic) (es : List (TelemetryEntry R))
      → ((traffic t es).connections ≡ t.connections + tally joined es)
        × ((traffic t es).disconnections ≡ t.disconnections + tally parted es)
  unfolding traffic
  traffic-tally t [] = omega arith
  traffic-tally t (e ∷ es) = ground (
    arith,
    traffic-tally (note_traffic t e) es,
    distinct e.message "Connection accepted" "Client disconnected" refl,
  )

  -- The estimate is the accepted connections less the disconnections, and never negative.
  pub estimate_player_count-eq-sub :
      (es : List (TelemetryEntry R)) → estimate_player_count es ≡ tally joined es - tally parted es
  unfolding estimate_player_count
  estimate_player_count-eq-sub es =
      omega (arith, traffic-tally (record { connections = 0; disconnections = 0 }) es)
