-- ===== src/Dashboard/App/Workers/Commands.antt =====
-- What the fault keys of a dashboard send.
use wow_server_sim.Common.{◌+◌, ◌≡◌, ◌⊎◌, concat, String, true, Option, none, some, [], ◌∷◌, ◌++◌}
use wow_server_sim.Float.{Float}
use wow_server_sim.Effects.{Env, Error, error_text, got, Session, Exec, ok}
use wow_server_sim.Models.{Request, deactivate, FaultInfo}
use wow_server_sim.Dashboard.Catalog.{DashboardConfig}
use wow_server_sim.Dashboard.App.{App}

module _ {R : Type 0} ⦃fl : Float R⦄ (env : Env R) (config : DashboardConfig R) where
  -- The action comes to a text: to `success` where it has written `r` and the server has answered,
  -- and else to the text of an error. It closes the sockets that it opens, writes nothing but `r`,
  -- at most once, and does write it where the connection to the control channel opens.
  pub record Notifies (success : String) (r : Request) (m : Exec String) : Type 0 where
    pub returns :
        (s : Session)
        → (((m s).0 ≡ ok success) × ((m s).1.written ≡ s.written ++ r ∷ []))
          ⊎ ((e : Error) × ((m s).0 ≡ ok (concat ("Error: " ∷ error_text e ∷ []))))
    pub balanced : (s : Session) → (m s).1.opened + s.closed ≡ s.opened + (m s).1.closed
    pub writes :
        (s : Session) → ((m s).1.written ≡ s.written) ⊎ ((m s).1.written ≡ s.written ++ r ∷ [])
    pub reaches :
        (s : Session)
        → env.open_connection s.calls config.host config.control_port ≡ got tt
        → (m s).1.written ≡ s.written ++ r ∷ []

  -- What the key for deactivating does, by the fault that it finds.
  abbrev pub Deactivates : Option FaultInfo → Exec String → Type 0
  Deactivates none m = (s : Session) → m s ≡ (ok "No active faults", s)
  Deactivates (some f) m =
      (f.active ≡ true) × Notifies (concat ("Deactivated " ∷ f.id ∷ [])) (deactivate f.id) m
