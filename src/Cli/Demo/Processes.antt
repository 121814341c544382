-- ===== src/Cli/Demo/Processes.antt =====
-- The processes that a demo leaves.
use wow_server_sim.Common.{ℕ, ◌≡◌, ap, sym, String, Option, none, some, arith}
use mathlib.Core.Path.{subst}
use wow_server_sim.Float.{Float}
use wow_server_sim.Effects.{Error, Outcome, ok, raise, spent, Act, continue, ◌>>=◌}
use wow_server_sim.Effects.Rules.{Holds, Holds-bind, Holds-always, always-Holds}
use wow_server_sim.Demo.{
  World, Host, echo, find_server_binary, clean_telemetry, default_telemetry_path,
}
use wow_server_sim.Demo.Server.{ServerProcess, stop}
use wow_server_sim.Demo.Lifecycle.{IsAccounted, IsStopped, stop-IsStopped, start-Serves, Serves}
use wow_server_sim.Cli.Demo.{
  DemoOptions, check_port, start_server, shut_down, run_dashboard, launch, serve, with_binary, demo,
  root_of,
}

module _ {R : Type 0} ⦃fl : Float R⦄ (world : World R) where
  clean_telemetry-IsStopped :
      (path : String) (h : Host) → IsStopped h → IsStopped (clean_telemetry world path h).1
  unfolding clean_telemetry
  clean_telemetry-IsStopped path h stopped = ground arith

  shut_down-IsStopped :
      (path : String) (h : Host) → IsAccounted h → IsStopped (shut_down world path h).1
  unfolding shut_down
  shut_down-IsStopped path h acc =
      let h1 : Host = (echo "Stopping server..." h).1 in
      let Q = IsStopped in
      always-Holds Q _ _ (
        Holds-bind (λ _. Q) (λ _. Q) Q Q (stop world) _ h1
          (Holds-always Q (stop world h1).0 (stop world h1).1 (stop-IsStopped world h1 acc).1)
          (λ u h2 stopped.
            Holds-bind (λ _. Q) (λ _. Q) Q Q (clean_telemetry world path) (λ _. echo "Done.") h2
              (Holds-always Q (clean_telemetry world path h2).0 (clean_telemetry world path h2).1
                (clean_telemetry-IsStopped path h2 stopped))
              (λ v h3 stopped3. stopped3)))

  run_dashboard-IsStopped :
      (path : String) (h : Host) → IsAccounted h → IsStopped (run_dashboard world path h).1
  unfolding run_dashboard
  run_dashboard-IsStopped path h acc = shut_down-IsStopped path _ acc

  launch-IsStopped : (path : String) (h : Host) → IsAccounted h → IsStopped (launch world path h).1
  unfolding launch
  launch-IsStopped path h acc = run_dashboard-IsStopped path _ acc

  accounted :
      (path : String) (r : Outcome (Unit {0})) (h : Host)
      → Holds (Serves world path) IsAccounted IsAccounted r h
      → IsAccounted h
  accounted path (ok u) h x = x.0
  accounted path (raise e) h x = x
  accounted path spent h x = x

  start_server-IsAccounted :
      (fuel : ℕ) (server : ServerProcess) (h : Host)
      → IsStopped h
      → IsAccounted (start_server world fuel server h).1
  unfolding start_server
  start_server-IsAccounted fuel server h stopped =
      accounted server.telemetry_path _ _ (start-Serves world fuel server 10 h stopped)

  -- Where the server starts, it is stopped whatever the dashboard does: nothing is attached, and
  -- every process that was started has ended. Where the start gives up, so does the command, and
  -- leaves the server as the start has left it.
  pub serve-IsStopped :
      (fuel : ℕ) (server : ServerProcess) (h : Host)
      → IsStopped h
      → ((h' : Host)
          → start_server world fuel server h ≡ (ok tt, h')
          → IsStopped (serve world fuel server h).1)
        × ((e : Error) (h' : Host)
            → start_server world fuel server h ≡ (raise e, h')
            → serve world fuel server h ≡ (raise e, h'))
  unfolding serve
  serve-IsStopped fuel server h stopped =
      let next = λ (u : Unit {0}). launch world server.telemetry_path in
      (
        λ h' e.
            subst (λ out. IsStopped (continue out.0 next out.1).1) (sym e)
              (launch-IsStopped server.telemetry_path h' (
                subst (λ out. IsAccounted out.1) e
                  (start_server-IsAccounted fuel server h stopped))),
        λ x h' e. ap (λ out. continue out.0 next out.1) e,
      )

-- Stopped where it returns, accounted for where it does not.
Safe : {A : Type 0} → Outcome A → Host → Type 0
Safe r h = Holds (λ _. IsStopped) IsAccounted IsAccounted r h

stopped-IsAccounted : (h : Host) → IsStopped h → IsAccounted h
stopped-IsAccounted h stopped = ground arith

stopped-Safe : {A : Type 0} (r : Outcome A) (h : Host) → IsStopped h → Safe r h
unfolding Safe
stopped-Safe (ok a) h stopped = stopped
stopped-Safe (raise e) h stopped = stopped-IsAccounted h stopped
stopped-Safe spent h stopped = stopped-IsAccounted h stopped

Safe-bind :
    {A B : Type 0} (m : Act Host A) (f : A → Act Host B) (h : Host)
    → IsStopped (m h).1
    → ((a : A) (h' : Host) → IsStopped h' → Safe (f a h').0 (f a h').1)
    → Safe ((m >>= f) h).0 ((m >>= f) h).1
unfolding Safe
Safe-bind m f h stopped next =
    Holds-bind (λ _. IsStopped) (λ _. IsStopped) IsAccounted IsAccounted m f h
      (stopped-Safe (m h).0 (m h).1 stopped) next

module _ {R : Type 0} ⦃fl : Float R⦄ (world : World R) where
  serve-Safe :
      (fuel : ℕ) (server : ServerProcess) (h : Host)
      → IsStopped h
      → Safe (serve world fuel server h).0 (serve world fuel server h).1
  unfolding serve Safe
  serve-Safe fuel server h stopped =
      let h' = (start_server world fuel server h).1 in
      Holds-bind (λ _. IsAccounted) (λ _. IsStopped) IsAccounted IsAccounted
        (start_server world fuel server) _ h
        (Holds-always IsAccounted (start_server world fuel server h).0 h'
          (start_server-IsAccounted world fuel server h stopped))
        (λ u h1 acc.
          stopped-Safe (launch world server.telemetry_path h1).0
            (launch world server.telemetry_path h1).1
            (launch-IsStopped world server.telemetry_path h1 acc))

  check_port-IsStopped :
      (port : ℕ) (label : String) (h : Host)
      → IsStopped h
      → IsStopped (check_port world port label h).1
  unfolding check_port
  check_port-IsStopped port label h stopped = stopped

  with_binary-Safe :
      (fuel : ℕ) (options : DemoOptions) (root : String) (binary : Option String) (h : Host)
      → IsStopped h
      → Safe
          (with_binary world fuel options root binary h).0
          (with_binary world fuel options root binary h).1
  unfolding with_binary Safe
  with_binary-Safe fuel options root none h stopped = stopped-IsAccounted h stopped
  with_binary-Safe fuel options root (some binary) h stopped =
      let path = default_telemetry_path root in
      Safe-bind (clean_telemetry world path) _ h (clean_telemetry-IsStopped world path h stopped)
        (λ u h1 s1.
          Safe-bind (check_port world options.port "game") _ h1
            (check_port-IsStopped options.port "game" h1 s1)
            (λ v h2 s2.
              Safe-bind (check_port world options.control_port "control") _ h2
                (check_port-IsStopped options.control_port "control" h2 s2)
                (λ w h3 s3. serve-Safe fuel _ _ s3)))

  -- Where no process is attached and all that were started have ended, a demo that returns has
  -- stopped every process that it started, and has none attached. One that raises, or whose fuel
  -- runs out, has at most the one process running that is still attached.
  pub demo-Safe :
      (cwd : String) (fuel : ℕ) (options : DemoOptions) (h : Host)
      → IsStopped h
      → let out = demo world cwd fuel options h in
        Holds (λ _. IsStopped) IsAccounted IsAccounted out.0 out.1
  unfolding demo Safe find_server_binary
  demo-Safe cwd fuel options h stopped =
      let root = root_of cwd options.project_root in
      Safe-bind (find_server_binary world root) (with_binary world fuel options root) h stopped
        (λ binary h' s. with_binary-Safe fuel options root binary h' s)
