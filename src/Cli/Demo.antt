-- ===== src/Cli/Demo.antt =====
-- The command `demo` of tools/wowsim/cli.py.
pub mod Processes
use wow_server_sim.Common.{ℕ, String, Option, none, some, List, [], ◌∷◌, concat, str}
use wow_server_sim.Float.{Float}
use wow_server_sim.Effects.{
  Error, os_error, runtime_error, click_exception, Outcome, ok, raise, spent, Act, pure, throw,
  continue, ◌>>=◌, ◌>>◌,
}
use wow_server_sim.Demo.{
  World, Host, ask, echo, find_server_binary, clean_telemetry, default_telemetry_path,
}
use wow_server_sim.Demo.Server.{ServerProcess, start, stop}

-- The options of `demo`; the host and the refresh interval go to the dashboard.
pub record DemoOptions : Type 0 where
  pub project_root : Option String
  pub port : ℕ
  pub control_port : ℕ

module _ {A : Type 0} where
  -- What `finally` leaves: its own exception wins.
  abbrev pub finished : Outcome A → Outcome (Unit {0}) → Outcome A
  finished r (ok u) = r
  finished r (raise e) = raise e
  finished r spent = spent

  -- `try: body` / `finally: cleanup`, for a cleanup that may raise.
  abbrev pub ensure : Act Host A → Act Host (Unit {0}) → Act Host A
  ensure body cleanup h = let (r, h1) = body h in let (c, h2) = cleanup h1 in (finished r c, h2)

  -- `except OSError: raise click.ClickException(message)`
  abbrev pub os_clicked : (message : String) → Outcome A → Outcome A
  os_clicked message (raise (os_error m)) = raise (click_exception message)
  os_clicked message r = r

  -- `except RuntimeError as exc: raise click.ClickException(str(exc))`
  abbrev pub runtime_clicked : Outcome A → Outcome A
  runtime_clicked (raise (runtime_error m)) = raise (click_exception m)
  runtime_clicked r = r

abbrev pub in_use : (check_port : ℕ) (label : String) → String
in_use check_port label = concat (
    "Port "
    ∷ str check_port
    ∷ " ("
    ∷ label
    ∷ ") is already in use. Kill the process or use --port / --control-port."
    ∷ [])

abbrev pub root_of : (cwd : String) → Option String → String
root_of cwd none = cwd
root_of cwd (some root) = root

module _ {R : Type 0} ⦃fl : Float R⦄ (world : World R) where
  unfoldable pub check_port : (port : ℕ) (label : String) → Act Host (Unit {0})
  check_port port label h =
      let (r, h') = ask world (λ n. world.bind n port) h in (os_clicked (in_use port label) r, h')

  unfoldable pub start_server : (fuel : ℕ) → ServerProcess → Act Host (Unit {0})
  start_server fuel server h = let (r, h') = start world fuel server 10 h in (runtime_clicked r, h')

  unfoldable pub shut_down : (telemetry_path : String) → Act Host (Unit {0})
  shut_down telemetry_path = do
    echo "Stopping server..."
    stop world
    clean_telemetry world telemetry_path
    echo "Done."

  -- The dashboard between the start and the end of the server.
  unfoldable pub run_dashboard : (telemetry_path : String) → Act Host (Unit {0})
  unfolding shut_down
  run_dashboard telemetry_path = ensure (ask world world.dashboard) (shut_down telemetry_path)

  unfoldable pub launch : (telemetry_path : String) → Act Host (Unit {0})
  unfolding run_dashboard
  launch telemetry_path = do
    echo "Server ready — launching dashboard..."
    run_dashboard telemetry_path

  unfoldable pub serve : (fuel : ℕ) → ServerProcess → Act Host (Unit {0})
  unfolding start_server launch
  serve fuel server = do start_server fuel server; launch server.telemetry_path

  abbrev pub starting : ServerProcess → String
  starting server = concat (
      "Starting server: "
      ∷ server.binary
      ∷ " (ports "
      ∷ str server.port
      ∷ "/"
      ∷ str server.control_port
      ∷ ")"
      ∷ [])

  unfoldable pub with_binary :
      (fuel : ℕ) → DemoOptions → (root : String) → Option String → Act Host (Unit {0})
  unfolding check_port serve
  with_binary fuel options root none =
      throw (click_exception "Server binary not found. Build first: bash scripts/build.sh")
  with_binary fuel options root (some binary) =
      let server : ServerProcess = record {
        binary = binary;
        telemetry_path = default_telemetry_path root;
        port = options.port;
        control_port = options.control_port;
      } in
      do
        clean_telemetry world server.telemetry_path
        check_port options.port "game"
        check_port options.control_port "control"
        echo (starting server)
        serve fuel server

  unfoldable pub demo : (cwd : String) (fuel : ℕ) → DemoOptions → Act Host (Unit {0})
  unfolding with_binary
  demo cwd fuel options =
      let root = root_of cwd options.project_root in
      find_server_binary world root >>= with_binary fuel options root
