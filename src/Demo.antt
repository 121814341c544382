-- ===== src/Demo.antt =====
-- tools/wowsim/demo_runner.py: where the server's binary and its telemetry are, and the outside
-- of the demo: the file system, the clock, the process of the server, and what is printed.
pub mod Server
pub mod Lifecycle
pub mod Ending
use wow_server_sim.Common.{
  ℕ, ◌+◌, String, Bool, Option, none, some, List, [], ◌∷◌, ◌++◌, str_eq, concat, str, first, map,
  if◌then◌else◌,
}
use wow_server_sim.Effects.{Answer, Outcome, ok, Act, returned, pure, ◌>>=◌}

-- `returncode`: the exit code, or the signal that ended the process, which Python writes with a
-- minus sign.
pub data ReturnCode : Type 0 where
  exited signalled : ℕ → ReturnCode

abbrev pub code_text : ReturnCode → String
code_text (exited n) = str n
code_text (signalled n) = concat ("-" ∷ str n ∷ [])

-- A Popen object. It knows that its process has ended once `returncode` is set.
pub record Popen : Type 0 where
  pub args : List String
  pub returncode : Option ReturnCode

pub data Signal : Type 0 where
  terminate kill : Signal

-- What the outside answers, each call by the number of the calls before it.
pub record World (R : Type 0) : Type 0 where
  pub monotonic : ℕ → R
  pub is_file : ℕ → String → Bool
  pub exists : ℕ → String → Bool
  pub size : ℕ → String → Answer ℕ  -- path.stat().st_size
  pub touch : ℕ → String → Answer (Unit {0})
  pub unlink : ℕ → String → Answer (Unit {0})
  pub bind : ℕ → (port : ℕ) → Answer (Unit {0})  -- socket(), then bind to 127.0.0.1
  pub popen : ℕ → (args : List String) → Answer (Unit {0})
  pub poll : ℕ → Option ReturnCode  -- of a process that was not seen to end
  pub wait : ℕ → ReturnCode
  pub wait_for : ℕ → Option ReturnCode  -- wait(timeout=5); none for TimeoutExpired
  pub dashboard : ℕ → Answer (Unit {0})  -- WoWDashboardApp(config).run()

-- The calls so far; the processes started and those seen to end; the attribute `_process`, which
-- outlives an exception; the signals sent; the files removed; the lines printed.
pub record Host : Type 0 where
  pub readings : ℕ
  pub calls : ℕ
  pub spawned : ℕ
  pub reaped : ℕ
  pub process : Option Popen
  pub signals : List Signal
  pub unlinked : List String
  pub output : List String

abbrev pub called : Host → Host
called h = record h { calls = h.calls + 1 }

abbrev pub new_host : Host
new_host = record {
  readings = 0;
  calls = 0;
  spawned = 0;
  reaped = 0;
  process = none;
  signals = [];
  unlinked = [];
  output = [];
}

abbrev pub echo : String → Act Host (Unit {0})
echo line h = (ok tt, record h { output = h.output ++ line ∷ [] })

abbrev pub candidate_paths : List String
candidate_paths =
    "build/Debug/wow-server-sim.exe" ∷ "build/wow-server-sim.exe" ∷ "build/wow-server-sim"
    ∷ "wow-server-sim" ∷ []

-- `root / name`, for a root written without a slash at its end.
abbrev pub under : (root name : String) → String
under root name = if str_eq root "." then name else concat (root ∷ "/" ∷ name ∷ [])

abbrev pub default_telemetry_path : (project_root : String) → String
default_telemetry_path project_root = under project_root "telemetry.jsonl"

module _ {R : Type 0} (world : World R) where
  abbrev pub ask : {A : Type 0} → (ℕ → Answer A) → Act Host A
  ask answer h = (returned (answer h.calls), called h)

  abbrev pub now : Act Host R
  now h = (ok (world.monotonic h.readings), record h { readings = h.readings + 1 })

  -- The tests of the candidates count as one call of the file system.
  unfoldable pub find_server_binary : (project_root : String) → Act Host (Option String)
  find_server_binary project_root h =
      (ok (first (world.is_file h.calls) (map (under project_root) candidate_paths)), called h)

  abbrev remove : (path : String) → Bool → Act Host (Unit {0})
  remove path found h =
      if found
      then (
        returned (world.unlink h.calls path),
        record (called h) { unlinked = h.unlinked ++ path ∷ [] },
      )
      else (ok tt, h)

  unfoldable pub clean_telemetry : (path : String) → Act Host (Unit {0})
  clean_telemetry path h = remove path (world.exists h.calls path) (called h)
