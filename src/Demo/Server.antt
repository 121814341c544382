-- ===== src/Demo/Server.antt =====
-- `ServerProcess` of tools/wowsim/demo_runner.py. `time.sleep` has no effect on the state,
-- and the timeout of `start` is an int, as the command `demo` gives it.
use wow_server_sim.Common.{
  ℕ, zero, suc, ◌+◌, String, Bool, true, false, Option, none, some, List, [], ◌∷◌, ◌++◌, ltb,
  concat, str, if◌then◌else◌,
}
use wow_server_sim.Float.{Float}
use wow_server_sim.Effects.{
  runtime_error, Outcome, ok, raise, spent, Answer, got, failed, Act, pure, throw, ◌>>=◌, ◌>>◌,
}
use wow_server_sim.Demo.{
  ReturnCode, code_text, Popen, Signal, terminate, kill, World, Host, called, ask, now,
}

-- The configuration of a ServerProcess; its attribute `_process` is a field of the host.
pub record ServerProcess : Type 0 where
  pub binary : String
  pub telemetry_path : String
  pub port : ℕ
  pub control_port : ℕ

abbrev pub server_args : ServerProcess → List String
server_args server =
    server.binary ∷ "--port" ∷ str server.port ∷ "--control-port" ∷ str server.control_port ∷ []

-- The process is seen to end: the Popen object remembers the code.
abbrev pub ended : Popen → ReturnCode → Host → Host
ended p code h = record h {
  process = some (record p { returncode = some code });
  reaped = h.reaped + 1;
}

abbrev pub seen : Popen → Option ReturnCode → Host → Outcome (Option ReturnCode) × Host
seen p none h = (ok none, h)
seen p (some code) h = (ok (some code), ended p code h)

abbrev pub signal : Signal → Act Host (Unit {0})
signal sig h = (ok tt, record h { signals = h.signals ++ sig ∷ [] })

abbrev pub has_exited : Option ReturnCode → Bool
has_exited none = false
has_exited (some code) = true

abbrev pub check_alive : Option ReturnCode → Act Host (Unit {0}) → Act Host (Unit {0})
check_alive none rest = rest
check_alive (some code) rest =
    throw (runtime_error (concat ("Server exited with code " ∷ code_text code ∷ [])))

module _ {R : Type 0} (world : World R) where
  -- A call on the Popen object, which answers at once when the code is known.
  abbrev answered :
      Option Popen → (ℕ → Option ReturnCode) → Host → Outcome (Option ReturnCode) × Host
  answered none answer h = (ok none, h)
  answered (some p) answer h = elim p.returncode [
    | some code ↦ (ok (some code), h)
    | none ↦ seen p (answer h.calls) (called h)
  ]

  -- `self._process.poll()`, `.wait(timeout=5)` and `.wait()`.
  unfoldable pub poll : Act Host (Option ReturnCode)
  poll h = answered h.process world.poll h

  unfoldable pub wait_for : Act Host (Option ReturnCode)
  wait_for h = answered h.process world.wait_for h

  unfoldable pub wait : Act Host (Option ReturnCode)
  wait h = answered h.process (λ n. some (world.wait n)) h

  unfoldable pub running : Act Host Bool
  unfolding poll
  running h = elim h.process [
    | none ↦ (ok false, h)
    | some p ↦ (poll >>= λ code. pure (if has_exited code then false else true)) h
  ]

  abbrev started : List String → Answer (Unit {0}) → Host → Outcome (Unit {0}) × Host
  started args (failed e) h = (raise e, h)
  started args (got u) h = (
    ok tt,
    record h {
      process = some (record { args = args; returncode = none });
      spawned = h.spawned + 1;
    },
  )

  unfoldable pub popen : List String → Act Host (Unit {0})
  popen args h = started args (world.popen h.calls args) (called h)

  -- `path.exists() and path.stat().st_size > 0`
  unfoldable pub has_telemetry : (path : String) → Act Host Bool
  has_telemetry path h =
      (if world.exists h.calls path
          then (ask world (λ n. world.size n path) >>= λ size. pure (ltb 0 size))
          else pure false)
        (called h)

  unfoldable pub kill_after : Option ReturnCode → Act Host (Unit {0})
  unfolding wait
  kill_after (some code) = pure tt
  kill_after none = do signal kill; wait; pure tt

  unfoldable pub terminate_running : Option ReturnCode → Act Host (Unit {0})
  unfolding wait_for kill_after
  terminate_running (some code) = pure tt
  terminate_running none = do signal terminate; code ← wait_for; kill_after code

  abbrev pub forget : Act Host (Unit {0})
  forget h = (ok tt, record h { process = none })

  unfoldable pub stop_process : Option Popen → Act Host (Unit {0})
  unfolding poll terminate_running
  stop_process none = pure tt
  stop_process (some p) = do code ← poll; terminate_running code; forget

  unfoldable pub stop : Act Host (Unit {0})
  unfolding stop_process
  stop h = stop_process h.process h

module _ {R : Type 0} ⦃fl : Float R⦄ (world : World R) (path : String) (timeout : ℕ) where
  open fl use {lt}

  abbrev timed_out : String
  timed_out = concat ("Server did not produce telemetry within " ∷ str timeout ∷ "s" ∷ [])

  unfoldable pub look_around : (rest : Act Host (Unit {0})) → Act Host (Unit {0})
  unfolding has_telemetry poll
  look_around rest = do
    ready ← has_telemetry world path
    if ready then pure tt else (poll world >>= λ code. check_alive code rest)

  -- The loop, with fuel.
  unfoldable pub wait_ready : (fuel : ℕ) (deadline : R) → Act Host (Unit {0})
  unfolding look_around
  wait_ready zero deadline = λ h. (spent, h)
  wait_ready (suc fuel) deadline =
      let rest = wait_ready fuel deadline in
      do t ← now world; if lt t deadline then look_around rest else throw (runtime_error timed_out)

module _ {R : Type 0} ⦃fl : Float R⦄ (world : World R) where
  open fl use {add, of_ℕ}

  unfoldable pub start : (fuel : ℕ) → ServerProcess → (timeout : ℕ) → Act Host (Unit {0})
  unfolding wait_ready popen
  start fuel server timeout = do
    ask world (λ n. world.touch n server.telemetry_path)
    popen world (server_args server)
    t ← now world
    wait_ready world server.telemetry_path timeout fuel (add t (of_ℕ timeout))
