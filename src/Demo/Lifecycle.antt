-- ===== src/Demo/Lifecycle.antt =====
-- The processes that a ServerProcess starts and stops.
use wow_server_sim.Common.{
  ℕ, zero, suc, ◌+◌, ◌<◌, String, Bool, true, Option, none, some, List, ◌≡◌, arith,
}
use wow_server_sim.Float.{Float}
use wow_server_sim.Effects.{ok, Answer, got, Act}
use wow_server_sim.Effects.Rules.{Holds, Holds-bind, Holds-if}
use wow_server_sim.Demo.{ReturnCode, Popen, World, Host, called, ask}
use wow_server_sim.Demo.Server.{
  ServerProcess, server_args, poll, wait_for, wait, popen, has_telemetry, check_alive, look_around,
  wait_ready, start, stop, stop_process, terminate_running, kill_after,
}

-- One for a process that is attached and was not seen to end.
abbrev pub alive : Option Popen → ℕ
alive none = 0
alive (some p) = elim p.returncode [ none ↦ 1 | some code ↦ 0 ]

-- Every process that was started has been seen to end, but for the one that is attached.
abbrev pub IsAccounted : Host → Type 0
IsAccounted h = h.spawned ≡ h.reaped + alive h.process

-- After `stop`.
abbrev pub IsStopped : Host → Type 0
IsStopped h = (h.process ≡ none) × (h.spawned ≡ h.reaped)

module _ {R : Type 0} (world : World R) where
  -- `stop` always returns. Where the processes were accounted for, none is attached afterwards, and
  -- all that were started have been seen to end.
  pub stop-IsStopped :
      (h : Host) → IsAccounted h → ((stop world h).0 ≡ ok tt) × IsStopped (stop world h).1
  unfolding stop stop_process poll terminate_running wait_for kill_after wait
  stop-IsStopped h acc = ground arith

  -- A check that saw a file of telemetry that is not empty.
  abbrev pub Ready : (path : String) → Type 0
  Ready path =
      (n k : ℕ) × (world.exists n path ≡ true) × (world.size (n + 1) path ≡ got k) × (0 < k)

  module _ (E F : Host → Type 0) where
    ask_lem :
        {A : Type 0} (answer : ℕ → Answer A) (h : Host)
        → E (called h)
        → let (r, h') = ask world answer h in
          Holds (λ a h'. (answer h.calls ≡ got a) × E h') E F r h'
    ask_lem answer h e = ground arith

  abbrev Sees : (path : String) → Bool → Host → Type 0
  Sees path b h = IsAccounted h × (b ≡ true → Ready path)

  has_telemetry-Ready :
      (path : String) (h : Host)
      → IsAccounted h
      → let (r, h') = has_telemetry world path h in Holds (Sees path) IsAccounted IsAccounted r h'
  unfolding has_telemetry
  has_telemetry-Ready path h acc =
      Holds-if (Sees path) IsAccounted IsAccounted (world.exists h.calls path) _ _ (called h)
        (λ found.
          Holds-bind (λ k h'. (world.size (h.calls + 1) path ≡ got k) × IsAccounted h') (Sees path)
            IsAccounted IsAccounted (ask world (λ n. world.size n path)) _ (called h)
            (ask_lem IsAccounted IsAccounted (λ n. world.size n path) (called h) acc)
            (λ k h' (size, acc'). (acc', λ big. (h.calls, k, found, size, ground arith))))
        (λ absent. (acc, λ wrong. ground arith))

  poll_lem :
      (h : Host)
      → IsAccounted h
      → let (r, h') = poll world h in Holds (λ _. IsAccounted) IsAccounted IsAccounted r h'
  unfolding poll
  poll_lem h acc = ground arith

  abbrev pub Serves : (path : String) → Unit {0} → Host → Type 0
  Serves path u h = IsAccounted h × Ready path

  check_alive-Serves :
      (path : String) (code : Option ReturnCode) (rest : Act Host (Unit {0})) (h : Host)
      → IsAccounted h
      → Holds (Serves path) IsAccounted IsAccounted (rest h).0 (rest h).1
      → let (r, h') = check_alive code rest h in Holds (Serves path) IsAccounted IsAccounted r h'
  check_alive-Serves path none rest h acc next = next
  check_alive-Serves path (some code) rest h acc next = acc

module _ {R : Type 0} ⦃fl : Float R⦄ (world : World R) (path : String) (timeout : ℕ) where
  look_around-Serves :
      (rest : Act Host (Unit {0}))
      → ((h : Host)
          → IsAccounted h
          → Holds (Serves world path) IsAccounted IsAccounted (rest h).0 (rest h).1)
      → (h : Host) → IsAccounted h
      → let (r, h') = look_around world path timeout rest h in
        Holds (Serves world path) IsAccounted IsAccounted r h'
  unfolding look_around
  look_around-Serves rest next h acc =
      Holds-bind (Sees world path) (Serves world path) IsAccounted IsAccounted
        (has_telemetry world path) _ h (has_telemetry-Ready world path h acc)
        (λ ready h' (acc', saw).
          Holds-if (Serves world path) IsAccounted IsAccounted ready _ _ h' (λ yes. (acc', saw yes))
            (λ no.
              Holds-bind (λ _. IsAccounted) (Serves world path) IsAccounted IsAccounted (poll world)
                _ h' (poll_lem world h' acc')
                (λ code h'' acc''.
                  check_alive-Serves world path code rest h'' acc'' (next h'' acc''))))

  wait_ready-Serves :
      (fuel : ℕ) (deadline : R) (h : Host)
      → IsAccounted h
      → let (r, h') = wait_ready world path timeout fuel deadline h in
        Holds (Serves world path) IsAccounted IsAccounted r h'
  unfolding wait_ready
  wait_ready-Serves zero deadline h acc = acc
  wait_ready-Serves (suc fuel) deadline h acc =
      Holds-if (Serves world path) IsAccounted IsAccounted
        (fl.lt (world.monotonic h.readings) deadline) _ _ (record h { readings = h.readings + 1 })
        (λ early. look_around-Serves _ (wait_ready-Serves fuel deadline) _ acc) (λ late. acc)

module _ {R : Type 0} ⦃fl : Float R⦄ (world : World R) where
  touch_lem :
      (path : String) (h : Host)
      → IsStopped h
      → let (r, h') = ask world (λ n. world.touch n path) h in
        Holds (λ _. IsStopped) IsAccounted IsAccounted r h'
  touch_lem path h stopped = ground arith

  popen_lem :
      (args : List String) (h : Host)
      → IsStopped h
      → let (r, h') = popen world args h in Holds (λ _. IsAccounted) IsAccounted IsAccounted r h'
  unfolding popen
  popen_lem args h stopped = ground arith

  -- From a state in which no process is attached and all that were started have ended: where `start`
  -- returns, a check of the telemetry file has found it there and not empty; and whether it returns,
  -- raises or runs out of fuel, every process that was started has been seen to end but for the one
  -- that is still attached.
  pub start-Serves :
      (fuel : ℕ) (server : ServerProcess) (timeout : ℕ) (h : Host)
      → IsStopped h
      → let (r, h') = start world fuel server timeout h in
        Holds (Serves world server.telemetry_path) IsAccounted IsAccounted r h'
  unfolding start
  start-Serves fuel server timeout h stopped =
      let path = server.telemetry_path in
      Holds-bind (λ _. IsStopped) (Serves world path) IsAccounted IsAccounted
        (ask world (λ n. world.touch n path)) _ h (touch_lem path h stopped)
        (λ u h1 stopped1.
          Holds-bind (λ _. IsAccounted) (Serves world path) IsAccounted IsAccounted
            (popen world (server_args server)) _ h1 (popen_lem (server_args server) h1 stopped1)
            (λ u h2 acc. wait_ready-Serves world path timeout fuel _ _ acc))
