-- ===== src/Demo/Ending.antt =====
-- `start` comes to an end.
use wow_server_sim.Common.{
  ℕ, zero, suc, ◌+◌, ◌<◌, String, true, false, Option, none, some, List, ◌≡◌, ◌≢◌, refl, arith,
}
use mathlib.Core.Path.{subst}
use wow_server_sim.Float.{Float}
use wow_server_sim.Effects.{Outcome, spent, Act}
use wow_server_sim.Effects.Rules.{Holds, Holds-bind, Holds-if}
use wow_server_sim.Demo.{ReturnCode, World, Host, ask}
use wow_server_sim.Demo.Server.{
  ServerProcess, server_args, poll, popen, has_telemetry, check_alive, look_around, wait_ready,
  start,
}

-- Not out of fuel; and no reading of the clock where it returns.
abbrev Unread : {A : Type 0} → (readings : ℕ) → A → Host → Type 0
Unread k a h = h.readings ≡ k

abbrev Any : Host → Type 0
Any h = Unit

abbrev Never : Host → Type 0
Never h = ⊥

abbrev Done : Unit {0} → Host → Type 0
Done u h = Unit

abbrev Ends : (k : ℕ) → Act Host (Unit {0}) → Type 0
Ends k m = (h : Host) → h.readings ≡ k → Holds Done Any Never (m h).0 (m h).1

Done-ne : (r : Outcome (Unit {0})) (h : Host) → Holds Done Any Never r h → r ≢ spent
Done-ne r h d eq = ground arith

module _ {R : Type 0} (world : World R) where
  has_telemetry-Unread :
      (path : String) (h : Host)
      → let (r, h') = has_telemetry world path h in Holds (Unread h.readings) Any Never r h'
  unfolding has_telemetry
  has_telemetry-Unread path h = ground arith

  poll-Unread : (h : Host) → let (r, h') = poll world h in Holds (Unread h.readings) Any Never r h'
  unfolding poll
  poll-Unread h = ground arith

  popen-Unread :
      (args : List String) (h : Host)
      → let (r, h') = popen world args h in Holds (Unread h.readings) Any Never r h'
  unfolding popen
  popen-Unread args h = ground arith

  touch-Unread :
      (path : String) (h : Host)
      → let (r, h') = ask world (λ n. world.touch n path) h in
        Holds (Unread h.readings) Any Never r h'
  touch-Unread path h = ground arith

check_alive-Ends :
    (k : ℕ) (code : Option ReturnCode) (rest : Act Host (Unit {0}))
    → Ends k rest
    → Ends k (check_alive code rest)
check_alive-Ends k none rest next h e = next h e
check_alive-Ends k (some code) rest next h e = tt

module _ {R : Type 0} ⦃fl : Float R⦄ (world : World R) (path : String) (timeout : ℕ) where
  look_around-Ends :
      (k : ℕ) (rest : Act Host (Unit {0}))
      → Ends k rest
      → Ends k (look_around world path timeout rest)
  unfolding look_around
  look_around-Ends k rest next h at =
      Holds-bind (Unread h.readings) Done Any Never (has_telemetry world path) _ h
        (has_telemetry-Unread world path h)
        (λ ready h1 e1.
          Holds-if Done Any Never ready _ _ h1 (λ yes. tt)
            (λ no.
              Holds-bind (Unread h1.readings) Done Any Never (poll world) _ h1
                (poll-Unread world h1)
                (λ code h2 e2. check_alive-Ends k code rest next h2 (omega (arith, at, e1, e2)))))

  -- One round of the loop: the rest is only reached while the clock has not passed the deadline.
  round-Ends :
      (fuel k : ℕ) (deadline : R)
      → (fl.lt (world.monotonic k) deadline ≡ true
          → Ends (k + 1) (wait_ready world path timeout fuel deadline))
      → Ends k (wait_ready world path timeout (suc fuel) deadline)
  unfolding wait_ready
  round-Ends fuel k deadline rest h at =
      Holds-if Done Any Never (fl.lt (world.monotonic h.readings) deadline) _ _ _
        (λ early.
          look_around-Ends (k + 1) _
            (rest (subst (λ r. fl.lt (world.monotonic r) deadline ≡ true) at early)) _
            (omega (arith, at)))
        (λ late. tt)

  wait_ready-Ends :
      (n fuel k : ℕ) (deadline : R)
      → n < fuel
      → fl.lt (world.monotonic (k + n)) deadline ≡ false
      → Ends k (wait_ready world path timeout fuel deadline)
  wait_ready-Ends n zero k deadline n<fuel past = absurd (omega arith)
  wait_ready-Ends zero (suc fuel) k deadline n<fuel past =
      round-Ends fuel k deadline (λ early. absurd (ground (arith, early, past)))
  wait_ready-Ends (suc n) (suc fuel) k deadline n<fuel past = round-Ends fuel k deadline (λ early.
      wait_ready-Ends n fuel (k + 1) deadline (omega arith)
        (subst (λ r. fl.lt (world.monotonic r) deadline ≡ false) (omega arith) past))

module _ {R : Type 0} ⦃fl : Float R⦄ (world : World R) where
  -- `start` comes to an end, with fuel for more than `n` rounds of its loop, if the reading of the
  -- clock after `n` rounds, one in each and one before, has passed the deadline.
  pub start_ends :
      (n fuel : ℕ) (server : ServerProcess) (timeout : ℕ) (h : Host)
      → n < fuel
      → fl.lt
          (world.monotonic (h.readings + 1 + n))
          (fl.add (world.monotonic h.readings) (fl.of_ℕ timeout))
        ≡ false
      → (start world fuel server timeout h).0 ≢ spent
  unfolding start
  start_ends n fuel server timeout h n<fuel past =
      let path = server.telemetry_path in
      Done-ne _ _ (
        Holds-bind (Unread h.readings) Done Any Never (ask world (λ n. world.touch n path)) _ h
          (touch-Unread world path h)
          (λ u h1 e1.
            Holds-bind (Unread h1.readings) Done Any Never (popen world (server_args server)) _ h1
              (popen-Unread world (server_args server) h1)
              (λ u h2 e2.
                wait_ready-Ends world path timeout n fuel (h2.readings + 1) _ n<fuel
                  (subst
                    (λ r.
                      fl.lt (world.monotonic (r + 1 + n))
                        (fl.add (world.monotonic r) (fl.of_ℕ timeout))
                      ≡ false)
                    (omega (arith, e1, e2)) past)
                  (record h2 { readings = h2.readings + 1 }) refl)))
