-- ===== src/MockClient/Run.antt =====
-- `MockGameClient` and `_run_one` of tools/wowsim/mock_client.py.
pub mod Loop
pub mod Honest
pub mod Ending
use wow_server_sim.Common.{
  ℕ, zero, suc, ◌+◌, String, Bool, true, false, not, Option, none, some, List, [], ◌∷◌, ◌++◌,
  if◌then◌else◌, ◌&&◌,
}
use wow_server_sim.Float.{Float}
use wow_server_sim.Effects.{
  Error, os_error, zero_division_error, error_text, Outcome, ok, raise, spent, Answer, got, failed,
}
use wow_server_sim.Models.{ClientConfig, ClientResult}
use wow_server_sim.MockClient.Traffic.{Draw, Action, move, cast_start, attack, choose_action}

-- What the outside answers one client, each kind of call by its number.
pub record World (R : Type 0) : Type 0 where
  pub monotonic : ℕ → R
  pub open_connection : String → ℕ → Answer (Unit {0})
  pub stop : ℕ → Bool  -- stop_event.is_set(); false for ever without an event
  pub draw : ℕ → Draw R
  pub drain : ℕ → Answer (Unit {0})  -- of a payload that is written

-- The client with its position and counter, the calls it has made, and what it has written.
pub record Client (R : Type 0) : Type 0 where
  pub client_id : ℕ
  pub connected : Bool
  pub x : R
  pub y : R
  pub z : R
  pub actions_sent : ℕ
  pub readings : ℕ
  pub checks : ℕ
  pub opened : ℕ
  pub closed : ℕ
  pub written : List (Action R)

module _ {R : Type 0} ⦃fl : Float R⦄ where
  open fl use {of_ℕ}

  abbrev pub new_client : ℕ → Client R
  new_client client_id = record {
    client_id = client_id;
    connected = false;
    x = of_ℕ 0;
    y = of_ℕ 0;
    z = of_ℕ 0;
    actions_sent = 0;
    readings = 0;
    checks = 0;
    opened = 0;
    closed = 0;
    written = [];
  }

module _ {R : Type 0} where
  -- The position after a movement.
  abbrev pub track : Action R → Client R → Client R
  track (move s x y z) c = record c { x = x; y = y; z = z }
  track (cast_start s i t) c = c
  track (attack s t d k) c = c

  abbrev pub close : Client R → Client R
  close c = if c.connected then record c { connected = false; closed = c.closed + 1 } else c

  abbrev pub drained : Answer (Unit {0}) → Client R → Outcome (Unit {0}) × Client R
  drained (got u) c = (ok tt, record c { actions_sent = c.actions_sent + 1 })
  drained (failed e) c = (raise e, c)

  abbrev pub connect : Answer (Unit {0}) → Client R → Outcome (Unit {0}) × Client R
  connect (got u) c = (ok tt, record c { connected = true; opened = c.opened + 1 })
  connect (failed e) c = (raise e, c)

  -- What follows a statement that does not raise.
  abbrev pub follow :
      Outcome (Unit {0})
      → Client R
      → (rest : Outcome (Unit {0}) × Client R) → Outcome (Unit {0}) × Client R
  follow (ok u) c rest = rest
  follow (raise e) c rest = (raise e, c)
  follow spent c rest = (spent, c)

  abbrev pub tick : Client R → Client R
  tick c = record c { readings = c.readings + 1 }

module _ {R : Type 0} ⦃fl : Float R⦄ (world : World R) where
  open fl use {of_ℕ, add, sub, lt, le}

  unfoldable pub send_action : Client R → Outcome (Unit {0}) × Client R
  send_action c =
      if not c.connected
      then (ok tt, c)
      else let action = choose_action c.client_id c.x c.y c.z (world.draw c.actions_sent) in
        let c' = track action c in
        drained (world.drain c.actions_sent) (record c' { written = c'.written ++ action ∷ [] })

  -- The loop. `asyncio.sleep` gives the others their turn, and has no effect on the client.
  unfoldable pub act : (fuel : ℕ) (deadline : R) → Client R → Outcome (Unit {0}) × Client R
  unfolding send_action
  act zero deadline c = (spent, c)
  act (suc fuel) deadline c =
      let sent = send_action (record (tick c) { checks = c.checks + 1 }) in
      let rest = act fuel deadline (tick sent.1) in
      if not (lt (world.monotonic c.readings) deadline)
      then (ok tt, tick c)
      else if world.stop c.checks
      then (ok tt, record (tick c) { checks = c.checks + 1 })
      else follow sent.0 sent.1 rest

  -- The body of the `try` in `run`: `1.0 / config.actions_per_second` comes before the loop.
  unfoldable pub connect_and_act :
      (fuel : ℕ) → ClientConfig R → (start : R) → Client R → Outcome (Unit {0}) × Client R
  unfolding act
  connect_and_act fuel config start c =
      let (r, c') =
        if c.connected
        then (ok tt, c)
        else connect (world.open_connection config.host config.port) c in
      follow r c' (
        if le config.actions_per_second (of_ℕ 0) && le (of_ℕ 0) config.actions_per_second
        then (raise (zero_division_error "float division by zero"), c')
        else act fuel (add start config.duration_seconds) c')

  -- `except OSError`, `finally`, and the result.
  abbrev pub conclude :
      (start : R) → Outcome (Unit {0}) → Client R → Outcome (ClientResult R) × Client R
  conclude start (ok u) c =
      let c' = close c in
      (
        ok (record {
          client_id = c'.client_id;
          connected = true;
          actions_sent = c'.actions_sent;
          duration_seconds = sub (world.monotonic c'.readings) start;
          error = none;
        }),
        tick c',
      )
  conclude start (raise (os_error m)) c = (
    ok (record {
      client_id = c.client_id;
      connected = false;
      actions_sent = c.actions_sent;
      duration_seconds = sub (world.monotonic c.readings) start;
      error = some m;
    }),
    close (tick c),
  )
  conclude start (raise e) c = (raise e, close c)
  conclude start spent c = (spent, c)

  unfoldable pub run : (fuel : ℕ) → ClientConfig R → Client R → Outcome (ClientResult R) × Client R
  unfolding connect_and_act
  run fuel config c =
      let start = world.monotonic c.readings in
      let (r, c') = connect_and_act fuel config start (tick c) in conclude start r c'

  -- `except Exception`
  abbrev pub capture : (client_id : ℕ) → Outcome (ClientResult R) → Outcome (ClientResult R)
  capture client_id (ok result) = ok result
  capture client_id (raise e) = ok (record {
    client_id = client_id;
    connected = false;
    actions_sent = 0;
    duration_seconds = of_ℕ 0;
    error = some (error_text e);
  })
  capture client_id spent = spent

  unfoldable pub run_one :
      (fuel client_id : ℕ) → ClientConfig R → Outcome (ClientResult R) × Client R
  unfolding run
  run_one fuel client_id config =
      let (r, c) = run fuel config (new_client client_id) in (capture client_id r, c)
