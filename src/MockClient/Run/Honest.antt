-- ===== src/MockClient/Run/Honest.antt =====
-- What the result of a client says of what the client did.
use wow_server_sim.MockClient.Run.Loop.{Playing, After, After-if, moved, act-After}
use wow_server_sim.Common.{
  ℕ, ◌+◌, ◌≤◌, ◌≡◌, sym, ◌↔◌, ◌⊎◌, refl, String, Bool, true, false, none, some, length, All, arith,
  inl, inr, if◌then◌else◌, ◌&&◌,
}
use mathlib.Core.Path.{subst}
use wow_server_sim.Float.{Float}
use wow_server_sim.Effects.{
  Error, os_error, control_client_error, validation_error, value_error, zero_division_error,
  overflow_error, runtime_error, click_exception, Outcome, ok, raise, spent, Answer, got, failed,
}
use wow_server_sim.Models.{ClientConfig, ClientResult}
use wow_server_sim.MockClient.Traffic.{IsDraw, Valid}
use wow_server_sim.MockClient.Run.{
  World, Client, new_client, close, connect, follow, tick, act, connect_and_act, conclude, run,
  capture, run_one,
}

if-true : {A : Type 0} (b : Bool) (x y : A) → b ≡ true → (if b then x else y) ≡ x
if-true b x y h = rw h refl

-- The result `r` of the client `id` tells what it did: its id, its number of actions, exactly where
-- it reports to be connected and else no more than were written, and an error exactly where it
-- does not; all that was written is valid, and what was opened is closed.
pub record Honest {R : Type 0} (id : ℕ) (r : ClientResult R) (c : Client R) : Type 0 where
  pub named : r.client_id ≡ id
  pub counted : r.actions_sent ≤ length c.written
  pub exact : (r.connected ≡ false) ⊎ (r.actions_sent ≡ length c.written)
  pub reported : (r.connected ≡ true) ↔ (r.error ≡ none)
  pub valid : All (Valid id) c.written
  pub sockets : c.opened ≡ c.closed

abbrev pub Tells : {R : Type 0} → ℕ → Outcome (ClientResult R) → Client R → Type 0
Tells id (ok r) c = Honest id r c
Tells id (raise e) c = ⊥
Tells id spent c = Unit

module _ {R : Type 0} ⦃fl : Float R⦄ (world : World R)
    (draws : (n : ℕ) → IsDraw (world.draw n)) where
  shut : Client R → Client R
  shut c = record c { connected = false; closed = c.closed + 1 }

  close-shut : (id : ℕ) (c : Client R) → Playing id c → close c ≡ shut c
  unfolding shut
  close-shut id c p = if-true c.connected _ _ p.connected

  -- The result of a client whose run raised.
  abbrev failure : ℕ → String → ClientResult R
  failure id m = record {
    client_id = id;
    connected = false;
    actions_sent = 0;
    duration_seconds = fl.of_ℕ 0;
    error = some m;
  }

  captured :
      (id : ℕ) (m : String) (c : Client R) → Playing id c → Honest id (failure id m) (close c)
  unfolding shut
  captured id m c p = subst (Honest id (failure id m)) (sym (close-shut id c p)) (record {
    named = refl;
    counted = omega arith;
    exact = inl refl;
    reported = (λ h. cc, λ h. cc);
    valid = p.valid;
    sockets = p.sockets;
  })

  concluded :
      (id : ℕ) (start : R) (r : Outcome (Unit {0})) (c : Client R)
      → After id r c
      → let out = conclude world start r c in Tells id (capture world id out.0) out.1
  unfolding shut
  concluded id start (ok u) c h =
      let p = h.0 in
      subst
        (λ (c' : Client R).
          Honest id
            (record {
              client_id = c'.client_id;
              connected = true;
              actions_sent = c'.actions_sent;
              duration_seconds = fl.sub (world.monotonic c'.readings) start;
              error = none;
            })
            (tick c'))
        (sym (close-shut id c p))
        (record {
          named = p.identity;
          counted = p.counted;
          exact = inr h.1;
          reported = (λ _. refl, λ _. refl);
          valid = p.valid;
          sockets = p.sockets;
        })
  concluded id start (raise (os_error m)) c p =
      subst
        (λ (c' : Client R).
          Honest id
            (record {
              client_id = c.client_id;
              connected = false;
              actions_sent = c.actions_sent;
              duration_seconds = fl.sub (world.monotonic c.readings) start;
              error = some m;
            })
            c')
        (sym (close-shut id (tick c) (moved id (c.readings + 1) c.checks c p)))
        (record {
          named = p.identity;
          counted = p.counted;
          exact = inl refl;
          reported = (λ h. cc, λ h. cc);
          valid = p.valid;
          sockets = p.sockets;
        })
  concluded id start (raise (control_client_error m)) c p = captured id m c p
  concluded id start (raise (validation_error m)) c p = captured id m c p
  concluded id start (raise (value_error m)) c p = captured id m c p
  concluded id start (raise (zero_division_error m)) c p = captured id m c p
  concluded id start (raise (overflow_error m)) c p = captured id m c p
  concluded id start (raise (runtime_error m)) c p = captured id m c p
  concluded id start (raise (click_exception m)) c p = captured id m c p
  concluded id start spent c p = tt

  idle :
      (id n : ℕ) (m : String) (duration : R)
      → Honest id
          (record (failure id m) { duration_seconds = duration })
          (record (new_client id) { readings = n })
  idle id n m duration = record {
    named = refl;
    counted = omega arith;
    exact = inl refl;
    reported = (λ h. cc, λ h. cc);
    valid = tt;
    sockets = refl;
  }

  refused :
      (id : ℕ) (start : R) (e : Error)
      → let out = conclude world start (raise e) (tick (new_client id)) in
        Tells id (capture world id out.0) out.1
  refused id start (os_error m) = idle id _ m _
  refused id start (control_client_error m) = idle id _ m _
  refused id start (validation_error m) = idle id _ m _
  refused id start (value_error m) = idle id _ m _
  refused id start (zero_division_error m) = idle id _ m _
  refused id start (overflow_error m) = idle id _ m _
  refused id start (runtime_error m) = idle id _ m _
  refused id start (click_exception m) = idle id _ m _

  answered :
      (id fuel : ℕ) (start deadline : R) (rate : R) (answer : Answer (Unit {0}))
      → let (r, c) = connect {R = R} answer (tick (new_client id)) in
        let out = follow r c (
          if fl.le rate (fl.of_ℕ 0) && fl.le (fl.of_ℕ 0) rate
          then (raise (zero_division_error "float division by zero"), c)
          else act world fuel deadline c) in
        let end = conclude world start out.0 out.1 in Tells id (capture world id end.0) end.1
  answered id fuel start deadline rate (failed e) = refused id start e
  answered id fuel start deadline rate (got u) =
      let c : Client R = record (tick (new_client id)) { connected = true; opened = 1 } in
      let p : Playing id c = record {
        identity = refl;
        valid = tt;
        connected = refl;
        sockets = refl;
        counted = omega arith;
      } in
      concluded id start _ _ (
        After-if id (fl.le rate (fl.of_ℕ 0) && fl.le (fl.of_ℕ 0) rate) _ _ (λ _. p)
          (λ _. act-After world draws id fuel deadline c p refl))

  -- Where the random numbers are in their ranges, the run of a client never raises, whatever the
  -- server, the clock and the stop flag do, and its result tells what it did: it has the client's
  -- id; it counts the actions written, exactly if it reports to be connected and otherwise never
  -- more than were written; it has an error exactly if it does not; every action carries the
  -- client's id and values in their ranges; and every socket that was opened is closed.
  pub run_one-Tells :
      (fuel id : ℕ) (config : ClientConfig R)
      → let out = run_one world fuel id config in Tells id out.0 out.1
  unfolding run_one run connect_and_act
  run_one-Tells fuel id config =
      answered id fuel (world.monotonic 0) (fl.add (world.monotonic 0) config.duration_seconds)
        config.actions_per_second (world.open_connection config.host config.port)
