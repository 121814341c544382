-- ===== src/MockClient/Run/Ending.antt =====
-- The fuel with which a client comes to its end.
use wow_server_sim.Common.{
  ℕ, zero, suc, ◌+◌, ◌*◌, ◌<◌, ◌≡◌, ◌≢◌, refl, Bool, true, false, not, [], ◌∷◌, ◌++◌, arith,
  if◌then◌else◌, ◌&&◌,
}
use mathlib.Core.Path.{subst}
use wow_server_sim.Float.{Float}
use wow_server_sim.Effects.{
  os_error, control_client_error, validation_error, value_error, zero_division_error,
  overflow_error, runtime_error, click_exception, Outcome, ok, raise, spent, Answer, got, failed,
}
use wow_server_sim.Models.{ClientConfig}
use wow_server_sim.MockClient.Traffic.{Action, move, cast_start, attack}
use wow_server_sim.MockClient.Run.{
  World, Client, new_client, track, drained, connect, follow, tick, send_action, act,
  connect_and_act, conclude, run, capture, run_one,
}

abbrev Ended : {A : Type 0} → Outcome A → Type 0
Ended (ok a) = Unit
Ended (raise e) = Unit
Ended spent = ⊥

Ended-ne : {A : Type 0} (o : Outcome A) → Ended o → o ≢ spent
Ended-ne (ok a) h e = cc
Ended-ne (raise x) h e = cc
Ended-ne spent h e = h

twice_zero : (k : ℕ) → k + 2 * 0 ≡ k
twice_zero k = omega arith

module _ {R : Type 0} where
  Ended-if :
      (b : Bool) (m n : Outcome (Unit {0}) × Client R)
      → (b ≡ true → Ended m.0)
      → (b ≡ false → Ended n.0)
      → Ended (if b then m else n).0
  Ended-if true m n h k = h refl
  Ended-if false m n h k = k refl

  follow-Ended :
      (r : Outcome (Unit {0})) (c : Client R) (rest : Outcome (Unit {0}) × Client R)
      → Ended r
      → Ended rest.0
      → Ended (follow r c rest).0
  follow-Ended (ok u) c rest h k = k
  follow-Ended (raise e) c rest h k = h
  follow-Ended spent c rest h k = h

  -- A step that ends and reads no clock.
  Brief : Client R → Outcome (Unit {0}) × Client R → Type 0
  Brief c out = Ended out.0 × (out.1.readings ≡ c.readings)

  drained-Brief :
      (a : Action R) (answer : Answer (Unit {0})) (c : Client R)
      → let c' = track a c in
        Brief c (drained answer (record c' { written = c'.written ++ a ∷ [] }))
  unfolding Brief
  drained-Brief (move s x y z) (got u) c = (tt, refl)
  drained-Brief (cast_start s i t) (got u) c = (tt, refl)
  drained-Brief (attack s t d k) (got u) c = (tt, refl)
  drained-Brief (move s x y z) (failed m) c = (tt, refl)
  drained-Brief (cast_start s i t) (failed m) c = (tt, refl)
  drained-Brief (attack s t d k) (failed m) c = (tt, refl)

  if-Brief :
      (b : Bool) (c : Client R) (m n : Outcome (Unit {0}) × Client R)
      → Brief c m
      → Brief c n
      → Brief c (if b then m else n)
  if-Brief true c m n h k = h
  if-Brief false c m n h k = k

module _ {R : Type 0} ⦃fl : Float R⦄ (world : World R) where
  send_action-Brief : (c : Client R) → Brief c (send_action world c)
  unfolding send_action Brief
  send_action-Brief c =
      if-Brief (not c.connected) c _ _ (tt, refl) (drained-Brief _ (world.drain c.actions_sent) c)

  -- A round of the loop ends if what follows it does, which starts two clock readings later.
  round-Ended :
      (fuel : ℕ) (deadline : R) (c : Client R)
      → (fl.lt (world.monotonic c.readings) deadline ≡ true
          → (c' : Client R) → c'.readings ≡ c.readings + 1 + 1
          → Ended (act world fuel deadline c').0)
      → Ended (act world (suc fuel) deadline c).0
  unfolding act Brief
  round-Ended fuel deadline c rest =
      let c1 : Client R = record (tick c) { checks = c.checks + 1 } in
      let sent = send_action world c1 in
      let brief = send_action-Brief c1 in
      Ended-if (not (fl.lt (world.monotonic c.readings) deadline)) _ _ (λ e. tt)
        (λ going.
          Ended-if (world.stop c.checks) _ _ (λ e. tt)
            (λ e.
              follow-Ended sent.0 sent.1 (act world fuel deadline (tick sent.1)) brief.0
                (rest (ground (arith, going)) (tick sent.1) (omega (arith, brief.1)))))

  act-Ended :
      (n fuel : ℕ) (deadline : R) (c : Client R)
      → n < fuel
      → fl.lt (world.monotonic (c.readings + 2 * n)) deadline ≡ false
      → Ended (act world fuel deadline c).0
  act-Ended n zero deadline c n<fuel h = absurd (omega arith)
  act-Ended zero (suc fuel) deadline c n<fuel h = round-Ended fuel deadline c (λ going c' r.
      let past =
        subst (λ k. fl.lt (world.monotonic k) deadline ≡ false) (twice_zero c.readings) h in
      cc)
  act-Ended (suc n) (suc fuel) deadline c n<fuel h = round-Ended fuel deadline c (λ going c' r.
      act-Ended n fuel deadline c' (omega arith)
        (subst (λ k. fl.lt (world.monotonic k) deadline ≡ false) (omega (arith, r)) h))

  concluded-Ended :
      (id : ℕ) (start : R) (r : Outcome (Unit {0})) (c : Client R)
      → Ended r
      → Ended (capture world id (conclude world start r c).0)
  concluded-Ended id start (ok u) c h = tt
  concluded-Ended id start (raise (os_error m)) c h = tt
  concluded-Ended id start (raise (control_client_error m)) c h = tt
  concluded-Ended id start (raise (validation_error m)) c h = tt
  concluded-Ended id start (raise (value_error m)) c h = tt
  concluded-Ended id start (raise (zero_division_error m)) c h = tt
  concluded-Ended id start (raise (overflow_error m)) c h = tt
  concluded-Ended id start (raise (runtime_error m)) c h = tt
  concluded-Ended id start (raise (click_exception m)) c h = tt
  concluded-Ended id start spent c h = h

  answered-Ended :
      (id n fuel : ℕ) (deadline rate : R) (answer : Answer (Unit {0}))
      → n < fuel
      → fl.lt (world.monotonic (1 + 2 * n)) deadline ≡ false
      → let (r, c) = connect {R = R} answer (tick (new_client id)) in
        Ended
          (follow r c (
            if fl.le rate (fl.of_ℕ 0) && fl.le (fl.of_ℕ 0) rate
            then (raise (zero_division_error "float division by zero"), c)
            else act world fuel deadline c)).0
  answered-Ended id n fuel deadline rate (failed e) n<fuel h = tt
  answered-Ended id n fuel deadline rate (got u) n<fuel h =
      Ended-if (fl.le rate (fl.of_ℕ 0) && fl.le (fl.of_ℕ 0) rate) _ _ (λ _. tt)
        (λ _. act-Ended n fuel deadline _ n<fuel h)

  -- The run of a client comes to an end, with fuel for more than `n` rounds, if the reading of the
  -- clock after `n` rounds, two in each and one before, has passed the client's deadline.
  pub run_one_ends :
      (n fuel id : ℕ) (config : ClientConfig R)
      → n < fuel
      → fl.lt (world.monotonic (1 + 2 * n)) (fl.add (world.monotonic 0) config.duration_seconds)
        ≡ false
      → (run_one world fuel id config).0 ≢ spent
  unfolding run_one run connect_and_act
  run_one_ends n fuel id config n<fuel h = Ended-ne _ (
      concluded-Ended id (world.monotonic 0) _ _ (
        answered-Ended id n fuel (fl.add (world.monotonic 0) config.duration_seconds)
          config.actions_per_second (world.open_connection config.host config.port) n<fuel h))
