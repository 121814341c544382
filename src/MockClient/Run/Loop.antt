-- ===== src/MockClient/Run/Loop.antt =====
-- What a mock client has done at any point of its loop.
use wow_server_sim.Common.{
  All-snoc, length-snoc, ℕ, zero, suc, ◌+◌, ◌≤◌, ◌≡◌, refl, Bool, true, false, not, [], ◌∷◌, ◌++◌,
  length, All, arith, if◌then◌else◌,
}
use mathlib.Core.Path.{subst}
use wow_server_sim.Float.{Float}
use wow_server_sim.Effects.{Outcome, ok, raise, spent, Answer, got, failed}
use wow_server_sim.MockClient.Traffic.{
  Action, IsDraw, Valid, move, cast_start, attack, choose_action, choose_action-Valid,
}
use wow_server_sim.MockClient.Run.{World, Client, track, drained, follow, tick, send_action, act}

module _ {R : Type 0} where
  -- A client that is connected, and has written no action that the server would refuse and at
  -- least as many as it counts.
  pub record Playing (id : ℕ) (c : Client R) : Type 0 where
    pub identity : c.client_id ≡ id
    pub valid : All (Valid id) c.written
    pub connected : c.connected ≡ true
    pub sockets : c.opened ≡ c.closed + 1
    pub counted : c.actions_sent ≤ length c.written

  -- After a step of the loop, or the whole of it.
  abbrev pub After : ℕ → Outcome (Unit {0}) → Client R → Type 0
  After id (ok u) c = Playing id c × (c.actions_sent ≡ length c.written)
  After id (raise e) c = Playing id c
  After id spent c = Unit

  extended :
      (id n : ℕ) (a : Action R) (c : Client R) (x y z : R)
      → Playing id c
      → Valid id a
      → n ≤ length c.written + 1
      → Playing id
          (record c { x = x; y = y; z = z; actions_sent = n; written = c.written ++ a ∷ [] })
  extended id n a c x y z p v h = record {
    identity = p.identity;
    valid = All-snoc (Valid id) c.written a p.valid v;
    connected = p.connected;
    sockets = p.sockets;
    counted = omega (arith, h, length-snoc c.written a);
  }

  drained-After :
      (id : ℕ) (a : Action R) (answer : Answer (Unit {0})) (c : Client R)
      → Playing id c
      → c.actions_sent ≡ length c.written
      → Valid id a
      → let c' = track a c in
        let r = drained answer (record c' { written = c'.written ++ a ∷ [] }) in After id r.0 r.1
  drained-After id (move s x y z) (got u) c p e v = (
    extended id (c.actions_sent + 1) _ c x y z p v (omega (arith, e)),
    omega (arith, e, length-snoc c.written (move s x y z)),
  )
  drained-After id (cast_start s i t) (got u) c p e v = (
    extended id (c.actions_sent + 1) _ c c.x c.y c.z p v (omega (arith, e)),
    omega (arith, e, length-snoc c.written (cast_start s i t)),
  )
  drained-After id (attack s t d k) (got u) c p e v = (
    extended id (c.actions_sent + 1) _ c c.x c.y c.z p v (omega (arith, e)),
    omega (arith, e, length-snoc c.written (attack s t d k)),
  )
  drained-After id (move s x y z) (failed m) c p e v =
      extended id c.actions_sent _ c x y z p v (omega (arith, e))
  drained-After id (cast_start s i t) (failed m) c p e v =
      extended id c.actions_sent _ c c.x c.y c.z p v (omega (arith, e))
  drained-After id (attack s t d k) (failed m) c p e v =
      extended id c.actions_sent _ c c.x c.y c.z p v (omega (arith, e))

  pub After-if :
      (id : ℕ) (b : Bool) (m n : Outcome (Unit {0}) × Client R)
      → (b ≡ true → After id m.0 m.1)
      → (b ≡ false → After id n.0 n.1)
      → After id (if b then m else n).0 (if b then m else n).1
  After-if id true m n h k = h refl
  After-if id false m n h k = k refl

  -- A clock reading or a check of the stop flag changes nothing of that.
  pub moved :
      (id n k : ℕ) (c : Client R)
      → Playing id c
      → Playing id (record c { readings = n; checks = k })
  moved id n k c p = record {
    identity = p.identity;
    valid = p.valid;
    connected = p.connected;
    sockets = p.sockets;
    counted = p.counted;
  }

module _ {R : Type 0} ⦃fl : Float R⦄ (world : World R)
    (draws : (n : ℕ) → IsDraw (world.draw n)) where
  send_action-After :
      (id : ℕ) (c : Client R)
      → Playing id c
      → c.actions_sent ≡ length c.written
      → let r = send_action world c in After id r.0 r.1
  unfolding send_action
  send_action-After id c p e =
      let v =
        choose_action-Valid c.client_id c.x c.y c.z (world.draw c.actions_sent)
          (draws c.actions_sent) in
      After-if id (not c.connected) _ _ (λ h. ground (arith, p.connected, h))
        (λ h. drained-After id _ (world.drain c.actions_sent) c p e (
          subst (λ i. Valid i (choose_action c.client_id c.x c.y c.z (world.draw c.actions_sent)))
            p.identity v))

  -- The round of the loop after an action, or its end by an exception.
  then_rest :
      (id : ℕ) (r : Outcome (Unit {0})) (c : Client R) (rest : Outcome (Unit {0}) × Client R)
      → After id r c
      → (Playing id c → c.actions_sent ≡ length c.written → After id rest.0 rest.1)
      → After id (follow r c rest).0 (follow r c rest).1
  then_rest id (ok u) c rest h next = next h.0 h.1
  then_rest id (raise e) c rest h next = h
  then_rest id spent c rest h next = tt

  pub act-After :
      (id fuel : ℕ) (deadline : R) (c : Client R)
      → Playing id c
      → c.actions_sent ≡ length c.written
      → let r = act world fuel deadline c in After id r.0 r.1
  unfolding act
  act-After id zero deadline c p e = tt
  act-After id (suc fuel) deadline c p e =
      let c1 : Client R = record (tick c) { checks = c.checks + 1 } in
      let sent = send_action world c1 in
      After-if id (not (fl.lt (world.monotonic c.readings) deadline)) _ _
        (λ h. (moved id (c.readings + 1) c.checks c p, e))
        (λ h.
          After-if id (world.stop c.checks) _ _
            (λ k. (moved id (c.readings + 1) (c.checks + 1) c p, e))
            (λ k.
              then_rest id sent.0 sent.1 (act world fuel deadline (tick sent.1))
                (send_action-After id c1 (moved id (c.readings + 1) (c.checks + 1) c p) e)
                (λ p' e'.
                  act-After id fuel deadline (tick sent.1)
                    (moved id (sent.1.readings + 1) sent.1.checks sent.1 p') e')))
