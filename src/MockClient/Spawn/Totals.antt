-- ===== src/MockClient/Spawn/Totals.antt =====
-- The totals of a spawn against the clients' results.
use wow_server_sim.Common.{
  ℕ, zero, suc, ◌+◌, ◌≤◌, ◌≡◌, ◌↔◌, refl, true, none, List, [], ◌∷◌, tally, sum_by, length, All,
  arith, tally-le-length,
}
use wow_server_sim.Float.{Float}
use wow_server_sim.Effects.{Outcome, ok, raise, spent}
use wow_server_sim.Models.{ClientConfig, ClientResult, SpawnResult}
use wow_server_sim.MockClient.Traffic.{IsDraw}
use wow_server_sim.MockClient.Run.{World, run_one}
use wow_server_sim.MockClient.Run.Honest.{Tells, run_one-Tells}
use wow_server_sim.MockClient.Spawn.{gathered, gather, spawn_result, spawn_clients}

module _ {R : Type 0} where
  -- The results carry the ids from `i` on, in order.
  abbrev pub Numbered : ℕ → List (ClientResult R) → Type 0
  Numbered i [] = Unit
  Numbered i (r ∷ rs) = (r.client_id ≡ i) × Numbered (i + 1) rs

  -- A result reports an error exactly where the client is not connected.
  abbrev pub Reports : List (ClientResult R) → Type 0
  Reports rs = All (λ r. (r.connected ≡ true) ↔ (r.error ≡ none)) rs

module _ {R : Type 0} ⦃fl : Float R⦄ (worlds : ℕ → World R) (fuel : ℕ)
    (config : ClientConfig R) where
  -- The actions that the clients from `i` on have written.
  abbrev pub written_by : (i count : ℕ) → ℕ
  written_by i zero = 0
  written_by i (suc count) =
      length (run_one (worlds i) fuel i config).1.written + written_by (i + 1) count

  pub record Adds (count : ℕ) (r : SpawnResult R) : Type 0 where
    pub total : r.total_clients ≡ count
    pub sum : r.successful_connections + r.failed_connections ≡ count
    pub successes : r.successful_connections ≡ tally (λ c. c.connected) r.clients
    pub actions : r.total_actions_sent ≡ sum_by (λ (c : ClientResult R). c.actions_sent) r.clients
    pub sent : r.total_actions_sent ≤ written_by 0 count
    pub numbered : Numbered 0 r.clients
    pub reports : Reports r.clients

  -- For a result `Adds`, and there is a result unless the fuel of some client was too little.
  abbrev pub Spawns : (count : ℕ) → Outcome (SpawnResult R) → Type 0
  Spawns count (ok r) = Adds count r
  Spawns count (raise e) = ⊥
  Spawns count spent = Unit

  record Gathers (i count : ℕ) (rs : List (ClientResult R)) : Type 0 where
    all : length rs ≡ count
    numbered : Numbered i rs
    reports : Reports rs
    sent : sum_by (λ (c : ClientResult R). c.actions_sent) rs ≤ written_by i count

  Gathered : (i count : ℕ) → Outcome (List (ClientResult R)) → Type 0
  Gathered i count (ok rs) = Gathers i count rs
  Gathered i count (raise e) = ⊥
  Gathered i count spent = Unit

  gathered-Gathered :
      (i count : ℕ) (r : Outcome (ClientResult R)) (rest : Outcome (List (ClientResult R)))
      → Tells i r (run_one (worlds i) fuel i config).1
      → Gathered (i + 1) count rest
      → Gathered i (suc count) (gathered r rest)
  unfolding Gathered
  gathered-Gathered i count (ok r) (ok rs) h g = record {
    all = omega (arith, g.all);
    numbered = (h.named, g.numbered);
    reports = (h.reported, g.reports);
    sent = omega (arith, h.counted, g.sent);
  }
  gathered-Gathered i count (ok r) (raise e) h g = g
  gathered-Gathered i count (ok r) spent h g = tt
  gathered-Gathered i count (raise e) rest h g = absurd h
  gathered-Gathered i count spent rest h g = tt

  module _ (draws : (i n : ℕ) → IsDraw ((worlds i).draw n)) where
    gather-Gathered : (i count : ℕ) → Gathered i count (gather worlds fuel config i count)
    unfolding gather Gathered
    gather-Gathered i zero = record { all = refl; numbered = tt; reports = tt; sent = omega arith }
    gather-Gathered i (suc count) =
        gathered-Gathered i count (run_one (worlds i) fuel i config).0
          (gather worlds fuel config (i + 1) count)
          (run_one-Tells (worlds i) (draws i) fuel i config) (gather-Gathered (i + 1) count)

    collected :
        (count : ℕ) (elapsed : R) (out : Outcome (List (ClientResult R)))
        → Gathered 0 count out
        → Spawns count (spawn_result count elapsed out)
    unfolding Gathered
    collected count elapsed (ok rs) g = record {
      total = refl;
      sum = omega (arith, g.all, tally-le-length (λ (c : ClientResult R). c.connected) rs);
      successes = refl;
      actions = refl;
      sent = g.sent;
      numbered = g.numbered;
      reports = g.reports;
    }
    collected count elapsed (raise e) g = g
    collected count elapsed spent g = tt

    -- Where the random numbers are in their ranges, spawning never raises, whatever the clients
    -- meet, and its result adds up: successes and failures to the number of clients, actions to
    -- those of the clients and to no more than were written; with a result for every client in the
    -- order of their ids, which has an error exactly if the client is not connected.
    pub spawn_clients-Spawns :
        (start end : R) (count : ℕ)
        → Spawns count (spawn_clients worlds fuel start end config count)
    unfolding spawn_clients
    spawn_clients-Spawns start end count =
        collected count (fl.sub end start) _ (gather-Gathered 0 count)
