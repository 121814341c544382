-- ===== src/MockClient/Spawn/Success.antt =====
-- That spawning gives a result where every client comes to its end.
use wow_server_sim.Common.{ℕ, zero, suc, ◌+◌, ◌≢◌, refl, List}
use wow_server_sim.Float.{Float}
use wow_server_sim.Effects.{Outcome, ok, raise, spent}
use wow_server_sim.Models.{ClientConfig, ClientResult}
use wow_server_sim.MockClient.Traffic.{IsDraw}
use wow_server_sim.MockClient.Run.{World, Client, run_one}
use wow_server_sim.MockClient.Run.Honest.{Tells, run_one-Tells}
use wow_server_sim.MockClient.Spawn.{gathered, gather, spawn_result, spawn_clients}

-- The outcome is a result.
abbrev pub Succeeds : {A : Type 0} → Outcome A → Type 0
Succeeds (ok a) = Unit
Succeeds (raise e) = ⊥
Succeeds spent = ⊥

module _ {R : Type 0} where
  Tells-Succeeds :
      (id : ℕ) (r : Outcome (ClientResult R)) (c : Client R) → Tells id r c → r ≢ spent → Succeeds r
  Tells-Succeeds id (ok r) c h k = tt
  Tells-Succeeds id (raise e) c h k = h
  Tells-Succeeds id spent c h k = k refl

gathered-Succeeds :
    {A : Type 0} (r : Outcome A) (rest : Outcome (List A))
    → Succeeds r
    → Succeeds rest
    → Succeeds (gathered r rest)
gathered-Succeeds (ok a) (ok rest) h k = tt
gathered-Succeeds (ok a) (raise e) h k = k
gathered-Succeeds (ok a) spent h k = k
gathered-Succeeds (raise e) rest h k = absurd h
gathered-Succeeds spent rest h k = absurd h

module _ {R : Type 0} ⦃fl : Float R⦄ (worlds : ℕ → World R) (fuel : ℕ) (config : ClientConfig R)
    (draws : (i n : ℕ) → IsDraw ((worlds i).draw n))
    (ends : (i : ℕ) → (run_one (worlds i) fuel i config).0 ≢ spent) where
  gather-Succeeds : (i count : ℕ) → Succeeds (gather worlds fuel config i count)
  unfolding gather
  gather-Succeeds i zero = tt
  gather-Succeeds i (suc count) =
      let out = run_one (worlds i) fuel i config in
      gathered-Succeeds out.0 (gather worlds fuel config (i + 1) count)
        (Tells-Succeeds i out.0 out.1 (run_one-Tells (worlds i) (draws i) fuel i config) (ends i))
        (gather-Succeeds (i + 1) count)

  spawn_result-Succeeds :
      (count : ℕ) (elapsed : R) (out : Outcome (List (ClientResult R)))
      → Succeeds out
      → Succeeds (spawn_result count elapsed out)
  spawn_result-Succeeds count elapsed (ok rs) h = tt
  spawn_result-Succeeds count elapsed (raise e) h = h
  spawn_result-Succeeds count elapsed spent h = h

  pub spawn_clients-Succeeds :
      (start end : R) (count : ℕ) → Succeeds (spawn_clients worlds fuel start end config count)
  unfolding spawn_clients
  spawn_clients-Succeeds start end count =
      spawn_result-Succeeds count (fl.sub end start) _ (gather-Succeeds 0 count)
