-- ===== src/MockClient/Spawn.antt =====
-- `spawn_clients` and `run_spawn` of tools/wowsim/mock_client.py. The clients share nothing but the
-- event loop, so each has a world of its own: how asyncio interleaves them only decides what the
-- calls of each are answered. `asyncio.gather` returns the results in the order of the tasks.
pub mod Totals
pub mod Success
use wow_server_sim.Common.{ℕ, zero, suc, ◌+◌, ◌-◌, List, [], ◌∷◌, tally, sum_by}
use wow_server_sim.Float.{Float}
use wow_server_sim.Effects.{Outcome, ok, raise, spent}
use wow_server_sim.Models.{ClientConfig, ClientResult, SpawnResult}
use wow_server_sim.MockClient.Run.{World, run_one}

-- The results so far, if no task raised.
abbrev pub gathered : {A : Type 0} → Outcome A → Outcome (List A) → Outcome (List A)
gathered (ok a) (ok rest) = ok (a ∷ rest)
gathered (ok a) (raise e) = raise e
gathered (ok a) spent = spent
gathered (raise e) rest = raise e
gathered spent rest = spent

module _ {R : Type 0} ⦃fl : Float R⦄ where
  open fl use {sub, round}

  -- The results of the clients from `i` on.
  unfoldable pub gather :
      (worlds : ℕ → World R) (fuel : ℕ)
      → ClientConfig R
      → (i count : ℕ) → Outcome (List (ClientResult R))
  gather worlds fuel config i zero = ok []
  gather worlds fuel config i (suc count) =
      gathered (run_one (worlds i) fuel i config).0 (gather worlds fuel config (i + 1) count)

  abbrev pub spawn_result :
      (count : ℕ) (elapsed : R) → Outcome (List (ClientResult R)) → Outcome (SpawnResult R)
  spawn_result count elapsed (ok results) =
      let successful = tally (λ r. r.connected) results in
      ok (record {
        total_clients = count;
        successful_connections = successful;
        failed_connections = count - successful;
        total_actions_sent = sum_by (λ (r : ClientResult R). r.actions_sent) results;
        total_duration_seconds = round elapsed 2;
        clients = results;
      })
  spawn_result count elapsed (raise e) = raise e
  spawn_result count elapsed spent = spent

  -- `start` and `end` are the two readings of the clock around `gather`.
  unfoldable pub spawn_clients :
      (worlds : ℕ → World R) (fuel : ℕ) (start end : R)
      → ClientConfig R
      → (count : ℕ) → Outcome (SpawnResult R)
  unfolding gather
  spawn_clients worlds fuel start end config count =
      spawn_result count (sub end start) (gather worlds fuel config 0 count)
