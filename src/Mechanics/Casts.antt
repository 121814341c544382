-- ===== src/Mechanics/Casts.antt =====
-- `aggregate_cast_metrics` of tools/wowsim/game_metrics.py.
use wow_server_sim.Common.{
  ℕ, ◌+◌, ◌≤◌, ◌≡◌, refl, Bool, true, not, ◌&&◌, Option, List, [], ◌∷◌, str_eq, ltb, if◌then◌else◌,
  tally, arith, String, distinct,
}
use wow_server_sim.Float.{Float, IsFloat}
use wow_server_sim.Models.{TelemetryEntry, CastMetrics}
use wow_server_sim.Float.Ratio.{quotient_bounds}
use wow_server_sim.Mechanics.{or_computed}

pub record Casts : Type 0 where
  pub started : ℕ
  pub completed : ℕ
  pub interrupted : ℕ
  pub gcd_blocked : ℕ

module _ {R : Type 0} where
  -- One round of the loop.
  pub count_cast : Casts → TelemetryEntry R → Casts
  count_cast c e =
      if not (str_eq e.component "spellcast")
      then c
      else if str_eq e.message "Cast started"
      then record c { started = c.started + 1 }
      else if str_eq e.message "Cast completed"
      then record c { completed = c.completed + 1 }
      else if str_eq e.message "Cast interrupted"
      then record c { interrupted = c.interrupted + 1 }
      else if str_eq e.message "Cast blocked by GCD"
      then record c { gcd_blocked = c.gcd_blocked + 1 }
      else c

  pub count_casts : Casts → List (TelemetryEntry R) → Casts
  unfolding count_cast
  count_casts c [] = c
  count_casts c (e ∷ es) = count_casts (count_cast c e) es

abbrev pub no_casts : Casts
no_casts = record { started = 0; completed = 0; interrupted = 0; gcd_blocked = 0 }

module _ {R : Type 0} ⦃fl : Float R⦄ where
  open fl use {of_ℕ, true_div, div, lt, le}

  unfoldable pub aggregate_cast_metrics : List (TelemetryEntry R) → Option R → CastMetrics R
  unfolding count_casts
  aggregate_cast_metrics entries duration_seconds =
      let c = count_casts no_casts entries in
      let duration = or_computed duration_seconds entries in
      let attempts = c.started + c.gcd_blocked in
      record {
        casts_started = c.started;
        casts_completed = c.completed;
        casts_interrupted = c.interrupted;
        gcd_blocked = c.gcd_blocked;
        cast_success_rate = if ltb 0 c.started then true_div c.completed c.started else of_ℕ 0;
        gcd_block_rate = if ltb 0 attempts then true_div c.gcd_blocked attempts else of_ℕ 0;
        cast_rate_per_sec = if lt (of_ℕ 0) duration then div (of_ℕ c.started) duration else of_ℕ 0;
      }

module _ {R : Type 0} where
  abbrev pub says : String → TelemetryEntry R → Bool
  says text e = str_eq e.component "spellcast" && str_eq e.message text

  count_casts-tally :
      (c : Casts) (es : List (TelemetryEntry R))
      → ((count_casts c es).started ≡ c.started + tally (says "Cast started") es)
        × ((count_casts c es).completed ≡ c.completed + tally (says "Cast completed") es)
        × ((count_casts c es).interrupted ≡ c.interrupted + tally (says "Cast interrupted") es)
        × ((count_casts c es).gcd_blocked ≡ c.gcd_blocked + tally (says "Cast blocked by GCD") es)
  unfolding count_casts
  count_casts-tally c [] = omega arith
  count_casts-tally c (e ∷ es) = ground (
    arith,
    count_casts-tally (count_cast c e) es,
    distinct e.message "Cast started" "Cast completed" refl,
    distinct e.message "Cast started" "Cast interrupted" refl,
    distinct e.message "Cast started" "Cast blocked by GCD" refl,
    distinct e.message "Cast completed" "Cast interrupted" refl,
    distinct e.message "Cast completed" "Cast blocked by GCD" refl,
    distinct e.message "Cast interrupted" "Cast blocked by GCD" refl,
  )

  -- Each counter is the number of spellcast entries with its message.
  pub record CountsCasts (es : List (TelemetryEntry R)) (m : CastMetrics R) : Type 0 where
    pub started : m.casts_started ≡ tally (says "Cast started") es
    pub completed : m.casts_completed ≡ tally (says "Cast completed") es
    pub interrupted : m.casts_interrupted ≡ tally (says "Cast interrupted") es
    pub blocked : m.gcd_blocked ≡ tally (says "Cast blocked by GCD") es

module _ {R : Type 0} ⦃fl : Float R⦄ where
  open fl use {of_ℕ, le}

  -- The four counters are the numbers of spellcast entries with the four messages.
  pub aggregate_cast_metrics-CountsCasts :
      (es : List (TelemetryEntry R)) (duration : Option R)
      → CountsCasts es (aggregate_cast_metrics es duration)
  unfolding aggregate_cast_metrics
  aggregate_cast_metrics-CountsCasts es duration =
      let c = count_casts-tally no_casts es in
      record {
        started = omega (arith, c.0);
        completed = omega (arith, c.1);
        interrupted = omega (arith, c.2);
        blocked = omega (arith, c.3);
      }

  -- The share of attempts that the global cooldown blocks lies between 0 and 1, and where no more
  -- casts completed than started, so does the success rate.
  pub cast_rates_bounds :
      (es : List (TelemetryEntry R)) (duration : Option R)
      → IsFloat fl
      → tally (says "Cast completed") es ≤ tally (says "Cast started") es
      → let m = aggregate_cast_metrics es duration in
        (le (of_ℕ 0) m.gcd_block_rate ≡ true)
        × (le m.gcd_block_rate (of_ℕ 1) ≡ true)
        × (le (of_ℕ 0) m.cast_success_rate ≡ true)
        × (le m.cast_success_rate (of_ℕ 1) ≡ true)
  unfolding aggregate_cast_metrics
  cast_rates_bounds es duration laws h =
      let c = count_casts no_casts es in
      let t = count_casts-tally no_casts es in
      let b = quotient_bounds laws c.gcd_blocked (c.started + c.gcd_blocked) (omega arith) in
      let r = quotient_bounds laws c.completed c.started (omega (arith, t.0, t.1, h)) in
      (b.0, b.1, r.0, r.1)
