-- ===== src/Models/Mechanics.antt =====
-- Game mechanic statistics.
use wow_server_sim.Common.{ℕ, List}

pub record CastMetrics (R : Type 0) : Type 0 where
  pub casts_started : ℕ
  pub casts_completed : ℕ
  pub casts_interrupted : ℕ
  pub gcd_blocked : ℕ
  pub cast_success_rate : R
  pub gcd_block_rate : R
  pub cast_rate_per_sec : R

pub record EntityDps (R : Type 0) : Type 0 where
  pub entity_id : ℕ
  pub total_damage : ℕ
  pub dps : R
  pub attack_count : ℕ

pub record CombatMetrics (R : Type 0) : Type 0 where
  pub total_damage : ℕ
  pub total_attacks : ℕ
  pub kills : ℕ
  pub active_entities : ℕ
  pub overall_dps : R

pub record GameMechanicSummary (R : Type 0) : Type 0 where
  pub cast_metrics : CastMetrics R
  pub combat_metrics : CombatMetrics R
  pub top_damage_dealers : List (EntityDps R)
  pub duration_seconds : R
