-- ===== src/Mechanics/Combat.antt =====
-- `compute_entity_dps` and `aggregate_combat_metrics` of tools/wowsim/game_metrics.py.
pub mod Conservation
use wow_server_sim.Common.Sort.{sort_by}
use wow_server_sim.Common.{
  ℕ, suc, ◌+◌, Bool, true, false, not, ◌&&◌, Option, none, some, List, [], ◌∷◌, map, str_eq, leb,
  ◌==◌, if◌then◌else◌, length,
}
use wow_server_sim.Float.{Float}
use wow_server_sim.Models.{TelemetryEntry, EntityDps, CombatMetrics}
use wow_server_sim.Logs.Entries.{get_or}
use wow_server_sim.Mechanics.{or_computed}

-- An attacker with its damage and its attacks: the two dictionaries `damage_by_entity` and
-- `attacks_by_entity` have the same keys, in the order of their first use.
pub record Dealer : Type 0 where
  pub id : ℕ
  pub damage : ℕ
  pub attacks : ℕ

-- `damage_by_entity[attacker] += damage` and `attacks_by_entity[attacker] += 1`.
pub add_hit : (attacker damage : ℕ) → List Dealer → List Dealer
add_hit a d [] = record { id = a; damage = d; attacks = 1 } ∷ []
add_hit a d (x ∷ xs) =
    if x.id == a
    then record x { damage = x.damage + d; attacks = x.attacks + 1 } ∷ xs
    else x ∷ add_hit a d xs

pub add_id : ℕ → List ℕ → List ℕ
add_id i [] = i ∷ []
add_id i (j ∷ ids) = if j == i then j ∷ ids else j ∷ add_id i ids

module _ {R : Type 0} where
  unfoldable pub is_hit : TelemetryEntry R → Bool
  is_hit e = str_eq e.component "combat" && str_eq e.message "Damage dealt"

  abbrev pub attacker_of : TelemetryEntry R → ℕ
  attacker_of e = get_or e.payload.attacker_id 0

  abbrev pub damage_of : TelemetryEntry R → ℕ
  damage_of e = get_or e.payload.actual_damage 0

  pub collect : List Dealer → List (TelemetryEntry R) → List Dealer
  unfolding add_hit
  collect dealers [] = dealers
  collect dealers (e ∷ es) =
      collect (if is_hit e then add_hit (attacker_of e) (damage_of e) dealers else dealers) es

module _ {R : Type 0} where
  -- `sort(key=total_damage, reverse=True)` keeps the order of equal keys.
  abbrev pub more_damage : EntityDps R → EntityDps R → Bool
  more_damage x y = leb y.total_damage x.total_damage

module _ {R : Type 0} ⦃fl : Float R⦄ where
  open fl use {of_ℕ, div, lt}

  pub to_entity_dps : R → Dealer → EntityDps R
  to_entity_dps duration x = record {
    entity_id = x.id;
    total_damage = x.damage;
    dps = if lt (of_ℕ 0) duration then div (of_ℕ x.damage) duration else of_ℕ 0;
    attack_count = x.attacks;
  }

  unfoldable pub compute_entity_dps : List (TelemetryEntry R) → Option R → List (EntityDps R)
  unfolding collect to_entity_dps
  compute_entity_dps entries duration_seconds =
      let duration = or_computed duration_seconds entries in
      sort_by more_damage (map (to_entity_dps duration) (collect [] entries))

pub record Fights : Type 0 where
  pub damage : ℕ
  pub attacks : ℕ
  pub kills : ℕ
  pub attackers : List ℕ

abbrev pub no_fights : Fights
no_fights = record { damage = 0; attacks = 0; kills = 0; attackers = [] }

module _ {R : Type 0} where
  -- One round of the loop of `aggregate_combat_metrics`.
  pub count_fight : Fights → TelemetryEntry R → Fights
  unfolding add_id
  count_fight f e =
      if not (str_eq e.component "combat")
      then f
      else if str_eq e.message "Damage dealt"
      then record f {
        damage = f.damage + damage_of e;
        attacks = f.attacks + 1;
        attackers = add_id (attacker_of e) f.attackers;
      }
      else if str_eq e.message "Entity killed"
      then record f { kills = f.kills + 1 }
      else f

  pub count_fights : Fights → List (TelemetryEntry R) → Fights
  unfolding count_fight
  count_fights f [] = f
  count_fights f (e ∷ es) = count_fights (count_fight f e) es

module _ {R : Type 0} ⦃fl : Float R⦄ where
  open fl use {of_ℕ, div, lt}

  unfoldable pub aggregate_combat_metrics : List (TelemetryEntry R) → Option R → CombatMetrics R
  unfolding count_fights
  aggregate_combat_metrics entries duration_seconds =
      let f = count_fights no_fights entries in
      let duration = or_computed duration_seconds entries in
      record {
        total_damage = f.damage;
        total_attacks = f.attacks;
        kills = f.kills;
        active_entities = length f.attackers;
        overall_dps = if lt (of_ℕ 0) duration then div (of_ℕ f.damage) duration else of_ℕ 0;
      }
