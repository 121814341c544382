-- ===== src/Mechanics/Combat/Conservation.antt =====
-- The per-entity statistics and the totals are two views of the same hits.
use wow_server_sim.Common.Sort.{
  sort_by, sort_by-IsSorted, IsSorted, length-sort_by, tally-sort_by, insert_by,
}
use wow_server_sim.Common.{
  ℕ, ◌+◌, ◌≤◌, ◌≡◌, refl, ◌∙◌, ap, sym, Bool, ◌&&◌, Option, List, [], ◌∷◌, map, ◌==◌, if◌then◌else◌,
  length, tally, arith, sum_by,
}
use wow_server_sim.Float.{Float}
use wow_server_sim.Models.{TelemetryEntry, EntityDps, CombatMetrics}
use wow_server_sim.Mechanics.Combat.{
  Dealer, add_hit, add_id, is_hit, attacker_of, damage_of, collect, more_damage, compute_entity_dps,
  Fights, no_fights, count_fight, count_fights, aggregate_combat_metrics,
}

-- The two tables at any point of the loops: the same ids in the same order, the same totals.
pub record Agree (dealers : List Dealer) (f : Fights) : Type 0 where
  pub ids : map (λ x. x.id) dealers ≡ f.attackers
  pub damage : sum_by (λ (x : Dealer). x.damage) dealers ≡ f.damage
  pub attacks : sum_by (λ (x : Dealer). x.attacks) dealers ≡ f.attacks

ids-add_hit :
    (a d : ℕ) (dealers : List Dealer)
    → map (λ x. x.id) (add_hit a d dealers) ≡ add_id a (map (λ x. x.id) dealers)
unfolding add_hit add_id
ids-add_hit a d [] = refl
ids-add_hit a d (x ∷ xs) = ground (arith, ids-add_hit a d xs)

sums-add_hit :
    (a d : ℕ) (dealers : List Dealer)
    → (sum_by (λ (x : Dealer). x.damage) (add_hit a d dealers)
        ≡ sum_by (λ (x : Dealer). x.damage) dealers + d)
      × (sum_by (λ (x : Dealer). x.attacks) (add_hit a d dealers)
          ≡ sum_by (λ (x : Dealer). x.attacks) dealers + 1)
unfolding add_hit
sums-add_hit a d [] = omega arith
sums-add_hit a d (x ∷ xs) = ground (arith, sums-add_hit a d xs)

module _ {R : Type 0} where
  Agree-round :
      (dealers : List Dealer) (f : Fights) (e : TelemetryEntry R)
      → Agree dealers f
      → Agree
          (if is_hit e then add_hit (attacker_of e) (damage_of e) dealers else dealers)
          (count_fight f e)
  unfolding count_fight is_hit
  Agree-round dealers f e h = ground (
    arith,
    ids-add_hit (attacker_of e) (damage_of e) dealers,
    sums-add_hit (attacker_of e) (damage_of e) dealers,
  )

  Agree-loops :
      (es : List (TelemetryEntry R)) (dealers : List Dealer) (f : Fights)
      → Agree dealers f
      → Agree (collect dealers es) (count_fights f es)
  unfolding collect count_fights
  Agree-loops [] dealers f h = h
  Agree-loops (e ∷ es) dealers f h = Agree-loops es _ _ (Agree-round dealers f e h)

-- What a dealer's hits add up to, and how often its id stands in the table.
abbrev pub share : ℕ → Dealer → ℕ
share i x = if x.id == i then x.damage else 0

share-add_hit :
    (i a d : ℕ) (dealers : List Dealer)
    → sum_by (share i) (add_hit a d dealers) ≡ sum_by (share i) dealers + (if a == i then d else 0)
unfolding add_hit
share-add_hit i a d [] = ground arith
share-add_hit i a d (x ∷ xs) = ground (arith, share-add_hit i a d xs)

abbrev named : ℕ → Dealer → Bool
named i x = x.id == i

named-add_hit :
    (i a d : ℕ) (dealers : List Dealer)
    → tally (named i) (add_hit a d dealers)
      ≡ (if (a == i) && (tally (named i) dealers == 0) then 1 else tally (named i) dealers)
unfolding add_hit
named-add_hit i a d [] = ground arith
named-add_hit i a d (x ∷ xs) = ground (arith, named-add_hit i a d xs)

module _ {R : Type 0} where
  abbrev pub hit_share : ℕ → TelemetryEntry R → ℕ
  hit_share i e = if is_hit e && attacker_of e == i then damage_of e else 0

  share-collect :
      (i : ℕ) (es : List (TelemetryEntry R)) (dealers : List Dealer)
      → sum_by (share i) (collect dealers es) ≡ sum_by (share i) dealers + sum_by (hit_share i) es
  unfolding collect
  share-collect i [] dealers = omega arith
  share-collect i (e ∷ es) dealers = ground (
    arith,
    share-collect i es
        (if is_hit e then add_hit (attacker_of e) (damage_of e) dealers else dealers),
    share-add_hit i (attacker_of e) (damage_of e) dealers,
  )

  share-collect_all :
      (i : ℕ) (es : List (TelemetryEntry R))
      → sum_by (share i) (collect [] es) ≡ sum_by (hit_share i) es
  share-collect_all i es = omega (arith, share-collect i es [])

  named-collect :
      (i : ℕ) (es : List (TelemetryEntry R)) (dealers : List Dealer)
      → tally (named i) dealers ≤ 1
      → tally (named i) (collect dealers es) ≤ 1
  unfolding collect
  named-collect i [] dealers h = h
  named-collect i (e ∷ es) dealers h =
      named-collect i es _ (ground (arith, named-add_hit i (attacker_of e) (damage_of e) dealers))

module _ {A : Type 0} (le : A → A → Bool) (f : A → ℕ) where
  sum_by-insert_by : (x : A) (ys : List A) → sum_by f (insert_by le x ys) ≡ f x + sum_by f ys
  unfolding insert_by
  sum_by-insert_by x [] = refl
  sum_by-insert_by x (y ∷ ys) = ground (arith, sum_by-insert_by x ys)

  sum_by-sort_by : (xs : List A) → sum_by f (sort_by le xs) ≡ sum_by f xs
  unfolding sort_by
  sum_by-sort_by [] = refl
  sum_by-sort_by (x ∷ xs) = omega (arith, sum_by-insert_by x (sort_by le xs), sum_by-sort_by xs)

module _ {A B : Type 0} (g : A → B) where
  sum_by-map : (f : B → ℕ) (xs : List A) → sum_by f (map g xs) ≡ sum_by (λ x. f (g x)) xs
  sum_by-map f [] = refl
  sum_by-map f (x ∷ xs) = omega (arith, sum_by-map f xs)

  tally-map : (p : B → Bool) (xs : List A) → tally p (map g xs) ≡ tally (λ x. p (g x)) xs
  tally-map p [] = refl
  tally-map p (x ∷ xs) = omega (arith, tally-map p xs)

  length-map : (xs : List A) → length (map g xs) ≡ length xs
  length-map [] = refl
  length-map (x ∷ xs) = omega (arith, length-map xs)

module _ {R : Type 0} ⦃fl : Float R⦄ where
  -- How the per-entity list answers to the entries and to the totals.
  pub record Accounts (es : List (TelemetryEntry R)) (per : List (EntityDps R))
      (totals : CombatMetrics R) : Type 0 where
    pub damage : sum_by (λ x. x.total_damage) per ≡ totals.total_damage
    pub attacks : sum_by (λ x. x.attack_count) per ≡ totals.total_attacks
    pub entities : length per ≡ totals.active_entities
    pub once : (i : ℕ) → tally (λ x. x.entity_id == i) per ≤ 1
    pub shares :
        (i : ℕ)
        → sum_by (λ x. if x.entity_id == i then x.total_damage else 0) per ≡ sum_by (hit_share i) es
    pub sorted : IsSorted more_damage per

  -- Whatever the entries and the duration, the list that `compute_entity_dps` returns has each
  -- attacker once, with the damage of exactly its own hits, in falling order of damage; and its
  -- sums and its length are the totals that `aggregate_combat_metrics` computes on its own.
  pub compute_entity_dps-Accounts :
      (es : List (TelemetryEntry R)) (duration : Option R)
      → Accounts es (compute_entity_dps es duration) (aggregate_combat_metrics es duration)
  unfolding compute_entity_dps aggregate_combat_metrics
  compute_entity_dps-Accounts es duration =
      let dealers = collect [] es in
      let agree =
        Agree-loops es [] no_fights (record { ids = refl; damage = refl; attacks = refl }) in
      record {
        damage = sum_by-sort_by more_damage _ _ ∙ sum_by-map _ _ dealers ∙ agree.damage;
        attacks = sum_by-sort_by more_damage _ _ ∙ sum_by-map _ _ dealers ∙ agree.attacks;
        entities =
            length-sort_by more_damage _
            ∙ length-map _ dealers
            ∙ sym (length-map (λ (x : Dealer). x.id) dealers)
            ∙ ap length agree.ids;
        once = λ i. rw (tally-sort_by more_damage, tally-map) (named-collect i es [] (omega arith));
        shares =
            λ i. sum_by-sort_by more_damage _ _ ∙ sum_by-map _ _ dealers ∙ share-collect_all i es;
        sorted = sort_by-IsSorted more_damage (λ x y h. ground arith) (λ x y z h k. ground arith) _;
      }
