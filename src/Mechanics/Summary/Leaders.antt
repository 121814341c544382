-- ===== src/Mechanics/Summary/Leaders.antt =====
-- The leaders of a mechanics summary among all attackers.
use wow_server_sim.Common.{
  ℕ, zero, suc, ◌≤◌, ◌≡◌, refl, ◌⊎◌, inl, inr, arith, true, Bool, some, List, [], ◌∷◌, ◌++◌, take,
  drop, length, All, length-take-le, take-drop, leb, sym,
}
use mathlib.Core.Path.{subst}
use wow_server_sim.Common.Sort.{IsSorted}
use wow_server_sim.Float.{Float}
use wow_server_sim.Models.{TelemetryEntry, EntityDps}
use wow_server_sim.Mechanics.{compute_duration_seconds}
use wow_server_sim.Mechanics.Combat.{more_damage, compute_entity_dps}
use wow_server_sim.Mechanics.Combat.Conservation.{compute_entity_dps-Accounts}
use wow_server_sim.Mechanics.Summary.{aggregate_game_mechanics}

module _ {A : Type 0} (le : A → A → Bool) where
  All-right : (P : A → Type 0) (xs ys : List A) → All P (xs ++ ys) → All P ys
  All-right P [] ys h = h
  All-right P (x ∷ xs) ys h = All-right P xs ys h.1

  IsSorted-split :
      (xs ys : List A) → IsSorted le (xs ++ ys) → All (λ x. All (λ y. le x y ≡ true) ys) xs
  IsSorted-split [] ys h = tt
  IsSorted-split (x ∷ xs) ys h = (All-right _ xs ys h.0, IsSorted-split xs ys h.1)

take-full : {A : Type 0} (n : ℕ) (xs : List A) → (length (take n xs) ≡ n) ⊎ (drop n xs ≡ [])
take-full zero xs = inl refl
take-full (suc n) [] = inr refl
take-full (suc n) (x ∷ xs) = ground (arith, take-full n xs)

module _ {R : Type 0} ⦃fl : Float R⦄ where
  -- The leaders are the head of the full list: `n` attackers, or all of them where there are no
  -- more; and each of them dealt at least the damage of each attacker left out.
  pub record Leaders (n : ℕ) (every : List (EntityDps R)) (top : List (EntityDps R)) : Type 0 where
    pub few : length top ≤ n
    pub others : List (EntityDps R)
    pub full : (length top ≡ n) ⊎ (others ≡ [])
    pub parts : top ++ others ≡ every
    pub ahead : All (λ x. All (λ y. leb y.total_damage x.total_damage ≡ true) others) top

  -- The damage dealers of a summary are the first of the list over the summary's duration: `n` of
  -- them, or all where there are no more, and none left out dealt more than any of them.
  pub aggregate_game_mechanics-Leaders :
      (es : List (TelemetryEntry R)) (n : ℕ)
      → let summary = aggregate_game_mechanics es n in
        Leaders n (compute_entity_dps es (some summary.duration_seconds)) summary.top_damage_dealers
  unfolding aggregate_game_mechanics
  aggregate_game_mechanics-Leaders es n =
      let every = compute_entity_dps es (some (compute_duration_seconds es)) in
      let sorted = (compute_entity_dps-Accounts es (some (compute_duration_seconds es))).sorted in
      record {
        few = length-take-le n every;
        others = drop n every;
        full = take-full n every;
        parts = take-drop n every;
        ahead =
            IsSorted-split more_damage (take n every) (drop n every)
              (subst (IsSorted more_damage) (sym (take-drop n every)) sorted);
      }
