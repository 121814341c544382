-- ===== src/MockClient/Traffic.antt =====
-- The generation of actions in tools/wowsim/mock_client.py. What `random` returns for an action is
-- a parameter, a `Draw`.
use wow_server_sim.Common.{ℕ, ◌≤◌, ◌≡◌, refl, List, [], ◌∷◌, In}
use wow_server_sim.Float.{Float}

pub data ActionType : Type 0 where
  movement spell_cast combat : ActionType

pub data DamageType : Type 0 where
  physical magical : DamageType

-- The payloads: one constructor for each dictionary that is generated.
pub data Action (R : Type 0) : Type 0 where
  move : (session_id : ℕ) (x y z : R) → Action R
  cast_start : (session_id spell_id cast_time_ticks : ℕ) → Action R
  attack : (session_id target_session_id base_damage : ℕ) (damage_type : DamageType) → Action R

abbrev pub spell_ids : List ℕ
spell_ids = 100 ∷ 101 ∷ 102 ∷ 103 ∷ 200 ∷ 201 ∷ 300 ∷ []

abbrev pub cast_times : List ℕ
cast_times = 0 ∷ 0 ∷ 20 ∷ 30 ∷ 40 ∷ []

abbrev pub default_target_id : ℕ
default_target_id = 1000001

-- The random numbers of one action, each as far as it is used.
pub record Draw (R : Type 0) : Type 0 where
  pub kind : ActionType  -- random.choices with ACTION_WEIGHTS
  pub dx : R
  pub dy : R
  pub dz : R
  pub spell : ℕ  -- random.choice(SPELL_IDS)
  pub cast_time : ℕ  -- random.choice(CAST_TIMES)
  pub damage : ℕ  -- random.randint(10, 50)
  pub damage_type : DamageType

-- What `random` promises of them.
pub record IsDraw {R : Type 0} (d : Draw R) : Type 0 where
  pub spell_In : In d.spell spell_ids
  pub cast_time_In : In d.cast_time cast_times
  pub damage_range : (10 ≤ d.damage) × (d.damage ≤ 50)

module _ {R : Type 0} ⦃fl : Float R⦄ where
  open fl use {add}

  abbrev pub generate_movement_action : ℕ → (x y z : R) → Draw R → Action R
  generate_movement_action client_id x y z d = move client_id (add x d.dx) (add y d.dy) (add z d.dz)

  abbrev pub generate_spell_cast_action : ℕ → Draw R → Action R
  generate_spell_cast_action client_id d = cast_start client_id d.spell d.cast_time

  abbrev pub generate_combat_action : ℕ → (target_id : ℕ) → Draw R → Action R
  generate_combat_action client_id target_id d = attack client_id target_id d.damage d.damage_type

  unfoldable pub choose_action : ℕ → (x y z : R) → Draw R → Action R
  choose_action client_id x y z d = elim d.kind [
    | movement ↦ generate_movement_action client_id x y z d
    | spell_cast ↦ generate_spell_cast_action client_id d
    | combat ↦ generate_combat_action client_id default_target_id d
  ]

-- An action that the server accepts from the client `id`.
abbrev pub Valid : {R : Type 0} → ℕ → Action R → Type 0
Valid id (move s x y z) = s ≡ id
Valid id (cast_start s spell time) = (s ≡ id) × In spell spell_ids × In time cast_times
Valid id (attack s target damage type) =
    (s ≡ id) × (target ≡ default_target_id) × (10 ≤ damage) × (damage ≤ 50)

module _ {R : Type 0} ⦃fl : Float R⦄ where
  by_kind :
      (id : ℕ) (x y z : R) (d : Draw R) (kind : ActionType)
      → IsDraw d
      → d.kind ≡ kind
      → Valid id (choose_action id x y z d)
  unfolding choose_action
  by_kind id x y z d movement h e = rw e refl
  by_kind id x y z d spell_cast h e = rw e (refl, h.spell_In, h.cast_time_In)
  by_kind id x y z d combat h e = rw e (refl, refl, h.damage_range.0, h.damage_range.1)

  pub choose_action-Valid :
      (id : ℕ) (x y z : R) (d : Draw R) → IsDraw d → Valid id (choose_action id x y z d)
  choose_action-Valid id x y z d h = by_kind id x y z d d.kind h refl
