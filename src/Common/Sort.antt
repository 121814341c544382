-- ===== src/Common/Sort.antt =====
-- The stable sort of `list.sort` and `sorted`, as insertion sort: under a total order the result
-- is the only stable one.
use Prim.Native.Nat.{suc}
use mathlib.Core.Path.{◌≡◌, refl}
use mathlib.Core.Bool.{Bool, true, false}
use mathlib.Core.List.{List, [], ◌∷◌, Perm}
use mathlib.Core.List.Perm
use mathlib.Core.Logic.{inl, inr}
use native.Mathlib.Omega.{arith}
use wow_server_sim.Common.Logic.{if◌then◌else◌, Bool-cases}
use wow_server_sim.Common.Lists.{All, tally, length}

module _ {A : Type 0} (le : A → A → Bool) where
  unfoldable pub insert_by : A → List A → List A
  insert_by x [] = x ∷ []
  insert_by x (y ∷ ys) = if le x y then x ∷ y ∷ ys else y ∷ insert_by x ys

  unfoldable pub sort_by : List A → List A
  unfolding insert_by
  sort_by [] = []
  sort_by (x ∷ xs) = insert_by x (sort_by xs)

  abbrev pub IsSorted : List A → Type 0
  IsSorted [] = Unit
  IsSorted (x ∷ xs) = All (λ y. le x y ≡ true) xs × IsSorted xs

  insert_by-perm : (x : A) (ys : List A) → Perm (insert_by x ys) (x ∷ ys)
  unfolding insert_by
  insert_by-perm x [] = Perm.refl _
  insert_by-perm x (y ∷ ys) = elim (Bool-cases (le x y)) [
    | inl h ↦ rw h (Perm.refl _)
    | inr h ↦ rw h (Perm.trans (Perm.cons y (insert_by-perm x ys)) (Perm.swap x y ys))
  ]

  pub sort_by-perm : (xs : List A) → Perm (sort_by xs) xs
  unfolding sort_by
  sort_by-perm [] = Perm.refl _
  sort_by-perm (x ∷ xs) = Perm.trans (insert_by-perm x (sort_by xs)) (Perm.cons x (sort_by-perm xs))

  pub tally-insert_by :
      (p : A → Bool) (x : A) (ys : List A) → tally p (insert_by x ys) ≡ tally p (x ∷ ys)
  unfolding insert_by
  tally-insert_by p x [] = refl
  tally-insert_by p x (y ∷ ys) = ground (arith, tally-insert_by p x ys)

  pub tally-sort_by : (p : A → Bool) (xs : List A) → tally p (sort_by xs) ≡ tally p xs
  unfolding sort_by
  tally-sort_by p [] = refl
  tally-sort_by p (x ∷ xs) = omega (arith, tally-insert_by p x (sort_by xs), tally-sort_by p xs)

  length-insert_by : (x : A) (ys : List A) → length (insert_by x ys) ≡ suc (length ys)
  unfolding insert_by
  length-insert_by x [] = refl
  length-insert_by x (y ∷ ys) = ground (arith, length-insert_by x ys)

  pub length-sort_by : (xs : List A) → length (sort_by xs) ≡ length xs
  unfolding sort_by
  length-sort_by [] = refl
  length-sort_by (x ∷ xs) = omega (arith, length-insert_by x (sort_by xs), length-sort_by xs)

  module _ {κ} (P : A → Type κ) where
    All-insert_by : (x : A) (ys : List A) → P x → All P ys → All P (insert_by x ys)
    unfolding insert_by
    All-insert_by x [] h hs = (h, tt)
    All-insert_by x (y ∷ ys) h hs = elim (Bool-cases (le x y)) [
      | inl e ↦ rw e (h, hs)
      | inr e ↦ rw e (hs.0, All-insert_by x ys h hs.1)
    ]

    pub All-sort_by : (xs : List A) → All P xs → All P (sort_by xs)
    unfolding sort_by
    All-sort_by [] h = tt
    All-sort_by (x ∷ xs) h = All-insert_by x (sort_by xs) h.0 (All-sort_by xs h.1)

  module _ (le_total : (x y : A) → le x y ≡ false → le y x ≡ true)
      (le_trans : (x y z : A) → le x y ≡ true → le y z ≡ true → le x z ≡ true) where
    All-le_trans :
        (x y : A) (ys : List A)
        → le x y ≡ true
        → All (λ z. le y z ≡ true) ys
        → All (λ z. le x z ≡ true) ys
    All-le_trans x y [] h hs = tt
    All-le_trans x y (z ∷ ys) h hs = (le_trans x y z h hs.0, All-le_trans x y ys h hs.1)

    insert_by-IsSorted : (x : A) (ys : List A) → IsSorted ys → IsSorted (insert_by x ys)
    unfolding insert_by
    insert_by-IsSorted x [] h = (tt, tt)
    insert_by-IsSorted x (y ∷ ys) h = elim (Bool-cases (le x y)) [
      | inl e ↦ rw e ((e, All-le_trans x y ys e h.0), h)
      | inr e ↦ rw e (
        All-insert_by (λ z. le y z ≡ true) x ys (le_total x y e) h.0,
        insert_by-IsSorted x ys h.1,
      )
    ]

    pub sort_by-IsSorted : (xs : List A) → IsSorted (sort_by xs)
    unfolding sort_by
    sort_by-IsSorted [] = tt
    sort_by-IsSorted (x ∷ xs) = insert_by-IsSorted x (sort_by xs) (sort_by-IsSorted xs)
