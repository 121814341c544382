-- ===== src/Common/Lists.antt =====
-- Lists measured and indexed by native numbers, with the Boolean searches and filters that
-- comprehensions, `any`, `all` and `sum(1 for ...)` stand for.
use Prim.Native.Nat.{ℕ, zero, suc, ◌+◌, ◌-◌, ◌≤◌}
use mathlib.Core.Path.{◌≡◌, refl, ap}
use mathlib.Core.Bool.{Bool, true, false, ◌&&◌, ◌||◌}
use mathlib.Core.Option.{Option, none, some}
use mathlib.Core.List.{List, [], ◌∷◌, ◌++◌}
use native.Mathlib.Omega.{arith}
use mathlib.Core.Logic.{◌⊎◌, inl, inr}
use wow_server_sim.Common.Logic.{if◌then◌else◌, ltb, Bool-cases}

module _ {ℓ} {A : Type ℓ} where
  abbrev pub length : List A → ℕ
  length [] = 0
  length (x ∷ xs) = suc (length xs)

  abbrev pub get_elem? : List A → ℕ → Option A
  get_elem? [] i = none
  get_elem? (x ∷ xs) zero = some x
  get_elem? (x ∷ xs) (suc i) = get_elem? xs i

  abbrev pub get_last? : List A → Option A
  get_last? [] = none
  get_last? (x ∷ []) = some x
  get_last? (x ∷ y ∷ xs) = get_last? (y ∷ xs)

  abbrev pub take : ℕ → List A → List A
  take zero xs = []
  take (suc n) [] = []
  take (suc n) (x ∷ xs) = x ∷ take n xs

  abbrev pub drop : ℕ → List A → List A
  drop zero xs = xs
  drop (suc n) [] = []
  drop (suc n) (x ∷ xs) = drop n xs

  -- `xs[-n:] if len(xs) > n else xs`, where `xs[-0:]` is the whole list.
  abbrev pub take_last : ℕ → List A → List A
  take_last zero xs = xs
  take_last (suc n) xs = if ltb (suc n) (length xs) then drop (length xs - suc n) xs else xs

  abbrev pub select : (A → Bool) → List A → List A
  select p [] = []
  select p (x ∷ xs) = if p x then x ∷ select p xs else select p xs

  abbrev pub any : (A → Bool) → List A → Bool
  any p [] = false
  any p (x ∷ xs) = p x || any p xs

  abbrev pub all : (A → Bool) → List A → Bool
  all p [] = true
  all p (x ∷ xs) = p x && all p xs

  -- `next((x for x in xs if p(x)), None)`
  abbrev pub first : (A → Bool) → List A → Option A
  first p [] = none
  first p (x ∷ xs) = if p x then some x else first p xs

  -- `sum(1 for x in xs if p(x))`
  abbrev pub tally : (A → Bool) → List A → ℕ
  tally p [] = 0
  tally p (x ∷ xs) = (if p x then 1 else 0) + tally p xs

  abbrev pub sum_by : (A → ℕ) → List A → ℕ
  sum_by f [] = 0
  sum_by f (x ∷ xs) = f x + sum_by f xs

  abbrev pub All {κ} : (A → Type κ) → List A → Type κ
  All P [] = Unit
  All P (x ∷ xs) = P x × All P xs

  -- `x` stands in the list, at a position that the proof keeps.
  abbrev pub In : A → List A → Type ℓ
  In a xs = (i : ℕ) × (get_elem? xs i ≡ some a)

module _ {ℓ} {A : Type ℓ} where
  pub length-append : (xs ys : List A) → length (xs ++ ys) ≡ length xs + length ys
  length-append [] ys = omega arith
  length-append (x ∷ xs) ys = omega (arith, length-append xs ys)

  pub length-drop : (n : ℕ) (xs : List A) → length (drop n xs) ≡ length xs - n
  length-drop zero xs = omega arith
  length-drop (suc n) [] = omega arith
  length-drop (suc n) (x ∷ xs) = omega (arith, length-drop n xs)

  pub length-take-le : (n : ℕ) (xs : List A) → length (take n xs) ≤ n
  length-take-le zero xs = omega arith
  length-take-le (suc n) [] = omega arith
  length-take-le (suc n) (x ∷ xs) = omega (arith, length-take-le n xs)

  pub take-drop : (n : ℕ) (xs : List A) → take n xs ++ drop n xs ≡ xs
  take-drop zero xs = refl
  take-drop (suc n) [] = refl
  take-drop (suc n) (x ∷ xs) = ap (λ l. x ∷ l) (take-drop n xs)

  drop-append : (k : ℕ) (xs ys : List A) → k ≤ length xs → drop k (xs ++ ys) ≡ drop k xs ++ ys
  drop-append zero xs ys h = refl
  drop-append (suc k) [] ys h = absurd (omega arith)
  drop-append (suc k) (x ∷ xs) ys h = drop-append k xs ys (omega arith)

  -- The newest items have all of a tail that is not longer, with some of the items before it.
  pub take_last-append :
      (n : ℕ) (xs ys : List A)
      → length ys ≤ suc n
      → (left : List A) × (pre : List A) × (left ++ pre ≡ xs)
        × (take_last (suc n) (xs ++ ys) ≡ pre ++ ys)
  take_last-append n xs ys h =
      let k = length (xs ++ ys) - suc n in
      elim (Bool-cases (ltb (suc n) (length (xs ++ ys)))) [
        | inl e ↦ (
          take k xs,
          drop k xs,
          take-drop k xs,
          rw e (drop-append k xs ys (ground (arith, length-append xs ys))),
        )
        | inr e ↦ ([], xs, refl, rw e refl)
      ]

  pub take_last_split :
      (n : ℕ) (xs : List A) → (left : List A) × (left ++ take_last (suc n) xs ≡ xs)
  take_last_split n xs = elim (Bool-cases (ltb (suc n) (length xs))) [
    | inl e ↦ (take (length xs - suc n) xs, rw e (take-drop (length xs - suc n) xs))
    | inr e ↦ ([], rw e refl)
  ]

  pub length-take_last-le : (n : ℕ) (xs : List A) → length (take_last (suc n) xs) ≤ suc n
  length-take_last-le n xs = ground (arith, length-drop (length xs - suc n) xs)

  pub length-select : (p : A → Bool) (xs : List A) → length (select p xs) ≡ tally p xs
  length-select p [] = refl
  length-select p (x ∷ xs) = ground (arith, length-select p xs)

  pub tally-le-length : (p : A → Bool) (xs : List A) → tally p xs ≤ length xs
  tally-le-length p [] = omega arith
  tally-le-length p (x ∷ xs) = ground (arith, tally-le-length p xs)

  pub tally-append : (p : A → Bool) (xs ys : List A) → tally p (xs ++ ys) ≡ tally p xs + tally p ys
  tally-append p [] ys = omega arith
  tally-append p (x ∷ xs) ys = omega (arith, tally-append p xs ys)

  pub select-append :
      (p : A → Bool) (xs ys : List A) → select p (xs ++ ys) ≡ select p xs ++ select p ys
  select-append p [] ys = refl
  select-append p (x ∷ xs) ys = ground (arith, select-append p xs ys)

  pub All-select : (p : A → Bool) (xs : List A) → All (λ x. p x ≡ true) (select p xs)
  All-select p [] = tt
  All-select p (x ∷ xs) = ground (arith, All-select p xs)

  pub select-select :
      (p q : A → Bool) (xs : List A) → select p (select q xs) ≡ select (λ x. q x && p x) xs
  select-select p q [] = refl
  select-select p q (x ∷ xs) = ground (arith, select-select p q xs)

  pub select-all : (xs : List A) → select (λ x. true) xs ≡ xs
  select-all [] = refl
  select-all (x ∷ xs) = rw (select-all xs)

  pub any-append : (p : A → Bool) (xs ys : List A) → any p (xs ++ ys) ≡ (any p xs || any p ys)
  any-append p [] ys = refl
  any-append p (x ∷ xs) ys = ground (arith, any-append p xs ys)

  pub any-eq-tally : (p : A → Bool) (xs : List A) → any p xs ≡ ltb 0 (tally p xs)
  any-eq-tally p [] = refl
  any-eq-tally p (x ∷ xs) = ground (arith, any-eq-tally p xs)

  -- No item passes the test, or one that stands in the list does.
  pub any_cases :
      (p : A → Bool) (xs : List A)
      → (any p xs ≡ false) ⊎ ((a : A) × In a xs × (p a ≡ true) × (any p xs ≡ true))
  any_cases p [] = inl refl
  any_cases p (x ∷ xs) = elim (Bool-cases (p x)) [
    | inl h ↦ inr (x, (zero, refl), h, rw h refl)
    | inr h ↦ elim (any_cases p xs) [
      | inl none_left ↦ inl (rw h none_left)
      | inr (a, (i, e), pa, found) ↦ inr (a, (suc i, e), pa, rw h found)
    ]
  ]

  pub any-In : (p : A → Bool) (xs : List A) (a : A) → In a xs → p a ≡ true → any p xs ≡ true
  any-In p [] a (i, e) h = absurd cc
  any-In p (x ∷ xs) a (zero, e) h = ground (arith, h, e)
  any-In p (x ∷ xs) a (suc i, e) h = ground (arith, any-In p xs a (i, e) h)

  abbrev pub is_nil : List A → Bool
  is_nil [] = true
  is_nil (x ∷ xs) = false

-- A choice between the two items at the head is one of the three.
pub In-choice {ℓ} :
    {A : Type ℓ} (t : Bool) (b x c : A) (xs : List A)
    → In c ((if t then x else b) ∷ xs)
    → In c (b ∷ x ∷ xs)
In-choice true b x c xs (i, e) = (suc i, e)
In-choice false b x c xs (zero, e) = (zero, e)
In-choice false b x c xs (suc i, e) = (suc (suc i), e)

pub All-snoc :
    {A : Type 0} (P : A → Type 0) (xs : List A) (x : A) → All P xs → P x → All P (xs ++ x ∷ [])
All-snoc P [] x h p = (p, tt)
All-snoc P (y ∷ xs) x h p = (h.0, All-snoc P xs x h.1 p)

pub length-snoc : {A : Type 0} (xs : List A) (x : A) → length (xs ++ x ∷ []) ≡ length xs + 1
length-snoc [] x = refl
length-snoc (y ∷ xs) x = omega (arith, length-snoc xs x)
