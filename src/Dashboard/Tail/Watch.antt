-- ===== src/Dashboard/Tail/Watch.antt =====
-- What `filter_new_entries` makes of a log that has grown.
use wow_server_sim.Common.{
  ℕ, zero, suc, ◌-◌, length, drop, Bool-cases, inl, inr, ◌≤◌, ◌<◌, ◌≡◌, refl, ◌⊎◌, ap, ◌∙◌, Bool,
  true, Option, none, some, List, [], ◌∷◌, ◌++◌, select, take_last, get_last?, ltb, leb, All, arith,
}
use wow_server_sim.Common.Sort.{IsSorted}
use wow_server_sim.Models.{TelemetryEntry}
use wow_server_sim.Dashboard.Tail.{watermark, newer, filter_new_entries}

module _ {R : Type 0} where
  abbrev pub earlier : TelemetryEntry R → TelemetryEntry R → Bool
  earlier x y = leb x.timestamp y.timestamp

  -- The last timestamp of a batch, or the one before it.
  abbrev pub latest : ℕ → List (TelemetryEntry R) → ℕ
  latest t [] = t
  latest t (x ∷ xs) = latest x.timestamp xs

  abbrev pub Before : ℕ → List (TelemetryEntry R) → Type 0
  Before t xs = All (λ x. x.timestamp ≤ t) xs

  newer-append :
      (t : ℕ) (xs ys : List (TelemetryEntry R))
      → Before t xs
      → All (λ y. t < y.timestamp) ys
      → select (λ x. ltb t x.timestamp) (xs ++ ys) ≡ ys
  newer-append t [] [] h k = refl
  newer-append t [] (y ∷ ys) h k = ground (arith, newer-append t [] ys tt k.1, k.0)
  newer-append t (x ∷ xs) ys h k = ground (arith, newer-append t xs ys h.1 k, h.0)

  watermark-latest_head :
      (m : Option ℕ) (t : ℕ) (x : TelemetryEntry R) (xs : List (TelemetryEntry R))
      → watermark (x ∷ xs) m ≡ some (latest t (x ∷ xs))
  watermark-latest_head m t x [] = refl
  watermark-latest_head m t x (y ∷ xs) = watermark-latest_head m t y xs

  watermark-latest :
      (t : ℕ) (xs : List (TelemetryEntry R)) → watermark xs (some t) ≡ some (latest t xs)
  watermark-latest t [] = refl
  watermark-latest t (x ∷ xs) = watermark-latest_head (some t) t x xs

  All-later :
      (x : TelemetryEntry R) (xs : List (TelemetryEntry R))
      → All (λ y. earlier x y ≡ true) xs
      → All (λ y. x.timestamp ≤ y.timestamp) xs
  All-later x [] h = tt
  All-later x (y ∷ xs) h = (ground (arith, h.0), All-later x xs h.1)

  pub All-weaken :
      (t : ℕ) (xs : List (TelemetryEntry R))
      → All (λ x. t < x.timestamp) xs
      → All (λ x. t ≤ x.timestamp) xs
  All-weaken t [] h = tt
  All-weaken t (x ∷ xs) h = (omega (arith, h.0), All-weaken t xs h.1)

  pub Before-mono : (s t : ℕ) (xs : List (TelemetryEntry R)) → s ≤ t → Before s xs → Before t xs
  Before-mono s t [] h k = tt
  Before-mono s t (x ∷ xs) h k = (omega (arith, k.0), Before-mono s t xs h k.1)

  pub Before-append :
      (t : ℕ) (xs ys : List (TelemetryEntry R)) → Before t xs → Before t ys → Before t (xs ++ ys)
  Before-append t [] ys h k = k
  Before-append t (x ∷ xs) ys h k = (h.0, Before-append t xs ys h.1 k)

  pub latest-Before :
      (t : ℕ) (xs : List (TelemetryEntry R))
      → IsSorted earlier xs
      → All (λ x. t ≤ x.timestamp) xs
      → (t ≤ latest t xs) × Before (latest t xs) xs
  latest-Before t [] s h = (omega arith, tt)
  latest-Before t (x ∷ xs) s h =
      let ih = latest-Before x.timestamp xs s.1 (All-later x xs s.0) in
      (omega (arith, ih.0, h.0), (ih.0, ih.1))

  -- What a poll shows, when nothing of `old` is later than the watermark and all of `new` is: all
  -- of `new`. The watermark moves to its end, if there is anything.
  pub shown-new :
      (t : ℕ) (old new : List (TelemetryEntry R))
      → Before t old
      → All (λ x. t < x.timestamp) new
      → let (shown, mark) = filter_new_entries (old ++ new) (some t) in
        (shown ≡ new) × ((new ≡ []) ⊎ (mark ≡ some (latest t new)))
  unfolding filter_new_entries
  shown-new t [] [] h k = (refl, inl refl)
  shown-new t [] (y ∷ ys) h k =
      let shown : newer t y ys ≡ y ∷ ys = newer-append t [] (y ∷ ys) h k in
      (shown, inr (ap (λ l. watermark l (some t)) shown ∙ watermark-latest t (y ∷ ys)))
  shown-new t (x ∷ xs) ys h k =
      let shown : newer t x (xs ++ ys) ≡ ys = newer-append t (x ∷ xs) ys h k in
      (shown, inr (ap (λ l. watermark l (some t)) shown ∙ watermark-latest t ys))

  pub All-right :
      (P : TelemetryEntry R → Type 0) (xs ys : List (TelemetryEntry R))
      → All P (xs ++ ys)
      → All P ys
  All-right P [] ys h = h
  All-right P (x ∷ xs) ys h = All-right P xs ys h.1

  pub latest-append :
      (t : ℕ) (xs : List (TelemetryEntry R)) (e : TelemetryEntry R) (es : List (TelemetryEntry R))
      → latest t (xs ++ e ∷ es) ≡ latest t (e ∷ es)
  latest-append t [] e es = refl
  latest-append t (x ∷ xs) e es = latest-append x.timestamp xs e es

  last-drop :
      (k : ℕ) (xs : List (TelemetryEntry R)) → k < length xs → get_last? (drop k xs) ≡ get_last? xs
  last-drop zero xs h = refl
  last-drop (suc k) [] h = absurd (omega arith)
  last-drop (suc k) (x ∷ []) h = absurd (omega arith)
  last-drop (suc k) (x ∷ y ∷ xs) h = last-drop k (y ∷ xs) (omega arith)

  pub last-some :
      (e : TelemetryEntry R) (es : List (TelemetryEntry R))
      → (x : TelemetryEntry R) × (get_last? (e ∷ es) ≡ some x)
  last-some e [] = (e, refl)
  last-some e (f ∷ es) = last-some f es

  pub last-take_last :
      (n : ℕ) (xs : List (TelemetryEntry R)) → get_last? (take_last (suc n) xs) ≡ get_last? xs
  last-take_last n xs = elim (Bool-cases (ltb (suc n) (length xs))) [
    | inl h ↦ rw h (last-drop (length xs - suc n) xs (ground (arith, h)))
    | inr h ↦ rw h refl
  ]

  pub All-zero : (xs : List (TelemetryEntry R)) → All (λ x. 0 ≤ x.timestamp) xs
  All-zero [] = tt
  All-zero (x ∷ xs) = (omega arith, All-zero xs)

  pub first_poll :
      (e : TelemetryEntry R) (first : List (TelemetryEntry R))
      → filter_new_entries (e ∷ first) none
        ≡ (take_last 20 (e ∷ first), some (latest 0 (e ∷ first)))
  unfolding filter_new_entries
  first_poll e first =
      ap (λ m. (take_last 20 (e ∷ first), m))
        (ap (λ (l : Option (TelemetryEntry R)). elim l [ none ↦ none | some x ↦ some x.timestamp ])
            (last-take_last 19 (e ∷ first))
          ∙ watermark-latest_head none 0 e first)
