-- ===== src/Float/Ratio.antt =====
-- Bounds of quotients of counts, from the laws of floats.
use mathlib.Core.Path.{subst}
use wow_server_sim.Common.{
  ℕ, zero, suc, ◌≤◌, ◌<◌, ◌≡◌, true, ltb, if◌then◌else◌, arith, Bool-cases, inl, inr,
}
use wow_server_sim.Float.{Float, IsFloat}

module _ {R : Type 0} ⦃fl : Float R⦄ (laws : IsFloat fl) where
  open fl use {of_ℕ, true_div, le}

  pub ratio_nonneg : (n m : ℕ) → 0 < m → le (of_ℕ 0) (true_div n m) ≡ true
  ratio_nonneg n zero h = absurd (omega arith)
  ratio_nonneg n (suc m) h = laws.true_div_nonneg n m

  pub ratio-le_one : (n m : ℕ) → n ≤ m → 0 < m → le (true_div n m) (of_ℕ 1) ≡ true
  ratio-le_one n zero h p = absurd (omega arith)
  ratio-le_one n (suc m) h p =
      subst (λ (x : R). le (true_div n (suc m)) x ≡ true) (laws.true_div_self m)
        (laws.true_div_mono n (suc m) m h)

  -- `n / m if m > 0 else 0.0`
  abbrev pub quotient : ℕ → ℕ → R
  quotient n m = if ltb 0 m then true_div n m else of_ℕ 0

  pub quotient_bounds :
      (n m : ℕ) → n ≤ m → (le (of_ℕ 0) (quotient n m) ≡ true) × (le (quotient n m) (of_ℕ 1) ≡ true)
  quotient_bounds n m h = elim (Bool-cases (ltb 0 m)) [
    | inl p ↦ rw p (ratio_nonneg n m (ground arith), ratio-le_one n m h (ground arith))
    | inr p ↦ rw p (laws.le_refl _, laws.of_ℕ_mono 0 1 (omega arith))
  ]
