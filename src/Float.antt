-- ===== src/Float.antt =====
-- Python's floats and the operations of them that the tools use. The type stays a parameter: what
-- an operation rounds to is the interpreter's affair. `IsFloat` states the documented laws of the
-- comparisons and of the conversions, as long as no NaN, infinity or overflow comes up.
pub mod Fixed
pub mod Ratio
use wow_server_sim.Common.{
  ℕ, ℤ, Option, suc, ◌*◌, ◌-◌, ◌≤◌, ◌<◌, String, ◌≡◌, Bool, true, false, not, List, leb,
  if◌then◌else◌,
}

-- `int(x)`, truncated towards zero, or what it raises.
pub data Conversion : Type 0 where
  whole : ℤ → Conversion
  infinite not_a_number : Conversion  -- OverflowError, ValueError

pub record Float (R : Type 0) : Type 0 where
  pub of_ℕ : ℕ → R  -- float(n), and an int that meets a float
  pub true_div : ℕ → ℕ → R  -- n / m, for ints
  pub neg : R → R
  pub add : R → R → R
  pub sub : R → R → R
  pub mul : R → R → R
  pub div : R → R → R
  pub sum : List R → R  -- the builtin `sum`, from 0
  pub sqrt : R → R  -- math.sqrt
  pub ceil : R → ℕ  -- math.ceil, of a value that is not negative
  pub trunc : R → ℕ  -- int(x), of a value that is not negative
  pub round : R → ℕ → R  -- round(x, digits)
  pub le : R → R → Bool  -- x <= y
  pub lt : R → R → Bool  -- x < y
  pub to_int : R → Conversion  -- int(x)
  pub parse : String → Option R  -- float(text), none for its ValueError
  pub is_inf : R → Bool  -- x == float("inf")
  pub inf : R  -- float("inf")
  pub repr : R → String  -- {x}
  pub fixed : ℕ → R → String  -- {x:.nf}

pub record IsFloat {R : Type 0} (fl : Float R) : Type 0 where
  pub le_refl : (x : R) → fl.le x x ≡ true
  pub le_trans : (x y z : R) → fl.le x y ≡ true → fl.le y z ≡ true → fl.le x z ≡ true
  pub le_total : (x y : R) → fl.le x y ≡ false → fl.le y x ≡ true
  pub lt-not-le : (x y : R) → fl.lt x y ≡ not (fl.le y x)
  pub of_ℕ_mono : (n m : ℕ) → n ≤ m → fl.le (fl.of_ℕ n) (fl.of_ℕ m) ≡ true
  pub true_div_nonneg : (n m : ℕ) → fl.le (fl.of_ℕ 0) (fl.true_div n (suc m)) ≡ true
  pub true_div_mono :
      (n k m : ℕ) → n ≤ k → fl.le (fl.true_div n (suc m)) (fl.true_div k (suc m)) ≡ true
  pub true_div_self : (m : ℕ) → fl.true_div (suc m) (suc m) ≡ fl.of_ℕ 1
  pub one-mul : (x : R) → fl.mul (fl.of_ℕ 1) x ≡ x
  pub zero-mul : (n : ℕ) → fl.mul (fl.of_ℕ 0) (fl.of_ℕ n) ≡ fl.of_ℕ 0
  pub mul_mono :
      (x y : R) (n : ℕ)
      → fl.le x y ≡ true
      → fl.le (fl.mul x (fl.of_ℕ n)) (fl.mul y (fl.of_ℕ n)) ≡ true
  pub div_mono :
      (x y : R) (n : ℕ)
      → fl.le x y ≡ true
      → fl.le (fl.div x (fl.of_ℕ (suc n))) (fl.div y (fl.of_ℕ (suc n))) ≡ true
  pub ceil_mono : (x y : R) → fl.le x y ≡ true → fl.ceil x ≤ fl.ceil y
  pub ceil-half_pos :
      (n : ℕ) → 1 ≤ fl.ceil (fl.mul (fl.div (fl.of_ℕ 50) (fl.of_ℕ 100)) (fl.of_ℕ (suc n)))
