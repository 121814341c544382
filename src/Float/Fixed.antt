-- ===== src/Float/Fixed.antt =====
-- An executable stand-in for floats that meets their laws: non-negative numbers counted in
-- thousandths and rounded down. The tests and the witnesses run on it.
use wow_server_sim.Common.{
  ℕ, false, pos, Option, some, str_eq, codes, digits, ◌==◌, zero, suc, ◌+◌, ◌*◌, ◌-◌, ◌/◌, ◌%◌, ◌≤◌,
  String, ◌≡◌, true, List, [], ◌∷◌, leb, ltb, if◌then◌else◌, str, concat, arith,
}
use mathlib.Core.Option.{map}
use wow_server_sim.Float.{Float, IsFloat, Conversion, whole, infinite}

abbrev pub Thousandths : Type 0
Thousandths = ℕ

abbrev sum : List ℕ → ℕ
sum [] = 0
sum (x ∷ xs) = x + sum xs

abbrev root : ℕ → ℕ → ℕ
root zero n = 0
root (suc k) n = if leb (suc k * suc k) n then suc k else root k n

-- The infinity is a large number that no test reaches otherwise.
abbrev infinity : ℕ
infinity = 1000000000000

abbrev to_int : ℕ → Conversion
to_int x = if ltb x infinity then whole (pos (x / 1000)) else infinite

-- Whole numbers of seconds, and "inf".
abbrev natural : String → Option ℕ
natural text =
    if str_eq text "inf" then some infinity else map (λ n. n * 1000) (digits 0 false (codes text))

abbrev repr : ℕ → String
repr x = concat (str (x / 1000) ∷ "." ∷ str (x % 1000 / 100) ∷ [])

instance abbrev pub thousandths : Float Thousandths
thousandths = record {
  of_ℕ = λ n. n * 1000;
  true_div = λ n m. n * 1000 / m;
  neg = λ x. 0;
  add = λ x y. x + y;
  sub = λ x y. x - y;
  mul = λ x y. x * y / 1000;
  div = λ x y. x * 1000 / y;
  sum = sum;
  sqrt = λ x. root (x + 1000) (x * 1000);
  ceil = λ x. (x + 999) / 1000;
  trunc = λ x. x / 1000;
  round = λ x n. x;
  le = leb;
  lt = ltb;
  to_int = to_int;
  parse = natural;
  is_inf = λ x. x == infinity;
  inf = infinity;
  repr = repr;
  fixed = λ n x. repr x;
}

mul_mono : (x y n : ℕ) → x ≤ y → x * (n * 1000) / 1000 ≤ y * (n * 1000) / 1000
mul_mono x y n h = grind arith

div_mono : (x y n : ℕ) → x ≤ y → x * 1000 / suc n ≤ y * 1000 / suc n
div_mono x y n h = grind arith

div_self : (n : ℕ) → suc n * 1000 / suc n ≡ 1000
div_self n = grind arith

div_mono_scaled : (x y n : ℕ) → x ≤ y → x * 1000 / (suc n * 1000) ≤ y * 1000 / (suc n * 1000)
div_mono_scaled x y n h = grind arith

true_div_mono : (n k m : ℕ) → n ≤ k → n * 1000 / suc m ≤ k * 1000 / suc m
true_div_mono n k m h = div_mono n k m h

le→leb : (a b : ℕ) → a ≤ b → leb a b ≡ true
le→leb a b h = ground arith

leb→le : (a b : ℕ) → leb a b ≡ true → a ≤ b
leb→le a b h = ground arith

half_pos : (n : ℕ) → 1 ≤ (500 * (suc n * 1000) / 1000 + 999) / 1000
half_pos n = omega arith

pub thousandths-IsFloat : IsFloat thousandths
thousandths-IsFloat = record {
  le_refl = λ x. ground arith;
  le_trans = λ x y z p q. ground arith;
  le_total = λ x y p. ground arith;
  lt-not-le = λ x y. ground arith;
  of_ℕ_mono = λ n m h. ground arith;
  true_div_nonneg = λ n m. le→leb _ _ (omega arith);
  true_div_mono = λ n k m h. le→leb _ _ (true_div_mono n k m h);
  true_div_self = λ m. div_self m;
  one-mul = λ x. omega arith;
  zero-mul = λ n. omega arith;
  mul_mono = λ x y n h. le→leb _ _ (mul_mono x y n (leb→le _ _ h));
  div_mono = λ x y n h. le→leb _ _ (div_mono_scaled x y n (leb→le _ _ h));
  ceil_mono = λ x y h. ground arith;
  ceil-half_pos = λ n. half_pos n;
}
