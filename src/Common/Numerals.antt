-- ===== src/Common/Numerals.antt =====
-- Reading a numeral back.

use wow_server_sim.Common.Lists.{All}
use wow_server_sim.Common.Text.{str, concat, digit, decimal}
use wow_server_sim.Common.Numbers.{
  ℤ, pos, negsuc, int_text, negate, is_digit, is_space, codes, digits, strip_left, keep,
  strip_right, signed, parse_int,
}
use Prim.Native.Nat.{ℕ, zero, suc, ◌+◌, ◌*◌, ◌/◌, ◌%◌, ◌≤◌, ◌<◌}
use Prim.Native.String.{String}
use Prim.Native.Char.{code}
use text.Mathlib.TextLemmas.{append-nil, nil-append, cons-append}
use mathlib.Core.Path.{◌≡◌, refl, subst, ◌∙◌, ap}
use mathlib.Core.Logic.{◌⊎◌, inl, inr}
use mathlib.Core.Bool.{Bool, true, false}
use mathlib.Core.Option.{some, map}
use mathlib.Core.List.{List, [], ◌∷◌, ◌++◌, append_assoc, append-nil as append-nil-list}
use native.Mathlib.Omega.{arith}

pub codes-append : (s t : String) → codes (Prim.Native.String.◌++◌ s t) ≡ codes s ++ codes t
codes-append String.[] t = ap codes (nil-append t)
codes-append (String.◌∷◌ c s) t = rw (cons-append c s t) (ap (λ cs. code c ∷ cs) (codes-append s t))

codes-digit : (n : ℕ) → n < 10 → codes (digit n) ≡ (48 + n) ∷ []
codes-digit zero h = refl
codes-digit (suc zero) h = refl
codes-digit (suc (suc zero)) h = refl
codes-digit (suc (suc (suc zero))) h = refl
codes-digit (suc (suc (suc (suc zero)))) h = refl
codes-digit (suc (suc (suc (suc (suc zero))))) h = refl
codes-digit (suc (suc (suc (suc (suc (suc zero)))))) h = refl
codes-digit (suc (suc (suc (suc (suc (suc (suc zero))))))) h = refl
codes-digit (suc (suc (suc (suc (suc (suc (suc (suc zero)))))))) h = refl
codes-digit (suc (suc (suc (suc (suc (suc (suc (suc (suc zero))))))))) h = refl
codes-digit (suc (suc (suc (suc (suc (suc (suc (suc (suc (suc n)))))))))) h =
    absurd (omega (arith, h))

ℕ-cases : (n : ℕ) → (n < 10) ⊎ (10 ≤ n)
ℕ-cases n = ground arith

digits_step :
    (acc c : ℕ) (b : Bool) (cs : List ℕ)
    → c < 10
    → digits acc b ((48 + c) ∷ cs) ≡ digits (acc * 10 + c) true cs
unfolding digits
digits_step acc c b cs h = ground arith

decimal_small : (fuel n : ℕ) → n < 10 → decimal (suc fuel) n ≡ digit n
unfolding decimal
decimal_small fuel n h = ground arith

decimal_large :
    (fuel n : ℕ)
    → 10 ≤ n
    → decimal (suc fuel) n ≡ concat (decimal fuel (n / 10) ∷ digit (n % 10) ∷ [])
unfolding decimal
decimal_large fuel n h = ground arith

-- The code of a digit, then `rest`.
digits-digit :
    (acc n : ℕ) (b : Bool) (rest : List ℕ)
    → n < 10
    → digits acc b (codes (digit n) ++ rest) ≡ digits (acc * 10 + n) true rest
digits-digit acc n b rest h = rw (codes-digit n h) (digits_step acc n b rest h)

codes-concat_two : (s t : String) → codes (concat (s ∷ t ∷ [])) ≡ codes s ++ codes t
codes-concat_two s t =
    codes-append s (concat (t ∷ [])) ∙ ap (λ c. codes s ++ codes c) (append-nil t)

-- The digits of `n` read from nothing give `n`, whatever follows them.
digits-decimal :
    (fuel n : ℕ) (b : Bool) (rest : List ℕ)
    → n ≤ fuel
    → digits 0 b (codes (decimal fuel n) ++ rest) ≡ digits n true rest
unfolding decimal
digits-decimal zero n b rest h =
    digits-digit 0 n b rest (omega (arith, h)) ∙ ap (λ k. digits k true rest) (omega arith)
digits-decimal (suc fuel) n b rest h = elim (ℕ-cases n) [
  | inl small ↦
      rw (decimal_small fuel n small)
        (digits-digit 0 n b rest small ∙ ap (λ k. digits k true rest) (omega arith))
  | inr large ↦
      rw (decimal_large fuel n large, codes-concat_two, append_assoc)
        (digits-decimal fuel (n / 10) b _ (omega (arith, large, h))
          ∙ digits-digit (n / 10) (n % 10) true rest (omega arith)
          ∙ ap (λ k. digits k true rest) (omega arith))
]

abbrev pub IsDigits : List ℕ → Type 0
IsDigits = All (λ c. is_digit c ≡ true)

append-IsDigits : (cs ds : List ℕ) → IsDigits cs → IsDigits ds → IsDigits (cs ++ ds)
append-IsDigits [] ds h k = k
append-IsDigits (c ∷ cs) ds h k = (h.0, append-IsDigits cs ds h.1 k)

digit-IsDigits : (n : ℕ) → n < 10 → IsDigits (codes (digit n))
digit-IsDigits n h = rw (codes-digit n h) (ground arith, tt)

decimal-IsDigits : (fuel n : ℕ) → n ≤ fuel → IsDigits (codes (decimal fuel n))
unfolding decimal
decimal-IsDigits zero n h = digit-IsDigits n (omega (arith, h))
decimal-IsDigits (suc fuel) n h = elim (ℕ-cases n) [
  | inl small ↦ rw (decimal_small fuel n small) (digit-IsDigits n small)
  | inr large ↦
      rw (decimal_large fuel n large, codes-concat_two)
        (append-IsDigits (codes (decimal fuel (n / 10))) (codes (digit (n % 10)))
          (decimal-IsDigits fuel (n / 10) (omega (arith, large, h)))
          (digit-IsDigits (n % 10) (omega arith)))
]

abbrev IsInked : List ℕ → Type 0
IsInked = All (λ c. is_space c ≡ false)

-- A text without spaces is not stripped.
strip_left-IsInked : (cs : List ℕ) → IsInked cs → strip_left cs ≡ cs
strip_left-IsInked [] h = refl
strip_left-IsInked (c ∷ cs) h = rw h.0 refl

keep-inked : (c : ℕ) (cs : List ℕ) → is_space c ≡ false → keep c cs ≡ c ∷ cs
keep-inked c [] h = rw h refl
keep-inked c (d ∷ ds) h = refl

strip_right-IsInked : (cs : List ℕ) → IsInked cs → strip_right cs ≡ cs
strip_right-IsInked [] h = refl
strip_right-IsInked (c ∷ cs) h = rw (strip_right-IsInked cs h.1) (keep-inked c cs h.0)

digits-IsInked : (cs : List ℕ) → IsDigits cs → IsInked cs
digits-IsInked [] h = tt
digits-IsInked (c ∷ cs) h = (ground (arith, h.0), digits-IsInked cs h.1)

-- Digits carry no sign.
signed-IsDigits : (cs : List ℕ) → IsDigits cs → signed cs ≡ map pos (digits 0 false cs)
unfolding signed digits
signed-IsDigits [] h = refl
signed-IsDigits (c ∷ cs) h = ground (arith, h.0)

signed-minus : (cs : List ℕ) → signed (45 ∷ cs) ≡ map negate (digits 0 false cs)
unfolding signed
signed-minus cs = refl

digits-str : (n : ℕ) → digits 0 false (codes (str n)) ≡ some n
unfolding str digits
digits-str n =
    subst (λ cs. digits 0 false cs ≡ some n) (append-nil-list (codes (decimal n n)))
      (digits-decimal n n false [] (omega arith))

pub str-IsDigits : (n : ℕ) → IsDigits (codes (str n))
unfolding str
str-IsDigits n = decimal-IsDigits n n (omega arith)

stripped : (cs : List ℕ) → IsInked cs → strip_right (strip_left cs) ≡ cs
stripped cs h = rw (strip_left-IsInked cs h) (strip_right-IsInked cs h)

pub parse_int-str : (n : ℕ) → parse_int (str n) ≡ some (pos n)
unfolding parse_int
parse_int-str n =
    let ds = str-IsDigits n in
    rw (stripped (codes (str n)) (digits-IsInked _ ds), signed-IsDigits _ ds, digits-str n) refl

parse_int-negative :
    (n : ℕ) → parse_int (Prim.Native.String.◌++◌ "-" (str (suc n))) ≡ some (negsuc n)
unfolding parse_int
parse_int-negative n =
    let ds = digits-IsInked _ (str-IsDigits (suc n)) in
    ap signed (
      ap (λ cs. strip_right (strip_left cs)) (codes-append "-" (str (suc n)))
      ∙ stripped (45 ∷ codes (str (suc n))) (refl, ds))
    ∙ signed-minus (codes (str (suc n)))
    ∙ ap (map negate) (digits-str (suc n))

-- `int(str(z))` is `z`, for every int.
pub parse_int-int_text : (z : ℤ) → parse_int (int_text z) ≡ some z
parse_int-int_text (pos n) = parse_int-str n
parse_int-int_text (negsuc n) = parse_int-negative n
