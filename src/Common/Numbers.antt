-- ===== src/Common/Numbers.antt =====
-- Python's int: a sign over a native number, and the conversions from and to text. CPython refuses
-- to convert texts of more than 4300 digits, unless it is told otherwise; these have no limit.
use Prim.Native.Nat.{ℕ, zero, suc, ◌+◌, ◌-◌, ◌*◌}
use Prim.Native.Char.{code}
use Prim.Native.String.{String, ◌++◌}
use mathlib.Core.Bool.{Bool, true, false, ◌&&◌, ◌||◌}
use mathlib.Core.Option.{Option, none, some, map}
use mathlib.Core.List.{List, [], ◌∷◌}
use wow_server_sim.Common.Logic.{ltb, leb, ◌==◌, if◌then◌else◌}
use wow_server_sim.Common.Text.{str}

-- `negsuc n` is -(n + 1).
pub data ℤ : Type 0 where
  pos negsuc : ℕ → ℤ

abbrev pub int_text : ℤ → String
int_text (pos n) = str n
int_text (negsuc n) = "-" ++ str (suc n)

-- `m < n`
abbrev pub int_lt : ℤ → ℤ → Bool
int_lt (pos m) (pos n) = ltb m n
int_lt (pos m) (negsuc n) = false
int_lt (negsuc m) (pos n) = true
int_lt (negsuc m) (negsuc n) = ltb n m

abbrev pub negate : ℕ → ℤ
negate zero = pos 0
negate (suc n) = negsuc n

abbrev pub is_digit : ℕ → Bool
is_digit c = leb 48 c && leb c 57

-- What `str.strip` removes: the characters for which `str.isspace` holds.
abbrev pub is_space : ℕ → Bool
is_space c =
    (leb 9 c && leb c 13)
    || (leb 28 c && leb c 32)
    || c == 133
    || c == 160
    || c == 5760
    || (leb 8192 c && leb c 8202)
    || c == 8232
    || c == 8233
    || c == 8239
    || c == 8287
    || c == 12288

abbrev pub codes : String → List ℕ
codes String.[] = []
codes (String.◌∷◌ c s) = code c ∷ codes s

-- The rest of a numeral, in which a single underscore may stand between two digits.
unfoldable pub digits : (acc : ℕ) (after_digit : Bool) → List ℕ → Option ℕ
digits acc after_digit [] = if after_digit then some acc else none
digits acc after_digit (c ∷ cs) =
    let next = digits (acc * 10 + (c - 48)) true cs in
    let skip = digits acc false cs in
    if is_digit c then next else if c == 95 && after_digit then skip else none

abbrev pub strip_left : List ℕ → List ℕ
strip_left [] = []
strip_left (c ∷ cs) = if is_space c then strip_left cs else c ∷ cs

abbrev pub keep : ℕ → List ℕ → List ℕ
keep c [] = if is_space c then [] else c ∷ []
keep c (d ∷ ds) = c ∷ d ∷ ds

abbrev pub strip_right : List ℕ → List ℕ
strip_right [] = []
strip_right (c ∷ cs) = keep c (strip_right cs)

unfoldable pub signed : List ℕ → Option ℤ
unfolding digits
signed [] = none
signed (c ∷ cs) =
    if c == 45
    then map negate (digits 0 false cs)
    else if c == 43
    then map pos (digits 0 false cs)
    else map pos (digits 0 false (c ∷ cs))

-- `int(text)`, and none for its ValueError. The digits are those of ASCII.
unfoldable pub parse_int : String → Option ℤ
unfolding signed
parse_int text = signed (strip_right (strip_left (codes text)))
