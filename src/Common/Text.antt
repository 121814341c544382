-- ===== src/Common/Text.antt =====
-- Text: f-strings are the concatenation of their parts, with decimal numerals.
use Prim.Native.Nat.{ℕ, zero, suc, ◌/◌, ◌%◌}
use Prim.Native.Char.{Char, code}
use Prim.Native.String.{String, ◌++◌}
use text.Mathlib.TextLemmas.{nil-append, cons-append}
use mathlib.Core.Logic.{◌⊎◌, inl, inr}
use mathlib.Core.Bool.{true, false}
use mathlib.Core.Option.{Option, none, some}
use mathlib.Core.Path.{◌≡◌, refl, ap, ◌∙◌, sym, subst}
use text.Mathlib.Text.{◌==◌ as str_eq}
use text.Mathlib.TextEquality.{eq_iff}
use mathlib.Core.List.{List, [], ◌∷◌}
use wow_server_sim.Common.Logic.{ltb}

-- `"".join(parts)`
abbrev pub concat : List String → String
concat [] = ""
concat (s ∷ ss) = s ++ concat ss

-- `sep.join(parts)`
abbrev pub join : String → List String → String
join sep [] = ""
join sep (s ∷ []) = s
join sep (s ∷ t ∷ ss) = concat (s ∷ sep ∷ join sep (t ∷ ss) ∷ [])

abbrev pub digit : ℕ → String
digit zero = "0"
digit (suc zero) = "1"
digit (suc (suc zero)) = "2"
digit (suc (suc (suc zero))) = "3"
digit (suc (suc (suc (suc zero)))) = "4"
digit (suc (suc (suc (suc (suc zero))))) = "5"
digit (suc (suc (suc (suc (suc (suc zero)))))) = "6"
digit (suc (suc (suc (suc (suc (suc (suc zero))))))) = "7"
digit (suc (suc (suc (suc (suc (suc (suc (suc zero)))))))) = "8"
digit _ = "9"

-- Each round divides by ten, so that the number itself is fuel enough.
unfoldable pub decimal : ℕ → ℕ → String
decimal zero n = digit n
decimal (suc fuel) n = elim (ltb n 10) [
  | true ↦ digit n
  | false ↦ concat (decimal fuel (n / 10) ∷ digit (n % 10) ∷ [])
]

-- `str(n)` for an int that is not negative.
unfoldable pub str : ℕ → String
unfolding decimal
str n = decimal n n

-- One text is not equal to two texts that differ.
pub distinct : (m s t : String) → str_eq s t ≡ false → str_eq m s ≡ true → str_eq m t ≡ false
distinct m s t differ h = subst (λ (x : String). str_eq x t ≡ false) (sym ((eq_iff m s).0 h)) differ

-- A text without its last character, and the code of that.
abbrev last_of : Char → Option (String × ℕ) → String × ℕ
last_of c none = ("", code c)
last_of c (some (s, d)) = (String.◌∷◌ c s, d)

abbrev pub chop : String → Option (String × ℕ)
chop String.[] = none
chop (String.◌∷◌ c s) = some (last_of c (chop s))

pub chop-snoc : (s : String) (c : Char) → chop (s ++ String.◌∷◌ c String.[]) ≡ some (s, code c)
chop-snoc String.[] c = rw (nil-append (String.◌∷◌ c String.[])) refl
chop-snoc (String.◌∷◌ d s) c = rw (cons-append d s (String.◌∷◌ c String.[]), chop-snoc s c) refl

-- Every text is empty, or ends in a character that `chop` splits off.
pub chop_cases :
    (s : String)
    → ((s ≡ "") × (chop s ≡ none))
      ⊎ ((t : String) × (c : Char) × (s ≡ t ++ String.◌∷◌ c String.[])
          × (chop s ≡ some (t, code c)))
chop_cases String.[] = inl (refl, refl)
chop_cases (String.◌∷◌ c s) = inr (elim (chop_cases s) [
  | inl (empty, none_left) ↦
      ("", c, rw empty (sym (nil-append (String.◌∷◌ c String.[]))), rw none_left refl)
  | inr (t, d, e, split) ↦ (
    String.◌∷◌ c t,
    d,
    ap (λ u. String.◌∷◌ c u) e ∙ sym (cons-append c t (String.◌∷◌ d String.[])),
    rw split refl,
  )
])
