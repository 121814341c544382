-- ===== src/Cli/Counts.antt =====
-- The option `--counts` of `wowsim benchmark` in tools/wowsim/cli.py: numbers with commas between
-- them.
use Prim.Native.Char.{Char, code}
use Prim.Native.String.{◌++◌}
use text.Mathlib.TextLemmas.{nil-append, cons-append, append-nil}
use wow_server_sim.Common.{
  ℕ, zero, suc, In, ℤ, pos, String, ◌≡◌, refl, ap, ◌∙◌, false, ◌==◌, Option, none, some, List, [],
  ◌∷◌, map, concat, join, str, codes, parse_int, repr_str, All, arith, if◌then◌else◌,
}
use wow_server_sim.Common.Numerals.{parse_int-str, str-IsDigits, IsDigits}
use wow_server_sim.Effects.{value_error, Outcome, ok, raise, spent}
use wow_server_sim.Logs.Parse.{strip}

abbrev pub push : Char → List String → List String
push c [] = String.◌∷◌ c String.[] ∷ []
push c (p ∷ ps) = String.◌∷◌ c p ∷ ps

-- `text.split(sep)`, for a separator of one character.
unfoldable pub split_on : (sep : ℕ) → String → List String
split_on sep String.[] = "" ∷ []
split_on sep (String.◌∷◌ c s) =
    let rest = split_on sep s in if code c == sep then "" ∷ rest else push c rest

-- `int(c.strip())`. `int` passes over spaces by itself; the message quotes what is left.
abbrev pub count_of : String → Option ℤ → Outcome ℤ
count_of c (some z) = ok z
count_of c none =
    raise
      (value_error (concat ("invalid literal for int() with base 10: " ∷ repr_str (strip c) ∷ [])))

-- The comprehension stops at the first that raises.
abbrev pub both : Outcome ℤ → Outcome (List ℤ) → Outcome (List ℤ)
both (ok z) (ok zs) = ok (z ∷ zs)
both (ok z) r = r
both (raise e) r = raise e
both spent r = spent

abbrev pub counts_of : List String → Outcome (List ℤ)
counts_of [] = ok []
counts_of (c ∷ cs) = both (count_of c (parse_int c)) (counts_of cs)

unfoldable pub parse_counts : (counts : String) → Outcome (List ℤ)
unfolding split_on
parse_counts counts = counts_of (split_on b',' counts)

-- No code of the text is the separator.
abbrev Avoids : (sep : ℕ) → String → Type 0
Avoids sep s = All (λ c. (c == sep) ≡ false) (codes s)

split_on-whole : (sep : ℕ) (s : String) → Avoids sep s → split_on sep s ≡ s ∷ []
unfolding split_on
split_on-whole sep String.[] h = refl
split_on-whole sep (String.◌∷◌ c s) h = rw (h.0, split_on-whole sep s h.1) refl

split_on-piece :
    (s t : String) → Avoids b',' s → split_on b',' (s ++ ("," ++ t)) ≡ s ∷ split_on b',' t
unfolding split_on
split_on-piece String.[] t h =
    ap (split_on b',')
      (nil-append ("," ++ t) ∙ cons-append "," "" t ∙ ap (λ u. String.◌∷◌ "," u) (nil-append t))
split_on-piece (String.◌∷◌ c s) t h =
    ap (split_on b',') (cons-append c s ("," ++ t)) ∙ rw (h.0, split_on-piece s t h.1) refl

digits-Avoids : (cs : List ℕ) → IsDigits cs → All (λ c. (c == b',') ≡ false) cs
digits-Avoids [] h = tt
digits-Avoids (c ∷ cs) h = (ground (arith, h.0), digits-Avoids cs h.1)

split_on-join :
    (n : ℕ) (ns : List ℕ) → split_on b',' (join "," (map str (n ∷ ns))) ≡ map str (n ∷ ns)
split_on-join n [] = split_on-whole b',' (str n) (digits-Avoids _ (str-IsDigits n))
split_on-join n (m ∷ ns) =
    ap (λ t. split_on b',' (str n ++ ("," ++ t))) (append-nil (join "," (map str (m ∷ ns))))
    ∙ split_on-piece (str n) (join "," (map str (m ∷ ns))) (digits-Avoids _ (str-IsDigits n))
    ∙ ap (λ ps. str n ∷ ps) (split_on-join m ns)

counts_of-str : (ns : List ℕ) → counts_of (map str ns) ≡ ok (map pos ns)
counts_of-str [] = refl
counts_of-str (n ∷ ns) = rw (parse_int-str n, counts_of-str ns) refl

-- Numbers written in decimal with a comma between two of them are read back, if there is one.
pub parse_counts-join :
    (n : ℕ) (ns : List ℕ) → parse_counts (join "," (map str (n ∷ ns))) ≡ ok (map pos (n ∷ ns))
unfolding parse_counts
parse_counts-join n ns = ap counts_of (split_on-join n ns) ∙ counts_of-str (n ∷ ns)

-- What a text of counts is read as: the ints between its commas, or a ValueError for a piece that is
-- no int.
pub data Reads (pieces : List String) : Outcome (List ℤ) → Type 0 where
  all_ints : (zs : List ℤ) → map parse_int pieces ≡ map some zs → Reads pieces (ok zs)
  no_int :
      (piece message : String)
      → In piece pieces
      → parse_int piece ≡ none
      → Reads pieces (raise (value_error message))

Reads-cons :
    (c : String) (cs : List String) (o : Option ℤ) (r : Outcome (List ℤ))
    → parse_int c ≡ o
    → Reads cs r
    → Reads (c ∷ cs) (both (count_of c o) r)
Reads-cons c cs none r h reads = Reads.no_int c _ (zero, refl) h
Reads-cons c cs (some z) _ h (Reads.all_ints zs e) = Reads.all_ints (z ∷ zs) (rw (h, e) refl)
Reads-cons c cs (some z) _ h (Reads.no_int piece m (i, e) bad) = Reads.no_int piece m (suc i, e) bad

counts_of-Reads : (pieces : List String) → Reads pieces (counts_of pieces)
counts_of-Reads [] = Reads.all_ints [] refl
counts_of-Reads (c ∷ cs) = Reads-cons c cs (parse_int c) (counts_of cs) refl (counts_of-Reads cs)

pub parse_counts-Reads : (counts : String) → Reads (split_on b',' counts) (parse_counts counts)
unfolding parse_counts
parse_counts-Reads counts = counts_of-Reads (split_on b',' counts)
