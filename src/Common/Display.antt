-- ===== src/Common/Display.antt =====
-- Python's ways of writing texts: `repr`, padding, upper case, repetition, and dates.
use Prim.Native.Nat.{ℕ, zero, suc, ◌+◌, ◌-◌, ◌*◌, ◌/◌, ◌%◌}
use Prim.Native.Char.{Char, code}
use Prim.Native.String.{String, ◌++◌, count, char_at}
use mathlib.Core.Bool.{Bool, true, false, not, ◌&&◌, ◌||◌}
use mathlib.Core.Path.{◌≡◌, refl}
use mathlib.Core.List.{[], ◌∷◌}
use wow_server_sim.Common.Logic.{leb, ltb, ◌==◌, if◌then◌else◌}
use wow_server_sim.Common.Text.{concat, digit, str}

abbrev one : Char → String
one c = String.◌∷◌ c String.[]

abbrev contains_code : ℕ → String → Bool
contains_code n String.[] = false
contains_code n (String.◌∷◌ c s) = (code c == n) || contains_code n s

abbrev hex : ℕ → String
hex n =
    if ltb n 10
    then digit n
    else if n == 10
    then "a"
    else if n == 11
    then "b"
    else if n == 12
    then "c"
    else if n == 13
    then "d"
    else if n == 14
    then "e"
    else "f"

-- A character in a literal between quotes of the code `quote`. Those beyond ASCII count as
-- printable.
abbrev escaped : (quote : ℕ) → Char → String
escaped quote c =
    if (code c == quote) || (code c == 92)
    then "\\" ++ one c
    else if code c == 9
    then "\\t"
    else if code c == 10
    then "\\n"
    else if code c == 13
    then "\\r"
    else if ltb (code c) 32 || (code c == 127)
    then "\\x" ++ (hex (code c / 16) ++ hex (code c % 16))
    else one c

abbrev escape_all : (quote : ℕ) → String → String
escape_all quote String.[] = ""
escape_all quote (String.◌∷◌ c s) = escaped quote c ++ escape_all quote s

-- `repr(text)`: in double quotes if it holds a single one and no double one.
unfoldable pub repr_str : String → String
repr_str text =
    if contains_code 39 text && not (contains_code 34 text)
    then "\"" ++ (escape_all 34 text ++ "\"")
    else "'" ++ (escape_all 39 text ++ "'")

-- `text * n`
abbrev pub repeat : (text : String) → ℕ → String
repeat text zero = ""
repeat text (suc n) = text ++ repeat text n

-- `{text:<n}` and `{text:>n}`
unfoldable pub pad_right : ℕ → String → String
pad_right n text = text ++ repeat " " (n - count text)

unfoldable pub pad_left : ℕ → String → String
pad_left n text = repeat " " (n - count text) ++ text

-- A number of two digits.
abbrev pub two_digits : ℕ → String
two_digits n = digit (n / 10 % 10) ++ digit (n % 10)

abbrev three_digits : ℕ → String
three_digits n = digit (n / 100 % 10) ++ two_digits (n % 100)

-- The year, the month and the day of a day since 1970-01-01, counted in years from March on.
abbrev civil : (days : ℕ) → ℕ × ℕ × ℕ
civil days =
    let z = days + 719468 in
    let doe = z % 146097 in
    let yoe = (doe - doe / 1460 + doe / 36524 - doe / 146096) / 365 in
    let doy = doe - (365 * yoe + yoe / 4 - yoe / 100) in
    let mp = (5 * doy + 2) / 153 in
    let day = doy - (153 * mp + 2) / 5 + 1 in
    let month = if ltb mp 10 then mp + 3 else mp - 9 in
    (yoe + z / 146097 * 400 + (if leb month 2 then 1 else 0), month, day)

-- `timestamp.strftime("%H:%M:%S")`, for microseconds since the epoch.
abbrev pub clock : (timestamp : ℕ) → String
clock timestamp =
    let s = timestamp / 1000000 in
    concat
      (two_digits (s / 3600 % 24) ∷ ":" ∷ two_digits (s / 60 % 60) ∷ ":" ∷ two_digits (s % 60) ∷ [])

abbrev fraction : (micros : ℕ) → String
fraction micros =
    if micros == 0
    then ""
    else concat ("." ∷ three_digits (micros / 1000) ∷ three_digits (micros % 1000) ∷ [])

-- `timestamp.isoformat()` of a time in UTC.
unfoldable pub isoformat : (timestamp : ℕ) → String
isoformat timestamp =
    let (year, month, day) = civil (timestamp / 86400000000) in
    concat (
      two_digits (year / 100)
      ∷ two_digits (year % 100)
      ∷ "-"
      ∷ two_digits month
      ∷ "-"
      ∷ two_digits day
      ∷ "T"
      ∷ clock timestamp
      ∷ fraction (timestamp % 1000000)
      ∷ "+00:00"
      ∷ [])

-- `{n:,}`: each round splits off three digits, so that the number is fuel enough.
grouped : (fuel n : ℕ) → String
grouped zero n = str n
grouped (suc fuel) n = elim (ltb n 1000) [
  | true ↦ str n
  | false ↦ concat (grouped fuel (n / 1000) ∷ "," ∷ three_digits (n % 1000) ∷ [])
]

unfoldable pub commas : ℕ → String
unfolding grouped
commas n = grouped n n

-- `text.upper()`, of ASCII.
abbrev upper_code : Char → Char
upper_code c =
    if leb 97 (code c) && leb (code c) 122
    then char_at "ABCDEFGHIJKLMNOPQRSTUVWXYZ" (code c - 97)
    else c

unfoldable pub upper : String → String
upper String.[] = ""
upper (String.◌∷◌ c s) = String.◌∷◌ (upper_code c) (upper s)

day_of_commit : isoformat 1772047030123456 ≡ "2026-02-25T19:17:10.123456+00:00"
unfolding isoformat
day_of_commit = refl

shouting : upper "rolled_back" ≡ "ROLLED_BACK"
unfolding upper
shouting = refl

quoting : repr_str "it's" ≡ "\"it's\""
unfolding repr_str
quoting = refl

grouping : commas 1234567 ≡ "1,234,567"
unfolding commas grouped str
grouping = refl
