-- ===== src/Control/Duration.antt =====
-- `parse_duration` of tools/wowsim/fault_trigger.py.
pub mod Meaning
use wow_server_sim.Common.{
  ℕ, ℤ, String, ◌==◌, Option, none, some, List, [], ◌∷◌, concat, chop, parse_int, repr_str,
  if◌then◌else◌,
}
use wow_server_sim.Float.{Float, Conversion, whole, infinite, not_a_number}
use wow_server_sim.Effects.{value_error, overflow_error, Outcome, ok, raise}

abbrev pub ticks_per_second : ℕ
ticks_per_second = 20

abbrev pub invalid : (text reason : String) → Outcome ℤ
invalid text reason =
    raise (value_error (concat ("Invalid duration: " ∷ repr_str text ∷ " — " ∷ reason ∷ [])))

-- What `int(x)` returns or raises.
abbrev pub converted : Conversion → Outcome ℤ
converted (whole z) = ok z
converted infinite = raise (overflow_error "cannot convert float infinity to integer")
converted not_a_number = raise (value_error "cannot convert float NaN to integer")

abbrev pub ticks : (text : String) → Option ℤ → Outcome ℤ
ticks text none = invalid text "expected integer before 't'"
ticks text (some z) = ok z

module _ {R : Type 0} (fl : Float R) where
  open fl use {of_ℕ, mul, parse, to_int}

  abbrev pub seconds : (text : String) → Option R → Outcome ℤ
  seconds text none = invalid text "expected number before 's'"
  seconds text (some x) = converted (to_int (mul x (of_ℕ ticks_per_second)))

  -- By the last character.
  abbrev pub by_suffix : (text : String) → Option (String × ℕ) → Outcome ℤ
  by_suffix text none = raise (value_error "Empty duration string")
  by_suffix text (some (body, suffix)) =
      if suffix == b's'
      then seconds text (parse body)
      else if suffix == b't'
      then ticks text (parse_int body)
      else invalid text "must end with 's' (seconds) or 't' (ticks)"

  unfoldable pub parse_duration : String → Outcome ℤ
  parse_duration text = by_suffix text (chop text)
