-- ===== src/Logs/Parse/Whitespace.antt =====
-- Stripping, and what it makes of a telemetry line.
use Prim.Native.Char.{code}
use Prim.Native.String.{◌++◌}
use Prim.Native.String.append
use wow_server_sim.Common.{
  is_space, String, ◌≡◌, refl, inl, inr, Bool, true, false, not, ◌&&◌, ◌∙◌, Option, arith,
  Bool-cases,
}
use wow_server_sim.Models.{TelemetryEntry}
use wow_server_sim.Logs.Parse.{is_empty, lstrip, rstrip, strip, parse_line}

rstrip-rstrip : (s : String) → rstrip (rstrip s) ≡ rstrip s
unfolding rstrip
rstrip-rstrip String.[] = refl
rstrip-rstrip (String.◌∷◌ c s) = elim (Bool-cases (is_space (code c) && is_empty (rstrip s))) [
  | inl e ↦ rw e
  | inr e ↦ rw e (rw (rstrip-rstrip s) (rw e))
]

-- What `lstrip` leaves is empty, or begins with a character that it keeps.
lstrip-rstrip-lstrip : (s : String) → lstrip (rstrip (lstrip s)) ≡ rstrip (lstrip s)
unfolding lstrip rstrip
lstrip-rstrip-lstrip String.[] = refl
lstrip-rstrip-lstrip (String.◌∷◌ c s) = elim (Bool-cases (is_space (code c))) [
  | inl e ↦ rw e (lstrip-rstrip-lstrip s)
  | inr e ↦ rw e (rw e (rw e))
]

pub strip-strip : (s : String) → strip (strip s) ≡ strip s
unfolding strip
strip-strip s = rw lstrip-rstrip-lstrip (rstrip-rstrip (lstrip s))

rstrip-newline : (s : String) → rstrip (s ++ "\n") ≡ rstrip s
unfolding rstrip
rstrip-newline String.[] = refl
rstrip-newline (String.◌∷◌ c s) = rw (append.cons, rstrip-newline s)

abbrev starts_solid : String → Bool
starts_solid String.[] = false
starts_solid (String.◌∷◌ c s) = not (is_space (code c))

-- A text that is not empty and has no white space at its ends.
pub record IsTight (s : String) : Type 0 where
  pub left : starts_solid s ≡ true
  pub right : rstrip s ≡ s

not-eq-true : (b : Bool) → not b ≡ true → b ≡ false
not-eq-true b h = ground arith

lstrip-solid : (s : String) → starts_solid s ≡ true → lstrip s ≡ s
unfolding lstrip
lstrip-solid String.[] h = cc
lstrip-solid (String.◌∷◌ c s) h = rw (not-eq-true _ h)

starts_solid-append : (s t : String) → starts_solid s ≡ true → starts_solid (s ++ t) ≡ true
starts_solid-append String.[] t h = cc
starts_solid-append (String.◌∷◌ c s) t h = rw append.cons h

is_empty-solid : (s : String) → starts_solid s ≡ true → is_empty s ≡ false
is_empty-solid String.[] h = cc
is_empty-solid (String.◌∷◌ c s) h = refl

pub strip-newline : (s : String) → IsTight s → strip (s ++ "\n") ≡ s
unfolding strip
strip-newline s tight =
    rw (lstrip-solid (s ++ "\n") (starts_solid-append s "\n" tight.left))
      (rstrip-newline s ∙ tight.right)

module _ {R : Type 0} (decode : String → Option (TelemetryEntry R)) where
  -- White space around a line does not change what it parses to.
  pub parse_line-strip : (line : String) → parse_line decode (strip line) ≡ parse_line decode line
  unfolding parse_line
  parse_line-strip line = rw strip-strip

  pub parse_line-newline : (s : String) → IsTight s → parse_line decode (s ++ "\n") ≡ decode s
  unfolding parse_line
  parse_line-newline s tight = rw (strip-newline s tight) (rw (is_empty-solid s tight.left))
