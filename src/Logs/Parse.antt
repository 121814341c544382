-- ===== src/Logs/Parse.antt =====
-- `parse_line`, `parse_stream` and `parse_file` of tools/wowsim/log_parser.py, and the part of
-- `read_recent_entries` of health_check.py that works on the lines.
pub mod Whitespace
pub mod Stream
use Prim.Native.Char.{code}
use wow_server_sim.Common.{
  ℕ, String, Bool, true, false, ◌&&◌, ◌||◌, Option, none, some, List, [], ◌∷◌, leb, ◌==◌,
  if◌then◌else◌, take_last, is_space,
}
use wow_server_sim.Models.{TelemetryEntry}

pub lstrip : String → String
lstrip String.[] = String.[]
lstrip (String.◌∷◌ c s) = if is_space (code c) then lstrip s else String.◌∷◌ c s

abbrev pub is_empty : String → Bool
is_empty String.[] = true
is_empty (String.◌∷◌ c s) = false

pub rstrip : String → String
rstrip String.[] = String.[]
rstrip (String.◌∷◌ c s) =
    let rest = rstrip s in
    if is_space (code c) && is_empty rest then String.[] else String.◌∷◌ c rest

unfoldable pub strip : String → String
unfolding lstrip rstrip
strip s = rstrip (lstrip s)

-- `if entry is not None: entries.append(entry)`
abbrev pub keep {ℓ} : {A : Type ℓ} → Option A → List A → List A
keep none entries = entries
keep (some e) entries = e ∷ entries

-- `decode` is `json.loads` with `TelemetryEntry.model_validate`; `none` is JSONDecodeError or
-- ValidationError.
module _ {R : Type 0} (decode : String → Option (TelemetryEntry R)) where
  unfoldable pub parse_line : String → Option (TelemetryEntry R)
  parse_line line = let line' = strip line in if is_empty line' then none else decode line'

  unfoldable pub parse_stream : List String → List (TelemetryEntry R)
  parse_stream [] = []
  parse_stream (line ∷ lines) = keep (parse_line line) (parse_stream lines)

  unfoldable pub recent_entries : ℕ → List String → List (TelemetryEntry R)
  recent_entries max_lines lines = parse_stream (take_last max_lines lines)
