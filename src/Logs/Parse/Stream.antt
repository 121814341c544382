-- ===== src/Logs/Parse/Stream.antt =====
-- What `parse_stream` and the reading of the newest lines keep.
use Prim.Native.String.{◌++◌ as ◌<>◌}
use wow_server_sim.Common.{
  ℕ, suc, ◌+◌, ◌≤◌, String, ◌≡◌, refl, Option, none, some, List, [], ◌∷◌, ◌++◌, length, take_last,
  arith, All, length-take_last-le, ap, ◌∙◌,
}
use wow_server_sim.Models.{TelemetryEntry}
use wow_server_sim.Logs.Parse.{parse_line, keep, parse_stream, recent_entries}
use wow_server_sim.Logs.Parse.Whitespace.{IsTight, parse_line-newline}

module _ {R : Type 0} (decode : String → Option (TelemetryEntry R)) where
  keep-append :
      (o : Option (TelemetryEntry R)) (xs ys : List (TelemetryEntry R))
      → keep o (xs ++ ys) ≡ keep o xs ++ ys
  keep-append none xs ys = refl
  keep-append (some e) xs ys = refl

  pub parse_stream-append :
      (xs ys : List String)
      → parse_stream decode (xs ++ ys) ≡ parse_stream decode xs ++ parse_stream decode ys
  unfolding parse_stream
  parse_stream-append [] ys = refl
  parse_stream-append (x ∷ xs) ys =
      rw (parse_stream-append xs ys) (keep-append (parse_line decode x) _ _)

  length-keep-le :
      (o : Option (TelemetryEntry R)) (xs : List (TelemetryEntry R))
      → length (keep o xs) ≤ length xs + 1
  length-keep-le none xs = omega arith
  length-keep-le (some e) xs = omega arith

  length-parse_stream-le : (lines : List String) → length (parse_stream decode lines) ≤ length lines
  unfolding parse_stream
  length-parse_stream-le [] = omega arith
  length-parse_stream-le (x ∷ xs) = omega (
    arith,
    length-parse_stream-le xs,
    length-keep-le (parse_line decode x) (parse_stream decode xs),
  )

  -- Reading the newest lines gives at most as many entries as lines were asked for, if that is
  -- not 0.
  pub length-recent_entries-le :
      (n : ℕ) (lines : List String) → length (recent_entries decode (suc n) lines) ≤ suc n
  unfolding recent_entries
  length-recent_entries-le n lines =
      omega (arith, length-parse_stream-le (take_last (suc n) lines), length-take_last-le n lines)

-- What a log file holds: entries, one to a line, and lines that are refused.
pub data Written (R : Type 0) : Type 0 where
  logged : TelemetryEntry R → Written R
  noise : String → Written R

module _ {R : Type 0} where
  abbrev pub logged_entries : List (Written R) → List (TelemetryEntry R)
  logged_entries [] = []
  logged_entries (logged e ∷ ws) = e ∷ logged_entries ws
  logged_entries (noise s ∷ ws) = logged_entries ws

  abbrev pub file_lines : (TelemetryEntry R → String) → List (Written R) → List String
  file_lines encode [] = []
  file_lines encode (logged e ∷ ws) = (encode e <> "\n") ∷ file_lines encode ws
  file_lines encode (noise s ∷ ws) = s ∷ file_lines encode ws

  abbrev pub NoiseRefused : (String → Option (TelemetryEntry R)) → List (Written R) → Type 0
  NoiseRefused decode [] = Unit
  NoiseRefused decode (logged e ∷ ws) = NoiseRefused decode ws
  NoiseRefused decode (noise s ∷ ws) = (parse_line decode s ≡ none) × NoiseRefused decode ws

-- An encoding that `decode` reads back, with no white space at its ends.
pub record IsCodec {R : Type 0} (encode : TelemetryEntry R → String)
    (decode : String → Option (TelemetryEntry R)) (ws : List (Written R)) : Type 0 where
  pub tight : All (λ e. IsTight (encode e)) (logged_entries ws)
  pub decode-encode : All (λ e. decode (encode e) ≡ some e) (logged_entries ws)

module _ {R : Type 0} (encode : TelemetryEntry R → String)
    (decode : String → Option (TelemetryEntry R)) where
  -- A log that holds entries, one encoded to a line, and lines that are refused, parses to its
  -- entries in order: where decoding inverts the encoding of these entries, and an encoded entry
  -- is not empty and has no white space at its ends.
  pub parse_stream-file_lines :
      (ws : List (Written R))
      → IsCodec encode decode ws
      → NoiseRefused decode ws
      → parse_stream decode (file_lines encode ws) ≡ logged_entries ws
  unfolding parse_stream
  parse_stream-file_lines [] c h = refl
  parse_stream-file_lines (logged e ∷ ws) c h =
      rw (parse_line-newline decode (encode e) c.tight.0 ∙ c.decode-encode.0) (
        ap (λ (l : List (TelemetryEntry R)). e ∷ l)
          (parse_stream-file_lines ws
            (record { tight = c.tight.1; decode-encode = c.decode-encode.1 }) h))
  parse_stream-file_lines (noise s ∷ ws) c h =
      rw h.0 (
        parse_stream-file_lines ws (record { tight = c.tight; decode-encode = c.decode-encode })
          h.1)
