-- ===== src/Logs/Disconnects.antt =====
-- `_detect_unexpected_disconnects` of tools/wowsim/log_parser.py.
pub mod Unmatched
use wow_server_sim.Common.{
  ℕ, Bool, true, false, not, ◌&&◌, ◌||◌, Option, none, some, List, [], ◌∷◌, ◌++◌, str_eq, concat,
  ◌==◌, if◌then◌else◌,
}
use wow_server_sim.Models.{TelemetryEntry, Anomaly, warning, copied}
use wow_server_sim.Logs.Entries.{or_unknown, is_server_event}

abbrev pub mem_id : ℕ → List ℕ → Bool
mem_id i [] = false
mem_id i (j ∷ ids) = i == j || mem_id i ids

abbrev pub mem_session : Option ℕ → List ℕ → Bool
mem_session none ids = false
mem_session (some i) ids = mem_id i ids

abbrev pub add_session : Option ℕ → List ℕ → List ℕ
add_session none ids = ids
add_session (some i) ids = if mem_id i ids then ids else i ∷ ids

module _ {R : Type 0} where
  abbrev pub says_accepted : TelemetryEntry R → Bool
  says_accepted e = str_eq e.message "Connection accepted"

  abbrev pub says_disconnected : TelemetryEntry R → Bool
  says_disconnected e = str_eq e.message "Client disconnected"

  abbrev pub has_session : TelemetryEntry R → Bool
  has_session e = elim e.payload.session_id [ none ↦ false | some i ↦ true ]

  -- The first loop: `connected_ids` (a set) and `disconnected_entries`.
  pub split_sessions :
      List ℕ → List (TelemetryEntry R) → List (TelemetryEntry R) → List ℕ × List (TelemetryEntry R)
  split_sessions ids gone [] = (ids, gone)
  split_sessions ids gone (e ∷ entries) =
      let accepted = is_server_event e && (says_accepted e && has_session e) in
      let left =
        is_server_event e && (not (says_accepted e && has_session e) && says_disconnected e) in
      split_sessions (if accepted then add_session e.payload.session_id ids else ids)
        (if left then gone ++ e ∷ [] else gone) entries

  pub disconnect : TelemetryEntry R → Anomaly R
  disconnect e = record {
    type = "unexpected_disconnect";
    severity = warning;
    timestamp = e.timestamp;
    message =
        concat
          ("Client session " ∷ or_unknown e.payload.session_id ∷ " disconnected unexpectedly" ∷ []);
    details = copied e.payload;
  }

  -- The second loop.
  pub flag_unmatched : List ℕ → List (TelemetryEntry R) → List (Anomaly R)
  flag_unmatched ids [] = []
  flag_unmatched ids (e ∷ gone) =
      let rest = flag_unmatched ids gone in
      if mem_session e.payload.session_id ids then rest else disconnect e ∷ rest

  unfoldable pub detect_unexpected_disconnects : List (TelemetryEntry R) → List (Anomaly R)
  unfolding split_sessions flag_unmatched
  detect_unexpected_disconnects entries =
      let (ids, gone) = split_sessions [] [] entries in flag_unmatched ids gone
