-- ===== src/Logs/Disconnects/Unmatched.antt =====
-- The disconnect detector against one comprehension over the whole window.
use mathlib.Core.Path.{fun_ext}
use mathlib.Core.List.{append-nil, append_assoc}
use wow_server_sim.Common.{
  ℕ, String, distinct, ◌≡◌, refl, sym, ap, ◌∙◌, Bool, true, false, not, ◌&&◌, ◌||◌, Option, none,
  some, List, [], ◌∷◌, ◌++◌, map, select, any, select-select, str_eq, ◌==◌, if◌then◌else◌, arith,
}
use wow_server_sim.Models.{TelemetryEntry}
use wow_server_sim.Logs.Entries.{is_server_event, is_critical, is_warning}
use wow_server_sim.Logs.Disconnects.{
  mem_session, add_session, says_accepted, says_disconnected, has_session, split_sessions,
  disconnect, flag_unmatched, detect_unexpected_disconnects,
}

not_accepted :
    (m : String) → str_eq m "Client disconnected" ≡ true → str_eq m "Connection accepted" ≡ false
not_accepted m h = distinct m "Client disconnected" "Connection accepted" refl h

abbrev same_session : Option ℕ → Option ℕ → Bool
same_session (some i) (some j) = i == j
same_session none _ = false
same_session (some i) none = false

mem-add_session :
    (s t : Option ℕ) (ids : List ℕ)
    → mem_session s (add_session t ids) ≡ (same_session s t || mem_session s ids)
mem-add_session none t ids = refl
mem-add_session (some i) none ids = refl
mem-add_session (some i) (some j) ids = ground arith

same_session-none : (s : Option ℕ) → same_session s none ≡ false
same_session-none none = refl
same_session-none (some i) = refl

-- One round of the loop adds a session when the entry accepts one.
mem-round :
    (server accepted : Bool) (s t : Option ℕ) (ids : List ℕ)
    → mem_session s (
        if server && (accepted && elim t [ none ↦ false | some i ↦ true ])
        then add_session t ids
        else ids)
      ≡ (mem_session s ids || (server && (accepted && same_session s t)))
mem-round server accepted s t ids = ground (arith, mem-add_session s t ids, same_session-none s)

or_assoc : (a b c : Bool) → ((a || b) || c) ≡ (a || (b || c))
or_assoc a b c = ground arith

left_test :
    (server accepted gone : Bool)
    → (gone ≡ true → accepted ≡ false)
    → (has : Bool) → (server && (not (accepted && has) && gone)) ≡ (server && gone)
left_test server accepted gone h has = ground arith

append-if :
    {A : Type 0} (b : Bool) (xs : List A) (y : A) (zs : List A)
    → (if b then xs ++ y ∷ [] else xs) ++ zs ≡ xs ++ (if b then y ∷ zs else zs)
append-if true xs y zs = append_assoc xs (y ∷ []) zs
append-if false xs y zs = refl

module _ {R : Type 0} where
  abbrev pub left_server : TelemetryEntry R → Bool
  left_server e = is_server_event e && says_disconnected e

  -- `e` accepts the connection of the session `s`.
  abbrev pub accepts : Option ℕ → TelemetryEntry R → Bool
  accepts s e = is_server_event e && (says_accepted e && same_session s e.payload.session_id)

  mem-split_sessions :
      (s : Option ℕ) (es : List (TelemetryEntry R)) (ids : List ℕ) (gone : List (TelemetryEntry R))
      → mem_session s (split_sessions ids gone es).0 ≡ (mem_session s ids || any (accepts s) es)
  unfolding split_sessions
  mem-split_sessions s [] ids gone = ground arith
  mem-split_sessions s (e ∷ es) ids gone =
      mem-split_sessions s es _ _
      ∙ ap (λ (b : Bool). b || any (accepts s) es)
          (mem-round (is_server_event e) (says_accepted e) s e.payload.session_id ids)
      ∙ or_assoc (mem_session s ids) (accepts s e) (any (accepts s) es)

  gone-split_sessions :
      (es : List (TelemetryEntry R)) (ids : List ℕ) (gone : List (TelemetryEntry R))
      → (split_sessions ids gone es).1 ≡ gone ++ select left_server es
  unfolding split_sessions
  gone-split_sessions [] ids gone = sym (append-nil gone)
  gone-split_sessions (e ∷ es) ids gone =
      gone-split_sessions es _ _
      ∙ ap (λ (b : Bool). (if b then gone ++ e ∷ [] else gone) ++ select left_server es)
          (left_test (is_server_event e) (says_accepted e) (says_disconnected e)
            (not_accepted e.message) (has_session e))
      ∙ append-if (left_server e) gone e (select left_server es)

  flag_unmatched-eq-map :
      (ids : List ℕ) (gone : List (TelemetryEntry R))
      → flag_unmatched ids gone
        ≡ map disconnect (select (λ e. not (mem_session e.payload.session_id ids)) gone)
  unfolding flag_unmatched
  flag_unmatched-eq-map ids [] = refl
  flag_unmatched-eq-map ids (e ∷ gone) = ground (arith, flag_unmatched-eq-map ids gone)

  mem_all :
      (s : Option ℕ) (es : List (TelemetryEntry R))
      → mem_session s (split_sessions [] [] es).0 ≡ any (accepts s) es
  mem_all none es = mem-split_sessions none es [] []
  mem_all (some i) es = mem-split_sessions (some i) es [] []

  detect_unfolded :
      (es : List (TelemetryEntry R))
      → detect_unexpected_disconnects es
        ≡ flag_unmatched (split_sessions [] [] es).0 (split_sessions [] [] es).1
  unfolding detect_unexpected_disconnects
  detect_unfolded es = refl

  -- A disconnection is reported, in order, exactly when no entry of the window accepts a
  -- connection for its session.
  pub detect_unexpected_disconnects-eq-map :
      (es : List (TelemetryEntry R))
      → detect_unexpected_disconnects es
        ≡ map disconnect
            (select (λ e. left_server e && not (any (accepts e.payload.session_id) es)) es)
  detect_unexpected_disconnects-eq-map es =
      let ids = (split_sessions [] [] es).0 in
      detect_unfolded es
      ∙ flag_unmatched-eq-map ids (split_sessions [] [] es).1
      ∙ ap
          (λ (gone : List (TelemetryEntry R)).
            map disconnect (select (λ e. not (mem_session e.payload.session_id ids)) gone))
          (gone-split_sessions es [] [])
      ∙ ap (map disconnect) (select-select _ left_server es)
      ∙ ap (λ (p : TelemetryEntry R → Bool). map disconnect (select (λ e. left_server e && p e) es))
          (fun_ext (λ e. ap not (mem_all e.payload.session_id es)))

  warnings-disconnect :
      (p : TelemetryEntry R → Bool) (es : List (TelemetryEntry R))
      → (any is_critical (map disconnect (select p es)) ≡ false)
        × (any is_warning (map disconnect (select p es)) ≡ any p es)
  unfolding disconnect
  warnings-disconnect p [] = (refl, refl)
  warnings-disconnect p (e ∷ es) = ground (arith, warnings-disconnect p es)

  abbrev pub unmatched : List (TelemetryEntry R) → TelemetryEntry R → Bool
  unmatched es e = left_server e && not (any (accepts e.payload.session_id) es)

  pub detect_unexpected_disconnects_severities :
      (es : List (TelemetryEntry R))
      → (any is_critical (detect_unexpected_disconnects es) ≡ false)
        × (any is_warning (detect_unexpected_disconnects es) ≡ any (unmatched es) es)
  detect_unexpected_disconnects_severities es =
      rw detect_unexpected_disconnects-eq-map (warnings-disconnect (unmatched es) es)
