-- ===== src/Logs/Bursts/First.antt =====
-- The burst detector against a relation that says which burst is reported.
use wow_server_sim.Common.{
  ℕ, ◌≤◌, ◌<◌, ◌≡◌, refl, Bool, true, false, List, [], ◌∷◌, length, take, All, get_elem?, some,
  select, Bool-cases, inl, inr, arith, ltb, leb, not, any, is_nil,
}
use wow_server_sim.Float.{Float}
use wow_server_sim.Models.{TelemetryEntry, Anomaly}
use wow_server_sim.Logs.Entries.{is_error, is_critical, is_warning}
use wow_server_sim.Logs.Summary.{total_seconds}
use wow_server_sim.Logs.Bursts.{in_window, error_burst, scan_bursts, detect_error_bursts}

module _ {R : Type 0} ⦃fl : Float R⦄ where
  open fl use {le}

  module _ (window_sec : R) where
    abbrev pub within : ℕ → TelemetryEntry R → Bool
    within start e = le (total_seconds start e.timestamp) window_sec

    -- The first `n` errors lie within the window from `start`, and the next one does not.
    pub record IsWindow (start : ℕ) (errors : List (TelemetryEntry R)) (n : ℕ) : Type 0 where
      pub fits : n ≤ length errors
      pub inside : All (λ x. within start x ≡ true) (take n errors)
      pub stops : (x : TelemetryEntry R) → get_elem? errors n ≡ some x → within start x ≡ false

    in_window-IsWindow :
        (start : ℕ) (errors : List (TelemetryEntry R))
        → IsWindow start errors (in_window start window_sec errors)
    unfolding in_window
    in_window-IsWindow start [] = record { fits = omega arith; inside = tt; stops = λ x h. cc }
    in_window-IsWindow start (e ∷ errors) = elim (Bool-cases (within start e)) [
      | inl h ↦
          let ih = in_window-IsWindow start errors in
          rw h (record { fits = omega (arith, ih.fits); inside = (h, ih.inside); stops = ih.stops })
      | inr h ↦ rw h (record { fits = omega arith; inside = tt; stops = λ x q. ground arith })
    ]

    module _ (threshold : ℕ) where
      -- What is reported for the errors in order: the first whose window holds at least
      -- `threshold` errors, with their number, and nothing else.
      pub data Reports : List (TelemetryEntry R) → List (Anomaly R) → Type 0 where
        quiet : Reports [] []
        pass :
            {e : TelemetryEntry R} {errors : List (TelemetryEntry R)} {found : List (Anomaly R)}
            → (n : ℕ) → IsWindow e.timestamp (e ∷ errors) n
            → n < threshold
            → Reports errors found
            → Reports (e ∷ errors) found
        hit :
            {e : TelemetryEntry R} {errors : List (TelemetryEntry R)}
            → (n : ℕ) → IsWindow e.timestamp (e ∷ errors) n
            → threshold ≤ n
            → Reports (e ∷ errors) (error_burst n threshold window_sec e ∷ [])

      scan_bursts_reported :
          (errors : List (TelemetryEntry R)) → scan_bursts true threshold window_sec errors ≡ []
      unfolding scan_bursts
      scan_bursts_reported [] = refl
      scan_bursts_reported (e ∷ errors) = ground (arith, scan_bursts_reported errors)

      scan_bursts-Reports :
          (errors : List (TelemetryEntry R))
          → Reports errors (scan_bursts false threshold window_sec errors)
      unfolding scan_bursts
      scan_bursts-Reports [] = quiet
      scan_bursts-Reports (e ∷ errors) =
          let n = in_window e.timestamp window_sec (e ∷ errors) in
          let w = in_window-IsWindow e.timestamp (e ∷ errors) in
          elim (Bool-cases (leb threshold n)) [
            | inl h ↦ rw h (rw scan_bursts_reported (hit n w (ground arith)))
            | inr h ↦ rw h (pass n w (ground arith) (scan_bursts-Reports errors))
          ]

      -- Too few errors give no burst, whichever window is looked at.
      short-Reports :
          (errors : List (TelemetryEntry R)) → length errors < threshold → Reports errors []
      short-Reports [] h = quiet
      short-Reports (e ∷ errors) h =
          let w = in_window-IsWindow e.timestamp (e ∷ errors) in
          pass _ w (omega (arith, w.fits)) (short-Reports errors (omega arith))

      -- The detector reports, of the error entries, the first whose window holds the threshold's
      -- number of errors or more, with their number, and nothing else.
      pub detect_error_bursts-Reports :
          (entries : List (TelemetryEntry R))
          → Reports
              (select (λ e. is_error e.type) entries)
              (detect_error_bursts entries threshold window_sec)
      unfolding detect_error_bursts
      detect_error_bursts-Reports entries =
          let errors = select (λ e. is_error e.type) entries in
          elim (Bool-cases (ltb (length errors) threshold)) [
            | inl h ↦ rw h (short-Reports errors (ground arith))
            | inr h ↦ rw h (scan_bursts-Reports errors)
          ]

      Reports_severities :
          {errors : List (TelemetryEntry R)} {found : List (Anomaly R)}
          → Reports errors found
          → (any is_critical found ≡ not (is_nil found)) × (any is_warning found ≡ false)
      unfolding error_burst
      Reports_severities quiet = (refl, refl)
      Reports_severities (pass n w h r) = Reports_severities r
      Reports_severities (hit n w h) = (refl, refl)

      -- A reported burst is critical.
      pub detect_error_bursts_severities :
          (entries : List (TelemetryEntry R))
          → let found = detect_error_bursts entries threshold window_sec in
            (any is_critical found ≡ not (is_nil found)) × (any is_warning found ≡ false)
      detect_error_bursts_severities entries =
          Reports_severities (detect_error_bursts-Reports entries)
