-- ===== src/Logs/Bursts.antt =====
-- `_detect_error_bursts` of tools/wowsim/log_parser.py.
pub mod First
use wow_server_sim.Common.{
  ℕ, suc, Bool, false, not, ◌&&◌, ◌||◌, List, [], ◌∷◌, str, concat, ltb, leb, if◌then◌else◌, length,
  select,
}
use wow_server_sim.Float.{Float}
use wow_server_sim.Models.{TelemetryEntry, Anomaly, critical_severity, burst}
use wow_server_sim.Logs.Entries.{is_error}
use wow_server_sim.Logs.Summary.{total_seconds}

module _ {R : Type 0} ⦃fl : Float R⦄ where
  open fl use {le, repr}

  -- The inner loop: the errors counted before the first that lies beyond the window.
  pub in_window : (window_start : ℕ) (window_sec : R) → List (TelemetryEntry R) → ℕ
  in_window window_start window_sec [] = 0
  in_window window_start window_sec (e ∷ errors) =
      let rest = in_window window_start window_sec errors in
      if le (total_seconds window_start e.timestamp) window_sec then suc rest else 0

  pub error_burst : (count threshold : ℕ) (window_sec : R) → TelemetryEntry R → Anomaly R
  error_burst count threshold window_sec e = record {
    type = "error_burst";
    severity = critical_severity;
    timestamp = e.timestamp;
    message = concat (
        str count
        ∷ " errors within "
        ∷ repr window_sec
        ∷ "s (threshold: "
        ∷ str threshold
        ∷ ")"
        ∷ []);
    details = burst count window_sec;
  }

  -- The outer loop, from the error at hand on, with its flag `reported`.
  pub scan_bursts :
      (reported : Bool) (threshold : ℕ) (window_sec : R)
      → List (TelemetryEntry R)
      → List (Anomaly R)
  unfolding in_window
  scan_bursts reported threshold window_sec [] = []
  scan_bursts reported threshold window_sec (e ∷ errors) =
      let count = in_window e.timestamp window_sec (e ∷ errors) in
      let found = leb threshold count && not reported in
      let rest = scan_bursts (reported || found) threshold window_sec errors in
      if found then error_burst count threshold window_sec e ∷ rest else rest

  unfoldable pub detect_error_bursts :
      List (TelemetryEntry R) → (threshold : ℕ) (window_sec : R) → List (Anomaly R)
  unfolding scan_bursts
  detect_error_bursts entries threshold window_sec =
      let errors = select (λ e. is_error e.type) entries in
      if ltb (length errors) threshold then [] else scan_bursts false threshold window_sec errors
