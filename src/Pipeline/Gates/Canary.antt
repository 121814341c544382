-- ===== src/Pipeline/Gates/Canary.antt =====
-- The canary gate against the levels of the samples.
use wow_server_sim.Common.{
  ℕ, ◌+◌, ◌<◌, ◌≡◌, ◌≢◌, ◌↔◌, refl, String, Bool, true, false, List, [], ◌∷◌, All, str_eq, leb,
  length, arith, Bool-cases, inl, inr,
}
use wow_server_sim.Float.{Float}
use wow_server_sim.Models.{HealthReport, Status, healthy, degraded, critical, status_name}
use wow_server_sim.Pipeline.Gates.{
  severity_level, scan_samples, evaluate_canary_health, check_build_preconditions,
  check_validate_gate,
}

module _ (threshold : String) where
  abbrev pub Below : String → Type 0
  Below sample = severity_level sample < severity_level threshold

  scan_samples_passed :
      (i n : ℕ) (samples : List String)
      → ((scan_samples i n threshold samples).0 ≡ true) ↔ All Below samples
  unfolding scan_samples
  scan_samples_passed i n [] = (λ h. tt, λ h. refl)
  scan_samples_passed i n (s ∷ samples) =
      let ih = scan_samples_passed (i + 1) n samples in
      elim (Bool-cases (leb (severity_level threshold) (severity_level s))) [
        | inl h ↦ rw h (λ e. cc, λ all. absurd (ground (arith, all.0)))
        | inr h ↦ rw h (λ e. (ground arith, ih.0 e), λ all. ih.1 all.1)
      ]

  -- The canary passes exactly when every sample lies below the threshold.
  pub evaluate_canary_health_passed :
      (samples : List String)
      → ((evaluate_canary_health samples threshold).0 ≡ true) ↔ All Below samples
  unfolding evaluate_canary_health
  evaluate_canary_health_passed samples = scan_samples_passed 0 (length samples) samples

critical_name : (st : Status) → str_eq (status_name st) "critical" ≡ true → st ≡ critical
critical_name healthy h = cc
critical_name degraded h = cc
critical_name critical h = refl

critical_name_self : (st : Status) → st ≢ critical → str_eq (status_name st) "critical" ≡ false
critical_name_self healthy h = refl
critical_name_self degraded h = refl
critical_name_self critical h = absurd (h refl)

build_gate :
    (R : Type 0) ⦃fl : Float R⦄ (reachable : Bool) (st : Status)
    → (check_build_preconditions {R = R} reachable (status_name st)).passed ≡ true
    → (reachable ≡ true) × (st ≢ critical)
unfolding check_build_preconditions
build_gate R true healthy h = (refl, λ e. cc)
build_gate R true degraded h = (refl, λ e. cc)
build_gate R true critical h = cc
build_gate R false st h = cc

module _ {R : Type 0} ⦃fl : Float R⦄ where
  -- The build gate opens exactly for a server that is reachable and not critical, the validation
  -- gate exactly for one that is reachable.
  pub gates_passed :
      (report : HealthReport R)
      → (((check_build_preconditions {R = R} report.server_reachable
              (status_name report.status)).passed
            ≡ true)
          ↔ ((report.server_reachable ≡ true) × (report.status ≢ critical)))
        × (((check_validate_gate report).passed ≡ true) ↔ (report.server_reachable ≡ true))
  unfolding check_build_preconditions check_validate_gate
  gates_passed report = (
    (
      build_gate R report.server_reachable report.status,
      λ h. rw (h.0, critical_name_self report.status h.1) refl,
    ),
    (λ h. ground arith, λ h. ground arith),
  )
