-- ===== src/Health/Status/Signals.antt =====
-- The signals that a status answers to, and that it is the worst of them.
use wow_server_sim.Common.{
  ℕ, ◌≤◌, ◌<◌, ◌≡◌, refl, ◌⊎◌, inl, inr, true, false, Bool-cases, Option, none, some, List, ◌&&◌,
  ◌==◌, ltb, any_cases, any-In, In, str_eq, arith,
}
use text.Mathlib.TextEquality.{eq_iff}
use wow_server_sim.Float.{Float}
use wow_server_sim.Models.{
  Anomaly, TickHealth, ZoneHealthSummary, GameMechanicSummary, Status, healthy, degraded, critical,
}
use wow_server_sim.Logs.Entries.{is_critical, is_warning}
use wow_server_sim.Health.Status.{overruns_often, mechanics_status, determine_status}
use wow_server_sim.Health.Status.Levels.{level}

module _ {R : Type 0} ⦃fl : Float R⦄ where
  open fl use {of_ℕ, true_div, lt}

  -- A signal of the mechanics: more than half of the casts blocked by the cooldown, less than half
  -- of them successful, or players that neither attack nor cast.
  pub data MechanicsSignal (players : ℕ) (m : GameMechanicSummary R) : Type 0 where
    blocked : lt (true_div 1 2) m.cast_metrics.gcd_block_rate ≡ true → MechanicsSignal players m
    failing :
        0 < m.cast_metrics.casts_started
        → lt m.cast_metrics.cast_success_rate (true_div 1 2) ≡ true
        → MechanicsSignal players m
    idle :
        0 < players
        → m.combat_metrics.total_attacks ≡ 0
        → m.cast_metrics.casts_started ≡ 0
        → MechanicsSignal players m

  -- No signal of the mechanics, or one.
  signal_cases :
      (players : ℕ) (m : GameMechanicSummary R)
      → (mechanics_status (some m) players ≡ healthy)
        ⊎ ((mechanics_status (some m) players ≡ degraded) × MechanicsSignal players m)
  unfolding mechanics_status
  signal_cases players m =
      let casts = m.cast_metrics in
      elim (Bool-cases (lt (true_div 1 2) casts.gcd_block_rate)) [
        | inl h ↦ inr (rw h refl, blocked h)
        | inr b ↦
            elim (Bool-cases
              (ltb 0 casts.casts_started && lt casts.cast_success_rate (true_div 1 2))) [
                | inl h ↦ inr (rw (b, h) refl, failing (ground (arith, h)) (ground (arith, h)))
                | inr f ↦
                    elim (Bool-cases (
                      ltb 0 players
                      && (m.combat_metrics.total_attacks == 0 && casts.casts_started == 0))) [
                        | inl h ↦ inr (
                          rw (b, f, h) refl,
                          idle (ground (arith, h)) (ground (arith, h)) (ground (arith, h)),
                        )
                        | inr i ↦ inl (rw (b, f, i) refl)
                      ]
              ]
      ]

  signal_degrades :
      (players : ℕ) (m : GameMechanicSummary R)
      → MechanicsSignal players m
      → mechanics_status (some m) players ≡ degraded
  unfolding mechanics_status
  signal_degrades players m (blocked h) = ground (arith, h)
  signal_degrades players m (failing c h) = ground (arith, c, h)
  signal_degrades players m (idle p a c) = ground (arith, p, a, c)

  module _ (tick : Option (TickHealth R)) (zones : List (ZoneHealthSummary R))
      (anomalies : List (Anomaly R)) (gm : Option (GameMechanicSummary R)) (players : ℕ) where
    -- A signal, and the status that it calls for.
    pub data Signal : Status → Type 0 where
      critical_anomaly : (a : Anomaly R) → In a anomalies → is_critical a ≡ true → Signal critical
      crashed_zone : (z : ZoneHealthSummary R) → In z zones → z.state ≡ "CRASHED" → Signal critical
      warning : (a : Anomaly R) → In a anomalies → is_warning a ≡ true → Signal degraded
      degraded_zone :
          (z : ZoneHealthSummary R) → In z zones → z.state ≡ "DEGRADED" → Signal degraded
      overruns :
          (t : TickHealth R) → tick ≡ some t → lt (of_ℕ 10) t.overrun_pct ≡ true → Signal degraded
      mechanics :
          (m : GameMechanicSummary R) → gm ≡ some m → MechanicsSignal players m → Signal degraded

    -- No signal calls for a worse status, and one calls for this status if it is not healthy.
    pub record IsWorst (status : Status) : Type 0 where
      pub bound : (l : Status) → Signal l → level l ≤ level status
      pub reached : (status ≡ healthy) ⊎ Signal status

    mechanics_cases :
        (o : Option (GameMechanicSummary R))
        → gm ≡ o
        → (mechanics_status o players ≡ healthy)
          ⊎ ((mechanics_status o players ≡ degraded) × Signal degraded)
    unfolding mechanics_status
    mechanics_cases none h = inl refl
    mechanics_cases (some m) h = elim (signal_cases players m) [
      | inl e ↦ inl e
      | inr (e, signal) ↦ inr (e, mechanics m h signal)
    ]

    overruns_cases :
        (o : Option (TickHealth R))
        → tick ≡ o
        → (overruns_often o ≡ false) ⊎ ((overruns_often o ≡ true) × Signal degraded)
    overruns_cases none h = inl refl
    overruns_cases (some t) h = elim (Bool-cases (overruns_often (some t))) [
      | inl e ↦ inr (e, overruns t h e)
      | inr e ↦ inl e
    ]

    bounded :
        (l : Status) → Signal l → level l ≤ level (determine_status tick zones anomalies gm players)
    unfolding determine_status
    bounded _ (critical_anomaly a i h) = ground (arith, any-In is_critical anomalies a i h)
    bounded _ (crashed_zone z i h) =
        ground
          (arith, any-In (λ z. str_eq z.state "CRASHED") zones z i ((eq_iff z.state "CRASHED").1 h))
    bounded _ (warning a i h) = ground (arith, any-In is_warning anomalies a i h)
    bounded _ (degraded_zone z i h) =
        ground (
          arith,
          any-In (λ z. str_eq z.state "DEGRADED") zones z i ((eq_iff z.state "DEGRADED").1 h),
        )
    bounded _ (overruns t e h) = rw e (ground (arith, h))
    bounded _ (mechanics m e h) = rw e (ground (arith, signal_degrades players m h))

    reaches :
        (determine_status tick zones anomalies gm players ≡ healthy)
        ⊎ Signal (determine_status tick zones anomalies gm players)
    unfolding determine_status
    reaches = elim (any_cases is_critical anomalies) [
      | inr (a, i, h, e) ↦ inr (rw e (critical_anomaly a i h))
      | inl c ↦ elim (any_cases (λ (z : ZoneHealthSummary R). str_eq z.state "CRASHED") zones) [
        | inr (z, i, h, e) ↦ inr (rw (c, e) (crashed_zone z i ((eq_iff z.state "CRASHED").0 h)))
        | inl cz ↦ elim (any_cases is_warning anomalies) [
          | inr (a, i, h, e) ↦ inr (rw (c, cz, e) (warning a i h))
          | inl w ↦
              elim (any_cases (λ (z : ZoneHealthSummary R). str_eq z.state "DEGRADED") zones) [
                | inr (z, i, h, e) ↦
                    inr (rw (c, cz, w, e) (degraded_zone z i ((eq_iff z.state "DEGRADED").0 h)))
                | inl dz ↦ elim (overruns_cases tick refl) [
                  | inr (e, signal) ↦ inr (rw (c, cz, w, dz, e) signal)
                  | inl o ↦ elim (mechanics_cases gm refl) [
                    | inr (e, signal) ↦ inr (rw (c, cz, w, dz, o, e) signal)
                    | inl e ↦ inl (rw (c, cz, w, dz, o, e) refl)
                  ]
                ]
              ]
        ]
      ]
    ]

    -- The status is the worst that a signal calls for, and healthy where there is none. A critical
    -- anomaly and a crashed zone call for critical; a warning, a zone that says DEGRADED, overruns
    -- in more than a tenth of the ticks, more than half of the casts blocked by the cooldown, less
    -- than half of them successful, and players of whom nobody attacks or casts call for degraded.
    pub determine_status-IsWorst : IsWorst (determine_status tick zones anomalies gm players)
    determine_status-IsWorst = record { bound = bounded; reached = reaches }
