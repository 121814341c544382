-- ===== src/Health/Report/Effect.antt =====
-- What the building of a report does to the session.
use wow_server_sim.Common.{
  pos, ℕ, ◌+◌, ◌≡◌, ◌≢◌, refl, String, Bool, true, false, Option, some, List, [], arith,
}
use wow_server_sim.Float.{Float}
use wow_server_sim.Logs.Parse.{recent_entries}
use wow_server_sim.Effects.{
  Env, Session, Exec, Outcome, ok, raise, spent, returned, Answer, got, failed, os_error,
  control_client_error, validation_error, value_error, zero_division_error, overflow_error,
  runtime_error, click_exception, recover, pure, continue,
}
use wow_server_sim.Models.{FaultInfo, ControlResponse}
use wow_server_sim.Control.{list_all_faults}
use wow_server_sim.Control.Connections.{commands-Exchanges}
use wow_server_sim.Health.Report.{active_of, assess, probe, query_faults, build_health_report}

module _ {R : Type 0} ⦃fl : Float R⦄ (env : Env R) where
  -- The action writes nothing to the control channel, reads no monotonic clock, and closes what it
  -- opens; and it comes to an end.
  pub record Quiet {A : Type 0} (m : Exec A) : Type 0 where
    pub written : (s : Session) → (m s).1.written ≡ s.written
    pub readings : (s : Session) → (m s).1.readings ≡ s.readings
    pub balanced : (s : Session) → (m s).1.opened + s.closed ≡ s.opened + (m s).1.closed
    pub ends : (s : Session) → (m s).0 ≢ spent

  -- Without the query of the faults, the building of a report writes nothing to the control
  -- channel, reads no monotonic clock, closes what it opens, and comes to an end.
  pub build_health_report-Quiet :
      (log_path : Option String) (host : String) (port : ℕ)
      → Quiet (build_health_report env log_path host port true)
  unfolding build_health_report
  build_health_report-Quiet log_path host port = record {
    written = λ s. ground arith;
    readings = λ s. ground arith;
    balanced = λ s. ground arith;
    ends = λ s h. ground arith;
  }

-- The connection is accepted, or refused with an OSError.
abbrev pub Probed : Answer (Unit {0}) → Bool → Type 0
Probed (got u) reachable = reachable ≡ true
Probed (failed (os_error m)) reachable = reachable ≡ false
Probed (failed e) reachable = ⊥

recovered :
    {A : Type 0} (r : Outcome A) (s : Session) (d : A)
    → r ≢ spent
    → (a : A) × ((recover r s (pure d)).0 ≡ ok a)
recovered (ok a) s d h = (a, refl)
recovered (raise e) s d h = (d, refl)
recovered spent s d h = absurd (h refl)

pure_ends :
    {A B : Type 0} (f : A → B) (r : Outcome A) (s : Session)
    → r ≢ spent
    → (continue r (λ a. pure (f a)) s).0 ≢ spent
pure_ends f (ok a) s h e = cc
pure_ends f (raise x) s h e = cc
pure_ends f spent s h e = h refl

module _ {R : Type 0} (env : Env R) where
  -- Whatever goes wrong on the control channel, the list of faults comes back.
  query_faults_returns :
      (skip : Bool) (host : String) (port : ℕ) (s : Session)
      → (fs : List FaultInfo) × ((query_faults env skip host port s).0 ≡ ok fs)
  unfolding query_faults
  query_faults_returns true host port s = ([], refl)
  query_faults_returns false host port s =
      let all = list_all_faults env host port s in
      recovered _ (continue all.0 (λ resp. pure (active_of resp.faults)) all.1).1 [] (
        pure_ends (λ (resp : ControlResponse). active_of resp.faults) all.0 all.1
          ((commands-Exchanges env host port "" [] (pos 0) (pos 0)).4.ends s))

  check_returns :
      (a : Answer (Unit {0})) (s : Session) (reachable : Bool)
      → Probed a reachable
      → (s' : Session) × (probe env (returned a) s ≡ (ok reachable, s')) × (s'.calls ≡ s.calls)
  check_returns (got u) s b h =
      (record s { opened = s.opened + 1; closed = s.closed + 1 }, rw h refl, refl)
  check_returns (failed (os_error m)) s b h = (s, rw h refl, refl)
  check_returns (failed (control_client_error m)) s b h = absurd h
  check_returns (failed (validation_error m)) s b h = absurd h
  check_returns (failed (value_error m)) s b h = absurd h
  check_returns (failed (zero_division_error m)) s b h = absurd h
  check_returns (failed (overflow_error m)) s b h = absurd h
  check_returns (failed (runtime_error m)) s b h = absurd h
  check_returns (failed (click_exception m)) s b h = absurd h

module _ {R : Type 0} ⦃fl : Float R⦄ (env : Env R) where
  -- With a log that can be read and a server port that accepts or refuses, a report always comes
  -- back, whatever the control channel does: the assessment of the newest 500 lines.
  pub build_health_report_returns :
      (path host : String) (port : ℕ) (skip : Bool) (s : Session) (reachable : Bool)
      (lines : List String)
      → Probed (env.open_connection s.calls host port) reachable
      → env.read_lines (s.calls + 1) path ≡ got lines
      → (t : ℕ) × (fs : List FaultInfo) × ((build_health_report env (some path) host port skip s).0
          ≡ ok (assess t reachable (recent_entries env.decode_entry 500 lines) fs))
  unfolding build_health_report
  build_health_report_returns path host port skip s reachable lines probed read =
      let s1 : Session = record s { calls = s.calls + 1 } in
      let (s2, checked, calls) =
        check_returns env (env.open_connection s.calls host port) s1 reachable probed in
      let s3 : Session = record s2 { calls = s2.calls + 1 } in
      let (fs, queried) = query_faults_returns env skip host port s3 in
      let read' : env.read_lines s2.calls path ≡ got lines = rw calls read in
      (
        env.utc_now (query_faults env skip host port s3).1.calls,
        fs,
        rw checked (rw read' (rw queried)),
      )
