-- ===== src/Cli/Faults/Outcomes.antt =====
-- How the commands of `wowsim inject-fault` end.
use wow_server_sim.Common.{
  ℕ, ℤ, pos, ◌+◌, ◌≡◌, ◌≢◌, ◌⊎◌, inl, inr, refl, String, Option, none, some, List, [], ◌∷◌, ◌++◌,
  arith,
}
use mathlib.Core.Path.{subst}
use wow_server_sim.Float.{Float}
use wow_server_sim.Effects.{
  Env, Error, os_error, control_client_error, overflow_error, click_exception, Outcome, ok, raise,
  spent, Session, Exec, pure, continue, ◌>>=◌,
}
use wow_server_sim.Models.{Request, ControlResponse}
use wow_server_sim.Control.Connections.{Exchanges, commands-Exchanges}
use wow_server_sim.Control.Duration.{parse_duration}
use wow_server_sim.Control.Duration.Meaning.{Overflows, Refused, parse_duration-Refused}
use wow_server_sim.Cli.{guarded, clicked, as_click, value_clicked, Tuning, params_of}
use wow_server_sim.Cli.Faults.{
  ticks_of, send_activate, activate, deactivate, deactivate_all, status, list_faults, done,
  status_text, faults_text,
}

-- Neither of the two exceptions that the commands handle.
abbrev pub IsClicked : Error → Type 0
IsClicked e = ((m : String) → e ≢ control_client_error m) × ((m : String) → e ≢ os_error m)

-- The command closes the sockets that it opens and writes nothing but `r`, at most once; where it
-- returns it has written it, and echoes one text; it comes to an end; and what it raises is no
-- ControlClientError and no OSError.
pub record Obeys (r : Request) (m : Exec (List String)) : Type 0 where
  pub balanced : (s : Session) → (m s).1.opened + s.closed ≡ s.opened + (m s).1.closed
  pub writes :
      (s : Session) → ((m s).1.written ≡ s.written) ⊎ ((m s).1.written ≡ s.written ++ r ∷ [])
  pub sent :
      (s : Session) (texts : List String)
      → (m s).0 ≡ ok texts
      → (m s).1.written ≡ s.written ++ r ∷ []
  pub ends : (s : Session) → (m s).0 ≢ spent
  pub raises : (s : Session) (e : Error) → (m s).0 ≡ raise e → IsClicked e

as_click-IsClicked : (e : Error) → IsClicked (as_click e)
as_click-IsClicked e = ground arith

module _ (f : ControlResponse → List String) where
  abbrev rest : Outcome ControlResponse → Session → Outcome (List String)
  rest r s = clicked (continue r (λ resp. pure (f resp)) s).0

  from_response :
      (r : Outcome ControlResponse) (s : Session) (texts : List String)
      → rest r s ≡ ok texts
      → (resp : ControlResponse) × (r ≡ ok resp)
  from_response (ok resp) s texts h = (resp, refl)
  from_response (raise e) s texts h = absurd cc
  from_response spent s texts h = absurd cc

  from_error :
      (r : Outcome ControlResponse) (s : Session) (e : Error) → rest r s ≡ raise e → IsClicked e
  from_error (ok resp) s e h = absurd cc
  from_error (raise x) s e h =
      let same : as_click x ≡ e = cc in subst IsClicked same (as_click-IsClicked x)
  from_error spent s e h = absurd cc

guarded-Obeys :
    (r : Request) (m : Exec ControlResponse) (f : ControlResponse → List String)
    → Exchanges r m
    → Obeys r (guarded (m >>= λ resp. pure (f resp)))
guarded-Obeys r m f x = record {
  balanced = λ s. ground (arith, x.balanced s);
  writes = λ s. ground (arith, x.writes s);
  sent =
      λ s texts h. let (resp, e) = from_response f _ _ texts h in ground (arith, x.sent s resp e);
  ends = λ s h. ground (arith, x.ends s);
  raises = λ s e h. from_error f _ _ e h;
}

parse_duration-ne : {R : Type 0} (fl : Float R) (text : String) → parse_duration fl text ≢ spent
unfolding parse_duration
parse_duration-ne fl text h = ground arith

value_clicked-ne : (o : Outcome ℤ) → o ≢ spent → value_clicked o ≢ spent
value_clicked-ne o h e = ground arith

pub ticks_of-ne :
    {R : Type 0} (fl : Float R) (duration : Option String) → ticks_of fl duration ≢ spent
unfolding ticks_of
ticks_of-ne fl none h = absurd cc
ticks_of-ne fl (some text) h =
    value_clicked-ne (parse_duration fl text) (parse_duration-ne fl text) h

-- Every command that sends a request.
pub commands-Obey :
    {R : Type 0} (env : Env R) (host : String) (port : ℕ) (fault_id : String)
    → Obeys (Request.deactivate fault_id) (deactivate env host port fault_id)
      × Obeys Request.deactivate_all (deactivate_all env host port)
      × Obeys (Request.status fault_id) (status env host port fault_id)
      × Obeys Request.list_faults (list_faults env host port)
unfolding deactivate deactivate_all status list_faults
commands-Obey env host port fault_id =
    let x = commands-Exchanges env host port fault_id [] (pos 0) (pos 0) in
    (
      guarded-Obeys _ _ (done "Deactivated") x.1,
      guarded-Obeys _ _ (λ resp. "All faults deactivated" ∷ []) x.2,
      guarded-Obeys _ _ (λ resp. status_text fault_id resp.status ∷ []) x.3,
      guarded-Obeys _ _ (λ resp. faults_text resp.faults ∷ []) x.4,
    )

module _ {R : Type 0} (fl : Float R) (env : Env R) (host : String) (port : ℕ) where
  -- How a command of `activate` ends, by what its duration is.
  abbrev pub EndsBy :
      (fault_id : String) → Tuning → (zone : ℤ) → Outcome ℤ → Exec (List String) → Type 0
  EndsBy fault_id tuning zone (ok ticks) m =
      Obeys (Request.activate fault_id (params_of tuning) zone ticks) m
  EndsBy fault_id tuning zone (raise e) m = (s : Session) → m s ≡ (raise e, s)
  EndsBy fault_id tuning zone spent m = ⊥

  module _ (fault_id : String) (tuning : Tuning) (duration : Option String) (zone : ℤ) where
    sends : ℤ → Exec (List String)
    sends = send_activate env host port fault_id tuning zone

    asks : ℤ → Request
    asks ticks = Request.activate fault_id (params_of tuning) zone ticks

    sends-Obeys : (ticks : ℤ) → Obeys (asks ticks) (sends ticks)
    unfolding sends asks send_activate params_of
    sends-Obeys ticks =
        guarded-Obeys _ _ (done "Activated")
          (commands-Exchanges env host port fault_id (params_of tuning) zone ticks).0

    by_ticks : (o : Outcome ℤ) → o ≢ spent → EndsBy fault_id tuning zone o (λ s. continue o sends s)
    unfolding sends asks
    by_ticks (ok ticks) h = sends-Obeys ticks
    by_ticks (raise e) h = λ s. refl
    by_ticks spent h = absurd (h refl)

    -- A duration that is missing or means a number of ticks is sent with the parameters of the
    -- options that are given, by a command that obeys its request; any other duration stops the
    -- command before it does anything outside.
    pub activate-EndsBy :
        EndsBy fault_id tuning zone
          (ticks_of fl duration)
          (activate fl env host port fault_id tuning duration zone)
    unfolding activate sends
    activate-EndsBy = by_ticks (ticks_of fl duration) (ticks_of-ne fl duration)

module _ {R : Type 0} (fl : Float R) where
  abbrev pub Stops : (text : String) → Error → Type 0
  Stops text e =
      ((m : String) × (e ≡ click_exception m))
      ⊎ ((m : String) × (e ≡ overflow_error m) × Overflows fl text)

  value_clicked-Stops :
      (text : String) (x e : Error)
      → Refused fl text x
      → value_clicked {A = ℤ} (raise x) ≡ raise e
      → Stops text e
  value_clicked-Stops text x e (inl (m, v)) h = inl (m, ground (arith, v))
  value_clicked-Stops text x e (inr (m, v, o)) h = inr (m, ground (arith, v), o)

  stops :
      (text : String) (o : Outcome ℤ) (e : Error)
      → parse_duration fl text ≡ o
      → value_clicked o ≡ raise e
      → Stops text e
  stops text (ok z) e p h = absurd cc
  stops text (raise x) e p h = value_clicked-Stops text x e (parse_duration-Refused fl text x p) h
  stops text spent e p h = absurd cc

  -- What an option `--duration` stops a command with is a message of click, or else the
  -- OverflowError of a number of seconds whose ticks are infinite.
  pub ticks_of-Stops :
      (text : String) (e : Error) → ticks_of fl (some text) ≡ raise e → Stops text e
  unfolding ticks_of
  ticks_of-Stops text e h = stops text (parse_duration fl text) e refl h
