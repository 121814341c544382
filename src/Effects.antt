-- ===== src/Effects.antt =====
-- What the tools do to the outside world. An action takes the state of the session, and returns
-- what Python returns or raises with the state that it leaves. The answers of the outside (the
-- clock, the file system, the sockets, pydantic) are functions of the number of the call, so that
-- nothing is assumed of two calls that look alike.
pub mod Rules
use wow_server_sim.Common.{ℕ, ◌+◌, String, Bool, Option, List, ◌++◌, [], ◌∷◌}
use wow_server_sim.Models.{TelemetryEntry, Request, ControlResponse}

-- Exceptions: OSError and its subclasses (a timed out connection too), ControlClientError,
-- pydantic's ValidationError, ValueError, ZeroDivisionError, OverflowError, RuntimeError, and
-- click's ClickException, which ends a command with its message and the exit code 1.
pub data Error : Type 0 where
  os_error control_client_error validation_error value_error zero_division_error : String → Error
  overflow_error runtime_error click_exception : String → Error

-- `str(exc)`
abbrev pub error_text : Error → String
error_text (os_error m) = m
error_text (control_client_error m) = m
error_text (validation_error m) = m
error_text (value_error m) = m
error_text (zero_division_error m) = m
error_text (overflow_error m) = m
error_text (runtime_error m) = m
error_text (click_exception m) = m

-- `spent` is no outcome of the program: the fuel of a loop has run out.
pub data Outcome (A : Type 0) : Type 0 where
  ok : A → Outcome A
  raise : Error → Outcome A
  spent : Outcome A

-- What the outside answers.
pub data Answer (A : Type 0) : Type 0 where
  got : A → Answer A
  failed : Error → Answer A

abbrev pub returned : {A : Type 0} → Answer A → Outcome A
returned (got a) = ok a
returned (failed e) = raise e

pub record Env (R : Type 0) : Type 0 where
  pub monotonic : ℕ → R  -- time.monotonic(), by the number of readings before
  pub utc_now : ℕ → ℕ  -- datetime.now(UTC)
  pub open_connection : ℕ → String → ℕ → Answer (Unit {0})  -- host, port
  pub read_lines : ℕ → String → Answer (List String)
  pub exchange : ℕ → Request → Answer String  -- write, drain, readline; empty at end of file
  pub decode_entry : String → Option (TelemetryEntry R)  -- json.loads, model_validate
  pub decode_response : String → Answer ControlResponse  -- model_validate_json

-- The readings of the clock and the other calls so far, the sockets opened and closed, and the
-- requests written, in order.
pub record Session : Type 0 where
  pub readings : ℕ
  pub calls : ℕ
  pub opened : ℕ
  pub closed : ℕ
  pub written : List Request

abbrev pub fresh : Session
fresh = record { readings = 0; calls = 0; opened = 0; closed = 0; written = [] }

-- An action on a state of its own, and one on the session.
abbrev pub Act : (S A : Type 0) → Type 0
Act S A = S → Outcome A × S

abbrev pub Exec : Type 0 → Type 0
Exec = Act Session

module _ {S A : Type 0} where
  abbrev pub pure : A → Act S A
  pure a s = (ok a, s)

  abbrev pub throw : Error → Act S A
  throw e s = (raise e, s)

  -- `try: body` / `except Exception: handler`
  abbrev pub recover : Outcome A → S → Act S A → Outcome A × S
  recover (raise e) s handler = handler s
  recover r s handler = (r, s)

  abbrev pub try_except : Act S A → Act S A → Act S A
  try_except body handler s = let (r, s') = body s in recover r s' handler

  -- `try: body` / `finally: cleanup`, for a cleanup that raises nothing.
  abbrev pub try_finally : Act S A → (S → S) → Act S A
  try_finally body cleanup s = let (r, s') = body s in (r, cleanup s')

module _ {S A B : Type 0} where
  abbrev pub continue : Outcome A → (A → Act S B) → Act S B
  continue (ok a) f s = f a s
  continue (raise e) f s = (raise e, s)
  continue spent f s = (spent, s)

  infixl 5 ◌>>=◌ ◌>>◌
  abbrev pub ◌>>=◌ : Act S A → (A → Act S B) → Act S B
  ◌>>=◌ m f s = let (r, s') = m s in continue r f s'

  abbrev pub ◌>>◌ : Act S A → Act S B → Act S B
  m >> n = m >>= λ _. n

module _ {R : Type 0} (env : Env R) where
  abbrev pub now : Exec R
  now s = (ok (env.monotonic s.readings), record s { readings = s.readings + 1 })

  -- A call of the outside that is answered by the number of calls before it.
  abbrev pub ask : {A : Type 0} → (ℕ → Answer A) → Exec A
  ask answer s = (returned (answer s.calls), record s { calls = s.calls + 1 })
