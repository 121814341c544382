-- ===== src/Cli.antt =====
-- tools/wowsim/cli.py: the commands. click has parsed the options before, and prints a
-- ClickException as one line of error with the exit code 1; any other exception that leaves a
-- command is a traceback. A command of this model returns the texts that it echoes.
pub mod Faults
pub mod Reports
pub mod Deploy
pub mod Counts
pub mod Demo
pub mod Dashboard
use wow_server_sim.Common.{String, Option, none, some, List, [], ◌∷◌, ◌++◌, concat, ℤ}
use wow_server_sim.Models.{Params, int}
use wow_server_sim.Effects.{
  Error, control_client_error, os_error, click_exception, value_error, Outcome, ok, raise, spent,
  Session, Exec, Act,
}

-- `--format`
pub data Format : Type 0 where
  text json : Format

-- The handlers `except ControlClientError` and `except OSError` of the fault commands.
abbrev pub as_click : Error → Error
as_click (control_client_error m) = click_exception m
as_click (os_error m) = click_exception (concat ("Connection error: " ∷ m ∷ []))
as_click e = e

module _ {A : Type 0} where
  abbrev pub clicked : Outcome A → Outcome A
  clicked (raise e) = raise (as_click e)
  clicked r = r

  abbrev pub guarded : Exec A → Exec A
  guarded body s = let (r, s') = body s in (clicked r, s')

  -- `except ValueError as exc: raise click.ClickException(str(exc))`
  abbrev pub value_clicked : Outcome A → Outcome A
  value_clicked (raise (value_error m)) = raise (click_exception m)
  value_clicked r = r

-- The options `--delay-ms`, `--megabytes` and `--multiplier`.
pub record Tuning : Type 0 where
  pub delay_ms : Option ℤ
  pub megabytes : Option ℤ
  pub multiplier : Option ℤ

abbrev param : (name : String) → Option ℤ → Params
param name none = []
param name (some z) = (name, int z) ∷ []

unfoldable pub params_of : Tuning → Params
params_of t =
    param "delay_ms" t.delay_ms
    ++ (param "megabytes" t.megabytes ++ param "multiplier" t.multiplier)
