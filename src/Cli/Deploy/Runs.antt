-- ===== src/Cli/Deploy/Runs.antt =====
-- How the command `deploy` ends.
use wow_server_sim.Common.{ℤ, pos, ◌≡◌, ◌⊎◌, String, Option, none, some, List, [], ◌∷◌}
use wow_server_sim.Float.{Float}
use wow_server_sim.Effects.{Env, Error, Outcome, raise, Session}
use wow_server_sim.Effects.Rules.{Holds}
use wow_server_sim.Models.{Params, int, PipelineConfig, PipelineResult}
use wow_server_sim.Pipeline.Format.{format_pipeline_result}
use wow_server_sim.Pipeline.Run.Stages.{Wrote}
use wow_server_sim.Pipeline.Run.Outcomes.{Fulfils, Interrupted, deployed}
use wow_server_sim.Control.Duration.Meaning.{Means}
use wow_server_sim.Cli.{Format, Tuning}
use wow_server_sim.Cli.Faults.Outcomes.{Stops}
use wow_server_sim.Cli.Deploy.{DeployOptions, Exit}
use wow_server_sim.Cli.Deploy.Exits.{Echoes}

-- The options that are given, by the names of their parameters.
abbrev pub given : List (String × Option ℤ) → Params
given [] = []
given ((name, none) ∷ rest) = given rest
given ((name, some z) ∷ rest) = (name, int z) ∷ given rest

abbrev pub named : Tuning → List (String × Option ℤ)
named t = ("delay_ms", t.delay_ms) ∷ ("megabytes", t.megabytes) ∷ ("multiplier", t.multiplier) ∷ []

module _ {R : Type 0} (fl : Float R) (env : Env R) (dump : PipelineResult R → String)
    (options : DeployOptions R) where
  -- The pipeline runs with what the options say.
  pub record Carries (ticks : ℤ) (config : PipelineConfig R) : Type 0 where
    pub version : config.version ≡ options.deploy_version
    pub fault_id : config.fault_id ≡ options.fault_id
    pub action : config.action ≡ options.action
    pub params : config.params ≡ given (named options.tuning)
    pub zone : config.target_zone_id ≡ options.target_zone_id
    pub lasts : config.duration_ticks ≡ ticks
    pub canary : config.canary_duration_seconds ≡ options.canary_duration
    pub interval : config.canary_poll_interval_seconds ≡ options.canary_interval
    pub threshold : config.rollback_on ≡ options.rollback_on
    pub game : (config.game_host ≡ options.host) × (config.game_port ≡ options.port)
    pub control :
        (config.control_host ≡ options.host) × (config.control_port ≡ options.control_port)
    pub log_file : config.log_file ≡ options.log_file

  -- The number of ticks that the option `--duration` means.
  abbrev pub Lasts : Option String → ℤ → Type 0
  Lasts none ticks = ticks ≡ pos 0
  Lasts (some duration) ticks = Means fl duration ticks

  -- An exit after a run that has done what its outcome says.
  pub record Deploys (config : PipelineConfig R) (s : Session) (exit : Exit) (s' : Session)
      : Type 0 where
    pub result : PipelineResult R
    pub done : Fulfils config s.written result s'
    pub echoes :
        Echoes dump (λ r. format_pipeline_result ⦃fl = fl⦄ r) options.output_format result exit
    pub code : exit.code ≡ 0

  -- How `deploy` ends: a duration that means a number of ticks lets the pipeline run, and any other
  -- stops the command.
  abbrev pub Ends : Session → Outcome Exit × Session → Type 0
  Ends s out =
      ((ticks : ℤ) × (config : PipelineConfig R) × Lasts options.duration ticks
        × Carries ticks config
        × Holds (Deploys config s) (Interrupted config s.written)
            (Wrote (deployed config s.written)) out.0 out.1)
      ⊎ ((duration : String) × (e : Error) × (options.duration ≡ some duration)
          × Stops fl duration e
          × (out ≡ (raise e, s)))
