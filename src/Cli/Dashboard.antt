-- ===== src/Cli/Dashboard.antt =====
-- The command `dashboard` of tools/wowsim/cli.py, up to the start of the application.
use wow_server_sim.Common.{ℕ, String}
use wow_server_sim.Dashboard.Catalog.{DashboardConfig}
use wow_server_sim.Dashboard.App.{App, new_app}

-- The options of `dashboard`.
pub record DashboardOptions (R : Type 0) : Type 0 where
  pub log_file : String
  pub host : String
  pub port : ℕ
  pub control_port : ℕ
  pub refresh : R

module _ {R : Type 0} where
  unfoldable pub dashboard_config : DashboardOptions R → DashboardConfig R
  dashboard_config options = record {
    log_file = options.log_file;
    host = options.host;
    port = options.port;
    control_port = options.control_port;
    refresh_interval = options.refresh;
  }

  -- The application as it starts; its steps are those of a running `WoWDashboardApp`.
  unfoldable pub dashboard : DashboardOptions R → App R
  unfolding dashboard_config
  dashboard options = new_app (dashboard_config options)
