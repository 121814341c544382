-- ===== src/Dashboard/Hints.antt =====
-- The texts that depend on the state of the dashboard: `compute_suggestion`, `status_to_style` and
-- `fault_action_label` of tools/wowsim/dashboard.py.
use wow_server_sim.Common.{ℕ, String, Bool, ◌&&◌, str_eq, ltb, ◌==◌, if◌then◌else◌}

unfoldable pub status_to_style : String → String
status_to_style status =
    if str_eq status "healthy"
    then "bold green"
    else if str_eq status "degraded"
    then "bold yellow"
    else if str_eq status "critical"
    then "bold red"
    else "bold white"

unfoldable pub compute_suggestion :
    (players active_faults : ℕ) (status : String) (pipeline_ran spawn_active : Bool) → String
compute_suggestion players active_faults status pipeline_ran spawn_active =
    if spawn_active
    then "Clients active — press [bold]k[/] to despawn, or [bold]a[/] to inject a fault"
    else if players == 0
    then "Press [bold]s[/] to spawn players"
    else if ltb 0 active_faults && str_eq status "critical"
    then "Press [bold]d[/] to deactivate fault and recover"
    else if ltb 0 active_faults
    then "Fault active — observe metrics"
    else if pipeline_ran
    then "Press [bold]s[/] for another scenario, or [bold]q[/] to quit"
    else "Press [bold]a[/] to inject a fault, or [bold]p[/] to run pipeline"

unfoldable pub fault_action_label : (active : Bool) → String
fault_action_label active = if active then "Deactivate" else "Activate"
