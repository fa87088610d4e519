-- ===== src/Supervisor/Runner/Reports.antt =====
-- The health that a module reports in each of its states (internal/supervisor/runner.go).
use my_own_agent.Prelude.{String, Option, none, some, [], if◌then◌else◌}
use my_own_agent.Lifecycle.{
  State, registered, starting, running, pausing, paused, resuming, stopping, stopped, failed,
  crash_looping, unsupported, disabled,
}
use my_own_agent.Health.{Report, unknown, degraded_report, unhealthy_report}
use my_own_agent.Supervisor.Runner.{Error, Runner}

-- The text of an error, or a fallback.
abbrev err_text : Option Error → String → String
err_text none fallback = fallback
err_text (some e) fallback = e.text

abbrev pub unknown_report : String → Report
unknown_report message = record { status = unknown; message = message; diagnostics = [] }

-- The switch of componentHealth, over r.state.
health_in : State → Runner → Report
health_in running r = r.report
health_in paused r = degraded_report "module is paused" []
health_in pausing r = degraded_report "module is paused" []
health_in resuming r = degraded_report "module is paused" []
health_in unsupported r =
    degraded_report (err_text r.last_err "module is not supported in this environment") []
health_in failed r =
    if r.blocked_on_deps
    then degraded_report "waiting for a dependency to become available" []
    else unhealthy_report (err_text r.last_err "module failed") []
health_in crash_looping r =
    unhealthy_report (err_text r.last_err "module is crash-looping and has been quarantined") []
health_in starting r = unknown_report "starting"
health_in stopping r = unknown_report "stopping"
health_in stopped r = unknown_report "stopped"
health_in registered r = unknown_report "registered"
health_in disabled r = unknown_report ""

-- (*runner).componentHealth
unfoldable pub component_health : Runner → Report
unfolding health_in
component_health r = health_in r.state r
