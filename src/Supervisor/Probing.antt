-- ===== src/Supervisor/Probing.antt =====
-- The health probes of the modules (probeAll and probe of internal/supervisor/loop.go). The module's
-- Health runs without the lock, and its outcome comes in as an argument.
pub mod Once
use my_own_agent.Prelude.{
  ℕ, String, Bool, true, false, not, ◌&&◌, Option, none, some, List, [], ◌∷◌, ◌==◌, if◌then◌else◌,
}
use my_own_agent.Lifecycle.{running, state_eq}
use my_own_agent.Diagnostics.{Record, warn, error, code_panic, code_health_timeout}
use my_own_agent.Health.{Report, unknown, unhealthy_report}
use my_own_agent.Supervisor.Graph.{ModuleId, update}
use my_own_agent.Supervisor.Runner.{Runner, Step, start_step, add_diagnostic, diagnostic}
use my_own_agent.Supervisor.Runner.Reports.{unknown_report}
use my_own_agent.Supervisor.Control.{Supervisor, on_runner}

-- Whether probeAll probes a module.
abbrev pub probeable : Option Runner → Bool
probeable none = false
probeable (some r) = state_eq r.state running && not r.probe_in_flight

-- r.probeInFlight = true
abbrev pub mark_probed : Option Runner → Option Runner
mark_probed none = none
mark_probed (some r) = some (record r { probe_in_flight = true })

-- The loop of probeAll, with the modules to be probed.
unfoldable pub claim_probes :
    List ModuleId → (ModuleId → Option Runner) → (ModuleId → Option Runner) × List ModuleId
claim_probes [] runners = (runners, [])
claim_probes (id ∷ ids) runners =
    let marked = claim_probes ids (update runners id (mark_probed (runners id))) in
    let same = claim_probes ids runners in
    if probeable (runners id) then (marked.0, id ∷ marked.1) else same

-- probeAll, up to its start of the probes.
unfoldable pub probe_all : Supervisor → Supervisor × List ModuleId
unfolding claim_probes
probe_all s =
    let (runners, targets) = claim_probes s.reg_order s.runners in
    if s.stopped_flag then (s, []) else (record s { runners = runners }, targets)

-- What valueWithTimeout returns for a probe.
pub data Probe : Type 0 where
  answered : Report → Probe
  panicked : Probe
  failed_probe : Probe

-- The loop over the diagnostics of a report.
unfoldable pub adopt_each : String → List Record → Step → Step
unfolding add_diagnostic
adopt_each source [] s = s
adopt_each source (d ∷ ds) s =
    adopt_each source ds (add_diagnostic (record d { source = source }) s)

-- The switch of probe.
unfoldable pub settle_probe : Probe → Step → Step
unfolding adopt_each
settle_probe (answered report) s =
    adopt_each s.runner.id report.diagnostics
      (record s { runner = record s.runner { report = report } })
settle_probe panicked s =
    add_diagnostic
      (diagnostic code_panic error s.runner.id
        "module panicked during health probe and was isolated" "" [])
      (record s {
        runner = record s.runner { report = unhealthy_report "health probe panicked" [] };
      })
settle_probe failed_probe s =
    add_diagnostic
      (diagnostic code_health_timeout warn s.runner.id "health probe exceeded its deadline"
        "inspect module load; a probe must be cheap and non-blocking" [])
      (record s {
        runner = record s.runner {
          report = unknown_report "health probe did not complete within its deadline";
        };
      })

-- The critical section of probe, and the deferred one behind it.
unfoldable pub end_probe : ℕ → ModuleId → Probe → Supervisor → Supervisor
unfolding settle_probe on_runner
end_probe now id outcome s = on_runner (λ r. settle_probe outcome (start_step r)) now id s

unfoldable pub release_probe : ℕ → ModuleId → Supervisor → Supervisor
unfolding on_runner
release_probe now id s = on_runner (λ r. start_step (record r { probe_in_flight = false })) now id s
