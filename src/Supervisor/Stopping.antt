-- ===== src/Supervisor/Stopping.antt =====
-- How a module is stopped: after a failure that it reported (handleRuntimeFailure), because of a
-- dependency (stopForDependency; both internal/supervisor/loop.go), or by Shutdown and Reload
-- (stopModule, internal/supervisor/lifecycle.go). Each has a critical section ahead of the call of
-- the module's Stop and one behind it, where the error of that call comes in.
pub mod Effects
use my_own_agent.Prelude.{
  ℕ, ◌+◌, Bool, true, false, not, ◌&&◌, ◌||◌, Option, none, some, List, [], ◌∷◌, ◌==◌,
  if◌then◌else◌,
}
use my_own_agent.Lifecycle.{
  State, running, stopping, stopped, failed, unsupported, disabled, active, state_eq,
}
use my_own_agent.Diagnostics.{
  warn, code_dependency_unavailable, code_start_failed, code_stop_failed,
}
use my_own_agent.Supervisor.Graph.{ModuleId}
use my_own_agent.Supervisor.Runner.{
  Error, Runner, Step, start_step, add_diagnostic, diagnostic, set_state, RestartPolicy,
  fail_locked, emit, lease_released,
}
use my_own_agent.Supervisor.Control.{Supervisor, commit, on_runner}

-- What callStop and its caller do with the result of Stop: the lease is released in any case.
unfoldable pub stop_returned : Bool → Option Error → Step → Step
unfolding emit add_diagnostic
stop_returned lease stop_err s =
    let freed = if lease then emit (lease_released s.runner.id) s else s in
    elim stop_err [
      | none ↦ freed
      | some e ↦ add_diagnostic (diagnostic code_stop_failed warn s.runner.id e.text "" []) freed
    ]

-- The tests of handleRuntimeFailure, but for s.stopped.
abbrev pub accepts_failure : ℕ → Runner → Bool
accepts_failure gen r = gen == r.generation && state_eq r.state running && not r.op_in_flight

unfoldable pub failure_begun : Error → Runner → Step
failure_begun e r =
    set_state stopping
      (start_step (record r { op_in_flight = true; last_err = some e; lease = false }))

-- The first critical section of handleRuntimeFailure.
unfoldable pub begin_failure : ℕ → ModuleId → ℕ → Error → Supervisor → Supervisor
unfolding failure_begun commit
begin_failure now id gen e s = elim (s.runners id) [
  | none ↦ s
  | some r ↦
      if not s.stopped_flag && accepts_failure gen r then commit now id (failure_begun e r) s else s
]

unfoldable pub failure_ended : RestartPolicy → Error → Bool → Option Error → ℕ → Runner → Step
unfolding fail_locked stop_returned
failure_ended policy e lease stop_err now r =
    let returned = stop_returned lease stop_err (start_step r) in
    let settled = record returned {
      runner = record returned.runner { op_in_flight = false; started_at = 0 };
    } in
    fail_locked policy e now code_start_failed (set_state stopped settled)

-- The second one. It does not ask whether the generation is still that of the failure.
unfoldable pub end_failure : ℕ → ModuleId → Error → Bool → Option Error → Supervisor → Supervisor
unfolding failure_ended on_runner
end_failure now id e lease stop_err s =
    on_runner (failure_ended s.policy e lease stop_err now) now id s

unfoldable pub dependent_begun : Runner → Step
dependent_begun r =
    if r.op_in_flight || not (active r.state)
    then start_step r
    else set_state stopping (
        start_step (record r { op_in_flight = true; generation = r.generation + 1; lease = false }))

-- The first critical section of stopForDependency.
unfoldable pub begin_dependent : ℕ → ModuleId → Supervisor → Supervisor
unfolding dependent_begun on_runner
begin_dependent now id s = on_runner dependent_begun now id s

unfoldable pub dependent_ended : RestartPolicy → ModuleId → Bool → Option Error → ℕ → Runner → Step
unfolding add_diagnostic stop_returned
dependent_ended policy cause lease stop_err now r =
    let returned = stop_returned lease stop_err (start_step r) in
    let settled = record returned {
      runner = record returned.runner {
        op_in_flight = false;
        started_at = 0;
        blocked_on_deps = true;
        last_err = some (record {
          is_unsupported = false;
          is_panic = false;
          text = "stopped because a dependency failed";
        });
        retry_at = now + policy.initial_backoff;
      };
    } in
    add_diagnostic
      (diagnostic code_dependency_unavailable warn r.id
        "stopped because a dependency failed; will restart automatically when it recovers"
        "resolve the failure in the named dependency" (("dependency", cause) ∷ []))
      (set_state failed (set_state stopped settled))

-- The second one.
unfoldable pub end_dependent :
    ℕ → ModuleId → ModuleId → Bool → Option Error → Supervisor → Supervisor
unfolding dependent_ended on_runner
end_dependent now id cause lease stop_err s =
    on_runner (dependent_ended s.policy cause lease stop_err now) now id s

unfoldable pub stop_begun : Runner → Step
unfolding active
stop_begun r =
    if active r.state
    then set_state stopping (start_step (record r { generation = r.generation + 1; lease = false }))
    else if state_eq r.state disabled || state_eq r.state unsupported
    then start_step r
    else set_state stopped (start_step (record r { retry_at = 0 }))

-- The first critical section of stopModule; the module's Stop is called if it was active.
unfoldable pub begin_stop : ℕ → ModuleId → Supervisor → Supervisor
unfolding stop_begun on_runner
begin_stop now id s = on_runner stop_begun now id s

unfoldable pub stop_ended : Bool → Option Error → Runner → Step
unfolding stop_returned
stop_ended lease stop_err r =
    stop_returned lease stop_err
      (set_state stopped (start_step (record r { started_at = 0; retry_at = 0 })))

-- The second one.
unfoldable pub end_stop : ℕ → ModuleId → Bool → Option Error → Supervisor → Supervisor
unfolding stop_ended on_runner
end_stop now id lease stop_err s = on_runner (stop_ended lease stop_err) now id s
