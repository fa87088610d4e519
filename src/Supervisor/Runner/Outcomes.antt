-- ===== src/Supervisor/Runner/Outcomes.antt =====
-- What a start attempt and a failure lead to (finishStart and failLocked of
-- internal/supervisor/supervisor.go, componentHealth of internal/supervisor/runner.go).
use my_own_agent.Prelude.{
  ℕ, ◌<◌, ◌+◌, leb, ◌≡◌, ◌≢◌, ◌↔◌, ◌⊎◌, Bool, false, not, ◌&&◌, Option, none, some, [], arith,
  if◌then◌else◌,
}
use my_own_agent.Lifecycle.{State, running, failed, crash_looping, unsupported}
use my_own_agent.Diagnostics.{Code}
use my_own_agent.Health.{unhealthy}
use my_own_agent.Supervisor.Window.Budget.{InOrder, count_younger, record_restart_budget}
use my_own_agent.Supervisor.Runner.Effects.{runner-fail_locked, runner-finish_start}
use my_own_agent.Supervisor.Runner.{
  Error, Runner, start_step, RestartPolicy, charge, fail_locked, finish_start,
}
use my_own_agent.Supervisor.Runner.Reports.{component_health}

-- A start attempt of an earlier generation changes nothing but the in-flight mark: its late result
-- cannot bring back a module that was stopped meanwhile, and records no diagnostic.
finish_start-stale :
    (policy : RestartPolicy) (gen : ℕ) (lease : Bool) (e : Option Error) (now : ℕ) (code : Code)
    (r : Runner)
    → gen ≢ r.generation
    → let s = finish_start policy gen lease e now code (start_step r) in
      (s.runner ≡ record r { op_in_flight = false }) × (s.records ≡ [])
unfolding finish_start
finish_start-stale policy gen lease e now code r h = ground arith

-- The state behind an outcome of Start; `within` is whether the restart budget allows a restart.
abbrev pub outcome : RestartPolicy → Option Error → Bool → State
outcome policy none within = running
outcome policy (some e) within =
    if e.is_unsupported
    then unsupported
    else if policy.enabled && not within
    then crash_looping
    else failed

-- The outcome of the current start attempt decides the state: Running without an error, Unsupported
-- where the module cannot run here, and otherwise Failed, or CrashLooping once the budget is spent.
-- In each case the module may be operated on again.
finish_start-outcome :
    (policy : RestartPolicy) (lease : Bool) (e : Option Error) (now : ℕ) (code : Code) (r : Runner)
    → let s = finish_start policy r.generation lease e now code (start_step r) in
      (s.runner.state ≡ outcome policy e (charge now r).1) × (s.runner.op_in_flight ≡ false)
unfolding charge
finish_start-outcome policy lease none now code r =
    ground (arith, runner-finish_start policy r.generation lease none now code r)
finish_start-outcome policy lease (some e) now code r =
    ground (arith, runner-finish_start policy r.generation lease (some e) now code r)

-- What failLocked leaves of a runner: with restarts disabled it is Failed, and with the budget spent
-- it is quarantined, and in both cases a restart is not scheduled anew; else it is Failed and the next
-- restart is scheduled. Every failure but with restarts disabled is counted.
abbrev pub after_failure : RestartPolicy → ℕ → Bool → Runner → State × ℕ × ℕ
after_failure policy now spent r =
    if not policy.enabled
    then (failed, r.retry_at, r.attempt)
    else if spent
    then (crash_looping, r.retry_at, r.attempt + 1)
    else (failed, now + policy.delay r.id (r.attempt + 1), r.attempt + 1)

-- With a window that is not 0, and restarts in the order of the clock, none of them later than now:
-- after a failure the module is quarantined where as many restarts as are allowed are less than a
-- window old, and is Failed else, with the next restart scheduled; with restarts disabled it is Failed
-- and none is scheduled.
pub fail_locked-quarantines :
    (policy : RestartPolicy) (e : Error) (now : ℕ) (code : Code) (r : Runner)
    → 0 < r.window.window
    → InOrder now r.window.events
    → let t = (fail_locked policy e now code (start_step r)).runner in
      let spent = leb r.window.max (count_younger now r.window.window r.window.events) in
      (t.state, t.retry_at, t.attempt) ≡ after_failure policy now spent r
unfolding charge
fail_locked-quarantines policy e now code r pos h = ground (
  arith,
  runner-fail_locked policy e now code (start_step r),
  record_restart_budget now r.window pos h,
)

-- The module counts as unhealthy exactly when it is quarantined, has failed and does not just wait
-- for a dependency, or runs and says so itself.
component_health-unhealthy :
    (r : Runner)
    → ((component_health r).status ≡ unhealthy) ↔ (
        (r.state ≡ crash_looping)
        ⊎ ((r.state ≡ failed) × (r.blocked_on_deps ≡ false))
        ⊎ ((r.state ≡ running) × (r.report.status ≡ unhealthy)))
unfolding component_health
component_health-unhealthy r = ground arith
