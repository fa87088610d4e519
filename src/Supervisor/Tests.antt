-- ===== src/Supervisor/Tests.antt =====
-- Runs of the supervisor on small inputs, and its theorems at them.
use my_own_agent.Prelude.{◌+◌, leb, ◌≡◌, refl, ◌<◌, ◌↔◌, true, false, none, some, [], ◌∷◌, arith}
use my_own_agent.Lifecycle.{running, starting, stopping, crash_looping, can_transition}
use my_own_agent.Diagnostics.{code_start_failed, new_recorder}
use my_own_agent.Supervisor.Graph.{Graph, update}
use my_own_agent.Supervisor.Window.{Window, record_restart}
use my_own_agent.Supervisor.Window.Budget.{count_younger, record_restart_budget}
use my_own_agent.Supervisor.Runner.{
  Error, Runner, RestartPolicy, start_step, charge, new_runner, fail_locked, finish_start,
}
use my_own_agent.Supervisor.Runner.Outcomes.{outcome, after_failure, fail_locked-quarantines}
use my_own_agent.Supervisor.Runner.Legal.{has_illegal, is_quarantined, finish_start-illegal}
use my_own_agent.Supervisor.Runner.Invariant.{IsSound}
use my_own_agent.Supervisor.Control.{Supervisor, commit, grant_start, startable, claim_start}
use my_own_agent.Supervisor.Control.Claims.{
  MayStart, Started, claim_start-granted, claim_start_of_MayStart,
}
use my_own_agent.Supervisor.Stopping.{failure_ended}
use my_own_agent.Supervisor.Retries.{is_due, due_ids, soonest_retry}
use my_own_agent.Supervisor.Retries.Wakeups.{
  to_come, is_nil, soonest_retry-wakes, failure_ended-stuck,
}
use my_own_agent.Supervisor.Interleaving.{World, fresh, grant, start_returns, Reach, here, next}
use my_own_agent.Supervisor.Interleaving.Exclusion.{one_if, one_start, Reach-exclusive}

-- Two restarts are allowed within ten nanoseconds.
abbrev two_restarts : Window
two_restarts = record { max = 2; window = 10; events = 1 ∷ 8 ∷ [] }

record_restart_budget_example :
    ((record_restart 12 two_restarts).1 ≡ true) ↔ (count_younger 12 10 (1 ∷ 8 ∷ []) < 2)
record_restart_budget_example =
    record_restart_budget 12 two_restarts (omega arith) (omega arith, omega arith)

abbrev policy : RestartPolicy
policy = record { enabled = true; initial_backoff = 5; delay = λ id attempt. 5 }

abbrev refused : Error
refused = record { is_unsupported = false; is_panic = false; text = "connection refused" }

abbrev host : Runner
host = new_runner "host" true true 1 10

-- Its second start attempt is under way.
abbrev starting_host : Runner
starting_host = record host {
  state = starting;
  op_in_flight = true;
  generation = 2;
  window = record { max = 1; window = 10; events = 3 ∷ [] };
}

-- With a restart three nanoseconds ago the budget is spent.
quarantined : outcome policy (some refused) (charge 7 starting_host).1 ≡ crash_looping
unfolding charge record_restart
quarantined = refl

fail_locked-quarantines_example :
    let t = (fail_locked policy refused 7 code_start_failed (start_step starting_host)).runner in
    (t.state, t.retry_at, t.attempt)
    ≡ after_failure policy 7 (leb 1 (count_younger 7 10 (3 ∷ []))) starting_host
fail_locked-quarantines_example =
    fail_locked-quarantines policy refused 7 code_start_failed starting_host (omega arith)
      (omega arith)

finish_start-illegal_example :
    has_illegal
      (finish_start policy 2 false (some refused) 7 code_start_failed (start_step starting_host))
    ≡ is_quarantined (outcome policy (some refused) (charge 7 starting_host).1)
finish_start-illegal_example =
    finish_start-illegal policy false (some refused) 7 code_start_failed starting_host refl

-- "logs" needs "host", which runs.
abbrev two_graph : Graph
two_graph = record {
  order = "host" ∷ "logs" ∷ [];
  deps = update (λ _. []) "logs" ("host" ∷ []);
  dependents = update (λ _. []) "host" ("logs" ∷ []);
}

abbrev logs : Runner
logs = new_runner "logs" true false 1 10

abbrev two_modules : Supervisor
two_modules = record {
  policy = policy;
  runners =
      update (update (λ _. none) "host" (some (record host { state = running }))) "logs"
        (some logs);
  reg_order = "host" ∷ "logs" ∷ [];
  graph = some two_graph;
  started = true;
  stopped_flag = false;
  diags = new_recorder 0;
  events = [];
}

logs-MayStart : MayStart two_modules "logs" logs
unfolding can_transition new_runner
logs-MayStart = record {
  known = refl;
  live = refl;
  idle = refl;
  enabled = refl;
  legal = refl;
  deps = (refl, tt);
}

granted :
    claim_start 3 "logs" two_modules
    ≡ (commit 3 "logs" (grant_start logs) two_modules, some (logs.generation + 1))
granted = claim_start_of_MayStart 3 "logs" two_modules logs logs-MayStart

claim_start-granted_example :
    (r : Runner) × MayStart two_modules "logs" r
    × Started "logs"
        (logs.generation + 1)
        r
        two_modules
        (commit 3 "logs" (grant_start logs) two_modules)
claim_start-granted_example =
    claim_start-granted 3 "logs" two_modules (commit 3 "logs" (grant_start logs) two_modules)
      (logs.generation + 1) granted

-- "host" failed, and was disabled while it was being stopped.
abbrev disabled_host : Runner
disabled_host = record host { enabled = false; state = stopping; op_in_flight = true }

abbrev left_failed : Runner
left_failed = (failure_ended policy refused false none 7 disabled_host).runner

abbrev one_module : Supervisor
one_module = record two_modules { runners = update (λ _. none) "host" (some left_failed) }

-- Its restart is due at 12.
soonest_retry-wakes_example :
    to_come 12 (soonest_retry one_module)
    ≡ is_nil (due_ids 12 one_module.runners ("host" ∷ "logs" ∷ []))
soonest_retry-wakes_example = soonest_retry-wakes 12 one_module

within_budget : (charge 7 disabled_host).1 ≡ true
unfolding charge record_restart new_runner
within_budget = refl

failure_ended-stuck_example :
    (is_due 20 (one_module.runners "host") ≡ true)
    × (claim_start 20 "host" one_module ≡ (one_module, none))
failure_ended-stuck_example =
    failure_ended-stuck policy refused false none 7 20 "host" disabled_host one_module refl
      within_budget refl refl (omega arith) (omega arith)

-- A start of the new module, which succeeds.
abbrev started : World
started = record (fresh host) {
  runner = (grant_start host).runner;
  start = some (host.generation + 1);
  settled = false;
}

host-startable : startable host ≡ true
unfolding can_transition new_runner
host-startable = refl

abbrev succeeded : World
succeeded = record started {
  runner =
      (finish_start policy (host.generation + 1) true none 9 code_start_failed
        (start_step started.runner)).runner;
  start = none;
}

one_run : Reach (fresh host) succeeded
one_run =
    next (next here (grant (fresh host) refl host-startable))
      (start_returns started policy (host.generation + 1) true none 9 refl)

Reach-exclusive_example :
    (one_start succeeded.start + one_if succeeded.failing + one_if succeeded.yielding
      ≡ one_if succeeded.runner.op_in_flight)
    × ((succeeded.runner.state ≡ starting) ↔ (succeeded.start ≡ some succeeded.runner.generation))
    × IsSound succeeded.runner
Reach-exclusive_example = Reach-exclusive "host" true true 1 10 succeeded one_run
