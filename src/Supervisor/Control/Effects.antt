-- ===== src/Supervisor/Control/Effects.antt =====
-- The runner that claimStart leaves (internal/supervisor/supervisor.go).
use my_own_agent.Prelude.{ℕ, ◌+◌, ◌≡◌, some, true, false}
use my_own_agent.Lifecycle.{starting, failed}
use my_own_agent.Supervisor.Graph.{ModuleId}
use my_own_agent.Supervisor.Runner.{Error, Runner, RestartPolicy}
use my_own_agent.Supervisor.Runner.Steps.{runner-set_state}
use my_own_agent.Supervisor.Control.{defer_start, grant_start}

abbrev dependency_error : Error
dependency_error = record {
  is_unsupported = false;
  is_panic = false;
  text = "dependency is not running";
}

pub runner-defer_start :
    (policy : RestartPolicy) (now : ℕ) (dep : ModuleId) (r : Runner)
    → (defer_start policy now dep r).runner ≡ record r {
      state = failed;
      blocked_on_deps = true;
      last_err = some dependency_error;
      retry_at = now + policy.initial_backoff;
    }
unfolding defer_start
runner-defer_start policy now dep r = runner-set_state failed _

pub runner-grant_start :
    (r : Runner)
    → (grant_start r).runner ≡ record r {
      generation = r.generation + 1;
      op_in_flight = true;
      blocked_on_deps = false;
      retry_at = 0;
      state = starting;
    }
unfolding grant_start
runner-grant_start r = runner-set_state starting _
