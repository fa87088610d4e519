-- ===== src/Supervisor/Runner/Invariant.antt =====
-- What holds of every runner between two critical sections (internal/supervisor).
use my_own_agent.Prelude.{ℕ, ◌≡◌, ◌≢◌, Bool, true, false, Option, none, some, arith}
use my_own_agent.Lifecycle.{running, failed}
use my_own_agent.Supervisor.Runner.{Error, Runner, RestartPolicy, charge, new_runner}
use my_own_agent.Supervisor.Runner.Effects.{failed_runner, settled_runner}

pub record IsSound (r : Runner) : Type 0 where
  -- A restart is pending only for a failed module.
  pub retries_failed : r.retry_at ≢ 0 → r.state ≡ failed
  -- A capability lease is held only by a running module.
  pub leases_running : r.lease ≡ true → r.state ≡ running

new_runner-IsSound :
    (id : _) (enabled required : Bool) (max window : ℕ)
    → IsSound (new_runner id enabled required max window)
unfolding new_runner
new_runner-IsSound id enabled required max window = ground arith

-- What a start attempt relies on while it runs: no restart is pending, and no lease is held.
pub record IsClear (r : Runner) : Type 0 where
  pub no_retry : r.retry_at ≡ 0
  pub no_lease : r.lease ≡ false

failed_runner-IsSound :
    (policy : RestartPolicy) (now : ℕ) (r : Runner)
    → IsClear r
    → IsSound (failed_runner policy now r)
unfolding charge
failed_runner-IsSound policy now r h = ground arith

settled_runner-IsSound :
    (policy : RestartPolicy) (lease : Bool) (e : Option Error) (now : ℕ) (r : Runner)
    → IsClear r
    → IsSound (settled_runner policy lease e now r)
unfolding charge
settled_runner-IsSound policy lease none now r h = ground arith
settled_runner-IsSound policy lease (some e) now r h = ground arith
