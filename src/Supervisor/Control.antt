-- ===== src/Supervisor/Control.antt =====
-- The supervisor's state, and what it does to all of it while it holds its lock
-- (internal/supervisor/supervisor.go, loop.go, lifecycle.go and reload.go). Between two of these
-- steps other goroutines may run; a step is one critical section.
pub mod Effects
pub mod Claims
use my_own_agent.Prelude.{
  ℕ, zero, suc, ◌+◌, String, Bool, true, false, not, ◌&&◌, ◌||◌, Option, none, some, List, [], ◌∷◌,
  ◌++◌, leb, ltb, ◌==◌, str_eq, if◌then◌else◌, Result, ok, err,
}
use my_own_agent.Lifecycle.{
  State, starting, running, stopping, stopped, failed, crash_looping, unsupported, disabled, active,
  state_eq, can_transition,
}
use my_own_agent.Diagnostics.{
  Record, Recorder, add_record, warn, error, code_dependency_unavailable, code_start_failed,
  code_stop_failed,
}
use my_own_agent.Health.{Aggregate, ComponentHealth, aggregate_of}
use my_own_agent.Supervisor.Graph.{ModuleId, Graph, update}
use my_own_agent.Supervisor.Runner.{
  Error, Runner, Event, Step, start_step, add_diagnostic, diagnostic, set_state, RestartPolicy,
  fail_locked, finish_start, new_runner,
}
use my_own_agent.Supervisor.Runner.Reports.{component_health}

pub record Supervisor : Type 0 where
  pub policy : RestartPolicy
  pub runners : ModuleId → Option Runner
  pub reg_order : List ModuleId
  pub graph : Option Graph
  pub started : Bool
  pub stopped_flag : Bool
  pub diags : Recorder
  pub events : List Event

add_records : ℕ → List Record → Recorder → Recorder
add_records now [] r = r
add_records now (rec ∷ rest) r = add_records now rest (add_record now rec r)

-- The runner goes back into the map; its events and diagnostics join those of the supervisor.
unfoldable pub commit : ℕ → ModuleId → Step → Supervisor → Supervisor
unfolding add_records
commit now id st s = record s {
  runners = update s.runners id (some st.runner);
  events = s.events ++ st.events;
  diags = add_records now st.records s.diags;
}

-- A critical section on one module; there is nothing to do for one that is not registered.
unfoldable pub on_runner : (Runner → Step) → ℕ → ModuleId → Supervisor → Supervisor
unfolding commit
on_runner f now id s = elim (s.runners id) [ none ↦ s | some r ↦ commit now id (f r) s ]

-- Whether a module is there and running.
abbrev pub is_running : Option Runner → Bool
is_running none = false
is_running (some r) = state_eq r.state running

-- The loop of claimStart over the dependencies: the first that is not running.
unfoldable pub first_blocked : (ModuleId → Option Runner) → List ModuleId → Option ModuleId
first_blocked runners [] = none
first_blocked runners (dep ∷ rest) =
    let later = first_blocked runners rest in if is_running (runners dep) then later else some dep

abbrev pub dependencies : Option Graph → ModuleId → List ModuleId
dependencies none id = []
dependencies (some g) id = g.deps id

-- The tests of claimStart ahead of its loop.
abbrev pub startable : Runner → Bool
startable r = not r.op_in_flight && r.enabled && can_transition r.state starting

-- The body of that loop. The state is assigned ahead of setStateLocked, which then does nothing.
pub defer_start : RestartPolicy → ℕ → ModuleId → Runner → Step
unfolding add_diagnostic
defer_start policy now dep r = set_state failed (
    add_diagnostic
      (diagnostic code_dependency_unavailable warn r.id
        "start deferred: a required dependency is not running"
        "check the health of the named dependency; this module will start automatically once it is available"
        (("dependency", dep) ∷ []))
      (start_step (record r {
        state = failed;
        blocked_on_deps = true;
        last_err = some (record {
          is_unsupported = false;
          is_panic = false;
          text = "dependency is not running";
        });
        retry_at = now + policy.initial_backoff;
      })))

-- The end of claimStart.
pub grant_start : Runner → Step
grant_start r = set_state starting (
    start_step (record r {
      generation = r.generation + 1;
      op_in_flight = true;
      blocked_on_deps = false;
      retry_at = 0;
    }))

-- claimStart of a module that may start; the result is the generation of the attempt.
unfoldable pub claim_known : ℕ → ModuleId → Runner → Supervisor → Supervisor × Option ℕ
unfolding first_blocked
claim_known now id r s = elim (first_blocked s.runners (dependencies s.graph id)) [
  | some dep ↦ (commit now id (defer_start s.policy now dep r) s, none)
  | none ↦ (commit now id (grant_start r) s, some (r.generation + 1))
]

unfoldable pub claim_runner : ℕ → ModuleId → Option Runner → Supervisor → Supervisor × Option ℕ
unfolding claim_known
claim_runner now id none s = (s, none)
claim_runner now id (some r) s =
    if s.stopped_flag then (s, none) else if startable r then claim_known now id r s else (s, none)

-- claimStart
unfoldable pub claim_start : ℕ → ModuleId → Supervisor → Supervisor × Option ℕ
unfolding claim_runner
claim_start now id s = claim_runner now id (s.runners id) s

-- finishStart, for the module with this ID.
unfoldable pub complete_start : ℕ → ModuleId → ℕ → Bool → Option Error → Supervisor → Supervisor
unfolding on_runner finish_start
complete_start now id gen lease e s =
    on_runner (λ r. finish_start s.policy gen lease e now code_start_failed (start_step r)) now id s

-- The components that Health aggregates.
health_components : (ModuleId → Option Runner) → List ModuleId → List ComponentHealth
unfolding component_health
health_components runners [] = []
health_components runners (id ∷ ids) =
    let rest = health_components runners ids in
    elim (runners id) [
      | none ↦ rest
      | some r ↦
          if state_eq r.state disabled || not r.enabled
          then rest
          else record { id = id; required = r.required; report = component_health r } ∷ rest
    ]

-- (*Supervisor).Health
unfoldable health_of : Supervisor → Aggregate
unfolding health_components aggregate_of
health_of s = aggregate_of (health_components s.runners s.reg_order)

-- What Register refuses.
pub data RegisterError : Type 0 where
  empty_id empty_version after_start already_registered : RegisterError

-- Register of a module with a manifest, once its Manifest method has returned.
unfoldable register :
    ModuleId → String → Bool → Bool → ℕ → ℕ → Supervisor → Result RegisterError Supervisor
unfolding new_runner
register id version enabled required max_restarts window s =
    if str_eq id ""
    then err empty_id
    else if str_eq version ""
    then err empty_version
    else if s.started
    then err after_start
    else elim (s.runners id) [
      | some r ↦ err already_registered
      | none ↦ ok (record s {
        runners = update s.runners id (some (new_runner id enabled required max_restarts window));
        reg_order = s.reg_order ++ id ∷ [];
      })
    ]
