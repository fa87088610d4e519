-- ===== src/Supervisor/Interleaving.antt =====
-- One module under every interleaving of the operations on it (internal/supervisor). The goroutines
-- of the supervisor act on a runner in critical sections only; a World is the runner with the calls
-- of the module's Start and Stop that are under way. Whether the dependencies run is left open.
pub mod Exclusion
use my_own_agent.Prelude.{
  ℕ, zero, suc, ◌+◌, ◌-◌, ◌≡◌, ◌≤◌, ◌<◌, Bool, true, false, not, ◌&&◌, ◌||◌, Option, none, some,
  ◌==◌, if◌then◌else◌,
}
use my_own_agent.Lifecycle.{State, starting, can_transition, disabled, active}
use my_own_agent.Diagnostics.{Code, code_start_failed}
use my_own_agent.Supervisor.Graph.{ModuleId}
use my_own_agent.Supervisor.Runner.{
  Error, Runner, RestartPolicy, Step, start_step, finish_start, new_runner,
}
use my_own_agent.Supervisor.Control.{startable, defer_start, grant_start}
use my_own_agent.Supervisor.Stopping.{
  accepts_failure, failure_begun, failure_ended, dependent_begun, dependent_ended, stop_begun,
  stop_ended,
}
use my_own_agent.Config.{ModuleConfig}
use my_own_agent.Supervisor.Reloading.{reconciled, disabled_step, enabled_step}

-- `start` is the generation of the start attempt under way; `failing` and `yielding` are whether the
-- module is being stopped after its own failure, or for a dependency; `stops` counts the calls of
-- stopModule that wait for Stop, and `settled` is whether one has returned since the last start;
-- `shut` is the supervisor's `stopped`.
pub record World : Type 0 where
  pub runner : Runner
  pub start : Option ℕ
  pub failing : Bool
  pub yielding : Bool
  pub stops : ℕ
  pub settled : Bool
  pub shut : Bool

abbrev pub fresh : Runner → World
fresh r = record {
  runner = r;
  start = none;
  failing = false;
  yielding = false;
  stops = 0;
  settled = false;
  shut = false;
}

-- One critical section, under the restart policy of its time, which a reload may change. Shutdown stops modules behind `shut`, and Reload those that it has disabled;
-- Reload runs alone, so it changes a configuration only while no stop of its own is under way.
pub data Move : World → World → Type 0 where
  grant :
      (w : World)
      → w.shut ≡ false
      → startable w.runner ≡ true
      → Move w (record w {
        runner = (grant_start w.runner).runner;
        start = some (w.runner.generation + 1);
        settled = false;
      })
  defer :
      (w : World) (p : RestartPolicy) (now : ℕ) (dep : ModuleId)
      → w.shut ≡ false
      → startable w.runner ≡ true
      → Move w (record w { runner = (defer_start p now dep w.runner).runner })
  start_returns :
      (w : World) (p : RestartPolicy) (gen : ℕ) (lease : Bool) (e : Option Error) (now : ℕ)
      → w.start ≡ some gen
      → Move w (record w {
        runner = (finish_start p gen lease e now code_start_failed (start_step w.runner)).runner;
        start = none;
      })
  fail :
      (w : World) (gen : ℕ) (e : Error)
      → w.shut ≡ false
      → accepts_failure gen w.runner ≡ true
      → Move w (record w { runner = (failure_begun e w.runner).runner; failing = true })
  fail_returns :
      (w : World) (p : RestartPolicy) (e : Error) (lease : Bool) (stop_err : Option Error) (now : ℕ)
      → w.failing ≡ true
      → Move w (record w {
        runner = (failure_ended p e lease stop_err now w.runner).runner;
        failing = false;
      })
  yield :
      (w : World)
      → w.runner.op_in_flight ≡ false
      → active w.runner.state ≡ true
      → Move w (record w { runner = (dependent_begun w.runner).runner; yielding = true })
  yield_returns :
      (w : World) (p : RestartPolicy) (cause : ModuleId) (lease : Bool) (stop_err : Option Error)
      (now : ℕ)
      → w.yielding ≡ true
      → Move w (record w {
        runner = (dependent_ended p cause lease stop_err now w.runner).runner;
        yielding = false;
      })
  stop :
      (w : World)
      → w.shut || not w.runner.enabled ≡ true
      → active w.runner.state ≡ true
      → Move w (record w { runner = (stop_begun w.runner).runner; stops = w.stops + 1 })
  stop_idle :
      (w : World)
      → active w.runner.state ≡ false
      → Move w (record w { runner = (stop_begun w.runner).runner; settled = true })
  stop_returns :
      (w : World) (lease : Bool) (stop_err : Option Error)
      → 0 < w.stops
      → Move w (record w {
        runner = (stop_ended lease stop_err w.runner).runner;
        stops = w.stops - 1;
        settled = true;
      })
  configure :
      (w : World) (now : ℕ) (cfg : ModuleConfig)
      → w.shut || w.stops == 0 ≡ true
      → Move w (record w { runner = (reconciled now cfg w.runner).runner })
  disable :
      (w : World)
      → w.settled ≡ true
      → Move w (record w { runner = (disabled_step w.runner).runner })
  enable : (w : World) → Move w (record w { runner = (enabled_step w.runner).runner })
  shutdown : (w : World) → Move w (record w { shut = true })

pub data Reach (w : World) : World → Type 0 where
  here : Reach w w
  next : {u v : World} → Reach w u → Move u v → Reach w v
