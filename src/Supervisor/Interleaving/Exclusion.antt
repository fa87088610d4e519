-- ===== src/Supervisor/Interleaving/Exclusion.antt =====
-- What no interleaving breaks (internal/supervisor).
use my_own_agent.Prelude.{
  ℕ, ◌+◌, ◌≡◌, ◌≢◌, ◌↔◌, ◌≤◌, ◌<◌, Bool, true, false, not, ◌||◌, Option, none, some, arith,
}
use my_own_agent.Lifecycle.{starting, crash_looping, can_transition, active}
use my_own_agent.Supervisor.Graph.{ModuleId}
use my_own_agent.Supervisor.Runner.{charge, new_runner}
use my_own_agent.Supervisor.Runner.Effects.{runner-finish_start}
use my_own_agent.Supervisor.Runner.Invariant.{IsSound}
use my_own_agent.Supervisor.Control.Effects.{runner-defer_start, runner-grant_start}
use my_own_agent.Supervisor.Stopping.Effects.{
  runner-failure_begun, runner-failure_ended, runner-dependent_begun, runner-dependent_ended,
  runner-stop_begun, runner-stop_ended,
}
use my_own_agent.Supervisor.Reloading.Effects.{
  runner-reconciled, runner-disabled_step, runner-enabled_step,
}
use my_own_agent.Supervisor.Interleaving.{
  World, fresh, Move, grant, defer, start_returns, fail, fail_returns, yield, yield_returns, stop,
  stop_idle, stop_returns, configure, disable, enable, shutdown, Reach, here, next,
}
use my_own_agent.Diagnostics.{code_start_failed}

abbrev pub one_if : Bool → ℕ
one_if true = 1
one_if false = 0

abbrev pub one_start : Option ℕ → ℕ
one_start none = 0
one_start (some gen) = 1

abbrev start_gen : Option ℕ → ℕ
start_gen none = 0
start_gen (some gen) = gen

pub record Holds (w : World) : Type 0 where
  pub sound : IsSound w.runner
  -- The mark of the runner counts the operations under way.
  pub marked :
      one_start w.start + one_if w.failing + one_if w.yielding ≡ one_if w.runner.op_in_flight
  pub past : start_gen w.start ≤ w.runner.generation
  pub current :
      w.start ≡ some w.runner.generation
      → (w.runner.state ≡ starting)
        × (w.runner.retry_at ≡ 0)
        × (w.runner.lease ≡ false)
        × (w.stops ≡ 0)
        × (w.settled ≡ false)
  pub starting_now : w.runner.state ≡ starting → w.start ≡ some w.runner.generation
  pub fail_clear :
      w.failing ≡ true
      → (w.runner.retry_at ≡ 0) × (w.runner.lease ≡ false) × (w.runner.state ≢ crash_looping)
  pub yield_clear :
      w.yielding ≡ true
      → (w.runner.retry_at ≡ 0) × (w.runner.lease ≡ false) × (w.runner.state ≢ crash_looping)
  pub guarded : 0 < w.stops → (w.shut || not w.runner.enabled ≡ true) × (w.runner.lease ≡ false)
  pub stopped_clear : w.settled ≡ true → w.runner.lease ≡ false

Move-Holds : {w w' : World} → Move w w' → Holds w → Holds w'
unfolding can_transition active charge
Move-Holds (grant w l s) h = ground (arith, runner-grant_start w.runner)
Move-Holds (defer w p now dep l s) h = ground (arith, runner-defer_start p now dep w.runner)
Move-Holds (start_returns w p gen lease none now s) h =
    ground (arith, runner-finish_start p gen lease none now code_start_failed w.runner)
Move-Holds (start_returns w p gen lease (some e) now s) h =
    ground (arith, runner-finish_start p gen lease (some e) now code_start_failed w.runner)
Move-Holds (fail w gen e l a) h = ground (arith, runner-failure_begun e w.runner)
Move-Holds (fail_returns w p e lease stop_err now f) h =
    ground (arith, runner-failure_ended p e lease stop_err now w.runner)
Move-Holds (yield w o a) h = ground (arith, runner-dependent_begun w.runner)
Move-Holds (yield_returns w p cause lease stop_err now y) h =
    ground (arith, runner-dependent_ended p cause lease stop_err now w.runner)
Move-Holds (stop w g a) h = ground (arith, runner-stop_begun w.runner)
Move-Holds (stop_idle w a) h = ground (arith, runner-stop_begun w.runner)
Move-Holds (stop_returns w lease stop_err n) h =
    ground (arith, runner-stop_ended lease stop_err w.runner)
Move-Holds (configure w now cfg c) h = ground (arith, runner-reconciled now cfg w.runner)
Move-Holds (disable w s) h = ground (arith, runner-disabled_step w.runner)
Move-Holds (enable w) h = ground (arith, runner-enabled_step w.runner)
Move-Holds (shutdown w) h = ground arith

Reach-Holds : {w w' : World} → Reach w w' → Holds w → Holds w'
Reach-Holds here h = h
Reach-Holds (next r m) h = Move-Holds m (Reach-Holds r h)

fresh-Holds :
    (id : ModuleId) (enabled required : Bool) (max window : ℕ)
    → Holds (fresh (new_runner id enabled required max window))
unfolding new_runner
fresh-Holds id enabled required max window = ground arith

-- Whatever the order in which starts, failures, stops, reloads and the shutdown act on a module, from
-- its registration on: at most one start or stop-for-restart of it is under way, and one is exactly
-- while the in-flight mark is set; Starting is the state exactly of a module whose current start is
-- under way; a restart is pending only in Failed; and a lease is held only in Running.
pub Reach-exclusive :
    (id : ModuleId) (enabled required : Bool) (max window : ℕ) (w : World)
    → Reach (fresh (new_runner id enabled required max window)) w
    → (one_start w.start + one_if w.failing + one_if w.yielding ≡ one_if w.runner.op_in_flight)
      × ((w.runner.state ≡ starting) ↔ (w.start ≡ some w.runner.generation))
      × IsSound w.runner
Reach-exclusive id enabled required max window w r =
    let h = Reach-Holds r (fresh-Holds id enabled required max window) in
    (h.marked, (h.starting_now, λ c. (h.current c).0), h.sound)
