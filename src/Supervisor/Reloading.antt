-- ===== src/Supervisor/Reloading.antt =====
-- Phase 3 of Reload: the configuration is swapped and the modules are reconciled with it
-- (internal/supervisor/reload.go).
pub mod Effects
pub mod Transaction
pub mod Atomic
pub mod Whole
pub mod Configured
pub mod Finishing
pub mod Others
pub mod Disabled
pub mod Tests
use my_own_agent.Prelude.{
  ℕ, ◌+◌, Bool, true, false, not, ◌&&◌, Option, none, some, List, [], ◌∷◌, ◌==◌, if◌then◌else◌,
}
use my_own_agent.Config.{ModuleConfig, RestartConfig}
use my_own_agent.Lifecycle.{State, failed, stopped, disabled, crash_looping, state_eq}
use my_own_agent.Supervisor.Graph.{ModuleId, Graph}
use my_own_agent.Supervisor.Window.{reset_window}
use my_own_agent.Supervisor.Runner.{Runner, Step, start_step, set_state}
use my_own_agent.Supervisor.Control.{Supervisor, commit, on_runner}

-- The release of a quarantine.
release_quarantine : ℕ → Runner → Step
release_quarantine now r =
    if state_eq r.state crash_looping && r.enabled
    then set_state failed (
        start_step (record r {
          window = reset_window r.window;
          attempt = 0;
          last_err = none;
          retry_at = now;
        }))
    else start_step r

-- The body of the loop over the modules, but for toStop and toStart.
unfoldable pub reconciled : ℕ → ModuleConfig → Runner → Step
unfolding release_quarantine
reconciled now cfg r =
    release_quarantine now (record r { enabled = cfg.enabled; required = cfg.required })

unfoldable pub apply_each : ℕ → (ModuleId → ModuleConfig) → List ModuleId → Supervisor → Supervisor
unfolding reconciled on_runner
apply_each now cfg [] s = s
apply_each now cfg (id ∷ ids) s =
    apply_each now cfg ids (on_runner (reconciled now (cfg id)) now id s)

-- toStop and toStart: the modules whose Enabled changes, against the configuration before.
changed :
    (Bool → Bool → Bool)
    → (ModuleId → Option Runner)
    → (ModuleId → ModuleConfig)
    → List ModuleId
    → List ModuleId
changed test runners cfg [] = []
changed test runners cfg (id ∷ ids) =
    let rest = changed test runners cfg ids in
    elim (runners id) [
      | none ↦ rest
      | some r ↦ let c = cfg id in if test r.enabled c.enabled then id ∷ rest else rest
    ]

pub to_stop : (ModuleId → ModuleConfig) → Supervisor → List ModuleId
unfolding changed
to_stop cfg s = changed (λ was now. was && not now) s.runners cfg s.reg_order

pub to_start : (ModuleId → ModuleConfig) → Supervisor → List ModuleId
unfolding changed
to_start cfg s = changed (λ was now. not was && now) s.runners cfg s.reg_order

-- The swap, under the lock: of s.cfg, the supervisor reads the settings of restarts. A module keeps the
-- backoff that it was registered with.
unfoldable pub swap_config :
    {F : Type 0} → ℕ → RestartConfig F → (ModuleId → ModuleConfig) → Graph → Supervisor → Supervisor
unfolding apply_each
swap_config now restart cfg graph s = apply_each now cfg s.reg_order (record s {
  graph = some graph;
  policy = record s.policy { enabled = restart.enabled; initial_backoff = restart.initial_backoff };
})

-- What follows stopModule for a module that is disabled.
unfoldable pub disabled_step : Runner → Step
disabled_step r = set_state disabled (start_step (record r { retry_at = 0 }))

unfoldable pub mark_disabled : ℕ → ModuleId → Supervisor → Supervisor
unfolding disabled_step on_runner
mark_disabled now id s = on_runner disabled_step now id s

-- What precedes startOnce for a module that is enabled.
unfoldable pub enabled_step : Runner → Step
enabled_step r =
    if state_eq r.state disabled then set_state stopped (start_step r) else start_step r

unfoldable pub mark_enabled : ℕ → ModuleId → Supervisor → Supervisor
unfolding enabled_step on_runner
mark_enabled now id s = on_runner enabled_step now id s
