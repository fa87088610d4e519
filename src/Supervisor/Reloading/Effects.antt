-- ===== src/Supervisor/Reloading/Effects.antt =====
-- The runner that each step of the reconciliation leaves (internal/supervisor/reload.go).
use my_own_agent.Prelude.{ℕ, ◌≡◌, refl, ◌&&◌, none, if◌then◌else◌, ap-if}
use my_own_agent.Config.{ModuleConfig}
use my_own_agent.Lifecycle.{failed, stopped, disabled, crash_looping, state_eq}
use my_own_agent.Supervisor.Window.{reset_window}
use my_own_agent.Supervisor.Runner.{Runner, Step}
use my_own_agent.Supervisor.Runner.Steps.{runner-set_state}
use my_own_agent.Supervisor.Reloading.{reconciled, disabled_step, enabled_step}

pub runner-reconciled :
    (now : ℕ) (cfg : ModuleConfig) (r : Runner)
    → (reconciled now cfg r).runner ≡ (
        if state_eq r.state crash_looping && cfg.enabled
        then record r {
          enabled = cfg.enabled;
          required = cfg.required;
          window = reset_window r.window;
          attempt = 0;
          last_err = none;
          retry_at = now;
          state = failed;
        }
        else record r { enabled = cfg.enabled; required = cfg.required })
unfolding reconciled
runner-reconciled now cfg r =
    ap-if (λ (t : Step). t.runner) (state_eq r.state crash_looping && cfg.enabled)
      (runner-set_state failed _) refl

pub runner-disabled_step :
    (r : Runner) → (disabled_step r).runner ≡ record r { retry_at = 0; state = disabled }
unfolding disabled_step
runner-disabled_step r = runner-set_state disabled _

pub runner-enabled_step :
    (r : Runner)
    → (enabled_step r).runner
      ≡ (if state_eq r.state disabled then record r { state = stopped } else r)
unfolding enabled_step
runner-enabled_step r =
    ap-if (λ (t : Step). t.runner) (state_eq r.state disabled) (runner-set_state stopped _) refl
