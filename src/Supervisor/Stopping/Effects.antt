-- ===== src/Supervisor/Stopping/Effects.antt =====
-- The runner that each critical section of a stop leaves (internal/supervisor/loop.go and
-- lifecycle.go).
use my_own_agent.Prelude.{
  ℕ, ◌+◌, ◌≡◌, refl, ◌∙◌, ap, Bool, true, false, not, ◌||◌, Option, none, some, if◌then◌else◌,
  ap-if, if_same,
}
use my_own_agent.Lifecycle.{stopping, stopped, failed, disabled, unsupported, active, state_eq}
use my_own_agent.Diagnostics.{code_start_failed}
use my_own_agent.Supervisor.Graph.{ModuleId}
use my_own_agent.Supervisor.Runner.{Error, Runner, RestartPolicy, Step, start_step}
use my_own_agent.Supervisor.Runner.Steps.{runner-set_state}
use my_own_agent.Supervisor.Runner.Effects.{failed_runner, runner-fail_locked}
use my_own_agent.Supervisor.Stopping.{
  stop_returned, failure_begun, failure_ended, dependent_begun, dependent_ended, stop_begun,
  stop_ended,
}

runner-stop_returned :
    (lease : Bool) (stop_err : Option Error) (s : Step)
    → (stop_returned lease stop_err s).runner ≡ s.runner
unfolding stop_returned
runner-stop_returned lease none s = ap-if (λ (t : Step). t.runner) lease refl refl ∙ if_same lease _
runner-stop_returned lease (some e) s =
    ap-if (λ (t : Step). t.runner) lease refl refl ∙ if_same lease _

pub runner-failure_begun :
    (e : Error) (r : Runner)
    → (failure_begun e r).runner
      ≡ record r { op_in_flight = true; last_err = some e; lease = false; state = stopping }
unfolding failure_begun
runner-failure_begun e r = runner-set_state stopping _

-- A record that is stopped, and then fails.
pub runner-failure_ended :
    (policy : RestartPolicy) (e : Error) (lease : Bool) (stop_err : Option Error) (now : ℕ)
    (r : Runner)
    → (failure_ended policy e lease stop_err now r).runner
      ≡ failed_runner policy now
          (record r { op_in_flight = false; started_at = 0; state = stopped })
unfolding failure_ended
runner-failure_ended policy e lease stop_err now r =
    runner-fail_locked policy e now code_start_failed _
    ∙ ap (failed_runner policy now) (
        runner-set_state stopped _
        ∙ ap (λ (q : Runner). record q { op_in_flight = false; started_at = 0; state = stopped })
            (runner-stop_returned lease stop_err (start_step r)))

pub runner-dependent_begun :
    (r : Runner)
    → (dependent_begun r).runner ≡ (
        if r.op_in_flight || not (active r.state) then r else record r {
          op_in_flight = true;
          generation = r.generation + 1;
          lease = false;
          state = stopping;
        })
unfolding dependent_begun
runner-dependent_begun r =
    ap-if (λ (t : Step). t.runner) (r.op_in_flight || not (active r.state)) refl
      (runner-set_state stopping _)

abbrev dependency_failed : Error
dependency_failed = record {
  is_unsupported = false;
  is_panic = false;
  text = "stopped because a dependency failed";
}

pub runner-dependent_ended :
    (policy : RestartPolicy) (cause : ModuleId) (lease : Bool) (stop_err : Option Error) (now : ℕ)
    (r : Runner)
    → (dependent_ended policy cause lease stop_err now r).runner ≡ record r {
      op_in_flight = false;
      started_at = 0;
      blocked_on_deps = true;
      last_err = some dependency_failed;
      retry_at = now + policy.initial_backoff;
      state = failed;
    }
unfolding dependent_ended
runner-dependent_ended policy cause lease stop_err now r =
    runner-set_state failed _
    ∙ ap (λ (q : Runner). record q { state = failed }) (runner-set_state stopped _)
    ∙ ap
        (λ (q : Runner). record q {
          op_in_flight = false;
          started_at = 0;
          blocked_on_deps = true;
          last_err = some dependency_failed;
          retry_at = now + policy.initial_backoff;
          state = failed;
        })
        (runner-stop_returned lease stop_err (start_step r))

pub runner-stop_begun :
    (r : Runner)
    → (stop_begun r).runner ≡ (
        if active r.state
        then record r { generation = r.generation + 1; lease = false; state = stopping }
        else if state_eq r.state disabled || state_eq r.state unsupported
        then r
        else record r { retry_at = 0; state = stopped })
unfolding stop_begun
runner-stop_begun r =
    ap-if (λ (t : Step). t.runner) (active r.state) (runner-set_state stopping _)
      (ap-if (λ (t : Step). t.runner) (state_eq r.state disabled || state_eq r.state unsupported)
        refl (runner-set_state stopped _))

pub runner-stop_ended :
    (lease : Bool) (stop_err : Option Error) (r : Runner)
    → (stop_ended lease stop_err r).runner
      ≡ record r { started_at = 0; retry_at = 0; state = stopped }
unfolding stop_ended
runner-stop_ended lease stop_err r =
    runner-stop_returned lease stop_err _ ∙ runner-set_state stopped _
