-- ===== src/Supervisor/Runner/Effects.antt =====
-- The runner that each critical section leaves, with its emissions left out: the form in which the
-- other proofs read finishStart and failLocked (internal/supervisor/supervisor.go).
use my_own_agent.Prelude.{
  ℕ, ◌+◌, ◌≡◌, refl, ap, ◌∙◌, Bool, true, false, Option, none, some, ◌==◌, if◌then◌else◌, ap-if,
  if_same,
}
use my_own_agent.Lifecycle.{running, failed, crash_looping, unsupported}
use my_own_agent.Diagnostics.{Code}
use my_own_agent.Supervisor.Runner.{
  Error, Runner, Step, start_step, RestartPolicy, schedule_or_quarantine, charge, fail_locked,
  awaiting_probe, note_panic, start_failed, settle_start, finish_start,
}
use my_own_agent.Supervisor.Runner.Steps.{runner-set_state}

-- The runner after failLocked.
abbrev pub failed_runner : RestartPolicy → ℕ → Runner → Runner
failed_runner policy now r =
    let (c, within) = charge now r in
    if policy.enabled
    then if within
      then record c { retry_at = now + policy.delay c.id c.attempt; state = failed }
      else record c { state = crash_looping }
    else record r { state = failed }

runner-schedule :
    (policy : RestartPolicy) (now : ℕ) (within : Bool) (s : Step)
    → (schedule_or_quarantine policy now within s).runner ≡ (
        if within
        then record s.runner {
          retry_at = now + policy.delay s.runner.id s.runner.attempt;
          state = failed;
        }
        else record s.runner { state = crash_looping })
unfolding schedule_or_quarantine
runner-schedule policy now true s = runner-set_state failed _
runner-schedule policy now false s = runner-set_state crash_looping s

pub runner-fail_locked :
    (policy : RestartPolicy) (e : Error) (now : ℕ) (code : Code) (s : Step)
    → (fail_locked policy e now code s).runner ≡ failed_runner policy now s.runner
unfolding fail_locked
runner-fail_locked policy e now code s =
    ap-if (λ (t : Step). t.runner) policy.enabled
      (runner-schedule policy now (charge now s.runner).1 _) (runner-set_state failed _)

-- The runner after the outcome of the current start attempt.
abbrev pub settled_runner : RestartPolicy → Bool → Option Error → ℕ → Runner → Runner
settled_runner policy lease none now r = record r {
  lease = lease;
  last_err = none;
  attempt = 0;
  started_at = now;
  report = awaiting_probe;
  state = running;
}
settled_runner policy lease (some e) now r =
    if e.is_unsupported
    then record r { last_err = some e; state = unsupported }
    else failed_runner policy now (record r { last_err = some e })

runner-note_panic : (b : Bool) (s : Step) → (note_panic b s).runner ≡ s.runner
unfolding note_panic
runner-note_panic true s = refl
runner-note_panic false s = refl

runner-start_failed :
    (policy : RestartPolicy) (e : Error) (now : ℕ) (code : Code) (s : Step)
    → (start_failed policy e now code s).runner
      ≡ failed_runner policy now (record s.runner { last_err = some e })
unfolding start_failed
runner-start_failed policy e now code s =
    runner-fail_locked policy e now code _
    ∙ ap (failed_runner policy now) (runner-note_panic e.is_panic _)

runner-settle_start :
    (policy : RestartPolicy) (lease : Bool) (e : Option Error) (now : ℕ) (code : Code) (s : Step)
    → (settle_start policy lease e now code s).runner ≡ settled_runner policy lease e now s.runner
unfolding settle_start
runner-settle_start policy lease none now code s = runner-set_state running _
runner-settle_start policy lease (some e) now code s =
    ap-if (λ (t : Step). t.runner) e.is_unsupported (runner-set_state unsupported _)
      (runner-start_failed policy e now code s)

pub runner-finish_start :
    (policy : RestartPolicy) (gen : ℕ) (lease : Bool) (e : Option Error) (now : ℕ) (code : Code)
    (r : Runner)
    → (finish_start policy gen lease e now code (start_step r)).runner ≡ (
        if gen == r.generation
        then settled_runner policy lease e now (record r { op_in_flight = false })
        else record r { op_in_flight = false })
unfolding finish_start
runner-finish_start policy gen lease e now code r =
    ap-if (λ (t : Step). t.runner) (gen == r.generation)
      (runner-settle_start policy lease e now code _)
      (ap-if (λ (t : Step). t.runner) lease refl refl ∙ if_same lease _)
