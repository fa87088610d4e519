-- ===== src/Supervisor/Runner/Legal.antt =====
-- Which transitions of finishStart and failLocked the table lacks (internal/supervisor/supervisor.go,
-- internal/module/state.go).
use my_own_agent.Prelude.{
  ℕ, ◌≡◌, refl, ap, ◌∙◌, Bool, true, false, not, ◌||◌, Option, none, some, [], any, arith,
  if◌then◌else◌, ap-if, ◌==◌, ◌∷◌,
}
use my_own_agent.Lifecycle.{
  State, starting, running, failed, unsupported, crash_looping, can_transition,
}
use my_own_agent.Diagnostics.{Code, Record}
use my_own_agent.Supervisor.Runner.{
  set_state, Error, Runner, Event, module_crash_loop, module_unsupported, Step, start_step,
  RestartPolicy, emit, add_diagnostic, schedule_or_quarantine, charge, fail_locked, note_panic,
  start_succeeded, start_unsupported, start_failed, settle_start, finish_start,
}
use my_own_agent.Supervisor.Runner.Outcomes.{outcome}
use my_own_agent.Supervisor.Runner.Steps.{is_illegal, any-append, illegal-set_state}

-- Whether an illegal transition has been logged.
abbrev pub has_illegal : Step → Bool
has_illegal s = any is_illegal s.events

illegal-emit :
    (x : Event) (s : Step) → has_illegal (emit x s) ≡ (has_illegal s || (is_illegal x || false))
unfolding emit
illegal-emit x s = any-append is_illegal s.events (x ∷ [])

illegal-add_diagnostic :
    (rec : Record) (s : Step) → has_illegal (add_diagnostic rec s) ≡ has_illegal s
unfolding add_diagnostic
illegal-add_diagnostic rec s = refl

or_false : (b : Bool) → (b || false) ≡ b
or_false true = refl
or_false false = refl

-- Whether one is logged behind a transition from `from` to `to`.
abbrev logged : Bool → State → State → Bool
logged before from to = before || not (can_transition from to)

illegal-schedule :
    (policy : RestartPolicy) (now : ℕ) (within : Bool) (s : Step)
    → has_illegal (schedule_or_quarantine policy now within s) ≡ (
        if within
        then logged (has_illegal s) s.runner.state failed
        else logged (has_illegal s) s.runner.state crash_looping)
unfolding schedule_or_quarantine emit
illegal-schedule policy now true s = illegal-set_state failed _
illegal-schedule policy now false s =
    any-append is_illegal (set_state crash_looping s).events (module_crash_loop s.runner.id ∷ [])
    ∙ or_false (has_illegal (set_state crash_looping s))
    ∙ illegal-set_state crash_looping s

illegal-fail_locked :
    (policy : RestartPolicy) (e : Error) (now : ℕ) (code : Code) (s : Step)
    → has_illegal (fail_locked policy e now code s) ≡ (
        if policy.enabled
        then if (charge now s.runner).1
          then logged (has_illegal s) s.runner.state failed
          else logged (has_illegal s) s.runner.state crash_looping
        else logged (has_illegal s) s.runner.state failed)
unfolding fail_locked
illegal-fail_locked policy e now code s =
    ap-if has_illegal policy.enabled
      (unfold charge in illegal-schedule policy now (charge now s.runner).1 _)
      (illegal-set_state failed _)

illegal-start_failed :
    (policy : RestartPolicy) (e : Error) (now : ℕ) (code : Code) (s : Step)
    → has_illegal (start_failed policy e now code s) ≡ (
        if policy.enabled
        then if (charge now s.runner).1
          then logged (has_illegal s) s.runner.state failed
          else logged (has_illegal s) s.runner.state crash_looping
        else logged (has_illegal s) s.runner.state failed)
unfolding start_failed charge
illegal-start_failed policy e now code s = with_panic e.is_panic
  where
    noted : Bool → Step
    noted b = note_panic b (record s { runner = record s.runner { last_err = some e } })

    with_panic :
        (b : Bool)
        → has_illegal (fail_locked policy e now code (noted b)) ≡ (
            if policy.enabled
            then if (charge now s.runner).1
              then logged (has_illegal s) s.runner.state failed
              else logged (has_illegal s) s.runner.state crash_looping
            else logged (has_illegal s) s.runner.state failed)
    with_panic true = illegal-fail_locked policy e now code (noted true)
    with_panic false = illegal-fail_locked policy e now code (noted false)

illegal-start_unsupported :
    (e : Error) (s : Step)
    → has_illegal (start_unsupported e s) ≡ logged (has_illegal s) s.runner.state unsupported
unfolding start_unsupported
illegal-start_unsupported e s =
    any-append is_illegal (set_state unsupported erred).events (module_unsupported s.runner.id ∷ [])
    ∙ or_false (has_illegal (set_state unsupported erred))
    ∙ illegal-set_state unsupported erred
  where
    erred : Step
    erred = record s { runner = record s.runner { last_err = some e } }

if_self {ℓ} : {A : Type ℓ} (n : ℕ) (x y : A) → (if n == n then x else y) ≡ x
if_self n x y = ground arith

-- Whether a state is the quarantine.
abbrev pub is_quarantined : State → Bool
is_quarantined crash_looping = true
is_quarantined _ = false

illegal-settle_start :
    (policy : RestartPolicy) (lease : Bool) (e : Option Error) (now : ℕ) (code : Code) (s : Step)
    → s.runner.state ≡ starting
    → has_illegal s ≡ false
    → has_illegal (settle_start policy lease e now code s)
      ≡ is_quarantined (outcome policy e (charge now s.runner).1)
unfolding settle_start can_transition charge
illegal-settle_start policy lease none now code s h n = ground (arith, succeeded)
  where
    succeeded :
        has_illegal (start_succeeded lease now s) ≡ logged (has_illegal s) s.runner.state running
    succeeded = illegal-set_state running _
illegal-settle_start policy lease (some e) now code s h n = ground (
  arith,
  ap-if has_illegal e.is_unsupported {x = start_unsupported e s}
      {y = start_failed policy e now code s} (illegal-start_unsupported e s)
      (illegal-start_failed policy e now code s),
)

-- A start attempt logs an illegal transition exactly when it ends in the quarantine: the table has no
-- step from Starting to CrashLooping. Every other outcome is a legal transition.
pub finish_start-illegal :
    (policy : RestartPolicy) (lease : Bool) (e : Option Error) (now : ℕ) (code : Code) (r : Runner)
    → r.state ≡ starting
    → has_illegal (finish_start policy r.generation lease e now code (start_step r))
      ≡ is_quarantined (outcome policy e (charge now r).1)
unfolding finish_start charge
finish_start-illegal policy lease e now code r h =
    ap has_illegal (if_self r.generation (settle_start policy lease e now code free) _)
    ∙ illegal-settle_start policy lease e now code free h refl
  where
    free : Step
    free = record { runner = record r { op_in_flight = false }; events = []; records = [] }
