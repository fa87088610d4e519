-- ===== src/Supervisor/Runner.antt =====
-- The bookkeeping of one module (internal/supervisor/runner.go), and what the supervisor does to it
-- while it holds its lock (internal/supervisor/supervisor.go). A nil error is none, and the zero
-- time is 0.
pub mod Reports
pub mod Steps
pub mod Effects
pub mod Outcomes
pub mod Legal
pub mod Invariant
use my_own_agent.Prelude.{
  ℕ, ◌+◌, String, Bool, true, false, not, ◌&&◌, ◌||◌, Option, none, some, List, [], ◌∷◌, ◌++◌, leb,
  ◌==◌, if◌then◌else◌,
}
use my_own_agent.Lifecycle.{
  State, registered, starting, running, pausing, paused, resuming, stopping, stopped, failed,
  crash_looping, unsupported, disabled, active, state_eq, can_transition,
}
use my_own_agent.Diagnostics.{
  Record, Severity, warn, error, Code, code_unsupported, code_panic, code_crash_loop,
}
use my_own_agent.Health.{Report, Status, unknown, degraded_report, unhealthy_report}
use my_own_agent.Supervisor.Graph.{ModuleId}
use my_own_agent.Supervisor.Window.{Window, new_window, record_restart}

-- An error as the supervisor tells errors apart: by IsUnsupported, by errors.As of a PanicError, and
-- by its text.
pub record Error : Type 0 where
  pub is_unsupported : Bool
  pub is_panic : Bool
  pub text : String

-- The runner struct; `lease` is whether a capability lease is held. The module and its manifest are
-- not part of the state, and the backoff is a parameter of the operations.
pub record Runner : Type 0 where
  pub id : ModuleId
  pub enabled : Bool
  pub required : Bool
  pub state : State
  pub last_err : Option Error
  pub lease : Bool
  pub window : Window
  pub attempt : ℕ
  pub op_in_flight : Bool
  pub probe_in_flight : Bool
  pub retry_at : ℕ
  pub blocked_on_deps : Bool
  pub report : Report
  pub started_at : ℕ
  pub restarts : ℕ
  pub generation : ℕ

-- What the supervisor shows to the outside while it works: the telemetry events, the error that is
-- logged for an illegal transition, the release of a lease, and the outcome of a reload.
pub data Event : Type 0 where
  state_changed : ModuleId → State → State → Event
  illegal_transition : ModuleId → State → State → Event
  module_unsupported : ModuleId → Event
  module_crash_loop : ModuleId → Event
  lease_released : ModuleId → Event
  config_applied config_rolled_back : Event

-- A runner in work, with what has been emitted and recorded so far.
pub record Step : Type 0 where
  pub runner : Runner
  pub events : List Event
  pub records : List Record

abbrev pub start_step : Runner → Step
start_step r = record { runner = r; events = []; records = [] }

unfoldable pub emit : Event → Step → Step
emit event s = record s { events = s.events ++ event ∷ [] }

unfoldable pub add_diagnostic : Record → Step → Step
add_diagnostic rec s = record s { records = s.records ++ rec ∷ [] }

-- A diagnostic; texts that the code formats from numbers or names are given without these.
abbrev pub diagnostic :
    Code → Severity → ModuleId → String → String → List (String × String) → Record
diagnostic code severity source message remediation attrs = record {
  code = code;
  severity = severity;
  source = source;
  message = message;
  remediation = remediation;
  attrs = attrs;
  timestamp = 0;
}

-- newRunner, and the state that Register gives to a module that is not enabled.
unfoldable pub new_runner : ModuleId → Bool → Bool → ℕ → ℕ → Runner
new_runner id enabled required max_restarts window = record {
  id = id;
  enabled = enabled;
  required = required;
  state = if enabled then registered else disabled;
  last_err = none;
  lease = false;
  window = new_window max_restarts window;
  attempt = 0;
  op_in_flight = false;
  probe_in_flight = false;
  retry_at = 0;
  blocked_on_deps = false;
  report = record { status = unknown; message = ""; diagnostics = [] };
  started_at = 0;
  restarts = 0;
  generation = 0;
}

-- setStateLocked: an illegal transition is logged, and applied all the same.
unfoldable pub set_state : State → Step → Step
unfolding emit can_transition
set_state to s =
    let from = s.runner.state in
    if state_eq from to then s else record s {
      runner = record s.runner { state = to };
      events =
          (if can_transition from to
            then s.events
            else s.events ++ illegal_transition s.runner.id from to ∷ [])
          ++ state_changed s.runner.id from to ∷ [];
    }

-- What failLocked reads of the configuration, and r.backoff.delay.
pub record RestartPolicy : Type 0 where
  pub enabled : Bool
  pub initial_backoff : ℕ
  pub delay : ModuleId → ℕ → ℕ

-- The end of failLocked, where restarts are enabled; `within` is the answer of the window.
unfoldable pub schedule_or_quarantine : RestartPolicy → ℕ → Bool → Step → Step
unfolding emit add_diagnostic
schedule_or_quarantine policy now true s = set_state failed (record s {
  runner = record s.runner { retry_at = now + policy.delay s.runner.id s.runner.attempt };
})
schedule_or_quarantine policy now false s = emit (module_crash_loop s.runner.id) (
    add_diagnostic
      (diagnostic code_crash_loop error s.runner.id
        "exceeded the restarts of the window; module quarantined"
        "fix the underlying fault, then reload configuration or restart the agent to release the quarantine"
        [])
      (set_state crash_looping s))

-- r.attempt++ and r.window.record(now).
unfoldable pub charge : ℕ → Runner → Runner × Bool
unfolding record_restart
charge now r =
    let (w, within) = record_restart now r.window in
    (record r { attempt = r.attempt + 1; window = w }, within)

-- failLocked
unfoldable pub fail_locked : RestartPolicy → Error → ℕ → Code → Step → Step
unfolding schedule_or_quarantine
fail_locked policy e now code s =
    let recorded = add_diagnostic (diagnostic code error s.runner.id e.text "" []) s in
    let (charged, within) = charge now s.runner in
    if policy.enabled
    then schedule_or_quarantine policy now within (record recorded { runner = charged })
    else set_state failed recorded

abbrev pub awaiting_probe : Report
awaiting_probe = record {
  status = unknown;
  message = "awaiting first health probe";
  diagnostics = [];
}

-- The case `err == nil` of finishStart.
unfoldable pub start_succeeded : Bool → ℕ → Step → Step
start_succeeded lease now s = set_state running (record s {
  runner = record s.runner {
    lease = lease;
    last_err = none;
    attempt = 0;
    started_at = now;
    report = awaiting_probe;
  };
})

-- The case of an unsupported module.
unfoldable pub start_unsupported : Error → Step → Step
unfolding emit add_diagnostic
start_unsupported e s = emit (module_unsupported s.runner.id) (
    add_diagnostic
      (diagnostic code_unsupported warn s.runner.id e.text
        "no action required; this module's functionality is unavailable in this environment" [])
      (set_state unsupported (record s { runner = record s.runner { last_err = some e } })))

-- The diagnostic of a panic, if the error is one.
unfoldable pub note_panic : Bool → Step → Step
unfolding add_diagnostic
note_panic true s =
    add_diagnostic
      (diagnostic code_panic error s.runner.id "module panicked during Start and was isolated" ""
        [])
      s
note_panic false s = s

-- The default case.
unfoldable pub start_failed : RestartPolicy → Error → ℕ → Code → Step → Step
unfolding fail_locked note_panic
start_failed policy e now code s =
    fail_locked policy e now code
      (note_panic e.is_panic (record s { runner = record s.runner { last_err = some e } }))

-- The switch of finishStart.
unfoldable pub settle_start : RestartPolicy → Bool → Option Error → ℕ → Code → Step → Step
unfolding start_succeeded start_unsupported start_failed
settle_start policy lease none now code s = start_succeeded lease now s
settle_start policy lease (some e) now code s =
    if e.is_unsupported then start_unsupported e s else start_failed policy e now code s

-- finishStart: the outcome of the start attempt `gen`, which got a lease or none.
unfoldable pub finish_start : RestartPolicy → ℕ → Bool → Option Error → ℕ → Code → Step → Step
unfolding settle_start emit
finish_start policy gen lease e now code s =
    let free = record s { runner = record s.runner { op_in_flight = false } } in
    if gen == s.runner.generation
    then settle_start policy lease e now code free
    else if lease
    then emit (lease_released s.runner.id) free
    else free
