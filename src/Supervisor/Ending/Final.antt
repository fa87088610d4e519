-- ===== src/Supervisor/Ending/Final.antt =====
-- Nothing starts once Shutdown has begun (internal/supervisor).
use my_own_agent.Prelude.{
  ℕ, ◌≡◌, refl, sym, ap, subst, Bool, true, false, Option, none, some, List, [], ◌∷◌, arith,
}
use my_own_agent.Config.{ModuleConfig, RestartConfig}
use my_own_agent.Supervisor.Graph.{ModuleId, Graph}
use my_own_agent.Supervisor.Runner.{Error, Runner, Step, start_step, finish_start}
use my_own_agent.Diagnostics.{code_start_failed}
use my_own_agent.Supervisor.Control.{
  Supervisor, on_runner, commit, claim_start, claim_runner, complete_start,
}
use my_own_agent.Supervisor.Stopping.{
  begin_failure, end_failure, begin_dependent, end_dependent, begin_stop, end_stop, failure_ended,
  dependent_begun, dependent_ended, stop_begun, stop_ended,
}
use my_own_agent.Supervisor.Retries.{process_due_retries}
use my_own_agent.Supervisor.Probing.{Probe, probe_all, end_probe, release_probe, settle_probe}
use my_own_agent.Supervisor.Reloading.{
  apply_each, swap_config, mark_disabled, mark_enabled, reconciled, disabled_step, enabled_step,
}
use my_own_agent.Supervisor.Ending.{begin_shutdown}

-- A critical section of the supervisor that may run behind that of Shutdown, with what comes into it.
pub data Section (F : Type 0) : Type 0 where
  claims : ℕ → ModuleId → Section F
  completes : ℕ → ModuleId → ℕ → Bool → Option Error → Section F
  fails : ℕ → ModuleId → ℕ → Error → Section F
  failure_ends : ℕ → ModuleId → Error → Bool → Option Error → Section F
  yields : ℕ → ModuleId → Section F
  yield_ends : ℕ → ModuleId → ModuleId → Bool → Option Error → Section F
  stops : ℕ → ModuleId → Section F
  stop_ends : ℕ → ModuleId → Bool → Option Error → Section F
  retries : ℕ → Section F
  probes : Section F
  probe_ends : ℕ → ModuleId → Probe → Section F
  probe_releases : ℕ → ModuleId → Section F
  swaps : ℕ → RestartConfig F → (ModuleId → ModuleConfig) → Graph → Section F
  disables : ℕ → ModuleId → Section F
  enables : ℕ → ModuleId → Section F
  shuts_down : Section F

module _ {F : Type 0} where
  abbrev perform : Section F → Supervisor → Supervisor
  perform (claims now id) s = (claim_start now id s).0
  perform (completes now id gen lease e) s = complete_start now id gen lease e s
  perform (fails now id gen e) s = begin_failure now id gen e s
  perform (failure_ends now id e lease stop_err) s = end_failure now id e lease stop_err s
  perform (yields now id) s = begin_dependent now id s
  perform (yield_ends now id cause lease stop_err) s = end_dependent now id cause lease stop_err s
  perform (stops now id) s = begin_stop now id s
  perform (stop_ends now id lease stop_err) s = end_stop now id lease stop_err s
  perform (retries now) s = (process_due_retries now s).0
  perform probes s = (probe_all s).0
  perform (probe_ends now id outcome) s = end_probe now id outcome s
  perform (probe_releases now id) s = release_probe now id s
  perform (swaps now restart cfg graph) s = swap_config now restart cfg graph s
  perform (disables now id) s = mark_disabled now id s
  perform (enables now id) s = mark_enabled now id s
  perform shuts_down s = (begin_shutdown s).0

  -- Any of them, one after the other.
  abbrev pub perform_each : List (Section F) → Supervisor → Supervisor
  perform_each [] s = s
  perform_each (x ∷ xs) s = perform_each xs (perform x s)

abbrev Shut : Supervisor → Type 0
Shut s = s.stopped_flag ≡ true

begin_shutdown-Shut : (s : Supervisor) → Shut (begin_shutdown s).0
unfolding begin_shutdown
begin_shutdown-Shut s = ground arith

on_runner-Shut :
    (f : Runner → Step) (now : ℕ) (id : ModuleId) (s : Supervisor)
    → Shut s
    → Shut (on_runner f now id s)
unfolding on_runner commit
on_runner-Shut f now id s h = go (s.runners id)
  where
    step : Option Runner → Supervisor
    step none = s
    step (some r) = commit now id (f r) s

    go : (o : Option Runner) → Shut (step o)
    go none = h
    go (some r) = h

apply_each-Shut :
    (now : ℕ) (cfg : ModuleId → ModuleConfig) (ids : List ModuleId) (s : Supervisor)
    → Shut s
    → Shut (apply_each now cfg ids s)
unfolding apply_each
apply_each-Shut now cfg [] s h = h
apply_each-Shut now cfg (id ∷ ids) s h =
    apply_each-Shut now cfg ids (on_runner (reconciled now (cfg id)) now id s)
      (on_runner-Shut (reconciled now (cfg id)) now id s h)

claim_runner_stopped :
    (now : ℕ) (id : ModuleId) (o : Option Runner) (s : Supervisor)
    → Shut s
    → claim_runner now id o s ≡ (s, none)
unfolding claim_runner
claim_runner_stopped now id none s h = refl
claim_runner_stopped now id (some r) s h = ground arith

abbrev no_error : Error
no_error = record { is_unsupported = false; is_panic = false; text = "" }

-- What behind Shutdown does nothing.
pub record Ended (now : ℕ) (id : ModuleId) (gen : ℕ) (e : Error) (t : Supervisor) : Type 0 where
  pub no_start : claim_start now id t ≡ (t, none)
  pub no_retry : process_due_retries now t ≡ (t, [])
  pub no_failure : begin_failure now id gen e t ≡ t
  pub no_probe : probe_all t ≡ (t, [])

Shut-Ended :
    (now : ℕ) (id : ModuleId) (gen : ℕ) (e : Error) (t : Supervisor) → Shut t → Ended now id gen e t
unfolding claim_start process_due_retries probe_all begin_failure
Shut-Ended now id gen e t h = record {
  no_start = claim_runner_stopped now id (t.runners id) t h;
  no_retry = ground (arith, h);
  no_failure = ground (arith, h);
  no_probe = ground (arith, h);
}

module _ {F : Type 0} where
  perform-Shut : (x : Section F) (s : Supervisor) → Shut s → Shut (perform x s)
  unfolding complete_start end_failure begin_dependent end_dependent begin_stop end_stop end_probe
      release_probe swap_config mark_disabled mark_enabled
  perform-Shut (claims now id) s h =
      subst Shut (sym (ap (λ r. r.0) (Shut-Ended now id 0 no_error s h).no_start)) h
  perform-Shut (completes now id gen lease e) s h =
      on_runner-Shut (λ r. finish_start s.policy gen lease e now code_start_failed (start_step r))
        now id s h
  perform-Shut (fails now id gen e) s h =
      subst Shut (sym (Shut-Ended now id gen e s h).no_failure) h
  perform-Shut (failure_ends now id e lease stop_err) s h =
      on_runner-Shut (failure_ended s.policy e lease stop_err now) now id s h
  perform-Shut (yields now id) s h = on_runner-Shut dependent_begun now id s h
  perform-Shut (yield_ends now id cause lease stop_err) s h =
      on_runner-Shut (dependent_ended s.policy cause lease stop_err now) now id s h
  perform-Shut (stops now id) s h = on_runner-Shut stop_begun now id s h
  perform-Shut (stop_ends now id lease stop_err) s h =
      on_runner-Shut (stop_ended lease stop_err) now id s h
  perform-Shut (retries now) s h =
      subst Shut (sym (ap (λ r. r.0) (Shut-Ended now "" 0 no_error s h).no_retry)) h
  perform-Shut probes s h =
      subst Shut (sym (ap (λ r. r.0) (Shut-Ended 0 "" 0 no_error s h).no_probe)) h
  perform-Shut (probe_ends now id outcome) s h =
      on_runner-Shut (λ r. settle_probe outcome (start_step r)) now id s h
  perform-Shut (probe_releases now id) s h =
      on_runner-Shut (λ r. start_step (record r { probe_in_flight = false })) now id s h
  perform-Shut (swaps now restart cfg graph) s h =
      apply_each-Shut now cfg s.reg_order
        (record s {
          graph = some graph;
          policy = record s.policy {
            enabled = restart.enabled;
            initial_backoff = restart.initial_backoff;
          };
        })
        h
  perform-Shut (disables now id) s h = on_runner-Shut disabled_step now id s h
  perform-Shut (enables now id) s h = on_runner-Shut enabled_step now id s h
  perform-Shut shuts_down s h = begin_shutdown-Shut s

  perform_each-Shut : (xs : List (Section F)) (s : Supervisor) → Shut s → Shut (perform_each xs s)
  perform_each-Shut [] s h = h
  perform_each-Shut (x ∷ xs) s h = perform_each-Shut xs (perform x s) (perform-Shut x s h)

  -- From the critical section of Shutdown on, and whatever critical sections follow it in whatever
  -- order: no start is claimed, no restart falls due, no failure is taken up and no probe is begun, and
  -- each of these leaves the supervisor as it is.
  pub begin_shutdown_final :
      (s : Supervisor) (xs : List (Section F)) (now : ℕ) (id : ModuleId) (gen : ℕ) (e : Error)
      → Ended now id gen e (perform_each xs (begin_shutdown s).0)
  begin_shutdown_final s xs now id gen e =
      Shut-Ended now id gen e (perform_each xs (begin_shutdown s).0)
        (perform_each-Shut xs (begin_shutdown s).0 (begin_shutdown-Shut s))
