-- ===== src/Supervisor/Retries/Wakeups.antt =====
-- The wake-ups of the supervision loop (internal/supervisor/loop.go).
use my_own_agent.Prelude.{
  ℕ, ◌+◌, ◌≡◌, ap, ◌∙◌, ◌≤◌, ◌<◌, Bool, true, false, not, ◌&&◌, Option, none, some, List, [], ◌∷◌,
  arith, ltb,
}
use my_own_agent.Supervisor.Graph.{ModuleId}
use my_own_agent.Supervisor.Runner.{Error, Runner, RestartPolicy, charge}
use my_own_agent.Supervisor.Control.{Supervisor, claim_start, claim_runner}
use my_own_agent.Supervisor.Stopping.{failure_ended}
use my_own_agent.Supervisor.Stopping.Effects.{runner-failure_ended}
use my_own_agent.Supervisor.Retries.{is_due, due_ids, earlier, soonest_from, soonest_retry}

-- Whether a time, if there is one, is still to come.
abbrev pub to_come : ℕ → Option ℕ → Bool
to_come now none = true
to_come now (some t) = ltb now t

abbrev pub is_nil : List ModuleId → Bool
is_nil [] = true
is_nil (x ∷ xs) = false

to_come-earlier :
    (now : ℕ) (o : Option Runner) (best : Option ℕ)
    → to_come now (earlier o best) ≡ (to_come now best && not (is_due now o))
unfolding earlier
to_come-earlier now none best = ground arith
to_come-earlier now (some r) none = ground arith
to_come-earlier now (some r) (some t) = ground arith

to_come-soonest_from :
    (now : ℕ) (runners : ModuleId → Option Runner) (ids : List ModuleId) (best : Option ℕ)
    → to_come now (soonest_from runners ids best)
      ≡ (to_come now best && is_nil (due_ids now runners ids))
unfolding soonest_from due_ids
to_come-soonest_from now runners [] best = ground arith
to_come-soonest_from now runners (id ∷ ids) best = ground (
  arith,
  to_come-soonest_from now runners ids (earlier (runners id) best),
  to_come-earlier now (runners id) best,
)

-- At any time, soonestRetry gives no time, or one that is still to come, exactly when the scan of
-- processDueRetries, behind its test for a shutdown, finds no module whose restart is due.
pub soonest_retry-wakes :
    (now : ℕ) (s : Supervisor)
    → to_come now (soonest_retry s) ≡ is_nil (due_ids now s.runners s.reg_order)
unfolding soonest_retry
soonest_retry-wakes now s = to_come-soonest_from now s.runners s.reg_order none

claim_start-disabled :
    (now : ℕ) (id : ModuleId) (r : Runner) (s : Supervisor)
    → s.runners id ≡ some r
    → r.enabled ≡ false
    → claim_start now id s ≡ (s, none)
unfolding claim_start claim_runner
claim_start-disabled now id r s k off = rw (k, claim_runner) (ground arith)

is_due-failure_ended :
    (p : RestartPolicy) (e : Error) (lease : Bool) (stop_err : Option Error) (now later : ℕ)
    (r : Runner)
    → p.enabled ≡ true
    → (charge now r).1 ≡ true
    → 0 < now + p.delay r.id (r.attempt + 1)
    → now + p.delay r.id (r.attempt + 1) ≤ later
    → is_due later (some (failure_ended p e lease stop_err now r).runner) ≡ true
unfolding charge
is_due-failure_ended p e lease stop_err now later r on within pos due =
    ground (arith, runner-failure_ended p e lease stop_err now r)

enabled-failure_ended :
    (p : RestartPolicy) (e : Error) (lease : Bool) (stop_err : Option Error) (now : ℕ) (r : Runner)
    → (failure_ended p e lease stop_err now r).runner.enabled ≡ r.enabled
unfolding charge
enabled-failure_ended p e lease stop_err now r =
    ground (arith, runner-failure_ended p e lease stop_err now r)

-- A module that is disabled while its failure is being handled is left Failed with a restart pending,
-- where restarts are enabled, the budget is not spent and the time of the restart is not the zero
-- time. From that time on the restart is due, but a claim neither starts the module nor changes
-- anything, so it stays due.
pub failure_ended-stuck :
    (p : RestartPolicy) (e : Error) (lease : Bool) (stop_err : Option Error) (now later : ℕ)
    (id : ModuleId) (r : Runner) (s : Supervisor)
    → p.enabled ≡ true
    → (charge now r).1 ≡ true
    → r.enabled ≡ false
    → s.runners id ≡ some (failure_ended p e lease stop_err now r).runner
    → 0 < now + p.delay r.id (r.attempt + 1)
    → now + p.delay r.id (r.attempt + 1) ≤ later
    → (is_due later (s.runners id) ≡ true) × (claim_start later id s ≡ (s, none))
unfolding charge
failure_ended-stuck p e lease stop_err now later id r s on within off k pos due = (
  ap (is_due later) k ∙ is_due-failure_ended p e lease stop_err now later r on within pos due,
  claim_start-disabled later id _ s k (enabled-failure_ended p e lease stop_err now r ∙ off),
)
