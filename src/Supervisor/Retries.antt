-- ===== src/Supervisor/Retries.antt =====
-- Which restarts are due, and when the next one is (internal/supervisor/loop.go).
pub mod Wakeups
use my_own_agent.Prelude.{
  ℕ, ◌+◌, Bool, false, not, ◌&&◌, ◌||◌, Option, none, some, List, [], ◌∷◌, ltb, ◌==◌, if◌then◌else◌,
}
use my_own_agent.Lifecycle.{failed, state_eq}
use my_own_agent.Supervisor.Graph.{ModuleId}
use my_own_agent.Supervisor.Runner.{Runner, start_step}
use my_own_agent.Supervisor.Control.{Supervisor, claim_start, on_runner}

-- Whether a restart is due: the guards of the loop of processDueRetries, and !r.retryAt.After(now).
abbrev pub is_due : ℕ → Option Runner → Bool
is_due now none = false
is_due now (some r) =
    not (not (state_eq r.state failed) || r.op_in_flight || r.retry_at == 0)
    && not (ltb now r.retry_at)

pub due_ids : ℕ → (ModuleId → Option Runner) → List ModuleId → List ModuleId
due_ids now runners [] = []
due_ids now runners (id ∷ ids) =
    let rest = due_ids now runners ids in if is_due now (runners id) then id ∷ rest else rest

-- r.restarts++
count_restart : Runner → Runner
count_restart r = record r { restarts = r.restarts + 1 }

-- One round of the loop over the due modules. The result is the start attempts to be run.
claim_due : ℕ → List ModuleId → Supervisor → Supervisor × List (ModuleId × ℕ)
unfolding claim_start on_runner count_restart
claim_due now [] s = (s, [])
claim_due now (id ∷ ids) s =
    let (s', claimed) = claim_start now id s in
    elim claimed [
      | none ↦ claim_due now ids s'
      | some gen ↦
          let (s'', started) =
            claim_due now ids (on_runner (λ r. start_step (count_restart r)) now id s') in
          (s'', (id, gen) ∷ started)
    ]

-- processDueRetries
unfoldable pub process_due_retries : ℕ → Supervisor → Supervisor × List (ModuleId × ℕ)
unfolding claim_due due_ids
process_due_retries now s =
    if s.stopped_flag then (s, []) else claim_due now (due_ids now s.runners s.reg_order) s

-- The guards of the loop of soonestRetry.
abbrev passed_over : Runner → Bool
passed_over r = not (state_eq r.state failed) || r.retry_at == 0 || r.op_in_flight

-- The body of that loop; a time is none where `found` is false.
earlier : Option Runner → Option ℕ → Option ℕ
earlier none best = best
earlier (some r) none = if passed_over r then none else some r.retry_at
earlier (some r) (some best) =
    if passed_over r then some best else if ltb r.retry_at best then some r.retry_at else some best

-- The loop of soonestRetry, which ranges over the same modules in another order.
soonest_from : (ModuleId → Option Runner) → List ModuleId → Option ℕ → Option ℕ
unfolding earlier
soonest_from runners [] soonest = soonest
soonest_from runners (id ∷ ids) soonest = soonest_from runners ids (earlier (runners id) soonest)

-- soonestRetry
pub soonest_retry : Supervisor → Option ℕ
unfolding soonest_from
soonest_retry s = soonest_from s.runners s.reg_order none
