-- ===== src/Supervisor/Reloading/Finishing.antt =====
-- The last phase of Reload as one sequence (internal/supervisor/reload.go, with stopModule of lifecycle.go,
-- and startOnce and runStart of supervisor.go): the swap, the stops and the starts. What the modules and
-- the runtime answer are arguments; the clock stands still, and between the critical sections other
-- goroutines may run, which this sequence of them leaves out.
use my_own_agent.Prelude.{ℕ, true, false, Option, none, some, List, [], ◌∷◌, ◌++◌, if◌then◌else◌}
use my_own_agent.Config.{ModuleConfig, RestartConfig}
use my_own_agent.Diagnostics.{add_record, warn, code_stop_failed}
use my_own_agent.Lifecycle.{active}
use my_own_agent.Supervisor.Graph.{ModuleId, Graph, contains, start_order}
use my_own_agent.Supervisor.Runner.{Error, config_applied, lease_released, diagnostic}
use my_own_agent.Supervisor.Control.{Supervisor, claim_start, complete_start}
use my_own_agent.Supervisor.Stopping.{begin_stop, end_stop}
use my_own_agent.Supervisor.Reloading.{to_stop, to_start, swap_config, mark_disabled, mark_enabled}

-- What Stop, the admission by the runtime and Start answer, nil as none.
pub record LifecycleAnswers : Type 0 where
  pub stop : ModuleId → Option Error
  pub admission : ModuleId → Option Error
  pub start : ModuleId → Option Error

-- stopModule: the second critical section follows where the module was active.
unfoldable pub stop_module : LifecycleAnswers → ℕ → ModuleId → Supervisor → Supervisor
unfolding begin_stop end_stop
stop_module answers now id s = elim (s.runners id) [
  | none ↦ begin_stop now id s
  | some r ↦
      if active r.state
      then end_stop now id r.lease (answers.stop id) (begin_stop now id s)
      else begin_stop now id s
]

-- The diagnostic of a clean-up that failed.
unfoldable pub note_cleanup : ℕ → ModuleId → Option Error → Supervisor → Supervisor
note_cleanup now id none s = s
note_cleanup now id (some e) s = record s {
  diags =
      add_record now
        (diagnostic code_stop_failed warn id
          "cleanup after a failed start did not complete; resources may be held until the agent restarts"
          "" [])
        s.diags;
}

-- The release of the lease.
abbrev pub release_lease : ModuleId → Supervisor → Supervisor
release_lease id s = record s { events = s.events ++ lease_released id ∷ [] }

-- What follows the call of Start: after an error the module is stopped and its lease released.
unfoldable pub run_started :
    LifecycleAnswers → ℕ → ModuleId → ℕ → Option Error → Supervisor → Supervisor
unfolding note_cleanup complete_start
run_started answers now id gen none s = complete_start now id gen true none s
run_started answers now id gen (some e) s =
    complete_start now id gen false (some e)
      (release_lease id (note_cleanup now id (answers.stop id) s))

-- What follows the admission.
unfoldable pub run_admitted :
    LifecycleAnswers → ℕ → ModuleId → ℕ → Option Error → Supervisor → Supervisor
unfolding run_started complete_start
run_admitted answers now id gen none s = run_started answers now id gen (answers.start id) s
run_admitted answers now id gen (some e) s = complete_start now id gen false (some e) s

-- What follows claimStart: runStart, if the start may proceed.
unfoldable pub run_start : LifecycleAnswers → ℕ → ModuleId → Supervisor × Option ℕ → Supervisor
unfolding run_admitted
run_start answers now id (s, none) = s
run_start answers now id (s, some gen) = run_admitted answers now id gen (answers.admission id) s

-- startOnce
unfoldable pub start_once : LifecycleAnswers → ℕ → ModuleId → Supervisor → Supervisor
unfolding run_start claim_start
start_once answers now id s = run_start answers now id (claim_start now id s)

-- The loop over toStop.
unfoldable pub stop_each : LifecycleAnswers → ℕ → List ModuleId → Supervisor → Supervisor
unfolding stop_module mark_disabled
stop_each answers now [] s = s
stop_each answers now (id ∷ ids) s =
    stop_each answers now ids (mark_disabled now id (stop_module answers now id s))

-- The loop over toStart under the lock.
unfoldable pub enable_each : ℕ → List ModuleId → Supervisor → Supervisor
unfolding mark_enabled
enable_each now [] s = s
enable_each now (id ∷ ids) s = enable_each now ids (mark_enabled now id s)

-- The loop over the start order, for the modules that are to be started.
unfoldable pub start_each :
    LifecycleAnswers → ℕ → List ModuleId → List ModuleId → Supervisor → Supervisor
unfolding start_once
start_each answers now starts [] s = s
start_each answers now starts (id ∷ ids) s =
    start_each answers now starts ids
      (if contains id starts then start_once answers now id s else s)

-- The event at the end of Reload.
abbrev announce_applied : Supervisor → Supervisor
announce_applied s = record s { events = s.events ++ config_applied ∷ [] }

-- Phase 3 of Reload.
unfoldable pub apply_config :
    {F : Type 0}
    → LifecycleAnswers
    → ℕ
    → RestartConfig F
    → (ModuleId → ModuleConfig)
    → Graph
    → Supervisor
    → Supervisor
unfolding stop_each enable_each start_each swap_config
apply_config answers now restart cfg graph s =
    let starts = to_start cfg s in
    let halted = stop_each answers now (to_stop cfg s) (swap_config now restart cfg graph s) in
    announce_applied
      (start_each answers now starts (start_order graph) (enable_each now starts halted))
