-- ===== src/Supervisor/Reloading/Others.antt =====
-- The stop and the start of one module leave the others as they are (internal/supervisor/reload.go).
use my_own_agent.Prelude.{
  ℕ, ◌+◌, ◌≡◌, refl, ◌∙◌, Bool, true, false, Option, none, some, str_eq, if◌then◌else◌, if_cases,
  arith,
}
use my_own_agent.Diagnostics.{code_start_failed}
use my_own_agent.Lifecycle.{active}
use my_own_agent.Supervisor.Graph.{ModuleId}
use my_own_agent.Supervisor.Runner.{Error, Runner, Step, start_step, finish_start}
use my_own_agent.Supervisor.Control.{
  Supervisor, commit, startable, first_blocked, dependencies, defer_start, grant_start, claim_known,
  claim_runner, claim_start, complete_start,
}
use my_own_agent.Supervisor.Stopping.{begin_stop, end_stop, stop_begun, stop_ended}
use my_own_agent.Supervisor.Reloading.Configured.{on_runner_other}
use my_own_agent.Supervisor.Reloading.Finishing.{
  LifecycleAnswers, stop_module, note_cleanup, release_lease, run_started, run_admitted, run_start,
  start_once,
}

commit_other :
    (now : ℕ) (id j : ModuleId) (st : Step) (s : Supervisor)
    → str_eq id j ≡ false
    → (commit now id st s).runners j ≡ s.runners j
unfolding commit
commit_other now id j st s h = ground arith

module _ (answers : LifecycleAnswers) (now : ℕ) (id j : ModuleId) (h : str_eq id j ≡ false) where
  complete_start_other :
      (gen : ℕ) (lease : Bool) (e : Option Error) (s : Supervisor)
      → (complete_start now id gen lease e s).runners j ≡ s.runners j
  unfolding complete_start
  complete_start_other gen lease e s =
      on_runner_other (λ r. finish_start s.policy gen lease e now code_start_failed (start_step r))
        now id j s h

  pub stop_module_other : (s : Supervisor) → (stop_module answers now id s).runners j ≡ s.runners j
  unfolding stop_module begin_stop end_stop
  stop_module_other s = go (s.runners id)
    where
      begun : (begin_stop now id s).runners j ≡ s.runners j
      begun = on_runner_other stop_begun now id j s h

      step : Option Runner → Supervisor
      step none = begin_stop now id s
      step (some r) =
          if active r.state
          then end_stop now id r.lease (answers.stop id) (begin_stop now id s)
          else begin_stop now id s

      go : (o : Option Runner) → (step o).runners j ≡ s.runners j
      go none = begun
      go (some r) =
          if_cases (λ (t : Supervisor). t.runners j ≡ s.runners j) (active r.state)
            (λ _.
              on_runner_other (stop_ended r.lease (answers.stop id)) now id j (begin_stop now id s)
                h
              ∙ begun)
            (λ _. begun)

  run_started_other :
      (gen : ℕ) (o : Option Error) (s : Supervisor)
      → (run_started answers now id gen o s).runners j ≡ s.runners j
  unfolding run_started note_cleanup
  run_started_other gen none s = complete_start_other gen true none s
  run_started_other gen (some e) s =
      complete_start_other gen false (some e)
        (release_lease id (note_cleanup now id (answers.stop id) s))
      ∙ cleaned (answers.stop id)
    where
      cleaned : (o : Option Error) → (note_cleanup now id o s).runners j ≡ s.runners j
      cleaned none = refl
      cleaned (some e) = refl

  run_admitted_other :
      (gen : ℕ) (o : Option Error) (s : Supervisor)
      → (run_admitted answers now id gen o s).runners j ≡ s.runners j
  unfolding run_admitted
  run_admitted_other gen none s = run_started_other gen (answers.start id) s
  run_admitted_other gen (some e) s = complete_start_other gen false (some e) s

  run_start_other :
      (c : Supervisor × Option ℕ) → (run_start answers now id c).runners j ≡ c.0.runners j
  unfolding run_start
  run_start_other (s, none) = refl
  run_start_other (s, some gen) = run_admitted_other gen (answers.admission id) s

  claim_known_other :
      (r : Runner) (s : Supervisor) → (claim_known now id r s).0.runners j ≡ s.runners j
  unfolding claim_known
  claim_known_other r s = go (first_blocked s.runners (dependencies s.graph id))
    where
      step : Option ModuleId → Supervisor × Option ℕ
      step (some dep) = (commit now id (defer_start s.policy now dep r) s, none)
      step none = (commit now id (grant_start r) s, some (r.generation + 1))

      go : (o : Option ModuleId) → (step o).0.runners j ≡ s.runners j
      go none = commit_other now id j (grant_start r) s h
      go (some dep) = commit_other now id j (defer_start s.policy now dep r) s h

  claim_runner_other :
      (o : Option Runner) (s : Supervisor) → (claim_runner now id o s).0.runners j ≡ s.runners j
  unfolding claim_runner
  claim_runner_other none s = refl
  claim_runner_other (some r) s =
      if_cases (λ (c : Supervisor × Option ℕ). c.0.runners j ≡ s.runners j) s.stopped_flag
        (λ _. refl)
        (λ _.
          if_cases (λ (c : Supervisor × Option ℕ). c.0.runners j ≡ s.runners j) (startable r)
            (λ _. claim_known_other r s) (λ _. refl))

  pub start_once_other : (s : Supervisor) → (start_once answers now id s).runners j ≡ s.runners j
  unfolding start_once claim_start
  start_once_other s = run_start_other (claim_start now id s) ∙ claim_runner_other (s.runners id) s
