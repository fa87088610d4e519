-- ===== src/Supervisor/Reloading/Transaction.antt =====
-- Reload up to the swap (internal/supervisor/reload.go): the candidate is checked, the modules that
-- run are prepared one after the other, and all of them commit or those that prepared roll back. What
-- the modules answer, and reflect.DeepEqual, are arguments; each call that times out is an error. Between
-- its critical sections other goroutines may run, which this sequence of them leaves out.
use my_own_agent.Prelude.{
  ℕ, ◌+◌, Bool, not, ◌&&◌, ◌||◌, Option, none, some, List, [], ◌∷◌, ◌++◌, if◌then◌else◌, Result, ok,
  err,
}
use my_own_agent.Config.{ModuleConfig, Config, module_for}
use my_own_agent.Config.Validation.{Problem, Parsers, validate}
use my_own_agent.Lifecycle.{running, state_eq}
use my_own_agent.Diagnostics.{
  Record, add_record, error, warn, code_config_invalid, code_config_rolled_back,
}
use my_own_agent.Supervisor.Graph.{ModuleId, Manifest, Manifests, Graph, ResolveError, resolve}
use my_own_agent.Supervisor.Runner.{Error, Runner, Event, config_rolled_back, diagnostic}
use my_own_agent.Supervisor.Control.{Supervisor}
use my_own_agent.Supervisor.Reloading.{swap_config}

-- The calls of the modules.
pub data ModuleCall : Type 0 where
  prepare_config : ModuleId → ModuleConfig → ModuleCall
  commit_config rollback_config : ModuleId → ModuleCall

-- What the modules answer, nil as none, which of them are Configurable, and reflect.DeepEqual.
pub record ModuleAnswers : Type 0 where
  pub configurable : ModuleId → Bool
  pub prepared : ModuleId → ModuleConfig → Option Error
  pub committed : ModuleId → Option Error
  pub rolled_back : ModuleId → Option Error
  pub deep_equal : ModuleConfig → ModuleConfig → Bool

-- The supervisor with what Reload reads or changes beside its runners: r.cfg and r.manifest of each
-- module, s.cfg, the counter configRollbacks, and the calls so far.
pub record Reloader (F : Type 0) : Type 0 where
  pub supervisor : Supervisor
  pub cfg : Config F
  pub fragments : ModuleId → ModuleConfig
  pub manifests : ModuleId → Manifest
  pub config_rollbacks : ℕ
  pub calls : List ModuleCall

-- The errors of Reload.
pub data ReloadError : Type 0 where
  not_valid : List Problem → ReloadError
  not_running : ReloadError
  not_in_build : List ModuleId → ReloadError
  not_resolved : ResolveError → ReloadError
  refused : ModuleId → Error → ReloadError

-- The manifests of the modules that the candidate enables.
unfoldable pub enabled_manifests :
    List (ModuleId × ModuleConfig) → (ModuleId → Manifest) → List ModuleId → Manifests
enabled_manifests modules manifests [] = []
enabled_manifests modules manifests (id ∷ ids) =
    let rest = enabled_manifests modules manifests ids in
    if (module_for modules id).enabled then (id, manifests id) ∷ rest else rest

-- The modules of the candidate that are not registered.
unfoldable pub unknown_modules :
    (ModuleId → Option Runner) → List (ModuleId × ModuleConfig) → List ModuleId
unknown_modules runners [] = []
unknown_modules runners ((id, mc) ∷ ms) =
    let rest = unknown_modules runners ms in elim (runners id) [ none ↦ id ∷ rest | some r ↦ rest ]

-- The tests of the loop that fills toPrepare.
abbrev pub to_be_prepared : ModuleAnswers → ModuleConfig → ModuleConfig → ModuleId → Runner → Bool
to_be_prepared m was now id r =
    not (m.deep_equal was now) && state_eq r.state running && m.configurable id

-- That loop.
unfoldable pub to_prepare :
    ModuleAnswers
    → (ModuleId → ModuleConfig)
    → (ModuleId → ModuleConfig)
    → (ModuleId → Option Runner)
    → List ModuleId
    → List ModuleId
to_prepare m was now runners [] = []
to_prepare m was now runners (id ∷ ids) =
    let rest = to_prepare m was now runners ids in
    elim (runners id) [
      | none ↦ rest
      | some r ↦ if to_be_prepared m (was id) (now id) id r then id ∷ rest else rest
    ]

module _ {F : Type 0} where
  abbrev pub called : ModuleCall → Reloader F → Reloader F
  called call a = record a { calls = a.calls ++ call ∷ [] }

  unfoldable pub recorded : ℕ → Record → Reloader F → Reloader F
  recorded now rec a = record a {
    supervisor = record a.supervisor { diags = add_record now rec a.supervisor.diags };
  }

  unfoldable pub event_emitted : Event → Reloader F → Reloader F
  event_emitted event a = record a {
    supervisor = record a.supervisor { events = a.supervisor.events ++ event ∷ [] };
  }

  -- The diagnostic of a call that failed.
  unfoldable pub noted : ℕ → Record → Option Error → Reloader F → Reloader F
  unfolding recorded
  noted now rec none a = a
  noted now rec (some e) a = recorded now rec a

  -- recordConfigRejected
  unfoldable pub record_config_rejected : ℕ → Reloader F → Reloader F
  unfolding recorded
  record_config_rejected now a =
      let b =
        recorded now
          (diagnostic code_config_invalid error "supervisor" "configuration rejected"
            "correct the configuration and reload; the previous configuration is still in effect"
            [])
          a in
      record b { config_rollbacks = b.config_rollbacks + 1 }

  -- The loop of rollbackAll.
  unfoldable pub roll_back_each : ModuleAnswers → ℕ → List ModuleId → Reloader F → Reloader F
  unfolding noted
  roll_back_each m now [] a = a
  roll_back_each m now (id ∷ ids) a = roll_back_each m now ids (
      noted now
        (diagnostic code_config_rolled_back error id
          "rollback after a rejected configuration failed; module may be inconsistent"
          "restart the agent to return this module to a known configuration" [])
        (m.rolled_back id) (called (rollback_config id) a))

  -- rollbackAll
  unfoldable pub roll_back_all : ModuleAnswers → ℕ → Error → List ModuleId → Reloader F → Reloader F
  unfolding roll_back_each recorded event_emitted
  roll_back_all m now reason done a =
      let b = roll_back_each m now done a in
      event_emitted config_rolled_back (
        recorded now
          (diagnostic code_config_rolled_back warn "supervisor"
            "configuration rejected during prepare; previous configuration retained"
            "correct the configuration and reload; the agent is still running the previous revision"
            (("reason", reason.text) ∷ []))
          (record b { config_rollbacks = b.config_rollbacks + 1 }))

  -- Phase 1: `done` are the modules that have prepared.
  unfoldable pub prepare_all :
      ModuleAnswers
      → ℕ
      → (ModuleId → ModuleConfig)
      → List ModuleId
      → List ModuleId
      → Reloader F
      → Reloader F × Result ReloadError (List ModuleId)
  unfolding roll_back_all
  prepare_all m now fragment [] done a = (a, ok done)
  prepare_all m now fragment (id ∷ ids) done a =
      let b = called (prepare_config id (fragment id)) a in
      elim (m.prepared id (fragment id)) [
        | none ↦ prepare_all m now fragment ids (done ++ id ∷ []) b
        | some e ↦ (roll_back_all m now e done b, err (refused id e))
      ]

  -- Phase 2.
  unfoldable pub commit_all : ModuleAnswers → ℕ → List ModuleId → Reloader F → Reloader F
  unfolding noted
  commit_all m now [] a = a
  commit_all m now (id ∷ ids) a = commit_all m now ids (
      noted now
        (diagnostic code_config_invalid error id
          "commit failed after a successful prepare; module configuration is inconsistent"
          "restart the agent to return this module to a known configuration" [])
        (m.committed id) (called (commit_config id) a))

  -- The critical section of phase 3.
  unfoldable pub swap : ℕ → Config F → Graph → Reloader F → Reloader F
  unfolding swap_config
  swap now candidate graph a = record a {
    supervisor =
        swap_config now candidate.agent.restart (module_for candidate.modules) graph a.supervisor;
    cfg = candidate;
    fragments = module_for candidate.modules;
  }

  -- What follows phase 1.
  unfoldable pub settled :
      ModuleAnswers
      → ℕ
      → Config F
      → Graph
      → Reloader F × Result ReloadError (List ModuleId)
      → Reloader F × Option ReloadError
  unfolding commit_all swap
  settled m now candidate graph (a, err e) = (a, some e)
  settled m now candidate graph (a, ok done) =
      (swap now candidate graph (commit_all m now done a), none)

  -- What follows Resolve.
  unfoldable pub with_graph :
      ModuleAnswers
      → ℕ
      → Config F
      → Result ResolveError Graph
      → Reloader F
      → Reloader F × Option ReloadError
  unfolding settled prepare_all to_prepare record_config_rejected
  with_graph m now candidate (err e) a = (record_config_rejected now a, some (not_resolved e))
  with_graph m now candidate (ok graph) a =
      let fragment = module_for candidate.modules in
      let ids = to_prepare m a.fragments fragment a.supervisor.runners a.supervisor.reg_order in
      settled m now candidate graph (prepare_all m now fragment ids [] a)

  -- What follows the search for modules that are not registered.
  unfoldable pub with_known :
      ModuleAnswers → ℕ → Config F → List ModuleId → Reloader F → Reloader F × Option ReloadError
  unfolding with_graph enabled_manifests record_config_rejected
  with_known m now candidate (id ∷ ids) a =
      (record_config_rejected now a, some (not_in_build (id ∷ ids)))
  with_known m now candidate [] a =
      with_graph m now candidate
        (resolve (enabled_manifests candidate.modules a.manifests a.supervisor.reg_order)) a

  -- What follows Validate.
  unfoldable pub with_problems :
      ModuleAnswers → ℕ → Config F → List Problem → Reloader F → Reloader F × Option ReloadError
  unfolding with_known unknown_modules record_config_rejected
  with_problems m now candidate (p ∷ ps) a =
      (record_config_rejected now a, some (not_valid (p ∷ ps)))
  with_problems m now candidate [] a =
      let s = a.supervisor in
      let known = with_known m now candidate (unknown_modules s.runners candidate.modules) a in
      if not s.started || s.stopped_flag then (a, some not_running) else known

  -- Reload, up to the swap.
  unfoldable pub reload :
      Parsers F → ModuleAnswers → ℕ → Config F → Reloader F → Reloader F × Option ReloadError
  unfolding with_problems
  reload parsers m now candidate a = with_problems m now candidate (validate parsers candidate) a
