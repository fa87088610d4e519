-- ===== src/Supervisor/Reloading/Whole.antt =====
-- Reload as a whole, up to the swap (internal/supervisor/reload.go).
use my_own_agent.Prelude.{
  ℕ, ◌≡◌, refl, ap, subst, sym, arith, Bool, false, ◌&&◌, ◌∙◌, ◌⊎◌, inl, inr, true, not, ◌||◌,
  Option, none, some, List, [], ◌∷◌, ◌++◌, if◌then◌else◌, if_cases, Result, ok, err,
}
use my_own_agent.Config.{ModuleConfig, Config, module_for}
use my_own_agent.Config.Validation.{Problem, Parsers, validate}
use my_own_agent.Supervisor.Graph.{ModuleId, Graph, ResolveError, resolve}
use my_own_agent.Supervisor.Runner.{Runner}
use my_own_agent.Lifecycle.{State, running, state_eq}
use my_own_agent.Supervisor.Reloading.{swap_config}
use my_own_agent.Supervisor.Reloading.Configured.{AllCarry, Swapped, swap_config-Swapped}
use my_own_agent.Supervisor.Reloading.Transaction.{
  ModuleCall, ModuleAnswers, Reloader, ReloadError, enabled_manifests, unknown_modules,
  to_be_prepared, to_prepare, prepare_all, commit_all, swap, settled, with_graph, with_known,
  with_problems, reload,
}
use my_own_agent.Supervisor.Reloading.Atomic.{
  prepares, commits, Agreed, Calls, Calls_same, Calls_trans, record_config_rejected-Calls,
  commit_all-Calls, OneRefused, Prepared, prepare_all-Prepared,
}

abbrev in_running : State → Bool
in_running running = true
in_running _ = false

-- Whether a module is registered and runs.
abbrev is_run : Option Runner → Bool
is_run none = false
is_run (some r) = in_running r.state

state_eq-running : (st : State) → state_eq st running ≡ in_running st
state_eq-running st = ground arith

-- Those of the modules that run, are Configurable and get another fragment than they have.
abbrev pub concerned :
    ModuleAnswers
    → (ModuleId → ModuleConfig)
    → (ModuleId → ModuleConfig)
    → (ModuleId → Option Runner)
    → List ModuleId
    → List ModuleId
concerned m was now runners [] = []
concerned m was now runners (id ∷ ids) =
    let rest = concerned m was now runners ids in
    if m.deep_equal (was id) (now id)
    then rest
    else if m.configurable id && is_run (runners id)
    then id ∷ rest
    else rest

picked :
    (same configurable runs : Bool) (id : ModuleId) (rest : List ModuleId)
    → (if not same && runs && configurable then id ∷ rest else rest)
      ≡ (if same then rest else if configurable && runs then id ∷ rest else rest)
picked true configurable runs id rest = refl
picked false configurable runs id rest = ground arith

to_prepare-concerned :
    (m : ModuleAnswers) (was now : ModuleId → ModuleConfig) (runners : ModuleId → Option Runner)
    (ids : List ModuleId)
    → to_prepare m was now runners ids ≡ concerned m was now runners ids
unfolding to_prepare
to_prepare-concerned m was now runners [] = refl
to_prepare-concerned m was now runners (id ∷ ids) =
    go (runners id) ∙ ap (pick (runners id)) (to_prepare-concerned m was now runners ids)
  where
    pick : Option Runner → List ModuleId → List ModuleId
    pick o rest =
        if m.deep_equal (was id) (now id)
        then rest
        else if m.configurable id && is_run o
        then id ∷ rest
        else rest

    rest : List ModuleId
    rest = to_prepare m was now runners ids

    step : Option Runner → List ModuleId
    step none = rest
    step (some r) = if to_be_prepared m (was id) (now id) id r then id ∷ rest else rest

    go : (o : Option Runner) → step o ≡ pick o rest
    go none = ground arith
    go (some r) =
        ap
          (λ (runs : Bool).
            if not (m.deep_equal (was id) (now id)) && runs && m.configurable id
            then id ∷ rest
            else rest)
          (state_eq-running r.state)
        ∙ picked (m.deep_equal (was id) (now id)) (m.configurable id) (in_running r.state) id rest

module _ {F : Type 0} (parsers : Parsers F) (m : ModuleAnswers) (now : ℕ) (candidate : Config F)
    (a : Reloader F) where
  abbrev pub fragment : ModuleId → ModuleConfig
  fragment = module_for candidate.modules

  -- The modules that are asked.
  abbrev pub asked : List ModuleId
  asked = concerned m a.fragments fragment a.supervisor.runners a.supervisor.reg_order

  -- The candidate is valid, names no module that is not there, and has a start order. The modules that
  -- run, are Configurable and get another fragment have all accepted it and have then been told to
  -- commit, in the order of registration. The candidate is the configuration: its graph and settings
  -- of restarts are those of the supervisor, and each registered module carries its fragment.
  pub record Applied (after : Reloader F) : Type 0 where
    pub valid : validate parsers candidate ≡ []
    pub known : unknown_modules a.supervisor.runners candidate.modules ≡ []
    pub graph : Graph
    pub resolved :
        resolve (enabled_manifests candidate.modules a.manifests a.supervisor.reg_order) ≡ ok graph
    pub agreed : Agreed m fragment asked
    pub committed : Reloader F
    pub calls : Calls a (prepares fragment asked ++ commits asked) committed
    pub cfg_now : after.cfg ≡ candidate
    pub fragments_now : after.fragments ≡ fragment
    pub calls_now : after.calls ≡ committed.calls
    pub swapped : Swapped candidate.agent.restart fragment graph a.supervisor after.supervisor

  -- An error leaves the supervisor as it was: no module has been called, or one has refused and those
  -- that had accepted have been rolled back.
  abbrev pub Outcome : Reloader F × Option ReloadError → Type 0
  Outcome (after, none) = Applied after
  Outcome (after, some e) = Calls a [] after ⊎ OneRefused m fragment [] asked a after e

  swap-Swapped :
      {calls : List ModuleCall} (graph : Graph) (b : Reloader F)
      → Calls a calls b
      → Swapped candidate.agent.restart fragment graph a.supervisor
          (swap now candidate graph b).supervisor
  unfolding swap
  swap-Swapped graph b c =
      let s = swap_config-Swapped candidate.agent.restart fragment graph now b.supervisor in
      record {
        graph_now = s.graph_now;
        enabled_now = s.enabled_now;
        backoff_now = s.backoff_now;
        carried =
            subst
              (λ ids.
                AllCarry fragment
                  (swap_config now candidate.agent.restart fragment graph b.supervisor).runners ids)
              (ap (λ (r : Reloader F). r.supervisor.reg_order) c.core_same) s.carried;
      }

  settled-Outcome :
      (graph : Graph)
      → validate parsers candidate ≡ []
      → unknown_modules a.supervisor.runners candidate.modules ≡ []
      → resolve (enabled_manifests candidate.modules a.manifests a.supervisor.reg_order) ≡ ok graph
      → (r : Reloader F × Result ReloadError (List ModuleId)) → Prepared m fragment [] asked a r
      → Outcome (settled m now candidate graph r)
  unfolding settled swap
  settled-Outcome graph v k g (b, err e) p = inr p
  settled-Outcome graph v k g (b, ok ds) (p, same) = record {
    valid = v;
    known = k;
    graph = graph;
    resolved = g;
    agreed = p.agreed;
    committed = commit_all m now asked b;
    calls =
        Calls_trans a b _ (prepares fragment asked) (commits asked) p.calls
          (commit_all-Calls m now asked b);
    cfg_now = refl;
    fragments_now = refl;
    calls_now = ap (λ ids. (commit_all m now ids b).calls) same;
    swapped =
        subst
          (λ ids.
            Swapped candidate.agent.restart fragment graph a.supervisor
              (swap now candidate graph (commit_all m now ids b)).supervisor)
          (sym same)
          (swap-Swapped graph (commit_all m now asked b) (
            Calls_trans a b _ (prepares fragment asked) (commits asked) p.calls
              (commit_all-Calls m now asked b)));
  }

  with_graph-Outcome :
      validate parsers candidate ≡ []
      → unknown_modules a.supervisor.runners candidate.modules ≡ []
      → (r : Result ResolveError Graph)
      → resolve (enabled_manifests candidate.modules a.manifests a.supervisor.reg_order) ≡ r
      → Outcome (with_graph m now candidate r a)
  unfolding with_graph
  with_graph-Outcome v k (err e) g = inl (record_config_rejected-Calls now a)
  with_graph-Outcome v k (ok graph) g =
      subst (λ ids. Outcome (settled m now candidate graph (prepare_all m now fragment ids [] a)))
        (sym
          (to_prepare-concerned m a.fragments fragment a.supervisor.runners a.supervisor.reg_order))
        (settled-Outcome graph v k g (prepare_all m now fragment asked [] a)
          (prepare_all-Prepared m fragment now asked [] a))

  with_known-Outcome :
      validate parsers candidate ≡ []
      → (unknown : List ModuleId) → unknown_modules a.supervisor.runners candidate.modules ≡ unknown
      → Outcome (with_known m now candidate unknown a)
  unfolding with_known
  with_known-Outcome v (id ∷ ids) k = inl (record_config_rejected-Calls now a)
  with_known-Outcome v [] k =
      with_graph-Outcome v k
        (resolve (enabled_manifests candidate.modules a.manifests a.supervisor.reg_order)) refl

  with_problems-Outcome :
      (problems : List Problem)
      → validate parsers candidate ≡ problems
      → Outcome (with_problems m now candidate problems a)
  unfolding with_problems
  with_problems-Outcome (p ∷ ps) v = inl (record_config_rejected-Calls now a)
  with_problems-Outcome [] v =
      if_cases Outcome (not a.supervisor.started || a.supervisor.stopped_flag)
        (λ _. inl (Calls_same a a refl refl))
        (λ _. with_known-Outcome v (unknown_modules a.supervisor.runners candidate.modules) refl)

  -- Where Reload runs up to its swap with no other goroutine in between: one that succeeds has a valid
  -- candidate with a start order; the modules that run, are Configurable and get another fragment have
  -- all accepted it and have then been told to commit; and the candidate is then the configuration,
  -- with its graph, its settings of restarts and what it says of each registered module in force. One
  -- that fails leaves all but diagnostics, events and counters as it was, and has called no module, or
  -- just those up to the first that refused, of which it has rolled back the ones that had accepted.
  pub reload-Outcome : Outcome (reload parsers m now candidate a)
  unfolding reload
  reload-Outcome = with_problems-Outcome (validate parsers candidate) refl
