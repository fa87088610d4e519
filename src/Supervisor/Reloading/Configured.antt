-- ===== src/Supervisor/Reloading/Configured.antt =====
-- What the swap of the configuration leaves in the runners (internal/supervisor/reload.go).
use my_own_agent.Prelude.{
  ℕ, ◌≡◌, refl, subst, sym, Bool, true, false, ◌&&◌, Option, none, some, List, [], ◌∷◌, str_eq, ◌∙◌,
  ap, if_cases, arith, eq_iff,
}
use my_own_agent.Config.{ModuleConfig, RestartConfig}
use my_own_agent.Lifecycle.{crash_looping, state_eq}
use my_own_agent.Supervisor.Graph.{ModuleId, Graph, contains}
use my_own_agent.Supervisor.Runner.{Runner, Step, RestartPolicy}
use my_own_agent.Supervisor.Control.{Supervisor, commit, on_runner}
use my_own_agent.Supervisor.Reloading.{reconciled, apply_each, swap_config}
use my_own_agent.Supervisor.Reloading.Effects.{runner-reconciled}

-- The runner of a module, if it is registered, is enabled and required as the fragment says.
abbrev pub Carries : ModuleConfig → Option Runner → Type 0
Carries cfg none = Unit
Carries cfg (some r) = (r.enabled ≡ cfg.enabled) × (r.required ≡ cfg.required)

reconciled-Carries :
    (now : ℕ) (cfg : ModuleConfig) (r : Runner) → Carries cfg (some (reconciled now cfg r).runner)
reconciled-Carries now cfg r =
    subst (λ q. Carries cfg (some q)) (sym (runner-reconciled now cfg r))
      (if_cases (λ q. Carries cfg (some q)) (state_eq r.state crash_looping && cfg.enabled)
        (λ _. (refl, refl)) (λ _. (refl, refl)))

-- What holds of the runner after a critical section on a module.
pub on_runner_self :
    (P : Option Runner → Type 0) (f : Runner → Step) (now : ℕ) (id : ModuleId) (s : Supervisor)
    → P none
    → ((r : Runner) → P (some (f r).runner))
    → P ((on_runner f now id s).runners id)
unfolding on_runner commit
on_runner_self P f now id s p q = go (s.runners id) refl
  where
    step : Option Runner → Supervisor
    step none = s
    step (some r) = commit now id (f r) s

    go : (o : Option Runner) → s.runners id ≡ o → P ((step o).runners id)
    go none h = subst P (sym h) p
    go (some r) h = subst P {x = some (f r).runner} (ground (arith, eq_iff id id)) (q r)

-- A critical section on one module leaves the others as they are.
pub on_runner_other :
    (f : Runner → Step) (now : ℕ) (id j : ModuleId) (s : Supervisor)
    → str_eq id j ≡ false
    → (on_runner f now id s).runners j ≡ s.runners j
unfolding on_runner commit
on_runner_other f now id j s h = go (s.runners id)
  where
    step : Option Runner → Supervisor
    step none = s
    step (some r) = commit now id (f r) s

    go : (o : Option Runner) → (step o).runners j ≡ s.runners j
    go none = refl
    go (some r) = ground arith

-- What the critical sections on a module leave of the rest: the graph and the settings of restarts.
abbrev Framed : Supervisor → Supervisor → Type 0
Framed s t = (t.graph ≡ s.graph) × (t.policy ≡ s.policy)

on_runner-Framed :
    (f : Runner → Step) (now : ℕ) (id : ModuleId) (s : Supervisor) → Framed s (on_runner f now id s)
unfolding on_runner commit
on_runner-Framed f now id s = go (s.runners id)
  where
    step : Option Runner → Supervisor
    step none = s
    step (some r) = commit now id (f r) s

    go : (o : Option Runner) → Framed s (step o)
    go none = (refl, refl)
    go (some r) = (refl, refl)

module _ (now : ℕ) (cfg : ModuleId → ModuleConfig) where
  apply_each-Framed : (ids : List ModuleId) (s : Supervisor) → Framed s (apply_each now cfg ids s)
  unfolding apply_each
  apply_each-Framed [] s = (refl, refl)
  apply_each-Framed (id ∷ ids) s =
      let first : Framed s (on_runner (reconciled now (cfg id)) now id s) =
        on_runner-Framed (reconciled now (cfg id)) now id s in
      let rest = apply_each-Framed ids (on_runner (reconciled now (cfg id)) now id s) in
      (rest.0 ∙ first.0, rest.1 ∙ first.1)

  on_runner-keeps :
      (id j : ModuleId) (s : Supervisor)
      → Carries (cfg j) (s.runners j)
      → Carries (cfg j) ((on_runner (reconciled now (cfg id)) now id s).runners j)
  on_runner-keeps id j s h = go (str_eq id j) refl
    where
      go :
          (b : Bool)
          → str_eq id j ≡ b
          → Carries (cfg j) ((on_runner (reconciled now (cfg id)) now id s).runners j)
      go true e =
          subst (λ i. Carries (cfg i) ((on_runner (reconciled now (cfg id)) now id s).runners i))
            (ground (arith, eq_iff id j))
            (on_runner_self (Carries (cfg id)) (reconciled now (cfg id)) now id s tt
              (reconciled-Carries now (cfg id)))
      go false e =
          subst (Carries (cfg j)) (sym (on_runner_other (reconciled now (cfg id)) now id j s e)) h

  apply_each-keeps :
      (ids : List ModuleId) (j : ModuleId) (s : Supervisor)
      → Carries (cfg j) (s.runners j)
      → Carries (cfg j) ((apply_each now cfg ids s).runners j)
  unfolding apply_each
  apply_each-keeps [] j s h = h
  apply_each-keeps (id ∷ ids) j s h = apply_each-keeps ids j _ (on_runner-keeps id j s h)

  apply_each-Carries :
      (ids : List ModuleId) (j : ModuleId) (s : Supervisor)
      → contains j ids ≡ true
      → Carries (cfg j) ((apply_each now cfg ids s).runners j)
  unfolding apply_each
  apply_each-Carries [] j s h = absurd (ground arith)
  apply_each-Carries (id ∷ ids) j s h =
      go (str_eq id j) refl (λ k. apply_each-Carries ids j after k)
    where
      after : Supervisor
      after = on_runner (reconciled now (cfg id)) now id s

      go :
          (b : Bool)
          → str_eq id j ≡ b
          → (contains j ids ≡ true → Carries (cfg j) ((apply_each now cfg ids after).runners j))
          → Carries (cfg j) ((apply_each now cfg ids after).runners j)
      go true e later = apply_each-keeps ids j after (
          subst (λ i. Carries (cfg i) (after.runners i)) (ground (arith, eq_iff id j))
            (on_runner_self (Carries (cfg id)) (reconciled now (cfg id)) now id s tt
              (reconciled-Carries now (cfg id))))
      go false e later = later (ground arith)

  -- After the swap of the configuration every registered module is enabled and required just as the
  -- new configuration says.
  pub swap_config-Carries :
      {F : Type 0} (restart : RestartConfig F) (graph : Graph) (s : Supervisor) (id : ModuleId)
      → contains id s.reg_order ≡ true
      → Carries (cfg id) ((swap_config now restart cfg graph s).runners id)
  unfolding swap_config
  swap_config-Carries restart graph s id h = apply_each-Carries s.reg_order id _ h

-- Each module of the list is enabled and required as its fragment says, if it is registered.
abbrev pub AllCarry :
    (ModuleId → ModuleConfig) → (ModuleId → Option Runner) → List ModuleId → Type 0
AllCarry cfg runners [] = Unit
AllCarry cfg runners (id ∷ ids) = Carries (cfg id) (runners id) × AllCarry cfg runners ids

each-AllCarry :
    (cfg : ModuleId → ModuleConfig) (runners : ModuleId → Option Runner) (ids : List ModuleId)
    → ((id : ModuleId) → contains id ids ≡ true → Carries (cfg id) (runners id))
    → AllCarry cfg runners ids
each-AllCarry cfg runners [] h = tt
each-AllCarry cfg runners (id ∷ ids) h = (
  h id (ground (arith, eq_iff id id)),
  each-AllCarry cfg runners ids (λ j k. h j (ground (arith, k))),
)

-- What the swap leaves: the graph, the settings of restarts, and what each registered module carries.
pub record Swapped {F : Type 0} (restart : RestartConfig F) (cfg : ModuleId → ModuleConfig)
    (graph : Graph) (s t : Supervisor) : Type 0 where
  pub graph_now : t.graph ≡ some graph
  pub enabled_now : t.policy.enabled ≡ restart.enabled
  pub backoff_now : t.policy.initial_backoff ≡ restart.initial_backoff
  pub carried : AllCarry cfg t.runners s.reg_order

pub swap_config-Swapped :
    {F : Type 0} (restart : RestartConfig F) (cfg : ModuleId → ModuleConfig) (graph : Graph)
    (now : ℕ) (s : Supervisor)
    → Swapped restart cfg graph s (swap_config now restart cfg graph s)
unfolding swap_config
swap_config-Swapped restart cfg graph now s = record {
  graph_now = (apply_each-Framed now cfg s.reg_order _).0;
  enabled_now = ap (λ (p : RestartPolicy). p.enabled) (apply_each-Framed now cfg s.reg_order _).1;
  backoff_now =
      ap (λ (p : RestartPolicy). p.initial_backoff) (apply_each-Framed now cfg s.reg_order _).1;
  carried =
      each-AllCarry cfg _ s.reg_order (λ id h. swap_config-Carries now cfg restart graph s id h);
}
