-- ===== src/Supervisor/Reloading/Disabled.antt =====
-- What Reload leaves of a module that the new configuration disables (internal/supervisor/reload.go).
use my_own_agent.Prelude.{
  ℕ, ◌≡◌, refl, sym, ap, subst, ◌∙◌, Bool, true, false, not, ◌&&◌, Option, none, some, List, [],
  ◌∷◌, str_eq, if◌then◌else◌, if_cases, arith, eq_iff, inl, inr, Bool-cases,
}
use my_own_agent.Config.{ModuleConfig, RestartConfig}
use my_own_agent.Lifecycle.{disabled}
use my_own_agent.Supervisor.Graph.{ModuleId, Graph, contains, start_order}
use my_own_agent.Supervisor.Runner.{Runner}
use my_own_agent.Supervisor.Control.{Supervisor}
use my_own_agent.Supervisor.Reloading.{
  changed, to_stop, to_start, swap_config, disabled_step, enabled_step, mark_disabled, mark_enabled,
}
use my_own_agent.Supervisor.Reloading.Effects.{runner-disabled_step}
use my_own_agent.Supervisor.Reloading.Configured.{on_runner_self, on_runner_other}
use my_own_agent.Supervisor.Reloading.Finishing.{
  LifecycleAnswers, stop_module, stop_each, enable_each, start_each, apply_config,
}
use my_own_agent.Supervisor.Reloading.Others.{stop_module_other, start_once_other}

-- A module, if it is registered, is Disabled and waits for no retry.
abbrev pub Resting : Option Runner → Type 0
Resting none = Unit
Resting (some r) = (r.state ≡ disabled) × (r.retry_at ≡ 0)

same_id : (i j : ModuleId) → str_eq i j ≡ true → i ≡ j
same_id i j h = ground (arith, eq_iff i j)

-- Whether a module is registered and its `enabled` changes as the test says.
abbrev passes :
    (Bool → Bool → Bool) → (ModuleId → Option Runner) → (ModuleId → ModuleConfig) → ModuleId → Bool
passes test runners cfg id = elim (runners id) [
  | none ↦ false
  | some r ↦ test r.enabled (cfg id).enabled
]

changed-passes :
    (test : Bool → Bool → Bool) (runners : ModuleId → Option Runner) (cfg : ModuleId → ModuleConfig)
    → (ids : List ModuleId) (j : ModuleId) → contains j (changed test runners cfg ids) ≡ true
    → passes test runners cfg j ≡ true
unfolding changed
changed-passes test runners cfg [] j h = absurd (ground arith)
changed-passes test runners cfg (id ∷ ids) j h =
    go (runners id) refl (λ k. changed-passes test runners cfg ids j k) h
  where
    rest : List ModuleId
    rest = changed test runners cfg ids

    step : Option Runner → List ModuleId
    step none = rest
    step (some r) = if test r.enabled (cfg id).enabled then id ∷ rest else rest

    known : Option Runner → Bool
    known none = false
    known (some r) = test r.enabled (cfg id).enabled

    go :
        (o : Option Runner)
        → runners id ≡ o
        → (contains j rest ≡ true → passes test runners cfg j ≡ true)
        → contains j (step o) ≡ true
        → passes test runners cfg j ≡ true
    go none e later k = later k
    go (some r) e later k =
        if_cases (λ (l : List ModuleId). contains j l ≡ true → passes test runners cfg j ≡ true)
          (test r.enabled (cfg id).enabled)
          (λ t m. elim (Bool-cases (str_eq id j)) [
            | inl same ↦
                subst (λ i. passes test runners cfg i ≡ true) (same_id id j same) (ap known e ∙ t)
            | inr other ↦ later (ground arith)
          ])
          (λ _. later) k

contains-changed :
    (test : Bool → Bool → Bool) (runners : ModuleId → Option Runner) (cfg : ModuleId → ModuleConfig)
    → (ids : List ModuleId) (j : ModuleId) (r : Runner) → runners j ≡ some r
    → test r.enabled (cfg j).enabled ≡ true
    → contains j ids ≡ true
    → contains j (changed test runners cfg ids) ≡ true
unfolding changed
contains-changed test runners cfg [] j r k t h = absurd (ground arith)
contains-changed test runners cfg (id ∷ ids) j r k t h =
    go (str_eq id j) refl (λ m. contains-changed test runners cfg ids j r k t m)
  where
    rest : List ModuleId
    rest = changed test runners cfg ids

    step : Option Runner → List ModuleId
    step none = rest
    step (some q) = if test q.enabled (cfg id).enabled then id ∷ rest else rest

    later : (o : Option Runner) → contains j rest ≡ true → contains j (step o) ≡ true
    later none m = m
    later (some q) m = ground arith

    go :
        (b : Bool)
        → str_eq id j ≡ b
        → (contains j ids ≡ true → contains j rest ≡ true)
        → contains j (step (runners id)) ≡ true
    go true e more =
        subst (λ o. contains j (step o) ≡ true) (sym (ap runners (same_id id j e) ∙ k))
          (rw (ap (λ i. test r.enabled (cfg i).enabled) (same_id id j e) ∙ t) (ground arith))
    go false e more = later (runners id) (more (ground arith))

module _ (answers : LifecycleAnswers) (now : ℕ) {F : Type 0} (restart : RestartConfig F) where
  mark_disabled_self :
      (id : ModuleId) (s : Supervisor) → Resting ((mark_disabled now id s).runners id)
  unfolding mark_disabled
  mark_disabled_self id s =
      on_runner_self Resting disabled_step now id s tt
        (λ r. subst (λ q. Resting (some q)) (sym (runner-disabled_step r)) (refl, refl))

  -- One round of the loop over toStop.
  stopped_round :
      (id j : ModuleId) (s : Supervisor)
      → Resting (s.runners j)
      → Resting ((mark_disabled now id (stop_module answers now id s)).runners j)
  unfolding mark_disabled
  stopped_round id j s r = go (str_eq id j) refl
    where
      after : Supervisor
      after = mark_disabled now id (stop_module answers now id s)

      go : (b : Bool) → str_eq id j ≡ b → Resting (after.runners j)
      go true e =
          subst (λ i. Resting (after.runners i)) (same_id id j e)
            (mark_disabled_self id (stop_module answers now id s))
      go false e =
          subst Resting
            (sym (
              on_runner_other disabled_step now id j (stop_module answers now id s) e
              ∙ stop_module_other answers now id j e s))
            r

  stop_each-keeps :
      (ids : List ModuleId) (j : ModuleId) (s : Supervisor)
      → Resting (s.runners j)
      → Resting ((stop_each answers now ids s).runners j)
  unfolding stop_each
  stop_each-keeps [] j s r = r
  stop_each-keeps (id ∷ ids) j s r = stop_each-keeps ids j _ (stopped_round id j s r)

  stop_each-Resting :
      (ids : List ModuleId) (j : ModuleId) (s : Supervisor)
      → contains j ids ≡ true
      → Resting ((stop_each answers now ids s).runners j)
  unfolding stop_each
  stop_each-Resting [] j s h = absurd (ground arith)
  stop_each-Resting (id ∷ ids) j s h = go (str_eq id j) refl (λ k. stop_each-Resting ids j after k)
    where
      after : Supervisor
      after = mark_disabled now id (stop_module answers now id s)

      go :
          (b : Bool)
          → str_eq id j ≡ b
          → (contains j ids ≡ true → Resting ((stop_each answers now ids after).runners j))
          → Resting ((stop_each answers now ids after).runners j)
      go true e later = stop_each-keeps ids j after (
          subst (λ i. Resting (after.runners i)) (same_id id j e)
            (mark_disabled_self id (stop_module answers now id s)))
      go false e later = later (ground arith)

  enable_each_other :
      (ids : List ModuleId) (j : ModuleId) (s : Supervisor)
      → contains j ids ≡ false
      → (enable_each now ids s).runners j ≡ s.runners j
  unfolding enable_each mark_enabled
  enable_each_other [] j s h = refl
  enable_each_other (id ∷ ids) j s h =
      enable_each_other ids j (mark_enabled now id s) (ground arith)
      ∙ on_runner_other enabled_step now id j s (ground arith)

  start_each_other :
      (starts ids : List ModuleId) (j : ModuleId) (s : Supervisor)
      → contains j starts ≡ false
      → (start_each answers now starts ids s).runners j ≡ s.runners j
  unfolding start_each
  start_each_other starts [] j s h = refl
  start_each_other starts (id ∷ ids) j s h =
      start_each_other starts ids j _ h
      ∙ if_cases (λ (t : Supervisor). t.runners j ≡ s.runners j) (contains id starts)
          (λ e. start_once_other answers now id j (distinct (str_eq id j) refl e) s) (λ _. refl)
    where
      distinct : (b : Bool) → str_eq id j ≡ b → contains id starts ≡ true → str_eq id j ≡ false
      distinct false e k = e
      distinct true e k = absurd (ground (arith, ap (λ i. contains i starts) (same_id id j e)))

  disjoint :
      (cfg : ModuleId → ModuleConfig) (s : Supervisor) (j : ModuleId)
      → contains j (to_stop cfg s) ≡ true
      → contains j (to_start cfg s) ≡ false
  unfolding to_stop to_start
  disjoint cfg s j h = go (contains j (to_start cfg s)) refl
    where
      go : (b : Bool) → contains j (to_start cfg s) ≡ b → b ≡ false
      go false e = refl
      go true e = absurd (
          ground (
            arith,
            changed-passes (λ was now. was && not now) s.runners cfg s.reg_order j h,
            changed-passes (λ was now. not was && now) s.runners cfg s.reg_order j e,
          ))

  stopped-Resting :
      (cfg : ModuleId → ModuleConfig) (graph : Graph) (s : Supervisor) (id : ModuleId)
      → contains id (to_stop cfg s) ≡ true
      → Resting ((apply_config answers now restart cfg graph s).runners id)
  unfolding apply_config
  stopped-Resting cfg graph s id h =
      subst Resting
        (sym (
          start_each_other starts (start_order graph) id (enable_each now starts halted) apart
          ∙ enable_each_other starts id halted apart))
        (stop_each-Resting (to_stop cfg s) id (swap_config now restart cfg graph s) h)
    where
      starts : List ModuleId
      starts = to_start cfg s

      halted : Supervisor
      halted = stop_each answers now (to_stop cfg s) (swap_config now restart cfg graph s)

      apart : contains id (to_start cfg s) ≡ false
      apart = disjoint cfg s id h

  -- Where the last phase of a reload runs with no other goroutine between its critical sections: a
  -- registered module that was enabled, and that the new configuration does not enable, is Disabled
  -- after it and waits for no retry, whatever the modules that are stopped and started answer.
  pub apply_config-Resting :
      (cfg : ModuleId → ModuleConfig) (graph : Graph) (s : Supervisor) (id : ModuleId) (r : Runner)
      → contains id s.reg_order ≡ true
      → s.runners id ≡ some r
      → r.enabled ≡ true
      → (cfg id).enabled ≡ false
      → Resting ((apply_config answers now restart cfg graph s).runners id)
  unfolding to_stop
  apply_config-Resting cfg graph s id r member known was now_off = stopped-Resting cfg graph s id (
      contains-changed (λ was now. was && not now) s.runners cfg s.reg_order id r known
        (ground arith) member)
