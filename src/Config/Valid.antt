-- ===== src/Config/Valid.antt =====
-- What a configuration without problems is like (internal/config/validate.go).
use my_own_agent.Prelude.{
  ◌*◌, ◌^◌, ◌≤◌, ◌<◌, ◌≡◌, refl, sym, ap, ◌∙◌, Bool, true, false, not, ◌||◌, List, [], ◌∷◌, ◌++◌,
  sort_by, any, any-sort_by, arith, ◌==◌,
}
use my_own_agent.Supervisor.Ids.{ModuleId}
use my_own_agent.Config.{ModuleConfig, RestartConfig, Config, module_for}
use my_own_agent.Config.Validation.{
  Problem, problem, unsupported_version, Parsers, failures, module_checks, modules_checks, by_id,
  restart_checks, agent_checks, export_checks, with_defaults, config_checks, validate,
}

abbrev failed : Bool × Problem → Bool
failed check = check.0

failures-nil : (checks : List (Bool × Problem)) → failures checks ≡ [] → any failed checks ≡ false
failures-nil [] h = refl
failures-nil (check ∷ checks) h = ground (arith, failures-nil checks)

any-append :
    (xs ys : List (Bool × Problem)) → any failed (xs ++ ys) ≡ (any failed xs || any failed ys)
any-append [] ys = refl
any-append (x ∷ xs) ys = ground (arith, any-append xs ys)

clear_parts :
    (xs ys : List (Bool × Problem))
    → any failed (xs ++ ys) ≡ false
    → (any failed xs ≡ false) × (any failed ys ≡ false)
clear_parts xs ys h = ground (arith, any-append xs ys)

clear_tail :
    (check : Bool × Problem) (checks : List (Bool × Problem))
    → any failed (check ∷ checks) ≡ false
    → any failed checks ≡ false
clear_tail check checks h = ground arith

-- What the parts of the checks are when none fails.
parts_clear :
    {F : Type 0} (parsers : Parsers F) (c : Config F)
    → validate parsers c ≡ []
    → (any failed (agent_checks parsers c.agent) ≡ false)
      × (any failed (modules_checks (sort_by by_id c.modules)) ≡ false)
unfolding validate with_defaults config_checks
parts_clear parsers c h =
    let d = with_defaults c in
    let later = modules_checks (sort_by by_id c.modules) ++ export_checks parsers d in
    let (agent, rest) = clear_parts (agent_checks parsers c.agent) later (
      clear_tail (not (c.schema_version == 1), problem "schema_version" unsupported_version)
        (agent_checks parsers c.agent ++ later) (failures-nil (config_checks parsers d) h)) in
    (
      agent,
      (clear_parts (modules_checks (sort_by by_id c.modules)) (export_checks parsers d) rest).0,
    )

bad_module : ModuleId × ModuleConfig → Bool
bad_module m = any failed (module_checks m)

any-modules_checks :
    (ms : List (ModuleId × ModuleConfig)) → any failed (modules_checks ms) ≡ any bad_module ms
unfolding bad_module
any-modules_checks [] = refl
any-modules_checks (m ∷ ms) =
    any-append (module_checks m) (modules_checks ms)
    ∙ ap (λ b. any failed (module_checks m) || b) (any-modules_checks ms)

good_module :
    (id : ModuleId) (mc : ModuleConfig)
    → bad_module (id, mc) ≡ false
    → mc.required ≡ true
    → mc.enabled ≡ true
unfolding bad_module module_checks
good_module id mc h r = ground arith

modules-enabled :
    (id : ModuleId) (ms : List (ModuleId × ModuleConfig))
    → any bad_module ms ≡ false
    → (module_for ms id).required ≡ true
    → (module_for ms id).enabled ≡ true
modules-enabled id [] h r = absurd (ground arith)
modules-enabled id ((j, mc) ∷ ms) h r = ground (arith, modules-enabled id ms, good_module j mc)

-- In a valid configuration every module that is required is enabled.
validate-required_enabled :
    {F : Type 0} (parsers : Parsers F) (c : Config F)
    → validate parsers c ≡ []
    → (id : ModuleId) → (module_for c.modules id).required ≡ true
    → (module_for c.modules id).enabled ≡ true
validate-required_enabled parsers c h id r =
    modules-enabled id c.modules
      (sym (any-sort_by bad_module by_id c.modules)
        ∙ sym (any-modules_checks (sort_by by_id c.modules))
        ∙ (parts_clear parsers c h).1)
      r

restart_clear :
    {F : Type 0} (parsers : Parsers F) (r : RestartConfig F)
    → any failed (restart_checks parsers r) ≡ false
    → r.window < 2 ^ 64
    → r.max_restarts * r.initial_backoff < 2 ^ 63
    → r.max_restarts * r.initial_backoff ≤ r.window
unfolding restart_checks
restart_clear parsers r h w p = ground arith

-- In a valid configuration with restarts, all the restarts of the budget at the initial backoff fit
-- into the window, where the product of the two does not overflow.
validate-budget_fits :
    {F : Type 0} (parsers : Parsers F) (c : Config F)
    → validate parsers c ≡ []
    → c.agent.restart.enabled ≡ true
    → c.agent.restart.window < 2 ^ 64
    → c.agent.restart.max_restarts * c.agent.restart.initial_backoff < 2 ^ 63
    → c.agent.restart.max_restarts * c.agent.restart.initial_backoff ≤ c.agent.restart.window
unfolding agent_checks
validate-budget_fits parsers c h e w p =
    restart_clear parsers c.agent.restart (ground (arith, (parts_clear parsers c h).0)) w p
