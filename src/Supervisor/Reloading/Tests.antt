-- ===== src/Supervisor/Reloading/Tests.antt =====
-- A reload of two modules that run, the second of which refuses its fragment.
use my_own_agent.Prelude.{ℕ, refl, true, false, none, some, [], ◌∷◌, ltb, str_eq, if◌then◌else◌}
use my_own_agent.Config.{ModuleConfig, Config, default_config, module_for}
use my_own_agent.Config.Validation.{Parsers}
use my_own_agent.Lifecycle.{running}
use my_own_agent.Supervisor.Graph.{ModuleId, Graph}
use my_own_agent.Supervisor.Runner.{Runner, new_runner}
use my_own_agent.Supervisor.Control.{Supervisor}
use my_own_agent.Supervisor.Reloading.{swap_config}
use my_own_agent.Supervisor.Reloading.Transaction.{ModuleAnswers, Reloader, reload}
use my_own_agent.Supervisor.Reloading.Whole.{Outcome, reload-Outcome}
use my_own_agent.Supervisor.Reloading.Finishing.{LifecycleAnswers, apply_config}
use my_own_agent.Supervisor.Reloading.Disabled.{Resting, apply_config-Resting}
use my_own_agent.Supervisor.Reloading.Configured.{Carries, swap_config-Carries}

abbrev parsers : Parsers ℕ
parsers = record { in_unit = λ f. ltb f 100; url_host = λ _. none; split_host_port = λ _. none }

abbrev fragment : ModuleConfig
fragment = record { enabled = true; required = true; settings = [] }

unfoldable candidate : Config ℕ
unfolding default_config
candidate = record (default_config 20 100) {
  modules = ("host", fragment) ∷ ("logs", fragment) ∷ [];
}

unfoldable runner : ModuleId → Runner
unfolding new_runner
runner id = record (new_runner id true false 5 600) { state = running }

unfoldable supervisor : Supervisor
unfolding runner
supervisor = record {
  policy = record { enabled = true; initial_backoff = 1; delay = λ _ _. 1 };
  runners = λ id.
      if str_eq id "host"
      then some (runner id)
      else if str_eq id "logs"
      then some (runner id)
      else none;
  reg_order = "host" ∷ "logs" ∷ [];
  graph = none;
  started = true;
  stopped_flag = false;
  diags = record { max = 256; records = []; dropped = 0 };
  events = [];
}

unfoldable reloader : Reloader ℕ
unfolding supervisor default_config
reloader = record {
  supervisor = supervisor;
  cfg = default_config 20 100;
  fragments = λ _. record { enabled = true; required = false; settings = [] };
  manifests = λ id. record { id = id; version = "1"; dependencies = []; permissions = [] };
  config_rollbacks = 0;
  calls = [];
}

abbrev modules : ModuleAnswers
modules = record {
  configurable = λ _. true;
  prepared = λ id _.
      if str_eq id "logs"
      then some (record { is_unsupported = false; is_panic = false; text = "no such file" })
      else none;
  committed = λ _. none;
  rolled_back = λ _. none;
  deep_equal = λ _ _. false;
}

reload-Outcome_example :
    Outcome parsers modules 7 candidate reloader (reload parsers modules 7 candidate reloader)
reload-Outcome_example = reload-Outcome parsers modules 7 candidate reloader

abbrev no_graph : Graph
no_graph = record { order = []; deps = λ _. []; dependents = λ _. [] }

swap_config-Carries_example : Carries fragment (
    (swap_config 7 candidate.agent.restart
        (module_for candidate.modules)
        no_graph
        supervisor).runners
      "logs")
unfolding candidate supervisor default_config
swap_config-Carries_example =
    swap_config-Carries 7 (module_for candidate.modules) candidate.agent.restart no_graph supervisor
      "logs" refl

abbrev all_disabled : ModuleId → ModuleConfig
all_disabled _ = record { enabled = false; required = false; settings = [] }

abbrev answers : LifecycleAnswers
answers = record { stop = λ _. none; admission = λ _. none; start = λ _. none }

apply_config-Resting_example : Resting (
    (apply_config answers 7 candidate.agent.restart all_disabled no_graph supervisor).runners
      "logs")
unfolding supervisor runner new_runner
apply_config-Resting_example =
    apply_config-Resting answers 7 candidate.agent.restart all_disabled no_graph supervisor "logs"
      (runner "logs") refl refl refl refl
