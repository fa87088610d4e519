-- ===== src/Supervisor/Ending/Tests.antt =====
-- Probes and the shutdown of a supervisor with one running module.
use my_own_agent.Prelude.{◌≡◌, refl, true, false, none, some, List, [], ◌∷◌}
use my_own_agent.Lifecycle.{running}
use my_own_agent.Diagnostics.{new_recorder}
use my_own_agent.Supervisor.Graph.{update}
use my_own_agent.Supervisor.Runner.{Error, Runner, new_runner}
use my_own_agent.Supervisor.Control.{Supervisor}
use my_own_agent.Supervisor.Probing.{probe_all}
use my_own_agent.Supervisor.Ending.{begin_shutdown}
use my_own_agent.Supervisor.Ending.Final.{
  Section, failure_ends, enables, perform_each, Ended, begin_shutdown_final,
}

abbrev host : Runner
host = record (new_runner "host" true true 1 10) { state = running }

abbrev one_module : Supervisor
one_module = record {
  policy = record { enabled = true; initial_backoff = 5; delay = λ id attempt. 5 };
  runners = update (λ _. none) "host" (some host);
  reg_order = "host" ∷ [];
  graph = none;
  started = true;
  stopped_flag = false;
  diags = new_recorder 0;
  events = [];
}

probed : (probe_all one_module).1 ≡ "host" ∷ []
unfolding probe_all new_runner
probed = refl

abbrev lost : Error
lost = record { is_unsupported = false; is_panic = false; text = "device lost" }

-- A failure that was being handled ends behind Shutdown.
abbrev behind : List (Section Unit)
behind = failure_ends 8 "host" lost true none ∷ enables 8 "host" ∷ []

begin_shutdown_final_example :
    Ended 20 "host" 0 lost (perform_each behind (begin_shutdown one_module).0)
begin_shutdown_final_example = begin_shutdown_final one_module behind 20 "host" 0 lost
