-- ===== src/Supervisor/Ending.antt =====
-- The critical section of Shutdown (internal/supervisor/lifecycle.go). The wait for the loop and the
-- deadlines behind it are not modelled; the stops are begin_stop and end_stop.
pub mod Final
pub mod Tests
use my_own_agent.Prelude.{Bool, true, Option, none, some, List, [], ◌∷◌, ◌==◌, if◌then◌else◌}
use my_own_agent.Supervisor.Graph.{ModuleId, Graph, stop_order}
use my_own_agent.Supervisor.Control.{Supervisor}

-- s.graph.StopOrder(), if there is a graph.
abbrev order_of : Option Graph → List ModuleId
order_of none = []
order_of (some g) = stop_order g

-- The result is the modules that Shutdown goes on to stop.
unfoldable pub begin_shutdown : Supervisor → Supervisor × List ModuleId
begin_shutdown s =
    if s.stopped_flag
    then (s, [])
    else (record s { stopped_flag = true }, if s.started then order_of s.graph else [])
