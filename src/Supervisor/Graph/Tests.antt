-- ===== src/Supervisor/Graph/Tests.antt =====
-- Runs of the modelled code on small inputs, and the theorems at them.
use my_own_agent.Prelude.{
  ℕ, ◌≡◌, refl, List, [], ◌∷◌, Result, ok, err, arith, eq_iff, str_eq, str_lt, ◌≢◌, if◌then◌else◌,
}
use my_own_agent.Supervisor.Graph.{
  ModuleId, Manifest, Manifests, Graph, ResolveError, cycle_error, resolve, keys, dependencies_of,
  start_order, stop_order,
}
use my_own_agent.Supervisor.Graph.Counting.{count}
use my_own_agent.Supervisor.Graph.Kahn.{Ordered}
use my_own_agent.Supervisor.Graph.Resolved.{UniqueKeys, Behind, resolve-Ordered, resolve-Behind}
use my_own_agent.Supervisor.Graph.Refused.{
  IsRank, AllPresent, Explains, resolve_total, resolve-Explains,
}

abbrev needs : ModuleId → List ModuleId → Manifest
needs id deps = record { id = id; version = "1"; dependencies = deps; permissions = [] }

host_logs : ◌≢◌ {A = ModuleId} "host" "logs"
host_logs = ground (arith, eq_iff "host" "logs")

a_b : ◌≢◌ {A = ModuleId} "a" "b"
a_b = ground (arith, eq_iff "a" "b")

-- "logs" needs "host", which sorts behind nothing.
abbrev two_modules : Manifests
two_modules = ("logs", needs "logs" ("host" ∷ [])) ∷ ("host", needs "host" []) ∷ []

abbrev graph_of : Result ResolveError Graph → Graph
graph_of (ok g) = g
graph_of (err x) = record { order = []; deps = λ _. []; dependents = λ _. [] }

abbrev two_graph : Graph
two_graph = graph_of (resolve two_modules)

two_resolved : resolve two_modules ≡ ok two_graph
unfolding resolve str_lt
two_resolved = refl

two_order : two_graph.order ≡ "host" ∷ "logs" ∷ []
unfolding resolve str_lt
two_order = refl

two_unique : UniqueKeys two_modules
two_unique x = ground (arith, host_logs, eq_iff "logs" x, eq_iff "host" x)

resolve-Ordered_example :
    Ordered (dependencies_of two_modules) [] (start_order two_graph)
    × ((x : ModuleId) → count x (start_order two_graph) ≡ count x (keys two_modules))
resolve-Ordered_example = resolve-Ordered two_modules two_graph two_unique two_resolved

resolve-Behind_example : Behind (dependencies_of two_modules) [] (stop_order two_graph)
resolve-Behind_example = resolve-Behind two_modules two_graph two_unique two_resolved

-- "host" has the rank 0, all others the rank 1.
abbrev two_rank : ModuleId → ℕ
two_rank x = if str_eq "host" x then 0 else 1

two_falls : IsRank two_modules two_rank
two_falls x d m n = ground (arith, host_logs, eq_iff "logs" x, eq_iff "host" x, eq_iff "host" d)

two_present : AllPresent two_modules
two_present x d m n = ground (arith, host_logs, eq_iff "logs" x, eq_iff "host" x, eq_iff "host" d)

resolve_total_example : (g : Graph) × (resolve two_modules ≡ ok g)
resolve_total_example = resolve_total two_modules two_rank two_unique two_falls two_present

-- Two modules that need each other.
abbrev ring : Manifests
ring = ("a", needs "a" ("b" ∷ [])) ∷ ("b", needs "b" ("a" ∷ [])) ∷ []

ring_unique : UniqueKeys ring
ring_unique x = ground (arith, a_b, eq_iff "a" x, eq_iff "b" x)

ring_refused : resolve ring ≡ err (cycle_error ("a" ∷ "b" ∷ "a" ∷ []))
unfolding resolve str_lt
ring_refused = refl

resolve-Explains_example : Explains ring (cycle_error ("a" ∷ "b" ∷ "a" ∷ []))
resolve-Explains_example =
    resolve-Explains ring (cycle_error ("a" ∷ "b" ∷ "a" ∷ [])) ring_unique ring_refused
