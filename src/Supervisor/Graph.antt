-- ===== src/Supervisor/Graph.antt =====
-- The module dependency graph (internal/supervisor/graph.go). A Go map from module IDs is a function
-- that gives the zero value for a key that the map lacks; the manifests, over which the code ranges,
-- are an association list.
pub mod Counting
pub mod Linked
pub mod Kahn
pub mod Rounds
pub mod Resolved
pub mod Refused
pub mod Tests
use my_own_agent.Prelude.{
  ℕ, zero, suc, ◌+◌, ◌-◌, String, Bool, true, false, not, ◌||◌, Option, none, some, List, [], ◌∷◌,
  ◌++◌, reverse, length, leb, ◌==◌, str_eq, str_lt, sort_by, if◌then◌else◌, Result, ok, err,
}
pub use my_own_agent.Supervisor.Ids.{ModuleId, contains, update}
use my_own_agent.Supervisor.Cycles.{find_cycle}

-- The fields of a module.Manifest that the supervisor reads.
pub record Manifest : Type 0 where
  pub id : ModuleId
  pub version : String
  pub dependencies : List ModuleId
  pub permissions : List String

pub data ResolveError : Type 0 where
  self_dependency : ModuleId → ResolveError
  missing_dependency : ModuleId → ModuleId → ResolveError
  cycle_error : List ModuleId → ResolveError

pub record Graph : Type 0 where
  pub order : List ModuleId
  pub deps : ModuleId → List ModuleId
  pub dependents : ModuleId → List ModuleId

abbrev pub Manifests : Type 0
Manifests = List (ModuleId × Manifest)

abbrev pub keys : Manifests → List ModuleId
keys [] = []
keys ((id, m) ∷ ms) = id ∷ keys ms

-- manifests[id].Dependencies
abbrev pub dependencies_of : Manifests → ModuleId → List ModuleId
dependencies_of [] id = []
dependencies_of ((j, m) ∷ ms) id = if str_eq j id then m.dependencies else dependencies_of ms id

-- What the first loop of Resolve fills in.
pub record Edges : Type 0 where
  pub deps : ModuleId → List ModuleId
  pub dependents : ModuleId → List ModuleId
  pub indegree : ModuleId → ℕ

abbrev pub no_edges : Edges
no_edges = record { deps = λ _. []; dependents = λ _. []; indegree = λ _. 0 }

unfoldable pub add_edge : ModuleId → ModuleId → Edges → Edges
add_edge id dep e = record {
  deps = update e.deps id (e.deps id ++ dep ∷ []);
  dependents = update e.dependents dep (e.dependents dep ++ id ∷ []);
  indegree = update e.indegree id (e.indegree id + 1);
}

-- The loop over one module's dependencies.
pub scan_deps :
    Manifests → ModuleId → List ModuleId → List ModuleId → Edges → Result ResolveError Edges
scan_deps ms id seen [] e = ok e
scan_deps ms id seen (dep ∷ rest) e =
    let again = contains dep seen in
    let next =
      scan_deps ms id (if again then seen else dep ∷ seen) rest
        (if again then e else add_edge id dep e) in
    if str_eq dep id
    then err (self_dependency id)
    else if not (contains dep (keys ms))
    then err (missing_dependency id dep)
    else next

-- The loop over the modules.
pub scan_all : Manifests → List ModuleId → Edges → Result ResolveError Edges
scan_all ms [] e = ok e
scan_all ms (id ∷ ids) e = elim (scan_deps ms id [] (dependencies_of ms id) e) [
  | ok e' ↦ scan_all ms ids e'
  | err x ↦ err x
]

-- The variables of Kahn's algorithm.
pub record Work : Type 0 where
  pub ready : List ModuleId
  pub order : List ModuleId
  pub indegree : ModuleId → ℕ

-- indegree[dep]--, and the test behind it. No indegree is 0 there (`Kahn.Sound`).
pub release_one : ModuleId → Work → Work
release_one dep w =
    let n = w.indegree dep - 1 in
    record w {
      ready = if n == 0 then w.ready ++ dep ∷ [] else w.ready;
      indegree = update w.indegree dep n;
    }

-- The loop over the dependents of the module that was placed.
pub release : List ModuleId → Work → Work
unfolding release_one
release [] w = w
release (dep ∷ rest) w = release rest (release_one dep w)

-- One round of `for len(ready) > 0`, with the sorted ready set split.
pub place : (ModuleId → List ModuleId) → ModuleId → List ModuleId → Work → Work
unfolding release
place dependents id rest w =
    release (sort_by str_lt (dependents id)) (record w { ready = rest; order = w.order ++ id ∷ [] })

-- The loop itself, on fuel.
pub kahn : ℕ → (ModuleId → List ModuleId) → Work → Work
kahn zero dependents w = w
kahn (suc fuel) dependents w = elim (sort_by str_lt w.ready) [
  | [] ↦ w
  | id ∷ rest ↦ kahn fuel dependents (place dependents id rest w)
]

pub filter_ids : (ModuleId → Bool) → List ModuleId → List ModuleId
filter_ids p [] = []
filter_ids p (x ∷ xs) = let rest = filter_ids p xs in if p x then x ∷ rest else rest

-- The end of Resolve, once the loop is over.
pub finish : List ModuleId → Edges → Work → Result ResolveError Graph
unfolding find_cycle filter_ids
finish ids e w =
    if length w.order == length ids
    then ok (record {
      order = w.order;
      deps = e.deps;
      dependents = λ id. sort_by str_lt (e.dependents id);
    })
    else err (cycle_error (find_cycle (filter_ids (λ id. leb 1 (w.indegree id)) ids) e.deps))

abbrev pub initial_work : List ModuleId → Edges → Work
initial_work ids e = record {
  ready = filter_ids (λ id. e.indegree id == 0) ids;
  order = [];
  indegree = e.indegree;
}

-- Resolve. One round places one module, so as many rounds as there are modules are enough.
pub resolve : Manifests → Result ResolveError Graph
unfolding scan_all scan_deps add_edge kahn place finish filter_ids sort_by
resolve ms =
    let ids = sort_by str_lt (keys ms) in
    elim (scan_all ms ids no_edges) [
      | err x ↦ err x
      | ok e ↦ finish ids e (kahn (length ids) e.dependents (initial_work ids e))
    ]

-- (*Graph).StartOrder and (*Graph).StopOrder
pub start_order : Graph → List ModuleId
start_order g = g.order

pub stop_order : Graph → List ModuleId
stop_order g = reverse g.order

-- The loop of `walk`, with the recursive call passed in.
walk_each :
    (ModuleId → List ModuleId → List ModuleId) → List ModuleId → List ModuleId → List ModuleId
walk_each walk [] seen = seen
walk_each walk (d ∷ ds) seen =
    walk_each walk ds (if contains d seen then seen else walk d (d ∷ seen))

-- `walk`, on fuel: each nested call adds a module to `seen`.
walk : ℕ → Graph → ModuleId → List ModuleId → List ModuleId
unfolding walk_each
walk zero g cur seen = seen
walk (suc fuel) g cur seen = walk_each (walk fuel g) (g.dependents cur) seen

-- (*Graph).TransitiveDependents
transitive_dependents : Graph → ModuleId → List ModuleId
unfolding walk filter_ids stop_order
transitive_dependents g id =
    let seen = walk (suc (length g.order)) g id [] in
    filter_ids (λ candidate. contains candidate seen) (stop_order g)
