-- ===== src/Supervisor/Cycles.antt =====
-- The search for a cycle among the modules that could not be placed (findCycle of
-- internal/supervisor/graph.go).
use my_own_agent.Prelude.{
  ℕ, zero, suc, Bool, true, false, Option, none, some, List, [], ◌∷◌, ◌++◌, length, str_eq, str_lt,
  sort_by, if◌then◌else◌,
}
use my_own_agent.Supervisor.Ids.{ModuleId, contains, update}

pub data Color : Type 0 where
  white grey black : Color

-- The variables that the closure `visit` of findCycle captures.
pub record Search : Type 0 where
  pub color : ModuleId → Color
  pub stack : List ModuleId
  pub cycle : Option (List ModuleId)

-- stack[i:] for the first i with stack[i] == dep.
unfoldable from_first : ModuleId → List ModuleId → List ModuleId
from_first dep [] = []
from_first dep (s ∷ rest) = if str_eq s dep then s ∷ rest else from_first dep rest

-- The case `grey`; where dep is not on the stack the cycle stays nil.
unfoldable close_cycle : ModuleId → Search → Search
close_cycle dep s =
    if contains dep s.stack
    then record s { cycle = some (from_first dep s.stack ++ dep ∷ []) }
    else s

unfoldable drop_last : List ModuleId → List ModuleId
drop_last [] = []
drop_last (x ∷ []) = []
drop_last (x ∷ y ∷ ys) = x ∷ drop_last (y ∷ ys)

-- The loop over the neighbours, with the call of `visit` passed in.
unfoldable visit_each :
    (ModuleId → Search → Bool × Search) → (ModuleId → Bool) → List ModuleId → Search → Bool × Search
visit_each enter remaining [] s = (false, s)
visit_each enter remaining (dep ∷ rest) s = elim (remaining dep) [
  | false ↦ visit_each enter remaining rest s
  | true ↦ elim (s.color dep) [
    | grey ↦ (true, close_cycle dep s)
    | white ↦
        let (found, s') = enter dep s in
        elim found [ true ↦ (true, s') | false ↦ visit_each enter remaining rest s' ]
    | black ↦ visit_each enter remaining rest s
  ]
]

-- `visit`, on fuel: each nested call turns a white module grey.
unfoldable visit :
    ℕ → (ModuleId → List ModuleId) → (ModuleId → Bool) → ModuleId → Search → Bool × Search
unfolding visit_each close_cycle from_first drop_last
visit zero deps remaining id s = (false, s)
visit (suc fuel) deps remaining id s =
    let entered = record s { color = update s.color id grey; stack = s.stack ++ id ∷ [] } in
    let (found, s') =
      visit_each (visit fuel deps remaining) remaining (sort_by str_lt (deps id)) entered in
    if found
    then (true, s')
    else (false, record s' { color = update s'.color id black; stack = drop_last s'.stack })

-- The loop over `start`.
unfoldable visit_roots : (ModuleId → Search → Bool × Search) → List ModuleId → Search → Search
visit_roots enter [] s = s
visit_roots enter (id ∷ rest) s = elim (s.color id) [
  | white ↦
      let (found, s') = enter id s in elim found [ true ↦ s' | false ↦ visit_roots enter rest s' ]
  | grey ↦ visit_roots enter rest s
  | black ↦ visit_roots enter rest s
]

unfoldable pub find_cycle : List ModuleId → (ModuleId → List ModuleId) → List ModuleId
unfolding visit visit_roots
find_cycle remaining deps =
    let start = sort_by str_lt remaining in
    let blank : Search = record { color = λ _. white; stack = []; cycle = none } in
    let done = visit_roots (visit (length start) deps (λ x. contains x remaining)) start blank in
    elim done.cycle [ some c ↦ c | none ↦ start ]
