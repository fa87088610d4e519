-- ===== src/Supervisor/Graph/Kahn.antt =====
-- The invariant of Kahn's algorithm (internal/supervisor/graph.go).
use mathlib.Core.List.{append-nil, append_assoc}
use my_own_agent.Prelude.{
  sym, ap, ◌∙◌, ◌+◌, ◌≤◌, ◌≡◌, List, [], ◌∷◌, ◌++◌, str_eq, eq_iff, arith, if◌then◌else◌, sort_by,
  str_lt, count_by-sort_by,
}
use my_own_agent.Supervisor.Graph.{
  ModuleId, Manifests, keys, Edges, Work, release_one, release, place,
}
use my_own_agent.Supervisor.Graph.Counting.{
  count, count-append, pending, pending-snoc, placed_of_pending,
}
use my_own_agent.Supervisor.Graph.Linked.{Linked}

-- Along the list, each module stands behind all that `deps` gives for it; `before` is what stands
-- ahead of the list.
abbrev pub Ordered : (ModuleId → List ModuleId) → List ModuleId → List ModuleId → Type 0
Ordered deps before [] = Unit
Ordered deps before (x ∷ xs) =
    ((d : ModuleId) → 1 ≤ count d (deps x) → 1 ≤ count d before)
    × Ordered deps (before ++ x ∷ []) xs

-- `waiting` are the dependents of the module placed last that are not yet released.
pub record Sound (ms : Manifests) (e : Edges) (waiting : List ModuleId) (w : Work) : Type 0 where
  pub degree : (x : ModuleId) → w.indegree x ≡ pending w.order (e.deps x) + count x waiting
  pub once : (x : ModuleId) → count x w.order + count x w.ready ≤ 1
  pub free : (x : ModuleId) → 1 ≤ count x w.order + count x w.ready → w.indegree x ≡ 0
  pub found :
      (x : ModuleId)
      → 1 ≤ count x (keys ms)
      → w.indegree x ≡ 0
      → 1 ≤ count x w.order + count x w.ready
  pub inside : (x : ModuleId) → 1 ≤ count x w.order + count x w.ready → 1 ≤ count x (keys ms)
  pub queued : (x : ModuleId) → 1 ≤ count x waiting → 1 ≤ count x (keys ms)
  pub ordered : Ordered e.deps [] w.order

module _ {ms : Manifests} {e : Edges} {dep : ModuleId} {rest : List ModuleId} {w : Work} where
  release_one-Sound : Sound ms e (dep ∷ rest) w → Sound ms e rest (release_one dep w)
  unfolding release_one
  release_one-Sound v = record {
    degree = λ x. ground (arith, v.degree x, v.degree dep, eq_iff dep x);
    once = λ x.
        ground
          (arith, v.once x, v.free x, v.degree x, count-append x w.ready (dep ∷ []), eq_iff dep x);
    free = λ x h.
        ground (arith, v.free x, v.degree x, count-append x w.ready (dep ∷ []), eq_iff dep x);
    found = λ x k z.
        ground (arith, v.found x, v.degree x, count-append x w.ready (dep ∷ []), eq_iff dep x);
    inside = λ x h.
        ground (arith, v.inside x, v.queued x, count-append x w.ready (dep ∷ []), eq_iff dep x);
    queued = λ x h. v.queued x (omega arith);
    ordered = v.ordered;
  }

release-Sound :
    {ms : Manifests} {e : Edges} (waiting : List ModuleId) (w : Work)
    → Sound ms e waiting w
    → Sound ms e [] (release waiting w)
unfolding release
release-Sound [] w v = v
release-Sound (dep ∷ rest) w v = release-Sound rest (release_one dep w) (release_one-Sound v)

-- Sorting a list that is not empty gives its first item and the others.
count_sorted :
    (xs : List ModuleId) (id : ModuleId) (rest : List ModuleId)
    → sort_by str_lt xs ≡ id ∷ rest
    → (x : ModuleId) → count x xs ≡ (if str_eq id x then 1 else 0) + count x rest
count_sorted xs id rest h x = sym (count_by-sort_by (λ y. str_eq y x) str_lt xs) ∙ ap (count x) h

Ordered-snoc :
    (deps : ModuleId → List ModuleId) (before xs : List ModuleId) (id : ModuleId)
    → Ordered deps before xs
    → ((d : ModuleId) → 1 ≤ count d (deps id) → 1 ≤ count d (before ++ xs))
    → Ordered deps before (xs ++ id ∷ [])
Ordered-snoc deps before [] id o h = (rw append-nil at h, tt)
Ordered-snoc deps before (x ∷ xs) id o h =
    (o.0, Ordered-snoc deps (before ++ x ∷ []) xs id o.1 (rw append_assoc h))

module _ {ms : Manifests} {e : Edges} (l : Linked ms e) {id : ModuleId} {rest : List ModuleId}
    {w : Work} where
  pub place-Sound :
      sort_by str_lt w.ready ≡ id ∷ rest
      → Sound ms e [] w
      → Sound ms e [] (place e.dependents id rest w)
  unfolding place
  place-Sound h v =
      let same = count_sorted w.ready id rest h in
      let fresh : count id w.order ≡ 0 = ground (arith, v.once id, same id, eq_iff id id) in
      let released : (x : ModuleId)
          → count x (sort_by str_lt (e.dependents id)) ≡ count id (e.deps x) =
        λ x. count_by-sort_by (λ y. str_eq y x) str_lt (e.dependents id) ∙ l.mirrored x id in
      let split : (x : ModuleId)
          → count x (w.order ++ id ∷ []) + count x rest ≡ count x w.order + count x w.ready =
        λ x. omega (arith, same x, count-append x w.order (id ∷ [])) in
      release-Sound (sort_by str_lt (e.dependents id)) _ (record {
        degree =
            λ x. omega (arith, v.degree x, released x, pending-snoc id w.order (e.deps x) fresh);
        once = λ x. omega (arith, v.once x, split x);
        free = λ x m. v.free x (omega (arith, split x));
        found = λ x k z. omega (arith, v.found x k z, split x);
        inside = λ x m. v.inside x (omega (arith, split x));
        queued = λ x m. l.owned x id (omega (arith, released x));
        ordered = Ordered-snoc e.deps [] w.order id v.ordered λ d m.
            placed_of_pending w.order (e.deps id) d
              (ground (arith, v.degree id, v.free id, same id, eq_iff id id)) m;
      })
