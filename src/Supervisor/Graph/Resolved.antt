-- ===== src/Supervisor/Graph/Resolved.antt =====
-- What a resolved graph guarantees (internal/supervisor/graph.go).
use mathlib.Core.List.{reverse-append}
use my_own_agent.Prelude.{
  ◌+◌, ◌≤◌, ◌≡◌, refl, List, [], ◌∷◌, ◌++◌, length, arith, sort_by, str_lt, str_eq, eq_iff,
  count_by-sort_by, Result, ok, err, reverse,
}
use my_own_agent.Supervisor.Graph.{
  ModuleId, Manifests, keys, dependencies_of, Graph, ResolveError, Edges, Work, no_edges, scan_all,
  kahn, initial_work, finish, resolve, start_order, stop_order,
}
use my_own_agent.Supervisor.Graph.Counting.{
  count, count-append, length-le_of_count, count-eq_of_length,
}
use my_own_agent.Supervisor.Graph.Linked.{Linked, Linked-no_edges, AllScanned, scan_all-AllScanned}
use my_own_agent.Supervisor.Graph.Kahn.{Ordered, Sound}
use my_own_agent.Supervisor.Graph.Rounds.{initial-Sound, kahn_ends}

-- A Go map has each key once.
abbrev pub UniqueKeys : Manifests → Type 0
UniqueKeys ms = (x : ModuleId) → count x (keys ms) ≤ 1

abbrev pub sorted_keys : Manifests → List ModuleId
sorted_keys ms = sort_by str_lt (keys ms)

pub count-sorted_keys :
    (ms : Manifests) (x : ModuleId) → count x (sorted_keys ms) ≡ count x (keys ms)
count-sorted_keys ms x = count_by-sort_by (λ y. str_eq y x) str_lt (keys ms)

pub length-sorted_keys : (ms : Manifests) → length (sorted_keys ms) ≡ length (keys ms)
length-sorted_keys ms = omega (
  arith,
  length-le_of_count (sorted_keys ms) (keys ms) (λ z. omega (arith, count-sorted_keys ms z)),
  length-le_of_count (keys ms) (sorted_keys ms) (λ z. omega (arith, count-sorted_keys ms z)),
)

-- The work at the end of the loop.
abbrev pub final_work : Manifests → Edges → Work
final_work ms e = kahn (length (sorted_keys ms)) e.dependents (initial_work (sorted_keys ms) e)

-- What the loops have established when Resolve reads their result.
pub record Looped (ms : Manifests) (e : Edges) : Type 0 where
  pub scanned : AllScanned ms (sorted_keys ms) no_edges e
  pub linked : Linked ms e
  pub sound : Sound ms e [] (final_work ms e)
  pub done : (final_work ms e).ready ≡ []

pub scan_all-Looped :
    (ms : Manifests) (e : Edges)
    → UniqueKeys ms
    → scan_all ms (sorted_keys ms) no_edges ≡ ok e
    → Looped ms e
scan_all-Looped ms e unique h =
    let all =
      scan_all-AllScanned ms (sorted_keys ms) no_edges e
        (λ x m. omega (arith, count-sorted_keys ms x)) h in
    let l = all.linked (Linked-no_edges ms) in
    let start = initial-Sound l (sorted_keys ms) (count-sorted_keys ms) unique in
    let (s, d) =
      kahn_ends (length (sorted_keys ms)) (initial_work (sorted_keys ms) e) l start
        (omega (arith, length-sorted_keys ms)) in
    record { scanned = all; linked = l; sound = s; done = d }

-- Resolve succeeds only by its last line.
resolve_inv :
    (ms : Manifests) (g : Graph)
    → resolve ms ≡ ok g
    → (e : Edges) × (scan_all ms (sorted_keys ms) no_edges ≡ ok e)
      × (finish (sorted_keys ms) e (final_work ms e) ≡ ok g)
unfolding resolve
resolve_inv ms g h = go (scan_all ms (sorted_keys ms) no_edges) refl
  where
    go :
        (r : Result ResolveError Edges)
        → scan_all ms (sorted_keys ms) no_edges ≡ r
        → (e : Edges) × (scan_all ms (sorted_keys ms) no_edges ≡ ok e)
          × (finish (sorted_keys ms) e (final_work ms e) ≡ ok g)
    go (ok e) q = (e, q, rw (q, resolve) at h)
    go (err x) q = let bad : err x ≡ ok g = rw (q, resolve) at h in absurd (cc bad)

finish_inv :
    (ids : List ModuleId) (e : Edges) (w : Work) (g : Graph)
    → finish ids e w ≡ ok g
    → (length w.order ≡ length ids) × (g.order ≡ w.order)
unfolding finish
finish_inv ids e w g h = ground arith

Ordered-weaken :
    (deps deps' : ModuleId → List ModuleId) (before xs : List ModuleId)
    → ((x d : ModuleId) → 1 ≤ count x xs → 1 ≤ count d (deps' x) → 1 ≤ count d (deps x))
    → Ordered deps before xs
    → Ordered deps' before xs
Ordered-weaken deps deps' before [] h o = tt
Ordered-weaken deps deps' before (x ∷ xs) h o = (
  λ d m. o.0 d (h x d (ground (arith, eq_iff x x)) m),
  Ordered-weaken deps deps' (before ++ x ∷ []) xs (λ y d m. h y d (omega arith)) o.1,
)

-- From manifests with unique keys, as those of a Go map are: a resolved graph starts each module of
-- the manifests once, no other, and each behind all of the dependencies that its manifest lists.
pub resolve-Ordered :
    (ms : Manifests) (g : Graph)
    → UniqueKeys ms
    → resolve ms ≡ ok g
    → Ordered (dependencies_of ms) [] (start_order g)
      × ((x : ModuleId) → count x (start_order g) ≡ count x (keys ms))
unfolding start_order
resolve-Ordered ms g unique h =
    let (e, p, q) = resolve_inv ms g h in
    let l = scan_all-Looped ms e unique p in
    let (len, same) = finish_inv (sorted_keys ms) e (final_work ms e) g q in
    let inside : (z : ModuleId) → count z (final_work ms e).order ≤ count z (keys ms) =
      λ z. ground (arith, l.sound.once z, l.sound.inside z) in
    rw same (
      Ordered-weaken e.deps (dependencies_of ms) [] (final_work ms e).order
          (λ x d m k. l.scanned.covers x d (omega (arith, count-sorted_keys ms x, inside x)) k)
          l.sound.ordered,
      count-eq_of_length (final_work ms e).order (keys ms) inside
          (omega (arith, length-sorted_keys ms)),
    )

-- Along the list, each module stands ahead of all that `deps` gives for it; `after` is what stands
-- behind the list.
abbrev pub Behind : (ModuleId → List ModuleId) → List ModuleId → List ModuleId → Type 0
Behind deps after [] = Unit
Behind deps after (x ∷ xs) =
    ((d : ModuleId) → 1 ≤ count d (deps x) → 1 ≤ count d (xs ++ after)) × Behind deps after xs

Behind-snoc :
    (deps : ModuleId → List ModuleId) (after after' xs : List ModuleId) (x : ModuleId)
    → ((d : ModuleId) → count d after' ≡ count d after + count d (x ∷ []))
    → ((d : ModuleId) → 1 ≤ count d (deps x) → 1 ≤ count d after)
    → Behind deps after' xs
    → Behind deps after (xs ++ x ∷ [])
Behind-snoc deps after after' [] x same h b = (h, tt)
Behind-snoc deps after after' (y ∷ ys) x same h b = (
  λ d m. omega (
    arith,
    b.0 d m,
    same d,
    count-append d ys after',
    count-append d ys (x ∷ []),
    count-append d (ys ++ x ∷ []) after,
  ),
  Behind-snoc deps after after' ys x same h b.1,
)

Behind-reverse :
    (deps : ModuleId → List ModuleId) (before xs : List ModuleId)
    → Ordered deps before xs
    → Behind deps before (reverse xs)
Behind-reverse deps before [] o = tt
Behind-reverse deps before (x ∷ xs) o = rw (reverse-append (x ∷ []) xs) (
    Behind-snoc deps before (before ++ x ∷ []) (reverse xs) x (λ d. count-append d before (x ∷ []))
      o.0 (Behind-reverse deps (before ++ x ∷ []) xs o.1))

-- From manifests with unique keys: in the stop order of a resolved graph each module is stopped ahead
-- of all its dependencies, so none is left running with a stopped dependency.
pub resolve-Behind :
    (ms : Manifests) (g : Graph)
    → UniqueKeys ms
    → resolve ms ≡ ok g
    → Behind (dependencies_of ms) [] (stop_order g)
unfolding stop_order start_order
resolve-Behind ms g unique h =
    Behind-reverse (dependencies_of ms) [] g.order (resolve-Ordered ms g unique h).0
