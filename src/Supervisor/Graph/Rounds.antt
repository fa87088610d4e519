-- ===== src/Supervisor/Graph/Rounds.antt =====
-- The loop of Kahn's algorithm ends with an empty ready set (internal/supervisor/graph.go).
use my_own_agent.Prelude.{
  ℕ, zero, suc, ◌+◌, ◌≤◌, ◌≡◌, refl, ◌⊎◌, inl, inr, List, [], ◌∷◌, ◌++◌, length, length-append,
  arith, sort_by, str_lt, str_eq, eq_iff, count_by-sort_by, ◌==◌,
}
use my_own_agent.Supervisor.Graph.{
  ModuleId, Manifests, keys, Edges, Work, release_one, release, place, kahn, initial_work,
}
use my_own_agent.Supervisor.Graph.Counting.{
  count, count-append, count-filter_ids, pending-nil, length-le_of_count,
}
use my_own_agent.Supervisor.Graph.Linked.{Linked}
use my_own_agent.Supervisor.Graph.Kahn.{Sound, place-Sound}

order-release : (waiting : List ModuleId) (w : Work) → (release waiting w).order ≡ w.order
unfolding release
order-release [] w = refl
order-release (dep ∷ rest) w = order-release rest (release_one dep w)

length-order-place :
    (dependents : ModuleId → List ModuleId) (id : ModuleId) (rest : List ModuleId) (w : Work)
    → length (place dependents id rest w).order ≡ length w.order + 1
unfolding place
length-order-place dependents id rest w = ground (
  arith,
  order-release (sort_by str_lt (dependents id))
      (record w { ready = rest; order = w.order ++ id ∷ [] }),
  length-append {0} w.order (id ∷ []),
)

-- Nothing sorts to the empty list but the empty list.
nil_sorted : (xs : List ModuleId) → sort_by str_lt xs ≡ [] → xs ≡ []
nil_sorted [] h = refl
nil_sorted (x ∷ xs) h =
    absurd (ground (arith, count_by-sort_by (λ y. str_eq y x) str_lt (x ∷ xs), eq_iff x x))

-- The loop keeps the invariant, and it ends with an empty ready set or spends all its fuel.
record Ran (ms : Manifests) (e : Edges) (fuel : ℕ) (w w' : Work) : Type 0 where
  pub sound : Sound ms e [] w'
  pub spent : (w'.ready ≡ []) ⊎ (length w'.order ≡ length w.order + fuel)

kahn-Ran :
    {ms : Manifests} {e : Edges} (l : Linked ms e) (fuel : ℕ) (w : Work)
    → Sound ms e [] w
    → Ran ms e fuel w (kahn fuel e.dependents w)
unfolding kahn
kahn-Ran l zero w v = record { sound = v; spent = inr (omega arith) }
kahn-Ran {ms} {e} l (suc fuel) w v =
    go (sort_by str_lt w.ready) refl (λ id rest. kahn-Ran l fuel (place e.dependents id rest w))
  where
    go :
        (s : List ModuleId)
        → sort_by str_lt w.ready ≡ s
        → ((id : ModuleId) (rest : List ModuleId)
            → Sound ms e [] (place e.dependents id rest w)
            → Ran ms e fuel
                (place e.dependents id rest w)
                (kahn fuel e.dependents (place e.dependents id rest w)))
        → Ran ms e (suc fuel) w (kahn (suc fuel) e.dependents w)
    go [] q ih = rw (q, kahn) (record { sound = v; spent = inl (nil_sorted w.ready q) })
    go (id ∷ rest) q ih =
        let r = ih id rest (place-Sound l q v) in
        rw (q, kahn)
          (record {
            sound = r.sound;
            spent = ground (arith, r.spent, length-order-place e.dependents id rest w);
          })

module _ {ms : Manifests} {e : Edges} (l : Linked ms e) (ids : List ModuleId)
    (same : (x : ModuleId) → count x ids ≡ count x (keys ms)) where
  pub initial-Sound :
      (once : (x : ModuleId) → count x (keys ms) ≤ 1) → Sound ms e [] (initial_work ids e)
  initial-Sound once = record {
    degree = λ x. omega (arith, l.counted x, pending-nil (e.deps x));
    once = λ x. ground (arith, once x, same x, count-filter_ids (λ id. e.indegree id == 0) x ids);
    free = λ x h. ground (arith, count-filter_ids (λ id. e.indegree id == 0) x ids);
    found = λ x k z. ground (arith, same x, count-filter_ids (λ id. e.indegree id == 0) x ids);
    inside = λ x h. ground (arith, same x, count-filter_ids (λ id. e.indegree id == 0) x ids);
    queued = λ x h. absurd (omega arith);
    ordered = tt;
  }

-- With a round for each module the ready set is empty at the end: the fuel is enough.
pub kahn_ends :
    {ms : Manifests} {e : Edges} (fuel : ℕ) (w : Work)
    → Linked ms e
    → Sound ms e [] w
    → length (keys ms) ≤ length w.order + fuel
    → (Sound ms e [] (kahn fuel e.dependents w)) × ((kahn fuel e.dependents w).ready ≡ [])
kahn_ends {ms} {e} fuel w l v enough =
    let r = kahn-Ran l fuel w v in
    let w' = kahn fuel e.dependents w in
    let fits : length (w'.order ++ w'.ready) ≤ length (keys ms) =
      length-le_of_count (w'.order ++ w'.ready) (keys ms)
        λ z. ground (arith, r.sound.once z, r.sound.inside z, count-append z w'.order w'.ready) in
    (
      r.sound,
      elim r.spent [
        | inl e ↦ e
        | inr e ↦ no_room w'.ready (omega (arith, fits, length-append {0} w'.order w'.ready))
      ],
    )
  where
    no_room : (xs : List ModuleId) → length xs ≤ 0 → xs ≡ []
    no_room [] h = refl
    no_room (x ∷ xs) h = absurd (omega arith)
