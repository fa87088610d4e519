-- ===== src/Supervisor/Graph/Refused.antt =====
-- When Resolve refuses manifests, and that it refuses no others (internal/supervisor/graph.go).
use my_own_agent.Prelude.{
  ℕ, zero, suc, ◌≤◌, ◌<◌, ◌≡◌, refl, ap, ◌∙◌, List, [], ◌∷◌, length, arith, sort_by, str_lt, false,
  str_eq, eq_iff, ◌⊎◌, inl, inr, Result, ok, err,
}
use my_own_agent.Supervisor.Graph.{
  ModuleId, Manifests, keys, dependencies_of, Graph, ResolveError, self_dependency,
  missing_dependency, cycle_error, Edges, Work, no_edges, scan_deps, scan_all, finish, resolve,
}
use my_own_agent.Supervisor.Graph.Counting.{
  count, pending_of_placed, contains-eq-count, length-le_of_count,
}
use my_own_agent.Supervisor.Graph.Linked.{next_seen, next_edges}
use my_own_agent.Supervisor.Graph.Resolved.{
  UniqueKeys, sorted_keys, count-sorted_keys, length-sorted_keys, final_work, Looped,
  scan_all-Looped,
}

-- The number falls along each dependency: there is no cycle.
abbrev pub IsRank : Manifests → (ModuleId → ℕ) → Type 0
IsRank ms rank =
    (x d : ModuleId) → 1 ≤ count x (keys ms) → 1 ≤ count d (dependencies_of ms x) → rank d < rank x

module _ {ms : Manifests} {e : Edges} (l : Looped ms e) (rank : ModuleId → ℕ)
    (falls : IsRank ms rank) where
  -- Each module is placed: by induction on its rank, nothing that it needs is pending.
  placed :
      (k : ℕ) (x : ModuleId)
      → rank x < k
      → 1 ≤ count x (keys ms)
      → 1 ≤ count x (final_work ms e).order
  placed zero x h m = elim h [ ]
  placed (suc k) x h m =
      let w = final_work ms e in
      let needs : (d : ModuleId) → 1 ≤ count d (e.deps x) → 1 ≤ count d w.order = λ d n.
        placed k d (ground (arith, l.scanned.only x d n, falls x d m)) (l.linked.known x d n) in
      ground (
        arith,
        l.sound.found x m,
        l.sound.degree x,
        pending_of_placed w.order (e.deps x) needs,
        ap (count x) l.done,
      )

  final-length : UniqueKeys ms → length (final_work ms e).order ≡ length (sorted_keys ms)
  final-length unique =
      let w = final_work ms e in
      omega (
        arith,
        length-sorted_keys ms,
        length-le_of_count w.order (keys ms)
            (λ z. ground (arith, l.sound.once z, l.sound.inside z)),
        length-le_of_count (keys ms) w.order
            (λ z. ground (arith, unique z, placed (suc (rank z)) z (omega arith))),
      )

-- No module depends on one that is absent.
abbrev pub AllPresent : Manifests → Type 0
AllPresent ms =
    (x d : ModuleId)
    → 1 ≤ count x (keys ms)
    → 1 ≤ count d (dependencies_of ms x)
    → 1 ≤ count d (keys ms)

err_injective :
    {A : Type 0} {x y : ResolveError} → ◌≡◌ {A = Result ResolveError A} (err x) (err y) → x ≡ y
err_injective h = cc

scan_deps_total :
    (ms : Manifests) (id : ModuleId) (seen rest : List ModuleId) (e : Edges)
    → ((d : ModuleId) → 1 ≤ count d rest → (str_eq d id ≡ false) × (1 ≤ count d (keys ms)))
    → (e' : Edges) × (scan_deps ms id seen rest e ≡ ok e')
unfolding scan_deps
scan_deps_total ms id seen [] e h = (e, refl)
scan_deps_total ms id seen (dep ∷ rest) e h =
    let (e', p) =
      scan_deps_total ms id (next_seen dep seen) rest (next_edges id dep seen e)
        (λ d m. h d (omega arith)) in
    (e', ground (arith, p, h dep, eq_iff dep dep, contains-eq-count dep (keys ms)))

scan_all_total :
    (ms : Manifests) (ids : List ModuleId) (e : Edges)
    → ((x d : ModuleId)
        → 1 ≤ count x ids
        → 1 ≤ count d (dependencies_of ms x)
        → (str_eq d x ≡ false) × (1 ≤ count d (keys ms)))
    → (e' : Edges) × (scan_all ms ids e ≡ ok e')
unfolding scan_all
scan_all_total ms [] e h = (e, refl)
scan_all_total ms (id ∷ ids) e h =
    let (e₁, p) =
      scan_deps_total ms id [] (dependencies_of ms id) e
        (λ d m. h id d (ground (arith, eq_iff id id)) m) in
    let (e', q) = scan_all_total ms ids e₁ (λ x d m n. h x d (omega arith) n) in
    (e', rw (p, scan_all) q)

finish_total :
    (ids : List ModuleId) (e : Edges) (w : Work)
    → length w.order ≡ length ids
    → (g : Graph) × (finish ids e w ≡ ok g)
unfolding finish
finish_total ids e w h = (
  record { order = w.order; deps = e.deps; dependents = λ id. sort_by str_lt (e.dependents id) },
  ground arith,
)

-- Manifests with unique keys whose dependencies are all present, and lower than their dependents in
-- some numbering, so that there is no cycle, are accepted: the loop does not run out of rounds, and no
-- module is left over.
pub resolve_total :
    (ms : Manifests) (rank : ModuleId → ℕ)
    → UniqueKeys ms
    → IsRank ms rank
    → AllPresent ms
    → (g : Graph) × (resolve ms ≡ ok g)
unfolding resolve
resolve_total ms rank unique falls present =
    let (e, p) = scan_all_total ms (sorted_keys ms) no_edges λ x d m n.
      let k : 1 ≤ count x (keys ms) = omega (arith, count-sorted_keys ms x) in
      (ground (arith, falls x d k n, eq_iff d x), present x d k n) in
    let full = final-length (scan_all-Looped ms e unique p) rank falls unique in
    let (g, q) = finish_total (sorted_keys ms) e (final_work ms e) full in (g, rw (p, resolve) q)

-- What a refusal of one module's dependencies says.
abbrev pub Blames : Manifests → ModuleId → List ModuleId → ResolveError → Type 0
Blames ms id rest (self_dependency i) = (i ≡ id) × (1 ≤ count id rest)
Blames ms id rest (missing_dependency i d) = (i ≡ id) × (1 ≤ count d rest) × (count d (keys ms) ≡ 0)
Blames ms id rest (cycle_error c) = ⊥

Blames-cons :
    (ms : Manifests) (id dep : ModuleId) (rest : List ModuleId) (x : ResolveError)
    → Blames ms id rest x
    → Blames ms id (dep ∷ rest) x
Blames-cons ms id dep rest (self_dependency i) h = (h.0, omega (arith, h.1))
Blames-cons ms id dep rest (missing_dependency i d) h = (h.0, omega (arith, h.1), h.2)
Blames-cons ms id dep rest (cycle_error c) h = h

scan_deps_stops :
    (ms : Manifests) (id : ModuleId) (seen : List ModuleId) (dep : ModuleId) (rest : List ModuleId)
    (e : Edges) (x : ResolveError)
    → scan_deps ms id seen (dep ∷ rest) e ≡ err x
    → (Blames ms id (dep ∷ rest) x)
      ⊎ (scan_deps ms id (next_seen dep seen) rest (next_edges id dep seen e) ≡ err x)
unfolding scan_deps
scan_deps_stops ms id seen dep rest e (self_dependency i) h =
    ground (arith, eq_iff dep id, contains-eq-count dep (keys ms))
scan_deps_stops ms id seen dep rest e (missing_dependency i d) h =
    ground (arith, eq_iff dep d, contains-eq-count dep (keys ms))
scan_deps_stops ms id seen dep rest e (cycle_error c) h = ground arith

scan_deps-Blames :
    (ms : Manifests) (id : ModuleId) (seen rest : List ModuleId) (e : Edges) (x : ResolveError)
    → scan_deps ms id seen rest e ≡ err x
    → Blames ms id rest x
scan_deps-Blames ms id seen [] e x h =
    let bad : ok e ≡ err x = (unfold scan_deps in h) in absurd (cc bad)
scan_deps-Blames ms id seen (dep ∷ rest) e x h = elim (scan_deps_stops ms id seen dep rest e x h) [
  | inl b ↦ b
  | inr h' ↦
      Blames-cons ms id dep rest x
        (scan_deps-Blames ms id (next_seen dep seen) rest (next_edges id dep seen e) x h')
]

scan_all-Blames :
    (ms : Manifests) (ids : List ModuleId) (e : Edges) (x : ResolveError)
    → scan_all ms ids e ≡ err x
    → (id : ModuleId) × (1 ≤ count id ids) × (Blames ms id (dependencies_of ms id) x)
unfolding scan_all
scan_all-Blames ms [] e x h = absurd (cc h)
scan_all-Blames ms (id ∷ ids) e x h =
    go (scan_deps ms id [] (dependencies_of ms id) e) refl (λ e₁. scan_all-Blames ms ids e₁ x)
  where
    go :
        (r : Result ResolveError Edges)
        → scan_deps ms id [] (dependencies_of ms id) e ≡ r
        → ((e₁ : Edges)
            → scan_all ms ids e₁ ≡ err x
            → (id : ModuleId) × (1 ≤ count id ids) × (Blames ms id (dependencies_of ms id) x))
        → (id' : ModuleId) × (1 ≤ count id' (id ∷ ids)) × (Blames ms id' (dependencies_of ms id') x)
    go (ok e₁) q ih = let (j, m, b) = ih e₁ (rw (q, scan_all) at h) in (j, omega (arith, m), b)
    go (err y) q ih =
        let same : y ≡ x = err_injective (rw (q, scan_all) at h) in
        (
          id,
          ground (arith, eq_iff id id),
          scan_deps-Blames ms id [] (dependencies_of ms id) e x (q ∙ ap err same),
        )

-- What each refusal of Resolve says of the manifests.
abbrev pub Explains : Manifests → ResolveError → Type 0
Explains ms (self_dependency i) = (1 ≤ count i (keys ms)) × (1 ≤ count i (dependencies_of ms i))
Explains ms (missing_dependency i d) =
    (1 ≤ count i (keys ms)) × (1 ≤ count d (dependencies_of ms i)) × (count d (keys ms) ≡ 0)
Explains ms (cycle_error c) = (rank : ModuleId → ℕ) → ¬ (IsRank ms rank)

Explains-finish :
    (ms : Manifests) (e : Edges) (x : ResolveError)
    → UniqueKeys ms
    → Looped ms e
    → finish (sorted_keys ms) e (final_work ms e) ≡ err x
    → Explains ms x
Explains-finish ms e (self_dependency i) unique l h = absurd (unfold finish in ground arith)
Explains-finish ms e (missing_dependency i d) unique l h = absurd (unfold finish in ground arith)
Explains-finish ms e (cycle_error c) unique l h = λ rank falls.
    let (g, q) =
      finish_total (sorted_keys ms) e (final_work ms e) (final-length l rank falls unique) in
    absurd (cc (q, h))

Explains-Blames :
    (ms : Manifests) (id : ModuleId) (x : ResolveError)
    → 1 ≤ count id (keys ms)
    → Blames ms id (dependencies_of ms id) x
    → Explains ms x
Explains-Blames ms id (self_dependency i) m b = ground (arith, b.0, b.1)
Explains-Blames ms id (missing_dependency i d) m b = ground (arith, b.0, b.1, b.2)
Explains-Blames ms id (cycle_error c) m b = absurd b

-- Every refusal of manifests with unique keys is justified: a module that is refused for a dependency
-- on itself lists itself, one that is refused for a missing dependency lists a module that is absent,
-- and where a cycle is reported no numbering falls along every dependency.
pub resolve-Explains :
    (ms : Manifests) (x : ResolveError) → UniqueKeys ms → resolve ms ≡ err x → Explains ms x
unfolding resolve
resolve-Explains ms x unique h = go (scan_all ms (sorted_keys ms) no_edges) refl
  where
    go : (r : Result ResolveError Edges) → scan_all ms (sorted_keys ms) no_edges ≡ r → Explains ms x
    go (ok e) q =
        Explains-finish ms e x unique (scan_all-Looped ms e unique q) (rw (q, resolve) at h)
    go (err y) q =
        let same : y ≡ x = err_injective (rw (q, resolve) at h) in
        let (id, m, b) = scan_all-Blames ms (sorted_keys ms) no_edges x (q ∙ ap err same) in
        Explains-Blames ms id x (omega (arith, count-sorted_keys ms id)) b
