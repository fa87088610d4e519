-- ===== src/Supervisor/Graph/Linked.antt =====
-- What the first loop of Resolve leaves in its three maps (internal/supervisor/graph.go).
use my_own_agent.Prelude.{
  ◌+◌, ◌≤◌, ◌≡◌, refl, sym, subst, ◌⊎◌, List, [], ◌∷◌, length, length-append, str_eq, eq_iff, arith,
  if◌then◌else◌, Bool-cases, inl, inr, Result, ok, err,
}
use my_own_agent.Supervisor.Graph.{
  ModuleId, Manifests, keys, contains, dependencies_of, Edges, no_edges, add_edge, scan_deps,
  scan_all, ResolveError,
}
use my_own_agent.Supervisor.Graph.Counting.{count, count-append, contains-eq-count}

-- The maps agree with one another, and name known modules only.
pub record Linked (ms : Manifests) (e : Edges) : Type 0 where
  pub mirrored : (x d : ModuleId) → count x (e.dependents d) ≡ count d (e.deps x)
  pub counted : (x : ModuleId) → e.indegree x ≡ length (e.deps x)
  pub known : (x d : ModuleId) → 1 ≤ count d (e.deps x) → 1 ≤ count d (keys ms)
  pub owned : (x d : ModuleId) → 1 ≤ count d (e.deps x) → 1 ≤ count x (keys ms)

pub Linked-no_edges : (ms : Manifests) → Linked ms no_edges
Linked-no_edges ms = record {
  mirrored = λ x d. refl;
  counted = λ x. refl;
  known = λ x d h. absurd (omega arith);
  owned = λ x d h. absurd (omega arith);
}

count-deps-add_edge :
    (id dep : ModuleId) (e : Edges) (x d : ModuleId)
    → count d ((add_edge id dep e).deps x)
      ≡ count d (e.deps x) + (if str_eq id x then (if str_eq dep d then 1 else 0) else 0)
unfolding add_edge
count-deps-add_edge id dep e x d =
    ground (arith, count-append d (e.deps id) (dep ∷ []), eq_iff id x)

count-dependents-add_edge :
    (id dep : ModuleId) (e : Edges) (x d : ModuleId)
    → count x ((add_edge id dep e).dependents d)
      ≡ count x (e.dependents d) + (if str_eq id x then (if str_eq dep d then 1 else 0) else 0)
unfolding add_edge
count-dependents-add_edge id dep e x d =
    ground (arith, count-append x (e.dependents dep) (id ∷ []), eq_iff dep d)

counted-add_edge :
    (id dep : ModuleId) (e : Edges) (x : ModuleId)
    → e.indegree x ≡ length (e.deps x)
    → e.indegree id ≡ length (e.deps id)
    → (add_edge id dep e).indegree x ≡ length ((add_edge id dep e).deps x)
unfolding add_edge
counted-add_edge id dep e x h k = ground (arith, length-append {0} (e.deps id) (dep ∷ []))

module _ {ms : Manifests} (id dep : ModuleId) {e : Edges} where
  Linked-add_edge :
      Linked ms e → 1 ≤ count id (keys ms) → 1 ≤ count dep (keys ms) → Linked ms (add_edge id dep e)
  Linked-add_edge v hid hdep = record {
    mirrored = λ x d. omega (
      arith,
      v.mirrored x d,
      count-deps-add_edge id dep e x d,
      count-dependents-add_edge id dep e x d,
    );
    counted = λ x. counted-add_edge id dep e x (v.counted x) (v.counted id);
    known = λ x d h. ground (arith, v.known x d, count-deps-add_edge id dep e x d, eq_iff dep d);
    owned = λ x d h. ground (arith, v.owned x d, count-deps-add_edge id dep e x d, eq_iff id x);
  }

-- Edges are only added.
abbrev pub Grows : Edges → Edges → Type 0
Grows e e' = (x d : ModuleId) → count d (e.deps x) ≤ count d (e'.deps x)

-- What one scanned module adds: the maps stay linked, and each item of `rest` has its edge, if each
-- item of `seen` had one.
record Scanned (ms : Manifests) (id : ModuleId) (seen rest : List ModuleId) (e e' : Edges)
    : Type 0 where
  linked : Linked ms e → Linked ms e'
  grows : Grows e e'
  covers :
      ((d : ModuleId) → 1 ≤ count d seen → 1 ≤ count d (e.deps id))
      → (d : ModuleId) → 1 ≤ count d rest
      → 1 ≤ count d (e'.deps id)
  only :
      (x d : ModuleId)
      → 1 ≤ count d (e'.deps x)
      → (1 ≤ count d (e.deps x)) ⊎ ((id ≡ x) × (1 ≤ count d rest))

ok_injective : {a b : Edges} → ◌≡◌ {A = Result ResolveError Edges} (ok a) (ok b) → a ≡ b
ok_injective h = cc

ok-ne-err : {a : Edges} {x : ResolveError} → ok a ≡ err x → ⊥
ok-ne-err h = cc

-- What `seen` and the edges are after one dependency.
abbrev pub next_seen : ModuleId → List ModuleId → List ModuleId
next_seen dep seen = if contains dep seen then seen else dep ∷ seen

abbrev pub next_edges : ModuleId → ModuleId → List ModuleId → Edges → Edges
next_edges id dep seen e = if contains dep seen then e else add_edge id dep e

scan_deps_inv :
    (ms : Manifests) (id : ModuleId) (seen : List ModuleId) (dep : ModuleId) (rest : List ModuleId)
    (e e' : Edges)
    → scan_deps ms id seen (dep ∷ rest) e ≡ ok e'
    → (1 ≤ count dep (keys ms))
      × (scan_deps ms id (next_seen dep seen) rest (next_edges id dep seen e) ≡ ok e')
unfolding scan_deps
scan_deps_inv ms id seen dep rest e e' h = ground (arith, contains-eq-count dep (keys ms))

module _ (ms : Manifests) (id : ModuleId) (seen : List ModuleId) (dep : ModuleId)
    (rest : List ModuleId) (e e' : Edges) where
  Scanned-cons :
      1 ≤ count id (keys ms)
      → 1 ≤ count dep (keys ms)
      → Scanned ms id (next_seen dep seen) rest (next_edges id dep seen e) e'
      → Scanned ms id seen (dep ∷ rest) e e'
  Scanned-cons hid hdep v = elim (Bool-cases (contains dep seen)) [
    | inl old ↦
        let v' : Scanned ms id seen rest e e' = rw old at v in
        record {
          linked = v'.linked;
          grows = v'.grows;
          only = λ x d m. ground (arith, v'.only x d m);
          covers = λ c d m.
              ground (
                arith,
                v'.covers c d,
                c d,
                v'.grows id d,
                contains-eq-count dep seen,
                eq_iff dep d,
              );
        }
    | inr new ↦
        let v' : Scanned ms id (dep ∷ seen) rest (add_edge id dep e) e' = rw new at v in
        let added = count-deps-add_edge id dep e id in
        record {
          linked = λ l. v'.linked (Linked-add_edge id dep l hid hdep);
          grows = λ x d. omega (arith, v'.grows x d, count-deps-add_edge id dep e x d);
          only = λ x d m.
              ground
                (arith, v'.only x d m, count-deps-add_edge id dep e x d, eq_iff id x, eq_iff dep d);
          covers = λ c d m. ground (
            arith,
            v'.covers (λ d k. ground (arith, added d, c d, eq_iff id id)) d,
            v'.grows id d,
            added d,
            eq_iff id id,
            eq_iff dep d,
          );
        }
  ]

scan_deps-Scanned :
    (ms : Manifests) (id : ModuleId) (seen rest : List ModuleId) (e e' : Edges)
    → 1 ≤ count id (keys ms)
    → scan_deps ms id seen rest e ≡ ok e'
    → Scanned ms id seen rest e e'
scan_deps-Scanned ms id seen [] e e' hid h =
    let same : e ≡ e' = (unfold scan_deps in ok_injective h) in
    subst (Scanned ms id seen [] e) same (record {
      linked = λ l. l;
      grows = λ x d. omega arith;
      covers = λ c d m. absurd (omega arith);
      only = λ x d m. inl m;
    })
scan_deps-Scanned ms id seen (dep ∷ rest) e e' hid h =
    let (hdep, h') = scan_deps_inv ms id seen dep rest e e' h in
    Scanned-cons ms id seen dep rest e e' hid hdep
      (scan_deps-Scanned ms id (next_seen dep seen) rest (next_edges id dep seen e) e' hid h')

-- Each scanned module has an edge to each of its dependencies.
pub record AllScanned (ms : Manifests) (ids : List ModuleId) (e e' : Edges) : Type 0 where
  pub linked : Linked ms e → Linked ms e'
  pub grows : Grows e e'
  pub covers :
      (x d : ModuleId)
      → 1 ≤ count x ids
      → 1 ≤ count d (dependencies_of ms x)
      → 1 ≤ count d (e'.deps x)
  pub only :
      (x d : ModuleId)
      → 1 ≤ count d (e'.deps x)
      → (1 ≤ count d (e.deps x)) ⊎ (1 ≤ count d (dependencies_of ms x))

scan_all_inv :
    (ms : Manifests) (id : ModuleId) (ids : List ModuleId) (e e' : Edges)
    → scan_all ms (id ∷ ids) e ≡ ok e'
    → (e₁ : Edges) × (scan_deps ms id [] (dependencies_of ms id) e ≡ ok e₁)
      × (scan_all ms ids e₁ ≡ ok e')
unfolding scan_all
scan_all_inv ms id ids e e' h = go (scan_deps ms id [] (dependencies_of ms id) e) refl
  where
    go :
        (r : Result ResolveError Edges)
        → scan_deps ms id [] (dependencies_of ms id) e ≡ r
        → (e₁ : Edges) × (scan_deps ms id [] (dependencies_of ms id) e ≡ ok e₁)
          × (scan_all ms ids e₁ ≡ ok e')
    go (ok e₁) q = (e₁, q, rw (q, scan_all) at h)
    go (err x) q = absurd (ok-ne-err (sym (rw (q, scan_all) at h)))

pub scan_all-AllScanned :
    (ms : Manifests) (ids : List ModuleId) (e e' : Edges)
    → ((x : ModuleId) → 1 ≤ count x ids → 1 ≤ count x (keys ms))
    → scan_all ms ids e ≡ ok e'
    → AllScanned ms ids e e'
scan_all-AllScanned ms [] e e' known h =
    let same : e ≡ e' = (unfold scan_all in ok_injective h) in
    subst (AllScanned ms [] e) same (record {
      linked = λ l. l;
      grows = λ x d. omega arith;
      covers = λ x d m. absurd (omega arith);
      only = λ x d m. inl m;
    })
scan_all-AllScanned ms (id ∷ ids) e e' known h =
    let (e₁, p, q) = scan_all_inv ms id ids e e' h in
    let one =
      scan_deps-Scanned ms id [] (dependencies_of ms id) e e₁
        (known id (ground (arith, eq_iff id id))) p in
    let all = scan_all-AllScanned ms ids e₁ e' (λ x m. known x (omega arith)) q in
    record {
      linked = λ l. all.linked (one.linked l);
      grows = λ x d. omega (arith, one.grows x d, all.grows x d);
      only = λ x d m. ground (arith, all.only x d m, one.only x d);
      covers = λ x d m k. ground (
        arith,
        all.covers x d,
        all.grows x d,
        one.covers (λ d m. absurd (omega arith)) d,
        eq_iff id x,
      );
    }
