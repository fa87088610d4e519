-- ===== src/Health/Worst.antt =====
-- The aggregate is the worst contribution, whatever the order (internal/health/health.go).
use mathlib.Core.List.{Perm, Permᴰ}
use mathlib.Core.List.Permᴰ.{nil, cons, swap, trans}
use mathlib.Core.Logic.{∥∥₁_elim}
use my_own_agent.Prelude.{
  ℕ, ◌≡◌, refl, ◌∙◌, ap, ◌≢◌, Bool, ◌||◌, List, [], ◌∷◌, leb, any, any-sort_by, sort_by-ne-nil,
  arith, sort_by,
}
use my_own_agent.Health.{
  Status, healthy, severity, worse_of, ComponentHealth, contributes, aggregate_loop,
  aggregate_status, aggregate_of, id_lt,
}

-- Whether a component contributes a severity of `k` or more.
abbrev pub at_least : ℕ → ComponentHealth → Bool
at_least k c = leb k (severity (contributes c))

leb-worse_of :
    (k : ℕ) (a b : Status)
    → leb k (severity (worse_of a b)) ≡ (leb k (severity a) || leb k (severity b))
unfolding worse_of
leb-worse_of k a b = ground arith

leb-aggregate_loop :
    (k : ℕ) (s : Status) (cs : List ComponentHealth)
    → leb k (severity (aggregate_loop s cs)) ≡ (leb k (severity s) || any (at_least k) cs)
unfolding aggregate_loop
leb-aggregate_loop k s [] = ground arith
leb-aggregate_loop k s (c ∷ cs) =
    ground (
      arith,
      leb-worse_of k s (contributes c),
      leb-aggregate_loop k (worse_of s (contributes c)) cs,
    )

-- The severity that an aggregate has before its components are read: Unknown if there is none.
abbrev pub base : List ComponentHealth → ℕ
base [] = 1
base (c ∷ cs) = 0

leb-aggregate_status :
    (k : ℕ) (cs : List ComponentHealth)
    → leb k (severity (aggregate_status cs)) ≡ (leb k (base cs) || any (at_least k) cs)
unfolding aggregate_status severity
leb-aggregate_status k [] = ground arith
leb-aggregate_status k (c ∷ cs) = leb-aggregate_loop k healthy (c ∷ cs)

base-sort_by : (cs : List ComponentHealth) → base (sort_by id_lt cs) ≡ base cs
base-sort_by [] = unfold sort_by in refl
base-sort_by (c ∷ cs) =
    base_of_ne (sort_by id_lt (c ∷ cs)) (sort_by-ne-nil id_lt (c ∷ cs) (λ e. cc))
  where
    base_of_ne : (xs : List ComponentHealth) → xs ≢ [] → base xs ≡ 0
    base_of_ne [] h = absurd (h refl)
    base_of_ne (x ∷ xs) h = refl

-- The severity of the aggregate is at least k exactly when the contribution of some component is,
-- or when k is at most that of Healthy, or of Unknown where there is no component.
pub leb-aggregate_of :
    (k : ℕ) (cs : List ComponentHealth)
    → leb k (severity (aggregate_of cs).status) ≡ (leb k (base cs) || any (at_least k) cs)
unfolding aggregate_of
leb-aggregate_of k cs = ground (
  arith,
  leb-aggregate_status k (sort_by id_lt cs),
  base-sort_by cs,
  any-sort_by (at_least k) id_lt cs,
)

eq_of_leb : (m n : ℕ) → ((k : ℕ) → leb k m ≡ leb k n) → m ≡ n
eq_of_leb m n h = ground (arith, h m, h n)

any-perm :
    (k : ℕ) {xs ys : List ComponentHealth} → Permᴰ xs ys → any (at_least k) xs ≡ any (at_least k) ys
any-perm k nil = refl
any-perm k (cons {a = x} {b = y} e p) = ground (arith, ap (at_least k) e, any-perm k p)
any-perm k (swap {a = x} {b = y} {a' = x'} {b' = y'} e f) =
    ground (arith, ap (at_least k) e, ap (at_least k) f)
any-perm k (trans p q) = any-perm k p ∙ any-perm k q

base-perm : {xs ys : List ComponentHealth} → Permᴰ xs ys → base xs ≡ base ys
base-perm nil = refl
base-perm (cons e p) = refl
base-perm (swap e f) = refl
base-perm (trans p q) = base-perm p ∙ base-perm q

severity-set : IsSet ℕ
severity-set = hlevel

-- The severity of the aggregate does not depend on the order in which the components are given.
aggregate_of-perm :
    {xs ys : List ComponentHealth}
    → Perm xs ys
    → severity (aggregate_of xs).status ≡ severity (aggregate_of ys).status
aggregate_of-perm {xs} {ys} p = ∥∥₁_elim p (severity-set _ _) λ (q : Permᴰ xs ys).
    eq_of_leb (severity (aggregate_of xs).status) (severity (aggregate_of ys).status)
      λ k. ground (arith, leb-aggregate_of k xs, leb-aggregate_of k ys, any-perm k q, base-perm q)
