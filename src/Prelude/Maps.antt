-- ===== src/Prelude/Maps.antt =====
-- Go maps as association lists, with one entry for each key.
use Prim.Native.Nat.{◌+◌}
use mathlib.Core.Path.{◌≡◌, refl}
use mathlib.Core.Bool.{Bool, true}
use mathlib.Core.Option.{Option, none, some}
use mathlib.Core.List.{List, [], ◌∷◌}
use native.Mathlib.Omega.{arith}
use my_own_agent.Prelude.Tests.{if◌then◌else◌}
use my_own_agent.Prelude.Lists.{length}

-- A map from K to V, with the test for equality of its keys.
module _ {ℓ} {K V : Type ℓ} (eq : K → K → Bool) where
  abbrev pub lookup : K → List (K × V) → Option V
  lookup k [] = none
  lookup k ((j, v) ∷ m) = let rest = lookup k m in if eq j k then some v else rest

  -- m[k] = v
  abbrev pub put : K → V → List (K × V) → List (K × V)
  put k v [] = (k, v) ∷ []
  put k v ((j, w) ∷ m) = let rest = put k v m in if eq j k then (j, v) ∷ m else (j, w) ∷ rest

  -- delete(m, k)
  abbrev pub delete : K → List (K × V) → List (K × V)
  delete k [] = []
  delete k ((j, w) ∷ m) = let rest = delete k m in if eq j k then m else (j, w) ∷ rest

  pub length-put :
      (k : K) (v : V) (m : List (K × V))
      → length (put k v m) ≡ elim (lookup k m) [ none ↦ length m + 1 | some w ↦ length m ]
  length-put k v [] = refl
  length-put k v ((j, w) ∷ m) = ground (arith, length-put k v m)

  pub length-delete :
      (k : K) (m : List (K × V)) (v : V) → lookup k m ≡ some v → length (delete k m) + 1 ≡ length m
  length-delete k [] v h = absurd (cc h)
  length-delete k ((j, w) ∷ m) v h = ground (arith, length-delete k m v)

-- What a lookup finds after an assignment, where the test for equality of keys is equality.
module _ {ℓ} {K V : Type ℓ} (eq : K → K → Bool) (same : (j k : K) → eq j k ≡ true → j ≡ k)
    (eq_refl : (k : K) → eq k k ≡ true) where
  pub lookup-put :
      (k j : K) (v : V) (m : List (K × V))
      → lookup eq k (put eq j v m) ≡ (if eq j k then some v else lookup eq k m)
  lookup-put k j v [] = refl
  lookup-put k j v ((i, w) ∷ m) =
      ground (arith, lookup-put k j v m, same i j, same j k, same i k, eq_refl i)

  -- No key has two entries.
  abbrev pub Unique : List (K × V) → Type ℓ
  Unique [] = Unit
  Unique ((k, v) ∷ m) = (lookup eq k m ≡ none) × Unique m

  pub put-Unique : (k : K) (v : V) (m : List (K × V)) → Unique m → Unique (put eq k v m)
  put-Unique k v [] u = (refl, tt)
  put-Unique k v ((j, w) ∷ m) u =
      ground (arith, put-Unique k v m u.1, lookup-put j k v m, same k j, same j k, eq_refl j)

  pub lookup-delete :
      (k j : K) (m : List (K × V))
      → Unique m
      → lookup eq k (delete eq j m) ≡ (if eq j k then none else lookup eq k m)
  lookup-delete k j [] u = ground arith
  lookup-delete k j ((i, w) ∷ m) u =
      ground (arith, lookup-delete k j m u.1, same i j, same j k, same i k, eq_refl i)

  pub delete-Unique : (k : K) (m : List (K × V)) → Unique m → Unique (delete eq k m)
  delete-Unique k [] u = tt
  delete-Unique k ((j, w) ∷ m) u = ground (arith, delete-Unique k m u.1, lookup-delete j k m u.1)
