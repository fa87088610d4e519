-- ===== src/Prelude/Order.antt =====
-- The order of Go on strings, and a sort by a Boolean test.
use Prim.Native.Char.{code}
use Prim.Native.String.{String}
use Prim.Native.Nat.{ℕ, ◌+◌}
use mathlib.Core.Path.{◌≡◌, refl}
use mathlib.Core.Logic.{◌≢◌}
use mathlib.Core.Bool.{Bool, true, false, ◌||◌}
use mathlib.Core.List.{List, [], ◌∷◌}
use native.Mathlib.Omega.{arith}
use my_own_agent.Prelude.Tests.{ltb, ◌==◌, if◌then◌else◌}

unfoldable pub codes : String → List ℕ
codes String.[] = []
codes (String.◌∷◌ c s) = code c ∷ codes s

-- Lexicographic order of the code points, which is that of the bytes of UTF-8.
unfoldable pub lex_lt : List ℕ → List ℕ → Bool
lex_lt xs [] = false
lex_lt [] (y ∷ ys) = true
lex_lt (x ∷ xs) (y ∷ ys) = let rest = lex_lt xs ys in if x == y then rest else ltb x y

-- `s < t` on strings.
unfoldable pub str_lt : String → String → Bool
unfolding lex_lt codes
str_lt s t = lex_lt (codes s) (codes t)

module _ {ℓ} {A : Type ℓ} where
  unfoldable pub insert_by : (A → A → Bool) → A → List A → List A
  insert_by lt x [] = x ∷ []
  insert_by lt x (y ∷ ys) = let rest = insert_by lt x ys in if lt y x then y ∷ rest else x ∷ y ∷ ys

  -- sort.Slice(xs, less).
  unfoldable pub sort_by : (A → A → Bool) → List A → List A
  unfolding insert_by
  sort_by lt [] = []
  sort_by lt (x ∷ xs) = insert_by lt x (sort_by lt xs)

  -- Whether some item passes the test.
  abbrev pub any : (A → Bool) → List A → Bool
  any p [] = false
  any p (x ∷ xs) = p x || any p xs

  any-insert_by :
      (p : A → Bool) (lt : A → A → Bool) (x : A) (xs : List A)
      → any p (insert_by lt x xs) ≡ (p x || any p xs)
  unfolding insert_by
  any-insert_by p lt x [] = refl
  any-insert_by p lt x (y ∷ ys) = ground (arith, any-insert_by p lt x ys)

  -- Sorting keeps whether some item passes a test.
  pub any-sort_by :
      (p : A → Bool) (lt : A → A → Bool) (xs : List A) → any p (sort_by lt xs) ≡ any p xs
  unfolding sort_by
  any-sort_by p lt [] = refl
  any-sort_by p lt (x ∷ xs) =
      ground (arith, any-insert_by p lt x (sort_by lt xs), any-sort_by p lt xs)

  insert_by-ne-nil : (lt : A → A → Bool) (x : A) (xs : List A) → insert_by lt x xs ≢ []
  unfolding insert_by
  insert_by-ne-nil lt x [] = ground arith
  insert_by-ne-nil lt x (y ∷ ys) = ground arith

  pub sort_by-ne-nil : (lt : A → A → Bool) (xs : List A) → xs ≢ [] → sort_by lt xs ≢ []
  unfolding sort_by
  sort_by-ne-nil lt [] h = absurd (h refl)
  sort_by-ne-nil lt (x ∷ xs) h = insert_by-ne-nil lt x (sort_by lt xs)

  -- How often an item stands in a list, by the program's test for equality.
  abbrev pub count_by : (A → Bool) → List A → ℕ
  count_by p [] = 0
  count_by p (x ∷ xs) = (if p x then 1 else 0) + count_by p xs

  pub count_by-insert_by :
      (p : A → Bool) (lt : A → A → Bool) (x : A) (xs : List A)
      → count_by p (insert_by lt x xs) ≡ (if p x then 1 else 0) + count_by p xs
  unfolding insert_by
  count_by-insert_by p lt x [] = refl
  count_by-insert_by p lt x (y ∷ ys) = ground (arith, count_by-insert_by p lt x ys)

  -- Sorting keeps how many items pass a test.
  pub count_by-sort_by :
      (p : A → Bool) (lt : A → A → Bool) (xs : List A) → count_by p (sort_by lt xs) ≡ count_by p xs
  unfolding sort_by
  count_by-sort_by p lt [] = refl
  count_by-sort_by p lt (x ∷ xs) =
      omega (arith, count_by-insert_by p lt x (sort_by lt xs), count_by-sort_by p lt xs)
