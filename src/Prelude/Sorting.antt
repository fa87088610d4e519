-- ===== src/Prelude/Sorting.antt =====
-- Sorting by a strict total order gives one list for all the orders of its items.
use Prim.Native.Nat.{ℕ}
use mathlib.Core.Path.{◌≡◌, refl, sym, ap, ◌∙◌}
use mathlib.Core.Bool.{Bool, true, false}
use mathlib.Core.List.{List, [], ◌∷◌, Permᴰ}
use native.Mathlib.Omega.{arith}
use my_own_agent.Prelude.Tests.{if◌then◌else◌}
use my_own_agent.Prelude.Order.{insert_by, sort_by, lex_lt}

pub record Strict {ℓ} {A : Type ℓ} (lt : A → A → Bool) : Type ℓ where
  pub asym : (x y : A) → lt x y ≡ true → lt y x ≡ false
  pub transitive : (x y z : A) → lt x y ≡ true → lt y z ≡ true → lt x z ≡ true
  pub connected : (x y : A) → lt x y ≡ false → lt y x ≡ false → x ≡ y

module _ {ℓ} {A : Type ℓ} (lt : A → A → Bool) (strict : Strict lt) where
  insert_by_past :
      (x y : A) (ys : List A) → lt y x ≡ true → insert_by lt x (y ∷ ys) ≡ y ∷ insert_by lt x ys
  unfolding insert_by
  insert_by_past x y ys h = ap (λ (b : Bool). if b then y ∷ insert_by lt x ys else x ∷ y ∷ ys) h

  insert_by_here : (x y : A) (ys : List A) → lt y x ≡ false → insert_by lt x (y ∷ ys) ≡ x ∷ y ∷ ys
  unfolding insert_by
  insert_by_here x y ys h = ap (λ (b : Bool). if b then y ∷ insert_by lt x ys else x ∷ y ∷ ys) h

  -- The smaller of two goes in first, or second.
  insert_by_swap :
      (x y : A) (l : List A)
      → lt x y ≡ true
      → insert_by lt x (insert_by lt y l) ≡ insert_by lt y (insert_by lt x l)
  unfolding insert_by
  insert_by_swap x y [] h = ground (arith, strict.asym x y h)
  insert_by_swap x y (z ∷ l) h =
      ground (arith, strict.asym x y h, strict.transitive z x y, insert_by_swap x y l h)

  insert_by_comm :
      (x y : A) (l : List A) → insert_by lt x (insert_by lt y l) ≡ insert_by lt y (insert_by lt x l)
  insert_by_comm x y l = go (lt x y) refl (lt y x) refl
    where
      go :
          (b : Bool)
          → lt x y ≡ b
          → (d : Bool) → lt y x ≡ d
          → insert_by lt x (insert_by lt y l) ≡ insert_by lt y (insert_by lt x l)
      go true h d k = insert_by_swap x y l h
      go false h true k = sym (insert_by_swap y x l k)
      go false h false k =
          ap (λ (z : A). insert_by lt x (insert_by lt z l)) (sym (strict.connected x y h k))
          ∙ ap (λ (z : A). insert_by lt z (insert_by lt x l)) (strict.connected x y h k)

  pub sort_by_reordered : {xs ys : List A} → Permᴰ xs ys → sort_by lt xs ≡ sort_by lt ys
  unfolding sort_by
  sort_by_reordered Permᴰ.nil = refl
  sort_by_reordered (Permᴰ.cons {b = b} {l₁ = xs} e p) =
      ap (λ (z : A). insert_by lt z (sort_by lt xs)) e ∙ ap (insert_by lt b) (sort_by_reordered p)
  sort_by_reordered (Permᴰ.swap {a = a} {b = b} {b' = d} {l = l} e f) =
      insert_by_comm a b (sort_by lt l)
      ∙ ap (λ (z : A). insert_by lt b (insert_by lt z (sort_by lt l))) e
      ∙ ap (λ (z : A). insert_by lt z (insert_by lt d (sort_by lt l))) f
  sort_by_reordered (Permᴰ.trans p q) = sort_by_reordered p ∙ sort_by_reordered q

lex_lt-asym : (xs ys : List ℕ) → lex_lt xs ys ≡ true → lex_lt ys xs ≡ false
unfolding lex_lt
lex_lt-asym xs [] h = ground arith
lex_lt-asym [] (y ∷ ys) h = ground arith
lex_lt-asym (x ∷ xs) (y ∷ ys) h = ground (arith, lex_lt-asym xs ys)

lex_lt_trans : (xs ys zs : List ℕ) → lex_lt xs ys ≡ true → lex_lt ys zs ≡ true → lex_lt xs zs ≡ true
unfolding lex_lt
lex_lt_trans xs ys [] h k = ground arith
lex_lt_trans xs [] (z ∷ zs) h k = ground arith
lex_lt_trans [] (y ∷ ys) (z ∷ zs) h k = ground arith
lex_lt_trans (x ∷ xs) (y ∷ ys) (z ∷ zs) h k = ground (arith, lex_lt_trans xs ys zs)

lex_lt_connected : (xs ys : List ℕ) → lex_lt xs ys ≡ false → lex_lt ys xs ≡ false → xs ≡ ys
unfolding lex_lt
lex_lt_connected [] [] h k = refl
lex_lt_connected (x ∷ xs) [] h k = ground arith
lex_lt_connected [] (y ∷ ys) h k = ground arith
lex_lt_connected (x ∷ xs) (y ∷ ys) h k = ground (arith, lex_lt_connected xs ys)

pub lex_lt-Strict : Strict lex_lt
lex_lt-Strict = record {
  asym = lex_lt-asym;
  transitive = lex_lt_trans;
  connected = lex_lt_connected;
}
