-- ===== src/Telemetry/Ordering.antt =====
-- The key of a series does not depend on the order of its attributes (seriesKey of
-- internal/platform/inproc/telemetry.go).
use mathlib.Core.Logic.{∥∥₁_elim}
use mathlib.Core.List.{Perm}
use my_own_agent.Prelude.{
  ◌≡◌, refl, ap, ◌∙◌, true, false, List, [], ◌∷◌, arith, Strict, sort_by_reordered, lex_lt-Strict,
}
use my_own_agent.Telemetry.{Text, text_eq, Attr, attr_lt, render, series_key}

pub text_eq_refl : (xs : Text) → text_eq xs xs ≡ true
text_eq_refl [] = refl
text_eq_refl (x ∷ xs) = ground (arith, text_eq_refl xs)

pub text_eq→≡ : (xs ys : Text) → text_eq xs ys ≡ true → xs ≡ ys
text_eq→≡ [] [] h = refl
text_eq→≡ [] (y ∷ ys) h = ground arith
text_eq→≡ (x ∷ xs) [] h = ground arith
text_eq→≡ (x ∷ xs) (y ∷ ys) h = ground (arith, text_eq→≡ xs ys)

text_eq_sym : (xs ys : Text) → text_eq xs ys ≡ text_eq ys xs
text_eq_sym [] [] = refl
text_eq_sym [] (y ∷ ys) = refl
text_eq_sym (x ∷ xs) [] = refl
text_eq_sym (x ∷ xs) (y ∷ ys) = ground (arith, text_eq_sym xs ys)

attr_lt-asym : (a b : Attr) → attr_lt a b ≡ true → attr_lt b a ≡ false
attr_lt-asym a b h = ground (
  arith,
  text_eq_sym a.key b.key,
  lex_lt-Strict.asym a.value b.value,
  lex_lt-Strict.asym a.key b.key,
)

attr_lt_trans : (a b c : Attr) → attr_lt a b ≡ true → attr_lt b c ≡ true → attr_lt a c ≡ true
attr_lt_trans a b c h k = ground (
  arith,
  text_eq→≡ a.key b.key,
  text_eq→≡ b.key c.key,
  text_eq→≡ a.key c.key,
  text_eq_refl b.key,
  lex_lt-Strict.asym a.key b.key,
  lex_lt-Strict.transitive a.key b.key c.key,
  lex_lt-Strict.transitive a.value b.value c.value,
)

attr_ext : (a b : Attr) → a.key ≡ b.key → a.value ≡ b.value → a ≡ b
attr_ext a b p q =
    ap (λ (k : Text). record a { key = k }) p ∙ ap (λ (v : Text). record b { value = v }) q

attr_lt_connected : (a b : Attr) → attr_lt a b ≡ false → attr_lt b a ≡ false → a ≡ b
attr_lt_connected a b h k = attr_ext a b same_key (
    lex_lt-Strict.connected a.value b.value (ground (arith, same_key, text_eq_refl a.key))
      (ground (arith, same_key, text_eq_refl a.key)))
  where
    same_key : a.key ≡ b.key
    same_key =
        ground (
          arith,
          text_eq→≡ a.key b.key,
          text_eq_sym a.key b.key,
          lex_lt-Strict.connected a.key b.key,
        )

attr_lt-Strict : Strict attr_lt
attr_lt-Strict = record {
  asym = attr_lt-asym;
  transitive = attr_lt_trans;
  connected = attr_lt_connected;
}

-- The key of a series is the same for every order of its attributes.
pub series_key-Perm : (xs ys : List Attr) → Perm xs ys → series_key xs ≡ series_key ys
unfolding series_key
series_key-Perm xs ys p =
    let set : IsSet Text = hlevel in
    ∥∥₁_elim p (set (series_key xs) (series_key ys))
      (λ q. ap render (sort_by_reordered attr_lt attr_lt-Strict q))
