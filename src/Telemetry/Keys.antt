-- ===== src/Telemetry/Keys.antt =====
-- Reading the key of a series back (seriesKey and attrsFromSeriesKey of
-- internal/platform/inproc/telemetry.go).
use my_own_agent.Prelude.{
  ℕ, ◌≡◌, refl, sym, ap, ◌∙◌, Bool, true, false, ◌||◌, Option, none, some, List, [], ◌∷◌, ◌++◌,
  ◌==◌, if◌then◌else◌, arith, any, any-sort_by, sort_by,
}
use mathlib.Core.List.{append-nil, append_assoc}
use my_own_agent.Telemetry.{
  Text, Attr, attr_lt, comma, equals, render_attr, render, series_key, cut, split_from, attr_of,
  attrs_of, attrs_from_series_key,
}

abbrev pub has : ℕ → Text → Bool
has sep xs = any (λ c. c == sep) xs

-- An attribute whose key is empty, or that holds a separator where the key of a series cannot.
abbrev ambiguous : Attr → Bool
ambiguous a =
    (elim a.key [ [] ↦ true | _ ↦ false ])
    || has comma a.key
    || has equals a.key
    || has comma a.value

pub cut-append :
    (sep : ℕ) (xs ys : Text) → has sep xs ≡ false → cut sep (xs ++ sep ∷ ys) ≡ some (xs, ys)
unfolding cut
cut-append sep [] ys h = ground arith
cut-append sep (x ∷ xs) ys h = ground (arith, cut-append sep xs ys)

pub has-append : (sep : ℕ) (xs ys : Text) → has sep (xs ++ ys) ≡ (has sep xs || has sep ys)
has-append sep [] ys = refl
has-append sep (x ∷ xs) ys = ground (arith, has-append sep xs ys)

attr_of-cut :
    (part value : Text) (c : ℕ) (cs : Text)
    → cut equals part ≡ some (c ∷ cs, value)
    → attr_of part ≡ some (record { key = c ∷ cs; value = value })
unfolding attr_of
attr_of-cut part value c cs h = ap step h
  where
    step : Option (Text × Text) → Option Attr
    step o = elim o [
      | none ↦ none
      | some ([], value) ↦ none
      | some (c ∷ cs, value) ↦ some (record { key = c ∷ cs; value = value })
    ]

attr_of-append :
    (k v : Text)
    → ambiguous (record { key = k; value = v }) ≡ false
    → attr_of (k ++ equals ∷ v) ≡ some (record { key = k; value = v })
attr_of-append [] v h = ground arith
attr_of-append (c ∷ cs) v h =
    attr_of-cut ((c ∷ cs) ++ equals ∷ v) v c cs (cut-append equals (c ∷ cs) v (ground arith))

attr_of-render_attr : (a : Attr) → ambiguous a ≡ false → attr_of (render_attr a) ≡ some a
attr_of-render_attr a h = attr_of-append a.key a.value h

has-render_attr : (a : Attr) → ambiguous a ≡ false → has comma (render_attr a) ≡ false
has-render_attr a h = ground (arith, has-append comma a.key (equals ∷ a.value))

split_from-other :
    (sep : ℕ) (head : Text) (x : ℕ) (xs : Text)
    → x == sep ≡ false
    → split_from sep head (x ∷ xs) ≡ split_from sep (head ++ x ∷ []) xs
unfolding split_from
split_from-other sep head x xs h =
    ap (λ (b : Bool). if b then head ∷ split_from sep [] xs else split_from sep (head ++ x ∷ []) xs)
      h

pub split_from-append :
    (sep : ℕ) (head xs ys : Text)
    → has sep xs ≡ false
    → split_from sep head (xs ++ ys) ≡ split_from sep (head ++ xs) ys
split_from-append sep head [] ys h = ap (λ (l : Text). split_from sep l ys) (sym (append-nil head))
split_from-append sep head (x ∷ xs) ys h =
    split_from-other sep head x (xs ++ ys) (ground arith)
    ∙ split_from-append sep (head ++ x ∷ []) xs ys (ground arith)
    ∙ ap (λ (l : Text). split_from sep l ys) (append_assoc head (x ∷ []) xs)

attrs_of-cons :
    (part : Text) (a : Attr) (parts : List Text)
    → attr_of part ≡ some a
    → attrs_of (part ∷ parts) ≡ a ∷ attrs_of parts
unfolding attrs_of
attrs_of-cons part a parts h =
    ap (λ (o : Option Attr). elim o [ none ↦ attrs_of parts | some a ↦ a ∷ attrs_of parts ]) h

pub split_from-comma :
    (head rest : Text) → split_from comma head (comma ∷ rest) ≡ head ∷ split_from comma [] rest
unfolding split_from
split_from-comma head rest = refl

attrs_of-render :
    (attrs : List Attr)
    → any ambiguous attrs ≡ false
    → attrs_of (split_from comma [] (render attrs)) ≡ attrs
unfolding render split_from attrs_of
attrs_of-render [] h = refl
attrs_of-render (a ∷ []) h =
    ap (λ (l : Text). attrs_of (split_from comma [] l)) (sym (append-nil (render_attr a)))
    ∙ ap attrs_of (split_from-append comma [] (render_attr a) [] (has-render_attr a clear))
    ∙ attrs_of-cons (render_attr a) a [] (attr_of-render_attr a clear)
  where
    clear : ambiguous a ≡ false
    clear = ground arith
attrs_of-render (a ∷ b ∷ attrs) h =
    ap attrs_of
      (split_from-append comma [] (render_attr a) (comma ∷ more) (has-render_attr a clear))
    ∙ attrs_of-cons (render_attr a) a (split_from comma [] more) (attr_of-render_attr a clear)
    ∙ ap (λ (l : List Attr). a ∷ l) (attrs_of-render (b ∷ attrs) (ground arith))
  where
    more : Text
    more = render (b ∷ attrs)

    clear : ambiguous a ≡ false
    clear = ground arith

attrs_from_series_key-split_from :
    (xs : Text) → attrs_from_series_key xs ≡ attrs_of (split_from comma [] xs)
unfolding attrs_from_series_key
attrs_from_series_key-split_from [] = refl
attrs_from_series_key-split_from (x ∷ xs) = refl

-- Reading a key back gives the attributes it was made from, in the order of the key, when no
-- attribute has an empty key, a comma, or an equals sign in its key.
pub attrs_from_series_key-series_key :
    (attrs : List Attr)
    → any ambiguous attrs ≡ false
    → attrs_from_series_key (series_key attrs) ≡ sort_by attr_lt attrs
unfolding series_key
attrs_from_series_key-series_key attrs h =
    attrs_from_series_key-split_from (render (sort_by attr_lt attrs))
    ∙ attrs_of-render (sort_by attr_lt attrs) (any-sort_by ambiguous attr_lt attrs ∙ h)
