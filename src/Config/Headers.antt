-- ===== src/Config/Headers.antt =====
-- The headers that an environment variable lists (parseHeaderList of internal/config/load.go).
use my_own_agent.Prelude.{
  ℕ, zero, suc, true, not, ◌&&◌, ltb, ◌≡◌, ◌≢◌, refl, sym, ap, ◌∙◌, Bool, false, ◌||◌, some, List,
  [], ◌∷◌, ◌++◌, ◌==◌, length, reverse, arith, ok, put,
}
use mathlib.Core.List.{append-nil, append_assoc, reverse-append, reverse-cons, reverse-reverse}
use my_own_agent.Telemetry.{
  Text, Attr, text_eq, comma, equals, render_attr, render, cut, split_from,
}
use my_own_agent.Telemetry.Keys.{has, cut-append, has-append, split_from-append, split_from-comma}
use my_own_agent.Statsd.{is_white, white_ahead, white_behind, trim_front, trim_space}
use my_own_agent.Config.{blank}
use my_own_agent.Config.Loading.{add_header, add_headers, parse_header_list}

-- A text without white space at either end.
abbrev pub IsTrimmed : Text → Type 0
IsTrimmed s = (white_ahead s ≡ 0) × (white_behind (reverse s) ≡ 0)

trim_front_same : (white : Text → ℕ) (s : Text) → white s ≡ 0 → trim_front white 0 s ≡ s
unfolding trim_front
trim_front_same white [] h = refl
trim_front_same white (c ∷ cs) h =
    ap (λ (n : ℕ). elim n as (λ _. Text) [ zero ↦ c ∷ cs | suc more ↦ trim_front white more cs ]) h

trim_space_same : (s : Text) → IsTrimmed s → trim_space s ≡ s
unfolding trim_space
trim_space_same s (front, back) =
    ap (λ t. reverse (trim_front white_behind 0 (reverse t))) (trim_front_same white_ahead s front)
    ∙ ap reverse (trim_front_same white_behind (reverse s) back)
    ∙ reverse-reverse s

-- A byte that is in no white space.
abbrev is_inner : ℕ → Bool
is_inner c = not (is_white c) && ltb c 128

white_ahead-inner :
    (x : Text) (c : ℕ) (y : Text)
    → white_ahead x ≡ 0
    → is_inner c ≡ true
    → white_ahead (x ++ c ∷ y) ≡ 0
white_ahead-inner [] c [] h w = ground arith
white_ahead-inner [] c (d ∷ []) h w = ground arith
white_ahead-inner [] c (d ∷ e ∷ y) h w = ground arith
white_ahead-inner (a ∷ []) c [] h w = ground arith
white_ahead-inner (a ∷ []) c (d ∷ y) h w = ground arith
white_ahead-inner (a ∷ b ∷ []) c y h w = ground arith
white_ahead-inner (a ∷ b ∷ d ∷ x) c y h w = h

white_behind-inner :
    (x : Text) (c : ℕ) (y : Text)
    → white_behind x ≡ 0
    → is_inner c ≡ true
    → white_behind (x ++ c ∷ y) ≡ 0
white_behind-inner [] c [] h w = ground arith
white_behind-inner [] c (d ∷ []) h w = ground arith
white_behind-inner [] c (d ∷ e ∷ y) h w = ground arith
white_behind-inner (a ∷ []) c [] h w = ground arith
white_behind-inner (a ∷ []) c (d ∷ y) h w = ground arith
white_behind-inner (a ∷ b ∷ []) c y h w = ground arith
white_behind-inner (a ∷ b ∷ d ∷ x) c y h w = h

reverse-join : (x : Text) (c : ℕ) (y : Text) → reverse (x ++ c ∷ y) ≡ reverse y ++ c ∷ reverse x
reverse-join x c y =
    reverse-append x (c ∷ y)
    ∙ ap (λ t. t ++ reverse x) (reverse-cons c y)
    ∙ append_assoc (reverse y) (c ∷ []) (reverse x)

-- Two texts without white space at their ends, joined by a separator, are one.
join-IsTrimmed :
    (x : Text) (c : ℕ) (y : Text)
    → IsTrimmed x
    → IsTrimmed y
    → is_inner c ≡ true
    → IsTrimmed (x ++ c ∷ y)
join-IsTrimmed x c y hx hy w = (
  white_ahead-inner x c y hx.0 w,
  ap white_behind (reverse-join x c y) ∙ white_behind-inner (reverse y) c (reverse x) hy.1 w,
)

-- A header that the list can hold: a key and a value without white space at their ends, neither of
-- them empty nor with a comma, and no equals sign in the key.
pub record IsHeader (a : Attr) : Type 0 where
  pub key_trimmed : IsTrimmed a.key
  pub value_trimmed : IsTrimmed a.value
  pub key_some : a.key ≢ []
  pub value_some : a.value ≢ []
  pub key_plain : has comma a.key || has equals a.key ≡ false
  pub value_plain : has comma a.value ≡ false

abbrev pub AllHeaders : List Attr → Type 0
AllHeaders [] = Unit
AllHeaders (a ∷ attrs) = IsHeader a × AllHeaders attrs

-- out[k] = v for each of the headers.
abbrev pub put_all : List Attr → List (Text × Text) → List (Text × Text)
put_all [] out = out
put_all (a ∷ attrs) out = put_all attrs (put text_eq a.key a.value out)

render_attr-IsTrimmed : (a : Attr) → IsHeader a → IsTrimmed (render_attr a)
render_attr-IsTrimmed a h = join-IsTrimmed a.key equals a.value h.key_trimmed h.value_trimmed refl

render-IsTrimmed :
    (a : Attr) (attrs : List Attr) → AllHeaders (a ∷ attrs) → IsTrimmed (render (a ∷ attrs))
unfolding render
render-IsTrimmed a [] h = render_attr-IsTrimmed a h.0
render-IsTrimmed a (b ∷ attrs) h =
    join-IsTrimmed (render_attr a) comma (render (b ∷ attrs)) (render_attr-IsTrimmed a h.0)
      (render-IsTrimmed b attrs h.1) refl

blank_not : (s : Text) → IsTrimmed s → s ≢ [] → blank s ≡ false
unfolding blank
blank_not [] h n = absurd (n refl)
blank_not (c ∷ s) h n = ap (λ (t : Text). length t == 0) (trim_space_same (c ∷ s) h) ∙ ground arith

join-ne-nil : (x : Text) (c : ℕ) (y : Text) → (x ++ c ∷ y) ≢ []
join-ne-nil [] c y = ground arith
join-ne-nil (d ∷ x) c y = ground arith

cut-render_attr : (a : Attr) → IsHeader a → cut equals (render_attr a) ≡ some (a.key, a.value)
cut-render_attr a h = cut-append equals a.key a.value (ground (arith, h.key_plain))

add_header-render_attr :
    (a : Attr) (out : List (Text × Text))
    → IsHeader a
    → add_header (render_attr a) out ≡ ok (put text_eq a.key a.value out)
unfolding add_header
add_header-render_attr a out h =
    rw
      (
        add_header,
        blank_not (render_attr a) (render_attr-IsTrimmed a h) (join-ne-nil a.key equals a.value),
        trim_space_same (render_attr a) (render_attr-IsTrimmed a h),
        cut-render_attr a h,
        blank_not a.key h.key_trimmed h.key_some,
        blank_not a.value h.value_trimmed h.value_some,
        trim_space_same a.key h.key_trimmed,
        trim_space_same a.value h.value_trimmed,
      )
      refl

-- The headers as they are written between the commas.
abbrev parts_of : List Attr → List Text
parts_of [] = []
parts_of (a ∷ attrs) = render_attr a ∷ parts_of attrs

render-ne-nil : (a : Attr) (attrs : List Attr) → render (a ∷ attrs) ≢ []
unfolding render
render-ne-nil a [] = join-ne-nil a.key equals a.value
render-ne-nil a (b ∷ attrs) = join-ne-nil (render_attr a) comma (render (b ∷ attrs))

comma_free : (a : Attr) → IsHeader a → has comma (render_attr a) ≡ false
comma_free a h =
    ground (arith, has-append comma a.key (equals ∷ a.value), h.key_plain, h.value_plain)

split-render :
    (a : Attr) (attrs : List Attr)
    → AllHeaders (a ∷ attrs)
    → split_from comma [] (render (a ∷ attrs)) ≡ parts_of (a ∷ attrs)
unfolding render split_from
split-render a [] h =
    ap (split_from comma []) (sym (append-nil (render_attr a)))
    ∙ split_from-append comma [] (render_attr a) [] (comma_free a h.0)
split-render a (b ∷ attrs) h =
    split_from-append comma [] (render_attr a) (comma ∷ render (b ∷ attrs)) (comma_free a h.0)
    ∙ split_from-comma (render_attr a) (render (b ∷ attrs))
    ∙ ap (λ l. render_attr a ∷ l) (split-render b attrs h.1)

add_headers-ok :
    (part : Text) (parts : List Text) (out next : List (Text × Text))
    → add_header part out ≡ ok next
    → add_headers (part ∷ parts) out ≡ add_headers parts next
unfolding add_headers
add_headers-ok part parts out next h = rw (add_headers, h) refl

add_headers-render :
    (attrs : List Attr) (out : List (Text × Text))
    → AllHeaders attrs
    → add_headers (parts_of attrs) out ≡ ok (put_all attrs out)
unfolding add_headers
add_headers-render [] out h = refl
add_headers-render (a ∷ attrs) out h =
    add_headers-ok (render_attr a) (parts_of attrs) out (put text_eq a.key a.value out)
      (add_header-render_attr a out h.0)
    ∙ add_headers-render attrs (put text_eq a.key a.value out) h.1

-- Reading a list of headers that was written as keys and values, with equals signs between these and
-- commas between the headers, gives each key the last value that is written for it, when no key and
-- no value is empty, has white space at an end or holds a comma, and no key holds an equals sign.
pub parse_header_list-render :
    (attrs : List Attr)
    → AllHeaders attrs
    → parse_header_list (render attrs) ≡ ok (put_all attrs [])
unfolding parse_header_list render
parse_header_list-render [] h = refl
parse_header_list-render (a ∷ attrs) h =
    rw
      (
        parse_header_list,
        blank_not (render (a ∷ attrs)) trimmed (render-ne-nil a attrs),
        trim_space_same (render (a ∷ attrs)) trimmed,
        split-render a attrs h,
      )
      (add_headers-render (a ∷ attrs) [] h)
  where
    trimmed : IsTrimmed (render (a ∷ attrs))
    trimmed = render-IsTrimmed a attrs h
