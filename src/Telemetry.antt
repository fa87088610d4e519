-- ===== src/Telemetry.antt =====
-- The keys of the series that the agent keeps in memory (seriesKey and attrsFromSeriesKey of
-- internal/platform/inproc/telemetry.go). A text is the list of its bytes.
pub mod Instruments
pub mod Buffers
pub mod Keys
pub mod Tests
pub mod Runs
pub mod Bounds
pub mod Counters
pub mod Ordering
use my_own_agent.Prelude.{
  ℕ, ◌+◌, ◌%◌, ◌^◌, String, Bool, true, false, not, ◌&&◌, ◌||◌, Option, none, some, List, [], ◌∷◌,
  ◌++◌, length, drop, leb, ltb, ◌==◌, str_eq, lex_lt, sort_by, if◌then◌else◌, lookup, put, delete,
}

abbrev pub Text : Type 0
Text = List ℕ

abbrev pub text_eq : Text → Text → Bool
text_eq [] [] = true
text_eq [] (d ∷ ds) = false
text_eq (c ∷ cs) [] = false
text_eq (c ∷ cs) (d ∷ ds) = c == d && text_eq cs ds

-- platform.Attr
pub record Attr : Type 0 where
  pub key : Text
  pub value : Text

-- The order of seriesKey.
abbrev pub attr_lt : Attr → Attr → Bool
attr_lt a b = if text_eq a.key b.key then lex_lt a.value b.value else lex_lt a.key b.key

abbrev pub comma : ℕ
comma = 44

abbrev pub equals : ℕ
equals = 61

-- One attribute in a key.
abbrev pub render_attr : Attr → Text
render_attr a = a.key ++ equals ∷ a.value

-- The loop over the sorted attributes.
unfoldable pub render : List Attr → Text
render [] = []
render (a ∷ []) = render_attr a
render (a ∷ b ∷ attrs) = render_attr a ++ comma ∷ render (b ∷ attrs)

-- seriesKey
unfoldable pub series_key : List Attr → Text
unfolding render
series_key attrs = render (sort_by attr_lt attrs)

-- strings.Cut(s, sep), none where there is no separator.
unfoldable pub cut : ℕ → Text → Option (Text × Text)
cut sep [] = none
cut sep (c ∷ cs) =
    if c == sep
    then some ([], cs)
    else elim (cut sep cs) [ none ↦ none | some (before, after) ↦ some (c ∷ before, after) ]

-- strings.Split(s, sep): `head` is the part that is read.
unfoldable pub split_from : ℕ → Text → Text → List Text
split_from sep head [] = head ∷ []
split_from sep head (c ∷ cs) =
    let same = split_from sep (head ++ c ∷ []) cs in
    let next = split_from sep [] cs in if c == sep then head ∷ next else same

-- The attribute that a part stands for, if it is one.
unfoldable pub attr_of : Text → Option Attr
unfolding cut
attr_of part = elim (cut equals part) [
  | none ↦ none
  | some ([], value) ↦ none
  | some (c ∷ cs, value) ↦ some (record { key = c ∷ cs; value = value })
]

unfoldable pub attrs_of : List Text → List Attr
unfolding attr_of
attrs_of [] = []
attrs_of (part ∷ parts) =
    let rest = attrs_of parts in elim (attr_of part) [ none ↦ rest | some a ↦ a ∷ rest ]

-- attrsFromSeriesKey
unfoldable pub attrs_from_series_key : Text → List Attr
unfolding attrs_of split_from
attrs_from_series_key [] = []
attrs_from_series_key (c ∷ cs) = attrs_of (split_from comma [] (c ∷ cs))
