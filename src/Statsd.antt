-- ===== src/Statsd.antt =====
-- StatsD lines (internal/modules/statsd/statsd.go). A line is the list of its
-- bytes. strconv.ParseFloat and the conversion of a float to an int64 are
-- arguments, as is what the telemetry uses of floats.
pub mod Packets
pub mod Tests
use my_own_agent.Prelude.{
  ℕ, zero, suc, Bool, true, false, not, ◌&&◌, ◌||◌, ◌==◌, Option, none, some, List, [], ◌∷◌,
  reverse, length, any, take, leb, if◌then◌else◌,
}
use my_own_agent.Telemetry.{Text, text_eq, Attr, cut, split_from}
use my_own_agent.Telemetry.Instruments.{Floats, Telemetry, add, set, observe}

-- What a line uses of floating-point numbers.
pub record Numbers (F : Type 0) : Type 0 where
  pub floats : Floats F
  pub parse : Text → Option F
  pub to_int : F → ℕ

abbrev pub is_white : ℕ → Bool
is_white c = c == 32 || c == 9 || c == 10 || c == 11 || c == 12 || c == 13

-- The UTF-8 of the other white space of unicode.IsSpace: U+0085 and U+00A0, and U+1680, U+2000 to
-- U+200A, U+2028, U+2029, U+202F, U+205F and U+3000.
abbrev pub white_pair : ℕ → ℕ → Bool
white_pair a b = a == 194 && (b == 133 || b == 160)

abbrev pub white_triple : ℕ → ℕ → ℕ → Bool
white_triple a b c =
    (a == 225 && b == 154 && c == 128)
    || (a == 226 && b == 128 && ((leb 128 c && leb c 138) || c == 168 || c == 169 || c == 175))
    || (a == 226 && b == 129 && c == 159)
    || (a == 227 && b == 128 && c == 128)

-- The bytes of the white space that a text starts with, 0 where it starts with none; and the same of a
-- text whose bytes are in reverse.
abbrev pub white_ahead : Text → ℕ
white_ahead [] = 0
white_ahead (a ∷ []) = if is_white a then 1 else 0
white_ahead (a ∷ b ∷ []) = if is_white a then 1 else if white_pair a b then 2 else 0
white_ahead (a ∷ b ∷ c ∷ s) =
    if is_white a then 1 else if white_pair a b then 2 else if white_triple a b c then 3 else 0

abbrev pub white_behind : Text → ℕ
white_behind [] = 0
white_behind (a ∷ []) = if is_white a then 1 else 0
white_behind (a ∷ b ∷ []) = if is_white a then 1 else if white_pair b a then 2 else 0
white_behind (a ∷ b ∷ c ∷ s) =
    if is_white a then 1 else if white_pair b a then 2 else if white_triple c b a then 3 else 0

-- The text without the first `skip` bytes and the white space behind them.
unfoldable pub trim_front : (Text → ℕ) → ℕ → Text → Text
trim_front white skip [] = []
trim_front white (suc skip) (c ∷ cs) = trim_front white skip cs
trim_front white zero (c ∷ cs) = elim (white (c ∷ cs)) [
  | zero ↦ c ∷ cs
  | suc more ↦ trim_front white more cs
]

-- strings.TrimSpace
unfoldable pub trim_space : Text → Text
unfolding trim_front
trim_space s = reverse (trim_front white_behind 0 (reverse (trim_front white_ahead 0 s)))

-- strings.Split
abbrev pub split : ℕ → Text → List Text
split sep s = split_from sep [] s

-- "true"
abbrev true_text : Text
true_text = 116 ∷ 114 ∷ 117 ∷ 101 ∷ []

-- The tag that a part stands for, if it is one.
unfoldable tag_of : Text → Option Attr
unfolding cut trim_space
tag_of part =
    let (k, v) : Text × Text = elim (cut 58 (trim_space part)) [
      | none ↦ (trim_space part, true_text)
      | some (k, v) ↦ (k, v)
    ] in
    elim (trim_space k) [
      | [] ↦ none
      | c ∷ cs ↦ some (record { key = c ∷ cs; value = trim_space v })
    ]

unfoldable tags_of : List Text → List Attr
unfolding tag_of
tags_of [] = []
tags_of (part ∷ parts) =
    let rest = tags_of parts in elim (tag_of part) [ none ↦ rest | some a ↦ a ∷ rest ]

-- parseTags: eight parts are read at most.
unfoldable parse_tags : Text → List Attr
unfolding tags_of split_from
parse_tags s = let t = trim_space s in if length t == 0 then [] else tags_of (take 8 (split 44 t))

-- The kinds of instrument: "c", "g", and "ms" or "h".
pub data Kind : Type 0 where
  counts gauges measures : Kind

abbrev kind_of : Text → Option Kind
kind_of s =
    if text_eq s (99 ∷ [])
    then some counts
    else if text_eq s (103 ∷ [])
    then some gauges
    else if text_eq s (109 ∷ 115 ∷ []) || text_eq s (104 ∷ [])
    then some measures
    else none

-- A line that has been read.
pub record Sample (F : Type 0) : Type 0 where
  pub name : Text
  pub value : F
  pub kind : Kind
  pub attrs : List Attr

-- The name of an instrument, none where it is no name.
unfoldable read_name : Text → Option Text
unfolding trim_space
read_name s =
    let name = trim_space s in
    if length name == 0 || any (λ c. c == 32 || c == 9) name then none else some name

module _ {F : Type 0} (n : Numbers F) where
  -- The part of applyLine that reads: `parts` is what stands between the bars.
  unfoldable pub read_parts : List Text → List Attr → Option (Sample F)
  unfolding read_name
  read_parts (named ∷ typed ∷ rest) attrs = elim (cut 58 named) [
    | none ↦ none
    | some (before, after) ↦ elim (read_name before) [
      | none ↦ none
      | some name ↦ elim (n.parse (trim_space after)) [
        | none ↦ none
        | some value ↦ elim (kind_of (trim_space typed)) [
          | none ↦ none
          | some kind ↦ some (record { name = name; value = value; kind = kind; attrs = attrs })
        ]
      ]
    ]
  ]
  read_parts _ attrs = none

  unfoldable pub read_line : Text → Option (Sample F)
  unfolding read_parts parse_tags
  read_line line = elim (cut 35 line) [
    | none ↦ read_parts (split 124 line) (parse_tags [])
    | some (main, tags) ↦ read_parts (split 124 main) (parse_tags tags)
  ]

  -- The switch of applyLine.
  unfoldable pub apply_sample : Sample F → Telemetry F → Telemetry F
  unfolding add set observe
  apply_sample s t = elim s.kind [
    | counts ↦ add s.name (n.to_int s.value) s.attrs t
    | gauges ↦ set s.name s.value s.attrs t
    | measures ↦ observe n.floats s.name s.value s.attrs t
  ]

  -- applyLine
  unfoldable pub apply_line : Text → Telemetry F → Telemetry F × Bool
  unfolding read_line apply_sample
  apply_line line t = elim (read_line line) [
    | none ↦ (t, false)
    | some s ↦ (apply_sample s t, true)
  ]

  -- The loop of applyPacket.
  unfoldable pub apply_lines : List Text → Telemetry F → Bool → Telemetry F × Bool
  unfolding apply_line
  apply_lines [] t ok = (t, ok)
  apply_lines (line ∷ lines) t ok =
      let trimmed = trim_space line in
      let applied = apply_line trimmed t in
      let skipped = apply_lines lines t ok in
      let next = apply_lines lines applied.0 (ok || applied.1) in
      if length trimmed == 0 then skipped else next

  -- applyPacket
  unfoldable pub apply_packet : Text → Telemetry F → Telemetry F × Bool
  unfolding apply_lines
  apply_packet packet t = apply_lines (split 10 packet) t false
