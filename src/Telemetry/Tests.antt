-- ===== src/Telemetry/Tests.antt =====
-- The telemetry kept in memory at small inputs.
use mathlib.Core.List.Perm
use my_own_agent.Prelude.{
  ℕ, ◌+◌, ◌≤◌, ◌≡◌, refl, ◌⊎◌, none, List, [], ◌∷◌, length, ltb, lex_lt, sort_by,
}
use my_own_agent.Telemetry.{Text, Attr, attr_lt, series_key, attrs_from_series_key}
use my_own_agent.Telemetry.Instruments.{
  Floats, Telemetry, with_max_series, new_telemetry, series_of,
}
use my_own_agent.Telemetry.Buffers.{counter_value}
use my_own_agent.Telemetry.Keys.{attrs_from_series_key-series_key}
use my_own_agent.Telemetry.Ordering.{series_key-Perm}
use my_own_agent.Telemetry.Counters.{Addition, add_all, deltas, total, counter_value-add_all}
use my_own_agent.Telemetry.Bounds.{Bounded}
use my_own_agent.Telemetry.Runs.{
  call_add, call_set, call_observe, call_retire_series, perform_all, perform_all-Bounded,
}

-- b=2 and a=1.
abbrev second_attr : Attr
second_attr = record { key = 98 ∷ []; value = 50 ∷ [] }

abbrev first_attr : Attr
first_attr = record { key = 97 ∷ []; value = 49 ∷ [] }

abbrev two_attrs : List Attr
two_attrs = second_attr ∷ first_attr ∷ []

-- The key is a=1,b=2.
two_key : series_key two_attrs ≡ 97 ∷ 61 ∷ 49 ∷ 44 ∷ 98 ∷ 61 ∷ 50 ∷ []
unfolding series_key sort_by lex_lt
two_key = refl

attrs_from_series_key-series_key_example :
    attrs_from_series_key (series_key two_attrs) ≡ sort_by attr_lt two_attrs
attrs_from_series_key-series_key_example = attrs_from_series_key-series_key two_attrs refl

series_key-Perm_example : series_key two_attrs ≡ series_key (first_attr ∷ second_attr ∷ [])
series_key-Perm_example =
    series_key-Perm two_attrs (first_attr ∷ second_attr ∷ []) (Perm.swap first_attr second_attr [])

-- Whole numbers in place of floating-point ones.
abbrev whole : Floats ℕ
whole = record { nought = 0; plus = λ a b. a + b; less = ltb }

abbrev small : Telemetry ℕ
unfolding new_telemetry
small = new_telemetry (with_max_series 1 ∷ [])

abbrev requests : Text
requests = 114 ∷ []

abbrev two_calls : List Addition
two_calls =
    record { name = requests; delta = 3; attrs = two_attrs }
    ∷ record { name = requests; delta = 4; attrs = [] }
    ∷ record { name = requests; delta = 5; attrs = first_attr ∷ second_attr ∷ [] }
    ∷ []

counter_value-add_all_example :
    (counter_value requests two_attrs (add_all two_calls small)
      ≡ total (counter_value requests two_attrs small) (deltas requests two_attrs two_calls))
    ⊎ ((counter_value requests two_attrs (add_all two_calls small) ≡ none)
        × (small.max_series ≤ length (series_of requests (add_all two_calls small).counters)))
counter_value-add_all_example = counter_value-add_all requests two_attrs two_calls small

perform_all-Bounded_example : Bounded (
    perform_all whole
      (call_add requests 3 two_attrs
        ∷ call_set requests 7 two_attrs
        ∷ call_set requests 8 []
        ∷ call_observe requests 9 []
        ∷ call_retire_series requests two_attrs
        ∷ [])
      (new_telemetry (with_max_series 1 ∷ [])))
perform_all-Bounded_example = perform_all-Bounded whole (with_max_series 1 ∷ []) (
    call_add requests 3 two_attrs
    ∷ call_set requests 7 two_attrs
    ∷ call_set requests 8 []
    ∷ call_observe requests 9 []
    ∷ call_retire_series requests two_attrs
    ∷ [])

-- A value with a comma gives the same key as two attributes.
comma_in_value :
    series_key (record { key = 97 ∷ []; value = 49 ∷ 44 ∷ 98 ∷ 61 ∷ 50 ∷ [] } ∷ [])
    ≡ series_key two_attrs
unfolding series_key sort_by lex_lt
comma_in_value = refl
