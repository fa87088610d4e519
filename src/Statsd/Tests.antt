-- ===== src/Statsd/Tests.antt =====
-- StatsD packets at small inputs.
use my_own_agent.Prelude.{
  ℕ, ◌+◌, ◌≡◌, refl, false, Option, none, some, [], ◌∷◌, ltb, sort_by, arith,
}
use my_own_agent.Telemetry.{Text}
use my_own_agent.Telemetry.Instruments.{Telemetry, default_telemetry}
use my_own_agent.Telemetry.Buffers.{counter_value}
use my_own_agent.Telemetry.Bounds.{Bounded}
use my_own_agent.Statsd.{Numbers, apply_packet}
use my_own_agent.Statsd.Packets.{apply_packet-refused}

-- Whole numbers of one digit in place of floating-point numbers.
abbrev digit : Text → Option ℕ
digit (c ∷ []) = some c
digit _ = none

abbrev numbers : Numbers ℕ
numbers = record {
  floats = record { nought = 0; plus = λ a b. a + b; less = ltb };
  parse = digit;
  to_int = λ v. v;
}

abbrev unused : Telemetry ℕ
unused = default_telemetry

unused-Bounded : Bounded unused
unused-Bounded = record {
  counters = refl;
  gauges = refl;
  histogram = refl;
  events = omega arith;
  logs = omega arith;
  traces = omega arith;
  some_event = omega arith;
  some_log = omega arith;
}

-- r:3|c
abbrev one_count : Text
one_count = 114 ∷ 58 ∷ 51 ∷ 124 ∷ 99 ∷ []

one_counted : counter_value (114 ∷ []) [] (apply_packet numbers one_count unused).0 ≡ some 51
unfolding apply_packet counter_value sort_by
one_counted = refl

-- r:3
abbrev no_kind : Text
no_kind = 114 ∷ 58 ∷ 51 ∷ []

no_kind_refused : (apply_packet numbers no_kind unused).1 ≡ false
unfolding apply_packet
no_kind_refused = refl

apply_packet-refused_example : (apply_packet numbers no_kind unused).0 ≡ unused
apply_packet-refused_example = apply_packet-refused numbers no_kind unused no_kind_refused
