-- ===== src/Telemetry/Instruments.antt =====
-- The instruments and the bounded buffers of the telemetry kept in memory
-- (internal/platform/inproc/telemetry.go, with the records of internal/platform/ports.go). An int64 is
-- its 64 bits as a number. Floating-point numbers are a type `F`, with what Observe uses of them as
-- an argument. A time is the number of its nanoseconds, the zero time 0.
use my_own_agent.Prelude.{
  ℕ, ◌+◌, ◌%◌, ◌^◌, Bool, true, Option, none, some, List, [], ◌∷◌, length, ltb, if◌then◌else◌,
  lookup, put,
}
use my_own_agent.Telemetry.{Text, text_eq, Attr, series_key}

-- platform.Event; a severity is its number.
pub record Event : Type 0 where
  pub name : Text
  pub severity : ℕ
  pub timestamp : ℕ
  pub attrs : List Attr

-- platform.LogRecord
pub record LogRecord : Type 0 where
  pub timestamp : ℕ
  pub severity : ℕ
  pub body : Text
  pub attrs : List Attr

-- platform.TracePayload
pub record TracePayload : Type 0 where
  pub content_type : Text
  pub body : Text
  pub signal : Text

pub record Distribution (F : Type 0) : Type 0 where
  pub count : ℕ
  pub sum : F
  pub min : F
  pub max : F

-- What Observe uses of floating-point numbers.
pub record Floats (F : Type 0) : Type 0 where
  pub nought : F
  pub plus : F → F → F
  pub less : F → F → Bool

-- map[string]V, the series of one instrument.
abbrev pub Series : Type 0 → Type 0
Series V = List (Text × V)

-- map[string]map[string]V
abbrev pub Family : Type 0 → Type 0
Family V = List (Text × Series V)

pub record Telemetry (F : Type 0) : Type 0 where
  pub max_series : ℕ
  pub counters : Family ℕ
  pub gauges : Family F
  pub histogram : Family (Distribution F)
  pub events : List Event
  pub max_events : ℕ
  pub logs : List LogRecord
  pub max_logs : ℕ
  pub traces : List TracePayload
  pub max_traces : ℕ
  pub dropped_logs : ℕ
  pub dropped_traces : ℕ
  pub dropped : List (Text × ℕ)

-- The options that NewTelemetry takes.
pub data TelemetryOption : Type 0 where
  with_max_series with_max_events with_max_logs with_max_traces : ℕ → TelemetryOption

-- m[name], with no series where the instrument is not known.
abbrev pub series_of : {V : Type 0} → Text → Family V → Series V
series_of name m = elim (lookup text_eq name m) [ none ↦ [] | some series ↦ series ]

-- What admitLocked answers for the series of an instrument.
abbrev pub admits : {V : Type 0} → ℕ → Text → Series V → Bool
admits max key series = elim (lookup text_eq key series) [
  | some v ↦ true
  | none ↦ ltb (length series) max
]

-- m[name] = series
abbrev pub with_series : {V : Type 0} → Text → Series V → Family V → Family V
with_series name series m = put text_eq name series m

-- dropped[name]++
abbrev count_dropped : Text → List (Text × ℕ) → List (Text × ℕ)
count_dropped name dropped =
    put text_eq name (elim (lookup text_eq name dropped) [ none ↦ 1 | some n ↦ (n + 1) % 2 ^ 64 ])
      dropped

-- series[key] += delta
unfoldable pub increase : ℕ → Text → Series ℕ → Series ℕ
increase delta key series =
    put text_eq key
      (elim (lookup text_eq key series) [ none ↦ delta % 2 ^ 64 | some v ↦ (v + delta) % 2 ^ 64 ])
      series

module _ {F : Type 0} where
  -- A TelemetryOption applied.
  unfoldable pub apply_option : TelemetryOption → Telemetry F → Telemetry F
  apply_option (with_max_series n) t = if ltb 0 n then record t { max_series = n } else t
  apply_option (with_max_events n) t = if ltb 0 n then record t { max_events = n } else t
  apply_option (with_max_logs n) t = if ltb 0 n then record t { max_logs = n } else t
  apply_option (with_max_traces n) t = if ltb 0 n then record t { max_traces = n } else t

  unfoldable pub apply_options : List TelemetryOption → Telemetry F → Telemetry F
  unfolding apply_option
  apply_options [] t = t
  apply_options (o ∷ os) t = apply_options os (apply_option o t)

  abbrev pub default_telemetry : Telemetry F
  default_telemetry = record {
    max_series = 1000;
    counters = [];
    gauges = [];
    histogram = [];
    events = [];
    max_events = 1024;
    logs = [];
    max_logs = 1024;
    traces = [];
    max_traces = 128;
    dropped_logs = 0;
    dropped_traces = 0;
    dropped = [];
  }

  -- NewTelemetry
  unfoldable pub new_telemetry : List TelemetryOption → Telemetry F
  unfolding apply_options
  new_telemetry os = apply_options os default_telemetry

  -- (*counter).Add
  unfoldable pub add : Text → ℕ → List Attr → Telemetry F → Telemetry F
  unfolding series_key increase
  add name delta attrs t =
      let key = series_key attrs in
      let series = series_of name t.counters in
      if admits t.max_series key series
      then record t { counters = with_series name (increase delta key series) t.counters }
      else record t {
        counters = with_series name series t.counters;
        dropped = count_dropped name t.dropped;
      }

  -- (*gauge).Set
  unfoldable pub set : Text → F → List Attr → Telemetry F → Telemetry F
  unfolding series_key
  set name value attrs t =
      let key = series_key attrs in
      let series = series_of name t.gauges in
      if admits t.max_series key series
      then record t { gauges = with_series name (put text_eq key value series) t.gauges }
      else record t {
        gauges = with_series name series t.gauges;
        dropped = count_dropped name t.dropped;
      }

  -- A value added to the distribution of a series, if there is one.
  unfoldable pub observed : Floats F → F → Option (Distribution F) → Distribution F
  observed f value before =
      let d : Distribution F = elim before [
        | none ↦ record { count = 0; sum = f.nought; min = value; max = value }
        | some d ↦ d
      ] in
      record {
        count = (d.count + 1) % 2 ^ 64;
        sum = f.plus d.sum value;
        min = if f.less value d.min then value else d.min;
        max = if f.less d.max value then value else d.max;
      }

  -- (*histogram).Observe
  unfoldable pub observe : Floats F → Text → F → List Attr → Telemetry F → Telemetry F
  unfolding series_key observed
  observe f name value attrs t =
      let key = series_key attrs in
      let series = series_of name t.histogram in
      if admits t.max_series key series
      then record t {
        histogram =
            with_series name (put text_eq key (observed f value (lookup text_eq key series)) series)
              t.histogram;
      }
      else record t {
        histogram = with_series name series t.histogram;
        dropped = count_dropped name t.dropped;
      }
