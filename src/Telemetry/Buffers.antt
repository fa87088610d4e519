-- ===== src/Telemetry/Buffers.antt =====
-- The bounded buffers of the telemetry kept in memory, and what is read from it
-- (internal/platform/inproc/telemetry.go).
use my_own_agent.Prelude.{
  ℕ, ◌+◌, ◌%◌, ◌^◌, Option, none, some, List, [], ◌∷◌, ◌++◌, length, drop, leb, ◌==◌, if◌then◌else◌,
  lookup, put, delete,
}
use my_own_agent.Telemetry.{Text, text_eq, Attr, series_key, attrs_from_series_key}
use my_own_agent.Telemetry.Instruments.{
  Event, LogRecord, TracePayload, Distribution, Series, Family, Telemetry, series_of,
}

-- A ring of at most `max` items: without room the oldest one goes.
unfoldable pub append_bounded : {A : Type 0} → ℕ → A → List A → List A
append_bounded max x xs = if leb max (length xs) then drop 1 xs ++ x ∷ [] else xs ++ x ∷ []

-- The points of one instrument in a snapshot.
unfoldable points_of : {V : Type 0} → Text → Series V → List (Text × V × List Attr)
unfolding attrs_from_series_key
points_of name [] = []
points_of name ((key, v) ∷ series) = (name, v, attrs_from_series_key key) ∷ points_of name series

-- GaugeSnapshot, CounterSnapshot and HistogramSnapshot, in the order of the list.
unfoldable snapshot : {V : Type 0} → Family V → List (Text × V × List Attr)
unfolding points_of
snapshot [] = []
snapshot ((name, series) ∷ m) = points_of name series ++ snapshot m

module _ {F : Type 0} where
  -- Emit, at a time.
  unfoldable pub emit : ℕ → Event → Telemetry F → Telemetry F
  unfolding append_bounded
  emit now ev t =
      let stamped = record ev { timestamp = if ev.timestamp == 0 then now else ev.timestamp } in
      record t { events = append_bounded t.max_events stamped t.events }

  -- EmitLog, at a time.
  unfoldable pub emit_log : ℕ → LogRecord → Telemetry F → Telemetry F
  unfolding append_bounded
  emit_log now rec t =
      let stamped = record rec { timestamp = if rec.timestamp == 0 then now else rec.timestamp } in
      record t {
        logs = append_bounded t.max_logs stamped t.logs;
        dropped_logs =
            if leb t.max_logs (length t.logs)
            then (t.dropped_logs + 1) % 2 ^ 64
            else t.dropped_logs;
      }

  -- IngestTraces
  unfoldable pub ingest_traces : TracePayload → Telemetry F → Telemetry F
  ingest_traces payload t =
      if length payload.body == 0
      then t
      else if leb t.max_traces (length t.traces)
      then record t { dropped_traces = (t.dropped_traces + 1) % 2 ^ 64 }
      else record t { traces = t.traces ++ payload ∷ [] }

  -- CounterValue
  unfoldable pub counter_value : Text → List Attr → Telemetry F → Option ℕ
  unfolding series_key
  counter_value name attrs t = lookup text_eq (series_key attrs) (series_of name t.counters)

  -- GaugeValue
  unfoldable pub gauge_value : Text → List Attr → Telemetry F → Option F
  unfolding series_key
  gauge_value name attrs t = lookup text_eq (series_key attrs) (series_of name t.gauges)

  -- HistogramValue
  unfoldable pub histogram_value : Text → List Attr → Telemetry F → Option (Distribution F)
  unfolding series_key
  histogram_value name attrs t = lookup text_eq (series_key attrs) (series_of name t.histogram)

  -- SeriesCount
  unfoldable pub series_count : Text → Telemetry F → ℕ
  series_count name t =
      length (series_of name t.counters)
      + length (series_of name t.gauges)
      + length (series_of name t.histogram)

  -- DroppedSeries
  unfoldable pub dropped_series : Text → Telemetry F → ℕ
  dropped_series name t = elim (lookup text_eq name t.dropped) [ none ↦ 0 | some n ↦ n ]

  -- DrainLogs
  unfoldable pub drain_logs : Telemetry F → List LogRecord × Telemetry F
  drain_logs t = (t.logs, record t { logs = [] })

  -- DrainTraces
  unfoldable pub drain_traces : Telemetry F → List TracePayload × Telemetry F
  drain_traces t = (t.traces, record t { traces = [] })

  -- RetireSeries
  unfoldable pub retire_series : Text → List Attr → Telemetry F → Telemetry F
  unfolding series_key
  retire_series name attrs t = elim (lookup text_eq name t.gauges) [
    | none ↦ t
    | some series ↦
        let left = delete text_eq (series_key attrs) series in
        record t {
          gauges =
              if length left == 0
              then delete text_eq name t.gauges
              else put text_eq name left t.gauges;
        }
  ]
