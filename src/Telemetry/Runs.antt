-- ===== src/Telemetry/Runs.antt =====
-- The bounds of the telemetry kept in memory, after every run of its operations
-- (internal/platform/inproc/telemetry.go).
use my_own_agent.Prelude.{ℕ, ◌≤◌, ◌≡◌, refl, ap, if_cases, List, [], ◌∷◌, ltb, arith}
use my_own_agent.Telemetry.{Text, Attr}
use my_own_agent.Telemetry.Instruments.{
  Event, LogRecord, TracePayload, Floats, Telemetry, TelemetryOption, with_max_series,
  with_max_events, with_max_logs, with_max_traces, apply_option, apply_options, default_telemetry,
  new_telemetry, add, set, observe,
}
use my_own_agent.Telemetry.Buffers.{
  emit, emit_log, ingest_traces, drain_logs, drain_traces, retire_series,
}
use my_own_agent.Telemetry.Bounds.{
  within, Bounded, length-append_bounded, add-Bounded, set-Bounded, observe-Bounded,
  ingest_traces-Bounded, retire_series-Bounded,
}

-- A call of the telemetry that changes it.
pub data Operation (F : Type 0) : Type 0 where
  call_add : Text → ℕ → List Attr → Operation F
  call_set : Text → F → List Attr → Operation F
  call_observe : Text → F → List Attr → Operation F
  call_emit : ℕ → Event → Operation F
  call_emit_log : ℕ → LogRecord → Operation F
  call_ingest_traces : TracePayload → Operation F
  call_retire_series : Text → List Attr → Operation F
  call_drain_logs call_drain_traces : Operation F

module _ {F : Type 0} (f : Floats F) where
  abbrev pub perform : Operation F → Telemetry F → Telemetry F
  perform (call_add name delta attrs) t = add name delta attrs t
  perform (call_set name value attrs) t = set name value attrs t
  perform (call_observe name value attrs) t = observe f name value attrs t
  perform (call_emit now ev) t = emit now ev t
  perform (call_emit_log now rec) t = emit_log now rec t
  perform (call_ingest_traces payload) t = ingest_traces payload t
  perform (call_retire_series name attrs) t = retire_series name attrs t
  perform call_drain_logs t = (drain_logs t).1
  perform call_drain_traces t = (drain_traces t).1

  abbrev pub perform_all : List (Operation F) → Telemetry F → Telemetry F
  perform_all [] t = t
  perform_all (o ∷ ops) t = perform_all ops (perform o t)

  perform-Bounded : (o : Operation F) (t : Telemetry F) → Bounded t → Bounded (perform o t)
  unfolding emit emit_log drain_logs drain_traces
  perform-Bounded (call_add name delta attrs) t b = add-Bounded name delta attrs t b
  perform-Bounded (call_set name value attrs) t b = set-Bounded name value attrs t b
  perform-Bounded (call_observe name value attrs) t b = observe-Bounded f name value attrs t b
  perform-Bounded (call_emit now ev) t b = record {
    counters = b.counters;
    gauges = b.gauges;
    histogram = b.histogram;
    events = length-append_bounded t.max_events _ t.events b.some_event b.events;
    logs = b.logs;
    traces = b.traces;
    some_event = b.some_event;
    some_log = b.some_log;
  }
  perform-Bounded (call_emit_log now rec) t b = record {
    counters = b.counters;
    gauges = b.gauges;
    histogram = b.histogram;
    logs = length-append_bounded t.max_logs _ t.logs b.some_log b.logs;
    events = b.events;
    traces = b.traces;
    some_event = b.some_event;
    some_log = b.some_log;
  }
  perform-Bounded (call_ingest_traces payload) t b = ingest_traces-Bounded payload t b
  perform-Bounded (call_retire_series name attrs) t b = retire_series-Bounded name attrs t b
  perform-Bounded call_drain_logs t b = record {
    counters = b.counters;
    gauges = b.gauges;
    histogram = b.histogram;
    logs = omega arith;
    events = b.events;
    traces = b.traces;
    some_event = b.some_event;
    some_log = b.some_log;
  }
  perform-Bounded call_drain_traces t b = record {
    counters = b.counters;
    gauges = b.gauges;
    histogram = b.histogram;
    traces = omega arith;
    events = b.events;
    logs = b.logs;
    some_event = b.some_event;
    some_log = b.some_log;
  }

-- A telemetry that nothing has been sent to.
record Fresh {F : Type 0} (t : Telemetry F) : Type 0 where
  no_counters : t.counters ≡ []
  no_gauges : t.gauges ≡ []
  no_histogram : t.histogram ≡ []
  no_events : t.events ≡ []
  no_logs : t.logs ≡ []
  no_traces : t.traces ≡ []
  some_event : 1 ≤ t.max_events
  some_log : 1 ≤ t.max_logs

module _ {F : Type 0} where
  Fresh-Bounded : (t : Telemetry F) → Fresh t → Bounded t
  Fresh-Bounded t b = record {
    counters = ap (within t.max_series) b.no_counters;
    gauges = ap (within t.max_series) b.no_gauges;
    histogram = ap (within t.max_series) b.no_histogram;
    events = ground (arith, b.no_events);
    logs = ground (arith, b.no_logs);
    traces = ground (arith, b.no_traces);
    some_event = b.some_event;
    some_log = b.some_log;
  }

  resized :
      (t : Telemetry F) (series events logs traces : ℕ)
      → Fresh t
      → 1 ≤ events
      → 1 ≤ logs
      → Fresh (record t {
        max_series = series;
        max_events = events;
        max_logs = logs;
        max_traces = traces;
      })
  resized t series events logs traces b e l = record {
    no_counters = b.no_counters;
    no_gauges = b.no_gauges;
    no_histogram = b.no_histogram;
    no_events = b.no_events;
    no_logs = b.no_logs;
    no_traces = b.no_traces;
    some_event = e;
    some_log = l;
  }

  apply_option-Fresh : (o : TelemetryOption) (t : Telemetry F) → Fresh t → Fresh (apply_option o t)
  unfolding apply_option
  apply_option-Fresh (with_max_series n) t b =
      if_cases Fresh (ltb 0 n)
        (λ e. resized t n t.max_events t.max_logs t.max_traces b b.some_event b.some_log) (λ _. b)
  apply_option-Fresh (with_max_events n) t b =
      if_cases Fresh (ltb 0 n)
        (λ e. resized t t.max_series n t.max_logs t.max_traces b (ground (arith, e)) b.some_log)
        (λ _. b)
  apply_option-Fresh (with_max_logs n) t b =
      if_cases Fresh (ltb 0 n)
        (λ e. resized t t.max_series t.max_events n t.max_traces b b.some_event (ground (arith, e)))
        (λ _. b)
  apply_option-Fresh (with_max_traces n) t b =
      if_cases Fresh (ltb 0 n)
        (λ e. resized t t.max_series t.max_events t.max_logs n b b.some_event b.some_log) (λ _. b)

  apply_options-Fresh :
      (os : List TelemetryOption) (t : Telemetry F) → Fresh t → Fresh (apply_options os t)
  unfolding apply_options
  apply_options-Fresh [] t b = b
  apply_options-Fresh (o ∷ os) t b =
      apply_options-Fresh os (apply_option o t) (apply_option-Fresh o t b)

  new_telemetry-Fresh : (os : List TelemetryOption) → Fresh {F = F} (new_telemetry os)
  unfolding new_telemetry
  new_telemetry-Fresh os = apply_options-Fresh os default_telemetry (record {
    no_counters = refl;
    no_gauges = refl;
    no_histogram = refl;
    no_events = refl;
    no_logs = refl;
    no_traces = refl;
    some_event = omega arith;
    some_log = omega arith;
  })

  perform_all_keeps :
      (f : Floats F) (ops : List (Operation F)) (t : Telemetry F)
      → Bounded t
      → Bounded (perform_all f ops t)
  perform_all_keeps f [] t b = b
  perform_all_keeps f (o ∷ ops) t b =
      perform_all_keeps f ops (perform f o t) (perform-Bounded f o t b)

  -- Whatever the options and the operations, no counter, gauge or histogram has more series than
  -- the bound, and the events, the logs and the traces are within theirs.
  pub perform_all-Bounded :
      (f : Floats F) (os : List TelemetryOption) (ops : List (Operation F))
      → Bounded (perform_all f ops (new_telemetry os))
  perform_all-Bounded f os ops =
      perform_all_keeps f ops (new_telemetry os)
        (Fresh-Bounded (new_telemetry os) (new_telemetry-Fresh os))
