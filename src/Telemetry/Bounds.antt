-- ===== src/Telemetry/Bounds.antt =====
-- The bounds on what the telemetry kept in memory retains, under every operation
-- (internal/platform/inproc/telemetry.go).
use my_own_agent.Prelude.{
  ℕ, ◌≤◌, ◌≡◌, refl, if_cases, Bool, true, false, ◌&&◌, Option, none, some, List, [], ◌∷◌, ◌++◌,
  length, length-append, length-drop, drop, leb, ◌==◌, if◌then◌else◌, lookup, put, delete,
  length-put, arith,
}
use my_own_agent.Telemetry.{Text, text_eq, Attr, series_key}
use my_own_agent.Telemetry.Instruments.{
  Distribution, TracePayload, Floats, Series, Family, Telemetry, series_of, admits, increase, add,
  set, observe,
}
use my_own_agent.Telemetry.Buffers.{append_bounded, ingest_traces, retire_series}

-- Whether every instrument has at most that many series.
abbrev pub within : {V : Type 0} → ℕ → Family V → Bool
within max [] = true
within max ((n, series) ∷ m) = leb (length series) max && within max m

module _ {V : Type 0} (max : ℕ) where
  within-put :
      (n : Text) (series : Series V) (m : Family V)
      → length series ≤ max
      → within max m ≡ true
      → within max (put text_eq n series m) ≡ true
  within-put n series [] le h = ground arith
  within-put n series ((j, s) ∷ m) le h = ground (arith, within-put n series m)

  within-delete :
      (n : Text) (m : Family V) → within max m ≡ true → within max (delete text_eq n m) ≡ true
  within-delete n [] h = refl
  within-delete n ((j, s) ∷ m) h = ground (arith, within-delete n m)

  within-series_of : (n : Text) (m : Family V) → within max m ≡ true → length (series_of n m) ≤ max
  within-series_of n [] h = omega arith
  within-series_of n ((j, s) ∷ m) h = ground (arith, within-series_of n m)

  within-lookup :
      (n : Text) (m : Family V) (series : Series V)
      → within max m ≡ true
      → lookup text_eq n m ≡ some series
      → length series ≤ max
  within-lookup n m series w h = ground (arith, within-series_of n m w)

  length-delete_le :
      (k : Text) (series : Series V) → length (delete text_eq k series) ≤ length series
  length-delete_le k [] = omega arith
  length-delete_le k ((j, v) ∷ series) = ground (arith, length-delete_le k series)

  -- The series of an instrument after an assignment that admitLocked accepts.
  length-put_admitted :
      (k : Text) (v : V) (series : Series V)
      → length series ≤ max
      → admits max k series ≡ true
      → length (put text_eq k v series) ≤ max
  length-put_admitted k v series le e = ground (arith, length-put text_eq k v series)

  within-retire :
      (n k : Text) (m : Family V) (series : Series V)
      → within max m ≡ true
      → lookup text_eq n m ≡ some series
      → within max (
          if length (delete text_eq k series) == 0
          then delete text_eq n m
          else put text_eq n (delete text_eq k series) m)
        ≡ true
  within-retire n k m series h e = go (length (delete text_eq k series) == 0)
    where
      go :
          (b : Bool)
          → within max (if b then delete text_eq n m else put text_eq n (delete text_eq k series) m)
            ≡ true
      go true = within-delete n m h
      go false =
          within-put n (delete text_eq k series) m
            (omega (arith, length-delete_le k series, within-lookup n m series h e)) h

pub length-append_bounded :
    {A : Type 0} (max : ℕ) (x : A) (xs : List A)
    → 1 ≤ max
    → length xs ≤ max
    → length (append_bounded max x xs) ≤ max
unfolding append_bounded
length-append_bounded max x xs pos le =
    ground (arith, length-append (drop 1 xs) (x ∷ []), length-append xs (x ∷ []), length-drop 1 xs)

pub record Bounded {F : Type 0} (t : Telemetry F) : Type 0 where
  pub counters : within t.max_series t.counters ≡ true
  pub gauges : within t.max_series t.gauges ≡ true
  pub histogram : within t.max_series t.histogram ≡ true
  pub events : length t.events ≤ t.max_events
  pub logs : length t.logs ≤ t.max_logs
  pub traces : length t.traces ≤ t.max_traces
  pub some_event : 1 ≤ t.max_events
  pub some_log : 1 ≤ t.max_logs

-- What changes keep the bounds.
module _ {F : Type 0} where
  counters-Bounded :
      (t : Telemetry F) (m : Family ℕ) (dropped : List (Text × ℕ))
      → Bounded t
      → within t.max_series m ≡ true
      → Bounded (record t { counters = m; dropped = dropped })
  counters-Bounded t m dropped b h = record {
    counters = h;
    gauges = b.gauges;
    histogram = b.histogram;
    events = b.events;
    logs = b.logs;
    traces = b.traces;
    some_event = b.some_event;
    some_log = b.some_log;
  }

  gauges-Bounded :
      (t : Telemetry F) (m : Family F) (dropped : List (Text × ℕ))
      → Bounded t
      → within t.max_series m ≡ true
      → Bounded (record t { gauges = m; dropped = dropped })
  gauges-Bounded t m dropped b h = record {
    counters = b.counters;
    gauges = h;
    histogram = b.histogram;
    events = b.events;
    logs = b.logs;
    traces = b.traces;
    some_event = b.some_event;
    some_log = b.some_log;
  }

  histogram-Bounded :
      (t : Telemetry F) (m : Family (Distribution F)) (dropped : List (Text × ℕ))
      → Bounded t
      → within t.max_series m ≡ true
      → Bounded (record t { histogram = m; dropped = dropped })
  histogram-Bounded t m dropped b h = record {
    counters = b.counters;
    gauges = b.gauges;
    histogram = h;
    events = b.events;
    logs = b.logs;
    traces = b.traces;
    some_event = b.some_event;
    some_log = b.some_log;
  }

  pub add-Bounded :
      (name : Text) (delta : ℕ) (attrs : List Attr) (t : Telemetry F)
      → Bounded t
      → Bounded (add name delta attrs t)
  unfolding add increase
  add-Bounded name delta attrs t b =
      if_cases Bounded (admits t.max_series (series_key attrs) series)
        (λ e. counters-Bounded t _ t.dropped b (
          within-put t.max_series name _ t.counters
            (length-put_admitted t.max_series (series_key attrs) _ series le e) b.counters))
        (λ e.
          counters-Bounded t _ _ b (within-put t.max_series name series t.counters le b.counters))
    where
      series : Series ℕ
      series = series_of name t.counters

      le : length series ≤ t.max_series
      le = within-series_of t.max_series name t.counters b.counters

  pub set-Bounded :
      (name : Text) (value : F) (attrs : List Attr) (t : Telemetry F)
      → Bounded t
      → Bounded (set name value attrs t)
  unfolding set
  set-Bounded name value attrs t b =
      if_cases Bounded (admits t.max_series (series_key attrs) series)
        (λ e. gauges-Bounded t _ t.dropped b (
          within-put t.max_series name _ t.gauges
            (length-put_admitted t.max_series (series_key attrs) _ series le e) b.gauges))
        (λ e. gauges-Bounded t _ _ b (within-put t.max_series name series t.gauges le b.gauges))
    where
      series : Series F
      series = series_of name t.gauges

      le : length series ≤ t.max_series
      le = within-series_of t.max_series name t.gauges b.gauges

  pub observe-Bounded :
      (f : Floats F) (name : Text) (value : F) (attrs : List Attr) (t : Telemetry F)
      → Bounded t
      → Bounded (observe f name value attrs t)
  unfolding observe
  observe-Bounded f name value attrs t b =
      if_cases Bounded (admits t.max_series (series_key attrs) series)
        (λ e. histogram-Bounded t _ t.dropped b (
          within-put t.max_series name _ t.histogram
            (length-put_admitted t.max_series (series_key attrs) _ series le e) b.histogram))
        (λ e.
          histogram-Bounded t _ _ b
            (within-put t.max_series name series t.histogram le b.histogram))
    where
      series : Series (Distribution F)
      series = series_of name t.histogram

      le : length series ≤ t.max_series
      le = within-series_of t.max_series name t.histogram b.histogram

  pub ingest_traces-Bounded :
      (p : TracePayload) (t : Telemetry F) → Bounded t → Bounded (ingest_traces p t)
  unfolding ingest_traces
  ingest_traces-Bounded p t b =
      if_cases Bounded (length p.body == 0) (λ _. b)
        λ _.
          if_cases Bounded (leb t.max_traces (length t.traces)) (λ _. again t.traces b.traces)
            (λ e. again (t.traces ++ p ∷ []) (ground (arith, e, length-append t.traces (p ∷ []))))
    where
      again :
          {n : ℕ} (ps : List TracePayload)
          → length ps ≤ t.max_traces
          → Bounded (record t { traces = ps; dropped_traces = n })
      again ps h = record {
        counters = b.counters;
        gauges = b.gauges;
        histogram = b.histogram;
        events = b.events;
        logs = b.logs;
        traces = h;
        some_event = b.some_event;
        some_log = b.some_log;
      }

  pub retire_series-Bounded :
      (name : Text) (attrs : List Attr) (t : Telemetry F)
      → Bounded t
      → Bounded (retire_series name attrs t)
  unfolding retire_series
  retire_series-Bounded name attrs t b = go (lookup text_eq name t.gauges) refl
    where
      left : Series F → Series F
      left series = delete text_eq (series_key attrs) series

      step : Option (Series F) → Telemetry F
      step o = elim o [
        | none ↦ t
        | some series ↦ record t {
          gauges =
              if length (left series) == 0
              then delete text_eq name t.gauges
              else put text_eq name (left series) t.gauges;
        }
      ]

      go : (o : Option (Series F)) → lookup text_eq name t.gauges ≡ o → Bounded (step o)
      go none e = b
      go (some series) e =
          gauges-Bounded t _ t.dropped b
            (within-retire t.max_series name (series_key attrs) t.gauges series b.gauges e)
