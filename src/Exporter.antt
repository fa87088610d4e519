-- ===== src/Exporter.antt =====
-- The exporter to the intake: its queues, its posts and its circuit breaker
-- (internal/platform/native/exporter.go). A time is the number of its nanoseconds, the zero time 0, and
-- an int64 is its 64 bits as a number. What an HTTP request comes to, the compression of a body and the
-- encoding of a batch are arguments. The calls of the telemetry inside and of the file system are
-- effects, in their order.
pub mod Circuit
pub mod Accounts
pub mod Inventory
pub mod Sampling
pub mod Tests
use my_own_agent.Prelude.{
  ℕ, zero, suc, ◌+◌, ◌-◌, ◌*◌, ◌%◌, ◌^◌, String, Bool, true, false, not, ◌&&◌, ◌||◌, Option, none,
  some, List, [], ◌∷◌, ◌++◌, length, take, leb, ltb, ◌==◌, if◌then◌else◌,
}
use my_own_agent.Telemetry.{Text}
use my_own_agent.Telemetry.Instruments.{LogRecord, TracePayload}

pub data Signal : Type 0 where
  signal_metrics signal_logs signal_traces signal_inventory : Signal

-- The fields of Config that are read here, but for what an argument stands for; `spools` is whether
-- SpoolDir is set.
pub record Config : Type 0 where
  pub has_endpoint : Bool
  pub max_batch : ℕ
  pub spools : Bool
  pub circuit_open_for : ℕ

pub data Effect : Type 0 where
  forward_log : LogRecord → Effect
  forward_traces : TracePayload → Effect
  count_received_dropped : Effect
  count_circuit_open : Effect
  count_success count_failure : Signal → Effect
  spool_file : Signal → Text → Effect

-- Exporter, without its inventory.
pub record Exporter : Type 0 where
  pub logs : List LogRecord
  pub traces : List TracePayload
  pub dropped_logs : ℕ
  pub dropped_traces : ℕ
  pub dropped_export : ℕ
  pub failures : ℕ
  pub open_until : ℕ

abbrev pub new_exporter : Exporter
new_exporter = record {
  logs = [];
  traces = [];
  dropped_logs = 0;
  dropped_traces = 0;
  dropped_export = 0;
  failures = 0;
  open_until = 0;
}

-- A sum of int64.
abbrev pub plus : ℕ → ℕ → ℕ
plus a b = (a + b) % 2 ^ 64

-- EmitLog
unfoldable pub emit_log : Config → LogRecord → Exporter → Exporter × List Effect
emit_log c rec e =
    let full = leb (c.max_batch * 2) (length e.logs) in
    let after : Exporter =
      if full
      then record e {
        dropped_logs = plus e.dropped_logs 1;
        dropped_export = plus e.dropped_export 1;
      }
      else record e { logs = e.logs ++ rec ∷ [] } in
    (after, forward_log rec ∷ [])

-- IngestTraces
unfoldable pub ingest_traces : Config → TracePayload → Exporter → Exporter × List Effect
ingest_traces c payload e =
    let full = leb c.max_batch (length e.traces) in
    let after : Exporter =
      if full
      then record e {
        dropped_traces = plus e.dropped_traces 1;
        dropped_export = plus e.dropped_export 1;
      }
      else record e { traces = e.traces ++ payload ∷ [] } in
    (after, forward_traces payload ∷ (if full then count_received_dropped ∷ [] else []))

-- circuitOpen
abbrev pub circuit_open : ℕ → Exporter → Bool
circuit_open now e = ltb now e.open_until

-- noteSuccess
abbrev note_success : Exporter → Exporter
note_success e = record e { failures = 0; open_until = 0 }

-- tripCircuit
unfoldable pub trip_circuit : Config → ℕ → Exporter → Exporter × List Effect
trip_circuit c now e =
    if leb 5 (e.failures + 1)
    then (record e { open_until = now + c.circuit_open_for; failures = 0 }, count_circuit_open ∷ [])
    else (record e { failures = e.failures + 1 }, [])

-- noteFailure
abbrev note_failure : Signal → Exporter → Exporter × List Effect
note_failure signal e =
    (record e { dropped_export = plus e.dropped_export 1 }, count_failure signal ∷ [])

-- spool, where the file system does what it is asked.
abbrev spool : Config → Signal → Text → List Effect
spool c signal body = if not c.spools || length body == 0 then [] else spool_file signal body ∷ []

-- What an attempt comes to: no response, or one with a status.
pub data Reply : Type 0 where
  no_response : Reply
  status : ℕ → Reply

-- What the attempts come to.
pub data Verdict : Type 0 where
  delivered gave_up cancelled : Verdict

abbrev is_success : ℕ → Bool
is_success s = leb 200 s && ltb s 300

-- A status that is not retried.
abbrev is_permanent : ℕ → Bool
is_permanent s = leb 400 s && ltb s 500 && not (s == 429)

-- The loop over the attempts: `left` is how many there may still be, `k` the number of the next one,
-- `done k` whether the context ends in the wait ahead of it.
unfoldable pub attempts : ℕ → (ℕ → Bool) → (ℕ → Reply) → ℕ → Verdict
attempts zero done reply k = gave_up
attempts (suc left) done reply k =
    let again = attempts left done reply (k + 1) in
    if ltb 0 k && done k then cancelled else elim (reply k) [
      | no_response ↦ again
      | status s ↦ if is_success s then delivered else if is_permanent s then gave_up else again
    ]

abbrev pub max_retries : ℕ
max_retries = 3

-- 4 << 20
abbrev pub max_body : ℕ
max_body = 4194304

-- What a post depends on: the time at its start and at its end, the length of the compressed body,
-- whether the endpoint is a URL, and the attempts.
pub record Post : Type 0 where
  pub now : ℕ
  pub later : ℕ
  pub compressed : ℕ
  pub has_url : Bool
  pub done : ℕ → Bool
  pub reply : ℕ → Reply

-- The end of post.
unfoldable pub settle : Config → Signal → Text → ℕ → Verdict → Exporter → Exporter × List Effect
unfolding trip_circuit
settle c signal body later delivered e = (note_success e, count_success signal ∷ [])
settle c signal body later cancelled e =
    let failed = note_failure signal e in (failed.0, failed.1 ++ spool c signal body)
settle c signal body later gave_up e =
    let failed = note_failure signal e in
    let tripped = trip_circuit c later failed.0 in
    (tripped.0, failed.1 ++ tripped.1 ++ spool c signal body)

-- post
unfoldable pub post : Config → Signal → Text → Post → Exporter → Exporter × List Effect
unfolding attempts settle
post c signal body p e =
    if length body == 0 || not c.has_endpoint
    then (e, [])
    else if circuit_open p.now e
    then (e, spool c signal body)
    else if ltb max_body p.compressed || not p.has_url
    then note_failure signal e
    else settle c signal body p.later (attempts max_retries p.done p.reply 0) e

-- The part of exportLogs ahead of the post: the batch, where there is one.
unfoldable pub take_logs : Config → Exporter → List LogRecord × Exporter
take_logs c e =
    let shed = length e.logs - c.max_batch in
    (
      take c.max_batch e.logs,
      record e {
        logs = [];
        dropped_logs = plus e.dropped_logs shed;
        dropped_export = plus e.dropped_export shed;
      },
    )

-- exportLogs, with the encoding of a batch.
unfoldable pub export_logs :
    Config → (List LogRecord → Text) → Post → Exporter → Exporter × List Effect
unfolding take_logs post
export_logs c encode p e =
    let taken = take_logs c e in
    if length e.logs == 0 then (e, []) else post c signal_logs (encode taken.0) p taken.1
