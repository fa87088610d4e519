-- ===== src/Lib.antt =====
-- The observability agent runs a set of modules (collectors of host, process, log and other data)
-- under a supervisor, which starts them in the order of their dependencies, restarts the ones that
-- fail, quarantines the ones that fail too often, and reports their health. What they measure goes
-- through the ports of internal/platform. This library models the supervisor, the packages that it
-- stands on, the configuration, parts of the collectors of logs, processes and StatsD packets, of the exporter,
-- and the telemetry that is kept in memory; paths are those of the repository.
--
--   Lifecycle    internal/module/state.go: the states of a module and the table of legal transitions
--   Config       internal/config: the configuration of config.go; Config.Validation has Validate of
--                validate.go, and Config.Loading the environment and the loader of load.go
--   Diagnostics  internal/diagnostics/diagnostics.go: the bounded recorder of diagnostics
--   Health       internal/health/health.go: reports and their aggregation
--   Supervisor   internal/supervisor
--     Ids          the IDs of modules (internal/module/module.go), and maps from them
--     Cycles       graph.go: findCycle
--     Graph        graph.go: Resolve (Kahn's algorithm), the start and stop order, TransitiveDependents
--     Window       backoff.go: the sliding window of restarts
--     Runner       runner.go, and the part of supervisor.go that works on one module under the lock:
--                  setStateLocked, failLocked, finishStart; the reports in Runner.Reports
--     Control      supervisor.go and lifecycle.go: Register, claimStart, Health
--     Stopping     loop.go and lifecycle.go: handleRuntimeFailure, stopForDependency, stopModule
--     Retries      loop.go: processDueRetries, soonestRetry
--     Reloading    reload.go: the last phase of Reload; Reloading.Transaction has the checks and the
--                  phases ahead of it, and the swap, as one sequence; Reloading.Finishing
--                  the swap, the stops and the starts, as one sequence
--     Probing      loop.go: probeAll and probe
--     Ending       lifecycle.go: the critical section of Shutdown
--     Interleaving every order in which the critical sections can act on one module
--   Logs.Severity  internal/modules/logs/severity.go: the severity that a log line states
--   Logs.Multiline  internal/modules/logs/multiline.go: the aggregation of lines, for one file, and for
--                   the batches of all files in Logs.Multiline.Batch
--   Logs.Timestamps  internal/modules/logs/timestamp.go: the timestamps that start a record
--   Logs.Syslog    internal/modules/logs/syslog.go: the messages of RFC 3164 and RFC 5424; Logs.Syslog.Wire
--                  has the messages of RFC 5424 as a sender writes them, and Logs.Syslog.Framing the
--                  framings of a TCP connection and Logs.Syslog.Queue the queue (source_syslog.go)
--   Process.Store  internal/modules/process/lifecycle.go: the table of tracked processes, its entries and
--                  counters, with the instance keys of identity.go
--   Process.Reconcile  reconcile of the same file: the fold of one enumeration into the table
--   Process.Selection  internal/modules/process/filter.go: which processes are reported
--   Telemetry      internal/platform/inproc/telemetry.go: the keys of series; the instruments in
--                  Telemetry.Instruments, the buffers and the reads in Telemetry.Buffers
--   Exporter       internal/platform/native/exporter.go: the queues, the posts and the circuit breaker of
--                  the exporter to the intake; Exporter.Inventory has the inventory that it keeps
--                  (inventory.go), Exporter.Sampling the sampling of traces (sample.go)
--   Statsd         internal/modules/statsd/statsd.go: the packets of StatsD, applied to the telemetry
--   The modules called Tests run the code on small inputs.
--   Prelude has what all of them share.
--
-- A critical section of the supervisor, the code between s.mu.Lock and s.mu.Unlock, is a function
-- from a Runner or a Supervisor to the next one; what the code calls without the lock (a module's
-- Start and Stop, the admission of a capability) is not modelled, and its result comes in as an
-- argument. Interleaving puts the sections together: a Move is one section, with the condition under
-- which the code gets there, and Reach is any sequence of them; Ending.Final has the sequences of
-- sections of the whole supervisor. A time.Time is the number of its nanoseconds, and the
-- zero time is 0. The events that a section emits and the diagnostics that it records are lists in its result; log lines and metrics are left out, except for the error that is
-- logged for an illegal transition.
--
-- Go maps whose missing keys give the zero value are functions; the maps of the process table and
-- of the telemetry are association lists with one entry for each key (Prelude.Maps). The loop over
-- the elements of structured data and that over the messages of a connection get the length of the
-- text as fuel, each round taking a byte at least. A float is a parameter, as are
-- strconv.ParseFloat, time.Parse, sanitiseName, the answers to HTTP requests, the encodings of a
-- batch of logs and of the inventory, the decoding of JSON, and what the modules answer to a
-- reload. The loops of the supervisor that do not recurse on a list run on fuel: `kahn`
-- gets one round for each module, which is enough since each round places one; `visit` and `walk`
-- nest at most once for each module, and get that much.
--
-- The delay between restarts (newBackoff and delay of internal/supervisor/backoff.go) is a
-- parameter, since it is computed with floating-point numbers and a random source; a reload replaces
-- the other settings of restarts. What enqueue of source_syslog.go cuts from a message is in
-- Logs.Syslog.Queue, not in Logs.Syslog.Framing.
-- Start, the stops of Shutdown under its deadline, the collectors but for the parts above, the rest of the exporters and the fleet view are not modelled.
mod Prelude
pub mod Config
pub mod Lifecycle
pub mod Diagnostics
pub mod Health
pub mod Supervisor
pub mod Logs
pub mod Process
pub mod Telemetry
pub mod Statsd
pub mod Exporter
pub mod Tests
