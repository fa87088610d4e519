-- ===== src/Logs/Syslog/Queue.antt =====
-- The queue of the syslog listener (internal/modules/logs/source_syslog.go, with Record of source.go). The
-- address of a peer is the text that net.SplitHostPort gives for it, none where there is no peer; each
-- operation is one critical section.
pub mod Recent
pub mod Tests
use my_own_agent.Prelude.{
  ℕ, ◌+◌, ◌-◌, ◌%◌, ◌^◌, Bool, true, not, ◌||◌, ◌&&◌, Option, none, some, List, [], ◌∷◌, ◌++◌,
  reverse, length, take, drop, leb, ltb, ◌==◌, if◌then◌else◌,
}
use my_own_agent.Logs.Severity.{Bytes, trim_left}
use my_own_agent.Logs.Syslog.{Clock, SyslogMessage, parse_syslog}
use my_own_agent.Statsd.{trim_space}

-- The fields of a Record that a syslog message fills in.
pub record SyslogRecord : Type 0 where
  pub body : Bytes
  pub process : Bytes
  pub pid : ℕ
  pub hostname : Bytes
  pub priority : ℕ
  pub has_priority : Bool

-- The fields of syslogListener that are not sockets.
pub record Listener : Type 0 where
  pub queue : List SyslogRecord
  pub dropped : ℕ

abbrev pub max_syslog_queue : ℕ
max_syslog_queue = 8192

abbrev is_line_end : ℕ → Bool
is_line_end c = c == 0 || c == 13 || c == 10

-- The record of a message, as enqueue builds it.
unfoldable record_of : Clock → Option Bytes → Bytes → SyslogRecord
unfolding parse_syslog
record_of clock peer raw =
    let msg = parse_syslog clock raw in
    record {
      body = msg.message;
      process = msg.app_name;
      pid = if length msg.app_name == 0 then 0 else msg.pid;
      hostname =
          if length msg.hostname == 0
          then elim peer [ none ↦ msg.hostname | some host ↦ host ]
          else msg.hostname;
      priority = if msg.has_priority then msg.priority else 0;
      has_priority = msg.has_priority;
    }

-- What a message becomes, if it is not blank.
unfoldable pub read_message : Clock → Option Bytes → Bytes → Option SyslogRecord
unfolding record_of trim_space
read_message clock peer raw =
    let line = reverse (trim_left is_line_end (reverse raw)) in
    if length (trim_space line) == 0 then none else some (record_of clock peer line)

-- The critical section of enqueue.
unfoldable pub queue_record : SyslogRecord → Listener → Listener
queue_record rec l =
    if leb max_syslog_queue (length l.queue)
    then record { queue = drop 1 l.queue ++ rec ∷ []; dropped = (l.dropped + 1) % 2 ^ 64 }
    else record l { queue = l.queue ++ rec ∷ [] }

-- enqueue
unfoldable pub enqueue : Clock → Option Bytes → Bytes → Listener → Listener
unfolding read_message queue_record
enqueue clock peer raw l = elim (read_message clock peer raw) [
  | none ↦ l
  | some rec ↦ queue_record rec l
]

-- The last critical section of Read, with a batch of `max` records at most.
unfoldable pub read_batch : ℕ → Listener → Listener × List SyslogRecord
read_batch max l =
    let n = if ltb max (length l.queue) then max else length l.queue in
    (record l { queue = drop n l.queue }, take n l.queue)
