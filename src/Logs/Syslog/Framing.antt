-- ===== src/Logs/Syslog/Framing.antt =====
-- The framing of syslog messages on a TCP connection, RFC 6587 (serveConn, readOctetCounted and
-- readLimitedLine of internal/modules/logs/source_syslog.go). A connection is the list of the bytes
-- that come in until it ends.
pub mod Reading
pub mod Lines
use my_own_agent.Prelude.{
  ℕ, zero, suc, Bool, true, false, ◌&&◌, ◌||◌, ◌==◌, Option, none, some, List, [], ◌∷◌, reverse,
  length, take, drop, ltb, if◌then◌else◌,
}
use my_own_agent.Logs.Severity.{Bytes, is_digit, trim_left}
use my_own_agent.Logs.Syslog.{ℤ, pos, negsuc, atoi}

-- 64 << 10
abbrev pub max_syslog_line : ℕ
max_syslog_line = 65536

-- The loop over the digits of a length, of which `left` may still come: the digits, and what follows
-- the space.
unfoldable pub read_digits : ℕ → Bytes → Option (Bytes × Bytes)
read_digits zero s = some ([], s)
read_digits (suc left) [] = none
read_digits (suc left) (c ∷ cs) =
    let rest = read_digits left cs in
    if c == 32
    then some ([], cs)
    else if is_digit c
    then elim rest [ none ↦ none | some (digits, after) ↦ some (c ∷ digits, after) ]
    else none

-- The message of a length that has been read.
unfoldable pub read_counted : Option ℤ → Bytes → Option (Bytes × Bytes)
read_counted none s = none
read_counted (some (negsuc n)) s = none
read_counted (some (pos n)) s =
    if n == 0 || ltb max_syslog_line n || ltb (length s) n then none else some (take n s, drop n s)

-- readOctetCounted: the message and what follows it, none where the connection ends.
unfoldable pub read_octet_counted : Bytes → Option (Bytes × Bytes)
unfolding read_digits read_counted
read_octet_counted s = elim (read_digits 10 s) [
  | none ↦ none
  | some (digits, after) ↦ read_counted (atoi digits) after
]

abbrev is_return : ℕ → Bool
is_return c = c == 13

-- strings.TrimRight(s, "\r")
unfoldable pub trim_return : Bytes → Bytes
trim_return s = reverse (trim_left is_return (reverse s))

-- The loop of readLimitedLine, with `left` bytes to go: the line, and what follows it, none where the
-- connection has ended.
unfoldable pub read_limited_line : ℕ → Bytes → Bytes × Option Bytes
read_limited_line zero s = ([], some s)
read_limited_line (suc left) [] = ([], none)
read_limited_line (suc left) (c ∷ cs) =
    let rest = read_limited_line left cs in if c == 10 then ([], some cs) else (c ∷ rest.0, rest.1)

-- A line is handed to enqueue where it is not empty.
abbrev pub enqueued : Bytes → List Bytes → List Bytes
enqueued [] more = more
enqueued (c ∷ cs) more = (c ∷ cs) ∷ more

-- The loop of a connection, on fuel: what is handed to enqueue, message by message.
unfoldable pub read_frames : ℕ → Bytes → List Bytes
unfolding read_octet_counted read_limited_line trim_return
read_frames zero s = []
read_frames (suc fuel) [] = []
read_frames (suc fuel) (c ∷ cs) = elim (is_digit c) [
  | true ↦ elim (read_octet_counted (c ∷ cs)) [
    | none ↦ []
    | some (message, after) ↦ message ∷ read_frames fuel after
  ]
  | false ↦
      let line = read_limited_line max_syslog_line (c ∷ cs) in
      elim line.1 [
        | none ↦ enqueued (trim_return line.0) []
        | some after ↦ enqueued (trim_return line.0) (read_frames fuel after)
      ]
]

-- A connection: every round takes a byte at least.
unfoldable pub read_connection : Bytes → List Bytes
unfolding read_frames
read_connection s = read_frames (length s) s
