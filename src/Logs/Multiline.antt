-- ===== src/Logs/Multiline.antt =====
-- The aggregation of log lines into records (internal/modules/logs/multiline.go). A text is the list
-- of its bytes, a time the number of its nanoseconds. Whether a line starts a record (recordStarts,
-- by a regular expression or a timestamp) is an argument.
pub mod Lossless
pub mod Bounds
pub mod Batch
use my_own_agent.Prelude.{
  ℕ, ◌+◌, ◌-◌, ◌*◌, String, Bool, true, false, not, ◌&&◌, ◌||◌, Option, none, some, List, [], ◌∷◌,
  ◌++◌, length, leb, ltb, ◌==◌, str_eq, if◌then◌else◌,
}

abbrev pub Text : Type 0
Text = List ℕ

-- A Record; `is_file` is whether its source is the files, and `origin` stands for the fields that are
-- only carried along.
pub record LogRecord : Type 0 where
  pub body : Text
  pub is_file : Bool
  pub file : String
  pub origin : String

pub record MlFile : Type 0 where
  pub decided : Bool
  pub aggregate : Bool
  pub sampled : ℕ
  pub matched : ℕ
  pub first_seen : ℕ
  pub pending : Option LogRecord
  pub buf : Text
  pub lines : ℕ
  pub last_add : ℕ
  pub pattern_v : String

-- A line with the time at which it is added, whether it starts a record, and the configured pattern.
pub record Line : Type 0 where
  pub now : ℕ
  pub starts : Bool
  pub pattern : String
  pub rec : LogRecord

abbrev detect_samples : ℕ
detect_samples = 500

abbrev detect_window : ℕ
detect_window = 30000000000

abbrev detect_threshold_pct : ℕ
detect_threshold_pct = 50

abbrev pub max_multiline_lines : ℕ
max_multiline_lines = 500

abbrev pub max_multiline_bytes : ℕ
max_multiline_bytes = 262144

-- &mlFile{firstSeen: m.now()}
abbrev pub new_file : ℕ → MlFile
new_file now = record {
  decided = false;
  aggregate = false;
  sampled = 0;
  matched = 0;
  first_seen = now;
  pending = none;
  buf = [];
  lines = 0;
  last_add = 0;
  pattern_v = "";
}

abbrev pub has_pending : MlFile → Bool
has_pending st = elim st.pending [ none ↦ false | some rec ↦ true ]

-- flushFile, for a file that is known.
unfoldable pub flush_file : MlFile → MlFile × List LogRecord
flush_file st = elim st.pending [
  | none ↦ (st, [])
  | some rec ↦
      (record st { pending = none; buf = []; lines = 0 }, record rec { body = st.buf } ∷ [])
]

-- The detection phase.
unfoldable pub detect : Line → MlFile → MlFile
detect l st =
    let sampled = st.sampled + 1 in
    let matched = if l.starts then st.matched + 1 else st.matched in
    let counted = record st { sampled = sampled; matched = matched } in
    if leb detect_samples sampled || leb detect_window (l.now - st.first_seen)
    then record counted {
      decided = true;
      aggregate = leb (sampled * detect_threshold_pct) (matched * 100);
    }
    else counted

-- A new pending record.
abbrev pub start_record : Line → MlFile → MlFile
start_record l st = record st {
  pending = some l.rec;
  buf = l.rec.body;
  lines = 1;
  last_add = l.now;
  pattern_v = l.pattern;
}

-- A continuation.
abbrev pub continue_record : Line → MlFile → MlFile
continue_record l st = record st {
  buf = st.buf ++ 10 ∷ l.rec.body;
  lines = st.lines + 1;
  last_add = l.now;
}

-- Whether a continuation would break a bound.
abbrev pub overflows : Line → MlFile → Bool
overflows l st =
    leb max_multiline_lines st.lines
    || ltb max_multiline_bytes (length st.buf + length l.rec.body + 1)

-- A flush, and the start of a record.
unfoldable pub flush_and_start : Line → MlFile → MlFile × List LogRecord
unfolding flush_file
flush_and_start l st = let (flushed, out) = flush_file st in (start_record l flushed, out)

-- What add does behind the test for an edited pattern.
unfoldable pub gather : Line → MlFile → MlFile × List LogRecord
unfolding flush_and_start
gather l st =
    if l.starts || not (has_pending st)
    then flush_and_start l st
    else if overflows l st
    then flush_and_start l st
    else (continue_record l st, [])

-- The test for an edited pattern.
unfoldable pub drop_edited : Line → MlFile → MlFile × List LogRecord
unfolding flush_file
drop_edited l st =
    if has_pending st && not (str_eq st.pattern_v l.pattern) then flush_file st else (st, [])

-- add, for the state of the line's file.
unfoldable pub add_line : Line → MlFile → MlFile × List LogRecord
unfolding gather drop_edited detect
add_line l st =
    let edited = drop_edited l st in
    let gathered = gather l edited.0 in
    if not st.decided
    then (detect l st, l.rec ∷ [])
    else if not st.aggregate
    then (st, l.rec ∷ [])
    else (gathered.0, edited.1 ++ gathered.1)

-- The calls of add for the lines of one file.
unfoldable pub add_all : List Line → MlFile → MlFile × List LogRecord
unfolding add_line
add_all [] st = (st, [])
add_all (l ∷ ls) st =
    let first = add_line l st in let later = add_all ls first.0 in (later.0, first.1 ++ later.1)

-- What FlushIdle does to one file; `timeout` is the configured one or the default.
unfoldable pub flush_idle : ℕ → ℕ → MlFile → MlFile × List LogRecord
unfolding flush_file
flush_idle now timeout st =
    if has_pending st && leb timeout (now - st.last_add) then flush_file st else (st, [])
