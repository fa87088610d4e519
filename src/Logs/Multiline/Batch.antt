-- ===== src/Logs/Multiline/Batch.antt =====
-- The aggregation over the batches of all files (Process, add, FlushIdle, flushAll and sweep of
-- internal/modules/logs/multiline.go). The map of the files is an association list; Go leaves the
-- order of a range over it open. The clock is read once for each batch.
use my_own_agent.Prelude.{
  ℕ, ◌≡◌, refl, String, Bool, true, false, not, ◌||◌, List, [], ◌∷◌, ◌++◌, length, leb, ◌==◌,
  str_eq, if◌then◌else◌, arith,
}
use my_own_agent.Logs.Multiline.{
  Text, LogRecord, MlFile, Line, new_file, has_pending, flush_file, flush_idle, add_line,
}

pub data MultilineMode : Type 0 where
  multiline_off multiline_auto multiline_pattern : MultilineMode

-- The fields of Settings that are read here.
pub record Settings : Type 0 where
  pub multiline : MultilineMode
  pub pattern : String
  pub timeout : ℕ

abbrev pub Files : Type 0
Files = List (String × MlFile)

abbrev max_multiline_files : ℕ
max_multiline_files = 1024

abbrev default_timeout : ℕ
default_timeout = 5000000000

-- m.states[path], with the state of a new file where there is none.
abbrev state_of : ℕ → String → Files → MlFile
state_of now path [] = new_file now
state_of now path ((p, st) ∷ files) =
    let rest = state_of now path files in if str_eq p path then st else rest

-- m.states[path] = st
abbrev put_state : String → MlFile → Files → Files
put_state path st [] = (path, st) ∷ []
put_state path st ((p, old) ∷ files) =
    let rest = put_state path st files in if str_eq p path then (p, st) ∷ files else (p, old) ∷ rest

-- add; `starts` is recordStarts under the settings.
unfoldable pub add : (Text → Bool) → ℕ → Settings → LogRecord → Files → Files × List LogRecord
unfolding add_line
add starts now s rec files =
    let l : Line = record { now = now; starts = starts rec.body; pattern = s.pattern; rec = rec } in
    let (st, out) = add_line l (state_of now rec.file files) in (put_state rec.file st files, out)

-- flushAll
unfoldable flush_all : Files → Files × List LogRecord
unfolding flush_file
flush_all [] = ([], [])
flush_all ((p, st) ∷ files) =
    let first = flush_file st in
    let rest = flush_all files in ((p, first.0) ∷ rest.0, first.1 ++ rest.1)

-- The loop of Process.
unfoldable process_each :
    (Text → Bool) → ℕ → Settings → List LogRecord → Files → Files × List LogRecord
unfolding add
process_each starts now s [] files = (files, [])
process_each starts now s (rec ∷ recs) files =
    let first =
      if not rec.is_file || str_eq rec.file ""
      then (files, rec ∷ [])
      else add starts now s rec files in
    let rest = process_each starts now s recs first.0 in (rest.0, first.1 ++ rest.1)

abbrev is_off : MultilineMode → Bool
is_off multiline_off = true
is_off _ = false

-- Process
unfoldable pub process :
    (Text → Bool) → ℕ → Settings → List LogRecord → Files → Files × List LogRecord
unfolding process_each flush_all
process starts now s recs files =
    let flushed = flush_all files in
    let processed = process_each starts now s recs files in
    if is_off s.multiline then (flushed.0, flushed.1 ++ recs) else processed

-- The loop of FlushIdle.
unfoldable idle_each : ℕ → ℕ → Files → Files × List LogRecord
unfolding flush_idle
idle_each now timeout [] = ([], [])
idle_each now timeout ((p, st) ∷ files) =
    let first = flush_idle now timeout st in
    let rest = idle_each now timeout files in ((p, first.0) ∷ rest.0, first.1 ++ rest.1)

-- The loop of sweep.
unfoldable keep_pending : Files → Files
keep_pending [] = []
keep_pending ((p, st) ∷ files) =
    let rest = keep_pending files in if has_pending st then (p, st) ∷ rest else rest

-- sweep
unfoldable sweep : Files → Files
unfolding keep_pending
sweep files = if leb (length files) max_multiline_files then files else keep_pending files

-- FlushIdle
unfoldable flush_idle_all : ℕ → Settings → Files → Files × List LogRecord
unfolding idle_each sweep flush_all
flush_idle_all now s files =
    let timeout = if s.timeout == 0 then default_timeout else s.timeout in
    let idle = idle_each now timeout files in
    if is_off s.multiline then flush_all files else (sweep idle.0, idle.1)

-- Whether some file holds a record back.
abbrev holds_some : Files → Bool
holds_some [] = false
holds_some ((p, st) ∷ files) = has_pending st || holds_some files

holds-flush_file : (st : MlFile) → has_pending (flush_file st).0 ≡ false
unfolding flush_file
holds-flush_file st = ground arith

holds-flush_all : (files : Files) → holds_some (flush_all files).0 ≡ false
unfolding flush_all
holds-flush_all [] = refl
holds-flush_all ((p, st) ∷ files) = ground (arith, holds-flush_file st, holds-flush_all files)

-- Once aggregation is switched off, neither Process nor FlushIdle leaves a record held back.
process-holds_some :
    (starts : Text → Bool) (now : ℕ) (s : Settings) (recs : List LogRecord) (files : Files)
    → s.multiline ≡ multiline_off
    → (holds_some (process starts now s recs files).0 ≡ false)
      × (holds_some (flush_idle_all now s files).0 ≡ false)
unfolding process flush_idle_all
process-holds_some starts now s recs files off =
    rw off (holds-flush_all files, holds-flush_all files)
