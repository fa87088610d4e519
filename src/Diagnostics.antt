-- ===== src/Diagnostics.antt =====
-- The bounded recorder of diagnostics (internal/diagnostics/diagnostics.go).
pub mod Retention
use my_own_agent.Prelude.{
  ℕ, zero, suc, ◌+◌, String, Bool, List, [], ◌∷◌, ◌++◌, length, drop, leb, ◌==◌, str_eq,
  if◌then◌else◌,
}

pub data Severity : Type 0 where
  info warn error : Severity

-- type Code string, with the constants that the supervisor records.
abbrev pub Code : Type 0
Code = String

abbrev pub code_unsupported : Code
code_unsupported = "unsupported"

abbrev pub code_start_failed : Code
code_start_failed = "start_failed"

abbrev pub code_stop_failed : Code
code_stop_failed = "stop_failed"

abbrev pub code_panic : Code
code_panic = "panic"

abbrev pub code_crash_loop : Code
code_crash_loop = "crash_loop"

abbrev pub code_health_timeout : Code
code_health_timeout = "health_timeout"

abbrev pub code_dependency_unavailable : Code
code_dependency_unavailable = "dependency_unavailable"

abbrev pub code_config_invalid : Code
code_config_invalid = "config_invalid"

abbrev pub code_config_rolled_back : Code
code_config_rolled_back = "config_rolled_back"

-- A Record; the zero time is 0.
pub record Record : Type 0 where
  pub code : Code
  pub severity : Severity
  pub source : String
  pub message : String
  pub remediation : String
  pub attrs : List (String × String)
  pub timestamp : ℕ

pub record Recorder : Type 0 where
  pub max : ℕ
  pub records : List Record
  pub dropped : ℕ

-- NewRecorder; a max that is not positive is given as 0.
unfoldable pub new_recorder : ℕ → Recorder
new_recorder max = record { max = if max == 0 then 256 else max; records = []; dropped = 0 }

-- rec.Timestamp = r.now(), if the record has none.
unfoldable pub stamp : ℕ → Record → Record
stamp now rec = record rec { timestamp = if rec.timestamp == 0 then now else rec.timestamp }

-- (*Recorder).Record; `now` is what r.now() returns.
unfoldable pub add_record : ℕ → Record → Recorder → Recorder
unfolding stamp
add_record now rec r =
    if leb r.max (length r.records)
    then record r { records = drop 1 r.records ++ stamp now rec ∷ []; dropped = r.dropped + 1 }
    else record r { records = r.records ++ stamp now rec ∷ [] }

filter_source : String → List Record → List Record
filter_source source [] = []
filter_source source (rec ∷ recs) =
    let rest = filter_source source recs in if str_eq rec.source source then rec ∷ rest else rest

-- (*Recorder).BySource
unfoldable pub by_source : String → Recorder → List Record
unfolding filter_source
by_source source r = filter_source source r.records

-- (scopedSink).Record over a Recorder.
unfoldable pub scoped_record : String → ℕ → Record → Recorder → Recorder
unfolding add_record
scoped_record source now rec r = add_record now (record rec { source = source }) r

-- diagnostics.Unsupported
unsupported_record : String → String → Record
unsupported_record source message = record {
  code = code_unsupported;
  severity = warn;
  source = source;
  message = message;
  remediation = "no action required; this functionality is unavailable in this environment";
  attrs = [];
  timestamp = 0;
}
