-- ===== src/Exporter/Sampling.antt =====
-- The sampling of traces (internal/platform/native/sample.go). A text is the list of its bytes, and a
-- rate is of type `F`, whose tests are an argument.
pub mod Whole
pub mod Tests
use my_own_agent.Prelude.{
  ℕ, zero, suc, ◌+◌, ◌-◌, ◌*◌, ◌/◌, ◌%◌, ◌^◌, Bool, true, false, not, ◌||◌, ◌==◌, Option, none,
  some, List, [], ◌∷◌, length, if◌then◌else◌, lookup, put,
}
use my_own_agent.Logs.Severity.{between}
use my_own_agent.Telemetry.{Text, text_eq}

-- What the code asks of a rate: whether it is at least 1, whether it is at most 0, and whether n / 2 ^ 24
-- is below it.
pub record Rates (F : Type 0) : Type 0 where
  pub at_least_one : F → Bool
  pub at_most_zero : F → Bool
  pub above : F → ℕ → Bool

-- a ^ b on the lowest bits, as many as the fuel says.
unfoldable pub xor_bits : ℕ → ℕ → ℕ → ℕ
xor_bits zero a b = 0
xor_bits (suc fuel) a b = (if a % 2 == b % 2 then 0 else 1) + 2 * xor_bits fuel (a / 2) (b / 2)

-- a ^ b on uint64.
unfoldable pub xor : ℕ → ℕ → ℕ
unfolding xor_bits
xor a b = xor_bits 64 a b

abbrev lower_byte : ℕ → ℕ
lower_byte c = if between 65 90 c then c + 32 else c

-- The loop of traceHash.
unfoldable pub fnv : Text → ℕ → ℕ
unfolding xor
fnv [] h = h
fnv (c ∷ cs) h = fnv cs (xor h (lower_byte c) * 1099511628211 % 2 ^ 64)

-- h ^= h >> n, and the multiplication behind it.
unfoldable pub mixed : ℕ → ℕ → ℕ → ℕ
unfolding xor
mixed n factor h = xor h (h / 2 ^ n) * factor % 2 ^ 64

-- traceHash
unfoldable pub trace_hash : Text → ℕ
unfolding fnv mixed
trace_hash s =
    mixed 31 1
      (mixed 27 10723151780598845931 (mixed 30 13787848793156543929 (fnv s 14695981039346656037)))

-- The field of a span that is read here, and the rest of it.
pub record Span (S : Type 0) : Type 0 where
  pub trace_id : Text
  pub rest : S

module _ {F : Type 0} (rates : Rates F) where
  -- keepTrace
  unfoldable pub keep_trace : F → Text → Bool
  unfolding trace_hash
  keep_trace rate trace_id =
      if rates.at_least_one rate
      then true
      else if rates.at_most_zero rate
      then false
      else if length trace_id == 0
      then true
      else rates.above rate (trace_hash trace_id % 2 ^ 24)

  -- The decision on a trace: the one that the map has, or that of keepTrace.
  unfoldable pub decided_on : F → Text → Option Bool → Bool
  unfolding keep_trace
  decided_on rate trace_id none = keep_trace rate trace_id
  decided_on rate trace_id (some keep) = keep

  -- The loop of sampleSpans, with the map of what has been decided.
  unfoldable pub sample_each : {S : Type 0} → F → List (Text × Bool) → List (Span S) → List (Span S)
  unfolding decided_on
  sample_each rate decided [] = []
  sample_each rate decided (sp ∷ spans) =
      let keep = decided_on rate sp.trace_id (lookup text_eq sp.trace_id decided) in
      let rest = sample_each rate (put text_eq sp.trace_id keep decided) spans in
      if keep then sp ∷ rest else rest

  -- sampleSpans
  unfoldable pub sample_spans : {S : Type 0} → F → List (Span S) → List (Span S) × ℕ
  unfolding sample_each
  sample_spans rate spans =
      let kept = sample_each rate [] spans in
      if rates.at_least_one rate || length spans == 0
      then (spans, 0)
      else (kept, length spans - length kept)
