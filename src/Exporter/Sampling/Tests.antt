-- ===== src/Exporter/Sampling/Tests.antt =====
-- Runs of the sampling at concrete inputs.
use my_own_agent.Prelude.{ℕ, ◌+◌, ◌≡◌, refl, List, [], ◌∷◌, length, ltb}
use my_own_agent.Exporter.Sampling.{
  Rates, Span, sample_spans, trace_hash, fnv, mixed, xor, xor_bits,
}
use my_own_agent.Exporter.Sampling.Whole.{spans_kept, sample_spans-spans_kept}

-- A rate as a number of parts in 2 ^ 24.
abbrev parts : Rates ℕ
parts = record {
  at_least_one = λ r. ltb 16777215 r;
  at_most_zero = λ r. ltb r 1;
  above = λ r n. ltb n r;
}

abbrev spans : List (Span ℕ)
spans =
    record { trace_id = 97 ∷ []; rest = 1 }
    ∷ record { trace_id = 98 ∷ []; rest = 2 }
    ∷ record { trace_id = 97 ∷ []; rest = 3 }
    ∷ []

sample_spans-spans_kept_example :
    ((sample_spans parts 8388608 spans).0 ≡ spans_kept parts 8388608 spans)
    × (length (sample_spans parts 8388608 spans).0 + (sample_spans parts 8388608 spans).1
        ≡ length spans)
sample_spans-spans_kept_example = sample_spans-spans_kept parts 8388608 spans

-- The case of a letter does not matter.
hash_of_a : trace_hash (65 ∷ []) ≡ trace_hash (97 ∷ [])
unfolding trace_hash fnv mixed xor xor_bits
hash_of_a = refl
