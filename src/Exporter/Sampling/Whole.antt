-- ===== src/Exporter/Sampling/Whole.antt =====
-- Traces are sampled as a whole (internal/platform/native/sample.go).
use my_own_agent.Prelude.{
  ℕ, ◌+◌, ◌≤◌, ◌≡◌, refl, sym, ap, ◌∙◌, Bool, true, ◌||◌, ◌==◌, Option, List, [], ◌∷◌, length,
  if◌then◌else◌, if_cases, arith, lookup, put, lookup-put,
}
use my_own_agent.Telemetry.{Text, text_eq}
use my_own_agent.Telemetry.Ordering.{text_eq_refl, text_eq→≡}
use my_own_agent.Exporter.Sampling.{Rates, Span, keep_trace, decided_on, sample_each, sample_spans}

module _ {F : Type 0} (rates : Rates F) (rate : F) where
  -- The map has nothing but decisions of keepTrace.
  abbrev Faithful : List (Text × Bool) → Type 0
  Faithful decided =
      (id : Text) → decided_on rates rate id (lookup text_eq id decided) ≡ keep_trace rates rate id

  put-Faithful :
      (id : Text) (keep : Bool) (decided : List (Text × Bool))
      → keep ≡ keep_trace rates rate id
      → Faithful decided
      → Faithful (put text_eq id keep decided)
  unfolding decided_on
  put-Faithful id keep decided same h j =
      ap (decided_on rates rate j) (lookup-put text_eq text_eq→≡ text_eq_refl j id keep decided)
      ∙ if_cases (λ (o : Option Bool). decided_on rates rate j o ≡ keep_trace rates rate j)
          (text_eq id j) (λ e. same ∙ ap (keep_trace rates rate) (text_eq→≡ id j e)) (λ _. h j)

module _ {F S : Type 0} (rates : Rates F) (rate : F) where
  -- The spans of the traces that keepTrace keeps, each asked about anew.
  abbrev pub spans_kept : List (Span S) → List (Span S)
  spans_kept [] = []
  spans_kept (sp ∷ spans) =
      let rest = spans_kept spans in if keep_trace rates rate sp.trace_id then sp ∷ rest else rest

  sample_each-spans_kept :
      (decided : List (Text × Bool)) (spans : List (Span S))
      → Faithful rates rate decided
      → sample_each rates rate decided spans ≡ spans_kept spans
  unfolding sample_each
  sample_each-spans_kept decided [] h = refl
  sample_each-spans_kept decided (sp ∷ spans) h =
      let keep = decided_on rates rate sp.trace_id (lookup text_eq sp.trace_id decided) in
      ground (
        arith,
        h sp.trace_id,
        sample_each-spans_kept (put text_eq sp.trace_id keep decided) spans
            (put-Faithful rates rate sp.trace_id keep decided (h sp.trace_id) h),
      )

  length-spans_kept : (spans : List (Span S)) → length (spans_kept spans) ≤ length spans
  length-spans_kept [] = omega arith
  length-spans_kept (sp ∷ spans) = ground (arith, length-spans_kept spans)

  all_kept : rates.at_least_one rate ≡ true → (spans : List (Span S)) → spans_kept spans ≡ spans
  unfolding keep_trace
  all_kept h [] = refl
  all_kept h (sp ∷ spans) = ground (arith, all_kept h spans)

  sampled :
      (spans : List (Span S))
      → rates.at_least_one rate || length spans == 0 ≡ true
      → spans_kept spans ≡ spans
  sampled [] h = refl
  sampled (sp ∷ spans) h = all_kept (ground arith) (sp ∷ spans)

  -- A batch is sampled by whole traces: a span is kept just when keepTrace keeps its trace, in the order
  -- of the batch and whatever the spans ahead of it, and those kept and those counted as dropped are
  -- together all of the batch.
  pub sample_spans-spans_kept :
      (spans : List (Span S))
      → ((sample_spans rates rate spans).0 ≡ spans_kept spans)
        × (length (sample_spans rates rate spans).0 + (sample_spans rates rate spans).1
            ≡ length spans)
  unfolding sample_spans
  sample_spans-spans_kept spans =
      if_cases
        (λ (r : List (Span S) × ℕ). (r.0 ≡ spans_kept spans) × (length r.0 + r.1 ≡ length spans))
        (rates.at_least_one rate || length spans == 0) (λ e. (sym (sampled spans e), omega arith))
        (λ _.
          let same = sample_each-spans_kept [] spans (λ id. refl) in
          (same, ground (arith, same, length-spans_kept spans)))
