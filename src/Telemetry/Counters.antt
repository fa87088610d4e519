-- ===== src/Telemetry/Counters.antt =====
-- Counters under a run of additions (Add of internal/platform/inproc/telemetry.go).
use my_own_agent.Prelude.{
  ℕ, ◌+◌, ◌%◌, ◌^◌, ◌≤◌, ◌≡◌, ◌⊎◌, inl, inr, refl, sym, subst, ap, ap-if, if_same, ◌∙◌, Bool, true,
  false, ◌&&◌, Option, none, some, List, [], ◌∷◌, length, if◌then◌else◌, lookup, lookup-put,
  length-put, arith,
}
use my_own_agent.Telemetry.{Text, text_eq, Attr, series_key}
use my_own_agent.Telemetry.Ordering.{text_eq_refl, text_eq→≡}
use my_own_agent.Telemetry.Instruments.{
  Series, Family, Telemetry, series_of, admits, with_series, increase, add,
}
use my_own_agent.Telemetry.Buffers.{counter_value}

-- The series of an instrument after one of its series, or another's, has been assigned.
series_of-with_series :
    {V : Type 0} (name n : Text) (series : Series V) (m : Family V)
    → series_of name (with_series n series m)
      ≡ (if text_eq n name then series else series_of name m)
series_of-with_series name n series m =
    ground (arith, lookup-put text_eq text_eq→≡ text_eq_refl name n series m)

-- The part of Add that changes the counters.
tally : ℕ → Text → ℕ → Text → Family ℕ → Family ℕ
tally max n delta k m =
    let series = series_of n m in
    if admits max k series
    then with_series n (increase delta k series) m
    else with_series n series m

counters-add :
    {F : Type 0} (n : Text) (delta : ℕ) (attrs : List Attr) (t : Telemetry F)
    → (add n delta attrs t).counters ≡ tally t.max_series n delta (series_key attrs) t.counters
unfolding add tally
counters-add {F} n delta attrs t =
    ap-if (λ (u : Telemetry F). u.counters)
      (admits t.max_series (series_key attrs) (series_of n t.counters)) refl refl

max_series-add :
    {F : Type 0} (n : Text) (delta : ℕ) (attrs : List Attr) (t : Telemetry F)
    → (add n delta attrs t).max_series ≡ t.max_series
unfolding add
max_series-add {F} n delta attrs t =
    ap-if (λ (u : Telemetry F). u.max_series) b refl refl ∙ if_same b t.max_series
  where
    b : Bool
    b = admits t.max_series (series_key attrs) (series_of n t.counters)

-- series[key] + delta
abbrev bumped : ℕ → Option ℕ → Option ℕ
bumped delta o = some (elim o [ none ↦ delta % 2 ^ 64 | some v ↦ (v + delta) % 2 ^ 64 ])

lookup-increase :
    (k key : Text) (delta : ℕ) (series : Series ℕ)
    → lookup text_eq key (increase delta k series) ≡ (
        if text_eq k key then bumped delta (lookup text_eq k series) else lookup text_eq key series)
unfolding increase
lookup-increase k key delta series = lookup-put text_eq text_eq→≡ text_eq_refl key k _ series

-- A counter after one addition.
module _ (max : ℕ) (name : Text) (m : Family ℕ) (n k : Text) (delta : ℕ) where
  lookup-tally :
      (key : Text)
      → lookup text_eq key (series_of name (tally max n delta k m)) ≡ (
          if text_eq n name && text_eq k key && admits max key (series_of name m)
          then bumped delta (lookup text_eq key (series_of name m))
          else lookup text_eq key (series_of name m))
  unfolding tally
  lookup-tally key = ground (
    arith,
    series_of-with_series name n (increase delta k (series_of n m)) m,
    series_of-with_series name n (series_of n m) m,
    lookup-increase k key delta (series_of n m),
    text_eq→≡ n name,
    text_eq→≡ k key,
  )

  length-tally : length (series_of name m) ≤ length (series_of name (tally max n delta k m))
  unfolding tally increase
  length-tally = ground (
    arith,
    series_of-with_series name n (increase delta k (series_of n m)) m,
    series_of-with_series name n (series_of n m) m,
    length-put text_eq k
        (elim (lookup text_eq k (series_of n m)) [
          | none ↦ delta % 2 ^ 64
          | some v ↦ (v + delta) % 2 ^ 64
        ])
        (series_of n m),
    text_eq→≡ n name,
  )

-- A call of Add.
pub record Addition : Type 0 where
  pub name : Text
  pub delta : ℕ
  pub attrs : List Attr

abbrev pub add_all : {F : Type 0} → List Addition → Telemetry F → Telemetry F
add_all [] t = t
add_all (a ∷ calls) t = add_all calls (add a.name a.delta a.attrs t)

-- What the calls add to one series.
abbrev pub deltas : Text → List Attr → List Addition → List ℕ
deltas name attrs [] = []
deltas name attrs (a ∷ calls) =
    let rest = deltas name attrs calls in
    if text_eq a.name name && text_eq (series_key a.attrs) (series_key attrs)
    then a.delta ∷ rest
    else rest

abbrev pub sum : List ℕ → ℕ
sum [] = 0
sum (d ∷ ds) = d + sum ds

-- A series that accepts every call: the sum of what it had and of what the calls add, in 64 bits.
abbrev pub total : Option ℕ → List ℕ → Option ℕ
total before [] = before
total before (d ∷ ds) = some ((elim before [ none ↦ 0 | some v ↦ v ] + sum (d ∷ ds)) % 2 ^ 64)

total-bumped : (o : Option ℕ) (d : ℕ) (ds : List ℕ) → total (bumped d o) ds ≡ total o (d ∷ ds)
total-bumped none d [] = ground arith
total-bumped (some v) d [] = ground arith
total-bumped none d (e ∷ ds) = ap (λ (x : ℕ). some x) (omega arith)
total-bumped (some v) d (e ∷ ds) = ap (λ (x : ℕ). some x) (omega arith)

module _ {F : Type 0} (name : Text) (attrs : List Attr) where
  abbrev size : Telemetry F → ℕ
  size t = length (series_of name t.counters)

  counter_value-add :
      (a : Addition) (t : Telemetry F)
      → counter_value name attrs (add a.name a.delta a.attrs t) ≡ (
          if text_eq a.name name
            && text_eq (series_key a.attrs) (series_key attrs)
            && admits t.max_series (series_key attrs) (series_of name t.counters)
          then bumped a.delta (counter_value name attrs t)
          else counter_value name attrs t)
  unfolding counter_value
  counter_value-add a t =
      ap (λ (m : Family ℕ). lookup text_eq (series_key attrs) (series_of name m))
        (counters-add a.name a.delta a.attrs t)
      ∙ lookup-tally t.max_series name t.counters a.name (series_key a.attrs) a.delta
          (series_key attrs)

  size-add : (a : Addition) (t : Telemetry F) → size t ≤ size (add a.name a.delta a.attrs t)
  size-add a t =
      subst (λ (m : Family ℕ). size t ≤ length (series_of name m))
        (sym (counters-add a.name a.delta a.attrs t))
        (length-tally t.max_series name t.counters a.name (series_key a.attrs) a.delta)

  -- A series that has been refused stays refused.
  refused-add_all :
      (calls : List Addition) (t : Telemetry F)
      → counter_value name attrs t ≡ none
      → t.max_series ≤ size t
      → (counter_value name attrs (add_all calls t) ≡ none)
        × (t.max_series ≤ size (add_all calls t))
  unfolding counter_value
  refused-add_all [] t missing full = (missing, full)
  refused-add_all (a ∷ calls) t missing full =
      let rest : (counter_value name attrs (add_all calls next) ≡ none)
          × (next.max_series ≤ size (add_all calls next)) =
        refused-add_all calls next still (ground (arith, size-add a t, same, full)) in
      (rest.0, ground (arith, rest.1, same))
    where
      next : Telemetry F
      next = add a.name a.delta a.attrs t

      same : next.max_series ≡ t.max_series
      same = max_series-add a.name a.delta a.attrs t

      still : counter_value name attrs next ≡ none
      still = ground (arith, counter_value-add a t, missing, full)

  -- The value of a counter series after a run of calls of Add is what it was with all that the calls
  -- add to the series, in 64 bits: none of them is lost. Or there is no such series, and the counter
  -- has as many series as the bound, or more.
  pub counter_value-add_all :
      (calls : List Addition) (t : Telemetry F)
      → (counter_value name attrs (add_all calls t)
          ≡ total (counter_value name attrs t) (deltas name attrs calls))
        ⊎ ((counter_value name attrs (add_all calls t) ≡ none)
            × (t.max_series ≤ length (series_of name (add_all calls t).counters)))
  unfolding counter_value
  counter_value-add_all [] t = inl refl
  counter_value-add_all (a ∷ calls) t = go matches refl admitted refl (
      subst (λ (n : ℕ). Outcome (total (counter_value name attrs next) rest) n) same
        (counter_value-add_all calls next))
    where
      next : Telemetry F
      next = add a.name a.delta a.attrs t

      matches : Bool
      matches = text_eq a.name name && text_eq (series_key a.attrs) (series_key attrs)

      admitted : Bool
      admitted = admits t.max_series (series_key attrs) (series_of name t.counters)

      Outcome : Option ℕ → ℕ → Type 0
      Outcome value max =
          (counter_value name attrs (add_all calls next) ≡ value)
          ⊎ ((counter_value name attrs (add_all calls next) ≡ none)
              × (max ≤ size (add_all calls next)))

      rest : List ℕ
      rest = deltas name attrs calls

      before : Option ℕ
      before = counter_value name attrs t

      same : next.max_series ≡ t.max_series
      same = max_series-add a.name a.delta a.attrs t

      refused :
          matches ≡ true
          → admitted ≡ false
          → (counter_value name attrs (add_all calls next) ≡ none)
            × (next.max_series ≤ size (add_all calls next))
      refused h k =
          refused-add_all calls next (ground (arith, counter_value-add a t, h, k))
            (ground (arith, size-add a t, same, k))

      go :
          (b : Bool)
          → matches ≡ b
          → (c : Bool) → admitted ≡ c
          → Outcome (total (counter_value name attrs next) rest) t.max_series
          → Outcome (total before (if b then a.delta ∷ rest else rest)) t.max_series
      go false h c k ih =
          subst (λ (o : Option ℕ). Outcome (total o rest) t.max_series)
            (ground (arith, counter_value-add a t, h)) ih
      go true h true k ih =
          subst (λ (o : Option ℕ). Outcome o t.max_series)
            (ap (λ (o : Option ℕ). total o rest) (ground (arith, counter_value-add a t, h, k))
              ∙ total-bumped before a.delta rest)
            ih
      go true h false k ih =
          inr
            ((refused h k).0, subst (λ (n : ℕ). n ≤ size (add_all calls next)) same (refused h k).1)
