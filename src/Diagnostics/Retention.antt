-- ===== src/Diagnostics/Retention.antt =====
-- What a recorder holds after any sequence of records (internal/diagnostics/diagnostics.go).
use mathlib.Core.List.{append-nil}
use my_own_agent.Prelude.{
  if◌then◌else◌, ℕ, ◌-◌, ◌≤◌, ◌<◌, String, ◌≡◌, refl, ◌≢◌, List, [], ◌∷◌, ◌++◌, length, drop, leb,
  arith, eq_iff,
}
use my_own_agent.Diagnostics.{
  Record, Recorder, stamp, add_record, filter_source, by_source, scoped_record,
}

-- A run of records, each with the clock's reading when it came in.
abbrev pub record_all : List (ℕ × Record) → Recorder → Recorder
record_all [] r = r
record_all ((now, rec) ∷ rest) r = record_all rest (add_record now rec r)

abbrev pub stamped : List (ℕ × Record) → List Record
stamped [] = []
stamped ((now, rec) ∷ rest) = stamp now rec ∷ stamped rest

-- The recorder shows the last `max` of `seen`, and has counted the rest.
record Shows (seen : List Record) (r : Recorder) : Type 0 where
  kept : r.records ≡ drop (length seen - r.max) seen
  shed : r.dropped ≡ length seen - r.max
  room : 0 < r.max

abbrev pub Retains : ℕ → List Record → Recorder → Type 0
Retains max seen r =
    (r.records ≡ drop (length seen - max) seen)
    × (r.dropped ≡ length seen - max)
    × (length r.records ≤ max)

filter_source-append :
    (source : String) (xs ys : List Record)
    → filter_source source (xs ++ ys) ≡ filter_source source xs ++ filter_source source ys
unfolding filter_source
filter_source-append source [] ys = refl
filter_source-append source (x ∷ xs) ys = ground (arith, filter_source-append source xs ys)

filter_source_other :
    (source other : String) (rec : Record)
    → source ≢ other
    → rec.source ≡ source
    → filter_source other (rec ∷ []) ≡ []
unfolding filter_source
filter_source_other source other rec h e = ground (arith, eq_iff rec.source other)

-- A record that comes in through a module's scoped sink is never retained under another source: what
-- BySource gives for that source is what it gave before, or, where the recorder was full, what it
-- gave without the oldest record.
scoped_record-by_source :
    (source other : String) (now : ℕ) (rec : Record) (r : Recorder)
    → source ≢ other
    → by_source other (scoped_record source now rec r) ≡ (
        if leb r.max (length r.records)
        then by_source other (record r { records = drop 1 r.records })
        else by_source other r)
unfolding scoped_record by_source stamp
scoped_record-by_source source other now rec r h =
    let rec' = stamp now (record rec { source = source }) in
    ground (
      arith,
      filter_source_other source other rec' h refl,
      filter_source-append other (drop 1 r.records) (rec' ∷ []),
      filter_source-append other r.records (rec' ∷ []),
      append-nil (filter_source other (drop 1 r.records)),
      append-nil (filter_source other r.records),
    )
