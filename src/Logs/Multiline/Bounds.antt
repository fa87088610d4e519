-- ===== src/Logs/Multiline/Bounds.antt =====
-- The bounds of a record that is being aggregated (internal/modules/logs/multiline.go).
use my_own_agent.Prelude.{
  ℕ, ◌≡◌, refl, ◌≤◌, ◌⊎◌, inl, inr, Bool, true, false, not, ◌&&◌, ◌||◌, List, [], ◌∷◌, ◌++◌, length,
  length-append, arith, if◌then◌else◌, str_eq,
}
use my_own_agent.Logs.Multiline.{
  LogRecord, MlFile, Line, new_file, has_pending, flush_file, detect, start_record, continue_record,
  overflows, flush_and_start, gather, drop_edited, add_line, add_all, max_multiline_lines,
  max_multiline_bytes,
}

-- A record that is held back has at most 500 lines, and at most 262144 bytes if it has more than one.
pub record Bounded (st : MlFile) : Type 0 where
  pub few : st.lines ≤ max_multiline_lines
  pub short : (st.lines ≤ 1) ⊎ (length st.buf ≤ max_multiline_bytes)

Bounded-flush_file : (st : MlFile) → Bounded st → Bounded (flush_file st).0
unfolding flush_file
Bounded-flush_file st b = ground (arith, b.few, b.short)

Bounded-continue_record :
    (l : Line) (st : MlFile) → Bounded st → overflows l st ≡ false → Bounded (continue_record l st)
Bounded-continue_record l st b o = record {
  few = ground arith;
  short = inr (ground (arith, length-append {0} st.buf (10 ∷ l.rec.body)));
}

Bounded-start_record : (l : Line) (st : MlFile) → Bounded (start_record l st)
Bounded-start_record l st = record { few = omega arith; short = inl (omega arith) }

Bounded-gather : (l : Line) (st : MlFile) → Bounded st → Bounded (gather l st).0
unfolding gather flush_and_start
Bounded-gather l st b = go (l.starts || not (has_pending st)) (overflows l st) refl
  where
    result : Bool → Bool → MlFile × List LogRecord
    result s o =
        if s
        then flush_and_start l st
        else if o
        then flush_and_start l st
        else (continue_record l st, [])

    go : (s o : Bool) → overflows l st ≡ o → Bounded (result s o).0
    go true o h = Bounded-start_record l (flush_file st).0
    go false true h = Bounded-start_record l (flush_file st).0
    go false false h = Bounded-continue_record l st b h

Bounded-drop_edited : (l : Line) (st : MlFile) → Bounded st → Bounded (drop_edited l st).0
unfolding drop_edited
Bounded-drop_edited l st b = go (has_pending st && not (str_eq st.pattern_v l.pattern))
  where
    result : Bool → MlFile × List LogRecord
    result e = if e then flush_file st else (st, [])

    go : (e : Bool) → Bounded (result e).0
    go true = Bounded-flush_file st b
    go false = b

Bounded-detect : (l : Line) (st : MlFile) → Bounded st → Bounded (detect l st)
unfolding detect
Bounded-detect l st b = ground (arith, b.few, b.short)

Bounded-add_line : (l : Line) (st : MlFile) → Bounded st → Bounded (add_line l st).0
unfolding add_line
Bounded-add_line l st b = go st.decided st.aggregate
  where
    result : Bool → Bool → MlFile × List LogRecord
    result d a =
        let edited = drop_edited l st in
        let gathered = gather l edited.0 in
        if not d
        then (detect l st, l.rec ∷ [])
        else if not a
        then (st, l.rec ∷ [])
        else (gathered.0, edited.1 ++ gathered.1)

    go : (d a : Bool) → Bounded (result d a).0
    go false a = Bounded-detect l st b
    go true false = b
    go true true = Bounded-gather l (drop_edited l st).0 (Bounded-drop_edited l st b)

Bounded-add_all : (ls : List Line) (st : MlFile) → Bounded st → Bounded (add_all ls st).0
unfolding add_all
Bounded-add_all [] st b = b
Bounded-add_all (l ∷ ls) st b = Bounded-add_all ls (add_line l st).0 (Bounded-add_line l st b)

-- Whatever lines a file gets, the record that is held back for it has at most 500 lines, and at most
-- 262144 bytes unless it is a single line.
pub add_all-Bounded : (now : ℕ) (ls : List Line) → Bounded (add_all ls (new_file now)).0
add_all-Bounded now ls =
    Bounded-add_all ls (new_file now) (record { few = omega arith; short = inl (omega arith) })
