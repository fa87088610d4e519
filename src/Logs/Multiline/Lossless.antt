-- ===== src/Logs/Multiline/Lossless.antt =====
-- Aggregation loses nothing, and what it holds is bounded (internal/modules/logs/multiline.go).
use mathlib.Core.List.{append_assoc, append-nil}
use my_own_agent.Prelude.{
  ℕ, ◌≡◌, refl, ap, sym, ◌∙◌, Bool, true, false, not, ◌&&◌, ◌||◌, List, [], ◌∷◌, ◌++◌, arith,
  if◌then◌else◌, str_eq, Bool-cases, inl, inr,
}
use my_own_agent.Logs.Multiline.{
  Text, LogRecord, MlFile, Line, new_file, has_pending, flush_file, detect, continue_record,
  overflows, flush_and_start, gather, drop_edited, add_line, add_all,
}

-- The text of some records, each line with its end.
abbrev pub text_of : List LogRecord → Text
text_of [] = []
text_of (rec ∷ recs) = rec.body ++ 10 ∷ text_of recs

text_of-append : (xs ys : List LogRecord) → text_of (xs ++ ys) ≡ text_of xs ++ text_of ys
text_of-append [] ys = refl
text_of-append (x ∷ xs) ys =
    ap (λ (t : Text). x.body ++ 10 ∷ t) (text_of-append xs ys)
    ∙ sym (append_assoc x.body (10 ∷ text_of xs) (text_of ys))

-- A line with its end.
abbrev pub ended : Text → Text
ended body = body ++ 10 ∷ []

-- The text that a file holds back.
abbrev pub held : MlFile → Text
held st = if has_pending st then ended st.buf else []

-- The text that has come out and what is held back, in this order.
abbrev pub whole : MlFile × List LogRecord → Text
whole (st, out) = text_of out ++ held st

-- Only a file that is aggregated holds a record back.
abbrev pub Consistent : MlFile → Type 0
Consistent st = has_pending st ≡ true → st.aggregate && st.decided ≡ true

text-flush_file : (st : MlFile) → text_of (flush_file st).1 ≡ held st
unfolding flush_file
text-flush_file st = ground arith

held-flush_file : (st : MlFile) → held (flush_file st).0 ≡ []
unfolding flush_file
held-flush_file st = ground arith

whole-flush_and_start :
    (l : Line) (st : MlFile) → whole (flush_and_start l st) ≡ held st ++ ended l.rec.body
unfolding flush_and_start
whole-flush_and_start l st = ap (λ (t : Text). t ++ ended l.rec.body) (text-flush_file st)

held-continue_record :
    (l : Line) (st : MlFile)
    → has_pending st ≡ true
    → held (continue_record l st) ≡ held st ++ ended l.rec.body
held-continue_record l st h = rw h (
    append_assoc st.buf (10 ∷ l.rec.body) (10 ∷ [])
    ∙ sym (append_assoc st.buf (10 ∷ []) (ended l.rec.body)))

whole-gather : (l : Line) (st : MlFile) → whole (gather l st) ≡ held st ++ ended l.rec.body
unfolding gather
whole-gather l st = go l.starts (has_pending st) (overflows l st) refl
  where
    go :
        (a b c : Bool)
        → has_pending st ≡ b
        → whole (
            if a || not b
            then flush_and_start l st
            else if c
            then flush_and_start l st
            else (continue_record l st, []))
          ≡ held st ++ ended l.rec.body
    go true b c h = whole-flush_and_start l st
    go false false c h = whole-flush_and_start l st
    go false true true h = whole-flush_and_start l st
    go false true false h = held-continue_record l st h

whole-drop_edited : (l : Line) (st : MlFile) → whole (drop_edited l st) ≡ held st
unfolding drop_edited
whole-drop_edited l st = go (has_pending st && not (str_eq st.pattern_v l.pattern))
  where
    go : (b : Bool) → whole (if b then flush_file st else (st, [])) ≡ held st
    go true =
        ap (λ (t : Text). text_of (flush_file st).1 ++ t) (held-flush_file st)
        ∙ append-nil (text_of (flush_file st).1)
        ∙ text-flush_file st
    go false = refl

pending-detect : (l : Line) (st : MlFile) → has_pending (detect l st) ≡ has_pending st
unfolding detect
pending-detect l st = ground arith

held_of_pending : (st : MlFile) → has_pending st ≡ false → held st ≡ []
held_of_pending st h = rw h refl

-- A file that does not aggregate holds nothing back.
held_nothing :
    (st : MlFile) → Consistent st → st.aggregate && st.decided ≡ false → has_pending st ≡ false
held_nothing st c h = elim (Bool-cases (has_pending st)) [
  | inl y ↦ absurd (ground (arith, c y, h))
  | inr n ↦ n
]

whole_single :
    (rec : LogRecord) (before after : MlFile)
    → has_pending before ≡ false
    → has_pending after ≡ false
    → whole (after, rec ∷ []) ≡ held before ++ ended rec.body
whole_single rec before after b a =
    ap (λ (t : Text). ended rec.body ++ t) (held_of_pending after a)
    ∙ append-nil (ended rec.body)
    ∙ sym (ap (λ (t : Text). t ++ ended rec.body) (held_of_pending before b))

whole_pair :
    (xs : List LogRecord) (p : MlFile × List LogRecord)
    → whole (p.0, xs ++ p.1) ≡ text_of xs ++ whole p
whole_pair xs p =
    ap (λ (t : Text). t ++ held p.0) (text_of-append xs p.1)
    ∙ append_assoc (text_of xs) (text_of p.1) (held p.0)

-- One line: what comes out, and what is held back behind it, is what was held back and the line.
whole-add_line :
    (l : Line) (st : MlFile) → Consistent st → whole (add_line l st) ≡ held st ++ ended l.rec.body
unfolding add_line
whole-add_line l st c = go st.decided st.aggregate refl refl
  where
    edited : MlFile × List LogRecord
    edited = drop_edited l st

    go :
        (d a : Bool)
        → st.decided ≡ d
        → st.aggregate ≡ a
        → whole (
            if not d
            then (detect l st, l.rec ∷ [])
            else if not a
            then (st, l.rec ∷ [])
            else ((gather l edited.0).0, edited.1 ++ (gather l edited.0).1))
          ≡ held st ++ ended l.rec.body
    go false a e f =
        let n = held_nothing st c (ground (arith, e)) in
        whole_single l.rec st (detect l st) n (pending-detect l st ∙ n)
    go true false e f =
        let n = held_nothing st c (ground (arith, f)) in whole_single l.rec st st n n
    go true true e f =
        whole_pair edited.1 (gather l edited.0)
        ∙ ap (λ (t : Text). text_of edited.1 ++ t) (whole-gather l edited.0)
        ∙ sym (append_assoc (text_of edited.1) (held edited.0) (ended l.rec.body))
        ∙ ap (λ (t : Text). t ++ ended l.rec.body) (whole-drop_edited l st)

-- Aggregation goes on once it has begun.
kept-gather :
    (l : Line) (st : MlFile)
    → ((gather l st).0.aggregate ≡ st.aggregate) × ((gather l st).0.decided ≡ st.decided)
unfolding gather flush_and_start flush_file
kept-gather l st = ground arith

kept-drop_edited :
    (l : Line) (st : MlFile)
    → ((drop_edited l st).0.aggregate ≡ st.aggregate) × ((drop_edited l st).0.decided ≡ st.decided)
unfolding drop_edited flush_file
kept-drop_edited l st = ground arith

Consistent-add_line : (l : Line) (st : MlFile) → Consistent st → Consistent (add_line l st).0
unfolding add_line
Consistent-add_line l st c = go st.decided st.aggregate refl refl
  where
    edited : MlFile × List LogRecord
    edited = drop_edited l st

    result : Bool → Bool → MlFile × List LogRecord
    result d a =
        if not d
        then (detect l st, l.rec ∷ [])
        else if not a
        then (st, l.rec ∷ [])
        else ((gather l edited.0).0, edited.1 ++ (gather l edited.0).1)

    go : (d a : Bool) → st.decided ≡ d → st.aggregate ≡ a → Consistent (result d a).0
    go false a e f = λ h.
        let n = held_nothing st c (ground (arith, e)) in absurd (cc (h, pending-detect l st, n))
    go true false e f = c
    go true true e f = λ h. ground (arith, e, f, kept-gather l edited.0, kept-drop_edited l st)

abbrev pub text_of_lines : List Line → Text
text_of_lines [] = []
text_of_lines (l ∷ ls) = ended l.rec.body ++ text_of_lines ls

whole-add_all :
    (ls : List Line) (st : MlFile)
    → Consistent st
    → whole (add_all ls st) ≡ held st ++ text_of_lines ls
unfolding add_all
whole-add_all [] st c = sym (append-nil (held st))
whole-add_all (l ∷ ls) st c =
    let first = add_line l st in
    whole_pair first.1 (add_all ls first.0)
    ∙ ap (λ (t : Text). text_of first.1 ++ t)
        (whole-add_all ls first.0 (Consistent-add_line l st c))
    ∙ sym (append_assoc (text_of first.1) (held first.0) (text_of_lines ls))
    ∙ ap (λ (t : Text). t ++ text_of_lines ls) (whole-add_line l st c)
    ∙ append_assoc (held st) (ended l.rec.body) (text_of_lines ls)

-- Nothing is lost, doubled or reordered: for any lines of a file, whatever the clock, the patterns and
-- the starts of records, the records that come out, with the one that a last flush gives, have the
-- text of the lines.
pub add_all-flush_file :
    (now : ℕ) (ls : List Line)
    → let done = add_all ls (new_file now) in
      text_of (done.1 ++ (flush_file done.0).1) ≡ text_of_lines ls
add_all-flush_file now ls =
    let done = add_all ls (new_file now) in
    text_of-append done.1 (flush_file done.0).1
    ∙ ap (λ (t : Text). text_of done.1 ++ t) (text-flush_file done.0)
    ∙ whole-add_all ls (new_file now) (λ h. absurd (ground arith))
