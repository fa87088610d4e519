-- ===== src/Logs/Syslog/Framing/Lines.antt =====
-- What a connection carries, against what a sender means by it (serveConn, readOctetCounted and
-- readLimitedLine of internal/modules/logs/source_syslog.go). What enqueue does with it is not part
-- of this.
use mathlib.Core.List.{reverse-append, reverse-cons, reverse-reverse, append-nil, append_assoc}
use my_own_agent.Prelude.{
  ℕ, zero, suc, ◌≡◌, refl, ap, sym, ◌∙◌, Bool, false, not, ◌&&◌, ◌==◌, List, [], ◌∷◌, ◌++◌, reverse,
  any, arith,
}
use my_own_agent.Logs.Severity.{Bytes, trim_left}
use my_own_agent.Logs.Syslog.Framing.{is_return, trim_return, enqueued, read_connection}
use my_own_agent.Logs.Syslog.Framing.Reading.{
  Frame, counted, lined, send, messages, well_framed, read_connection-raw,
}

-- A message behind its length; a line by its text, the text's last byte and a number of carriage
-- returns; and a line of carriage returns only.
pub data Sent : Type 0 where
  sized : Bytes → Bytes → Sent
  line : Bytes → ℕ → ℕ → Sent
  void : ℕ → Sent

abbrev returns : ℕ → Bytes
returns zero = []
returns (suc k) = 13 ∷ returns k

abbrev frame : Sent → Frame
frame (sized digits message) = counted digits message
frame (line front last k) = lined (front ++ (last ∷ returns k))
frame (void k) = lined (returns k)

abbrev pub frames_of : List Sent → List Frame
frames_of [] = []
frames_of (x ∷ xs) = frame x ∷ frames_of xs

-- The messages that are meant.
abbrev pub texts : List Sent → List Bytes
texts [] = []
texts (sized digits message ∷ xs) = message ∷ texts xs
texts (line front last k ∷ xs) = (front ++ last ∷ []) ∷ texts xs
texts (void k ∷ xs) = texts xs

-- Beside what the framing asks for, the text of a line does not itself end in a carriage return.
abbrev pub ill_sent : Sent → Bool
ill_sent (sized digits message) = not (well_framed (counted digits message))
ill_sent (line front last k) =
    not (well_framed (lined (front ++ (last ∷ returns k))) && not (last == 13))
ill_sent (void k) = not (well_framed (lined (returns k)))

trim_left-returns :
    (k : ℕ) (z : Bytes) → trim_left is_return (reverse (returns k) ++ z) ≡ trim_left is_return z
trim_left-returns zero z = refl
trim_left-returns (suc k) z =
    ap (λ (l : Bytes). trim_left is_return (l ++ z)) (reverse-cons 13 (returns k))
    ∙ ap (trim_left is_return) (append_assoc (reverse (returns k)) (13 ∷ []) z)
    ∙ trim_left-returns k (13 ∷ z)

trim_return-returns : (k : ℕ) → trim_return (returns k) ≡ []
unfolding trim_return
trim_return-returns k =
    ap (λ (l : Bytes). reverse (trim_left is_return l)) (sym (append-nil (reverse (returns k))))
    ∙ ap reverse (trim_left-returns k [])

trim_return-line :
    (front : Bytes) (last k : ℕ)
    → (last == 13) ≡ false
    → trim_return (front ++ (last ∷ returns k)) ≡ front ++ last ∷ []
unfolding trim_return
trim_return-line front last k h =
    ap (λ (l : Bytes). reverse (trim_left is_return l))
      (reverse-append front (last ∷ returns k)
        ∙ ap (λ (l : Bytes). l ++ reverse front) (reverse-cons last (returns k))
        ∙ append_assoc (reverse (returns k)) (last ∷ []) (reverse front))
    ∙ ap reverse (trim_left-returns k (last ∷ reverse front) ∙ kept)
    ∙ reverse-cons last (reverse front)
    ∙ ap (λ (l : Bytes). l ++ last ∷ []) (reverse-reverse front)
  where
    kept : trim_left is_return (last ∷ reverse front) ≡ last ∷ reverse front
    kept = ground arith

enqueued-text :
    (front : Bytes) (last : ℕ) (more : List Bytes)
    → enqueued (front ++ last ∷ []) more ≡ (front ++ last ∷ []) ∷ more
enqueued-text [] last more = refl
enqueued-text (c ∷ cs) last more = refl

messages-frames_of : (xs : List Sent) → any ill_sent xs ≡ false → messages (frames_of xs) ≡ texts xs
messages-frames_of [] h = refl
messages-frames_of (sized digits message ∷ xs) h =
    ap (λ (l : List Bytes). message ∷ l) (messages-frames_of xs (ground arith))
messages-frames_of (line front last k ∷ xs) h =
    ap (λ t. enqueued t (messages (frames_of xs))) (trim_return-line front last k (ground arith))
    ∙ enqueued-text front last (messages (frames_of xs))
    ∙ ap (λ (l : List Bytes). (front ++ last ∷ []) ∷ l) (messages-frames_of xs (ground arith))
messages-frames_of (void k ∷ xs) h =
    ap (λ t. enqueued t (messages (frames_of xs))) (trim_return-returns k)
    ∙ messages-frames_of xs (ground arith)

well_framed-frames_of :
    (xs : List Sent)
    → any ill_sent xs ≡ false
    → any (λ f. not (well_framed f)) (frames_of xs) ≡ false
well_framed-frames_of [] h = refl
well_framed-frames_of (sized digits message ∷ xs) h = ground (arith, well_framed-frames_of xs)
well_framed-frames_of (line front last k ∷ xs) h = ground (arith, well_framed-frames_of xs)
well_framed-frames_of (void k ∷ xs) h = ground (arith, well_framed-frames_of xs)

-- Messages that are sent one behind the other on a connection are handed to enqueue one by one and in
-- their order: one behind its length as it is, a line without the carriage returns at its end, and a
-- line of carriage returns only not at all. A length has one to nine digits and is that of its message,
-- which has one to 65536 bytes; a line starts with no digit, holds no newline, and has fewer than
-- 65536 bytes.
pub read_connection-send :
    (xs : List Sent) → any ill_sent xs ≡ false → read_connection (send (frames_of xs)) ≡ texts xs
read_connection-send xs h =
    read_connection-raw (frames_of xs) (well_framed-frames_of xs h) ∙ messages-frames_of xs h
