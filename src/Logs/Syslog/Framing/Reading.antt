-- ===== src/Logs/Syslog/Framing/Reading.antt =====
-- What is framed on a connection is read as it was sent (internal/modules/logs/source_syslog.go).
use my_own_agent.Prelude.{
  ℕ, zero, suc, ◌≤◌, ◌<◌, ◌≡◌, refl, ap, ◌∙◌, Bool, true, false, not, ◌&&◌, ◌==◌, Option, none,
  some, List, [], ◌∷◌, ◌++◌, length, length-append, take-append, drop-append, any, ltb, leb, arith,
}
use my_own_agent.Logs.Severity.{Bytes, is_digit}
use my_own_agent.Logs.Timestamps.{every_digit}
use my_own_agent.Logs.Syslog.{ℤ, pos, negsuc, atoi}
use my_own_agent.Logs.Syslog.Wire.{holds}
use my_own_agent.Logs.Syslog.Framing.{
  max_syslog_line, read_digits, read_counted, read_octet_counted, trim_return, read_limited_line,
  enqueued, read_frames, read_connection,
}

-- A message as it is sent: with its length ahead, or with a newline behind.
pub data Frame : Type 0 where
  counted : Bytes → Bytes → Frame
  lined : Bytes → Frame

abbrev pub send : List Frame → Bytes
send [] = []
send (counted digits message ∷ frames) = digits ++ (32 ∷ (message ++ send frames))
send (lined body ∷ frames) = body ++ (10 ∷ send frames)

-- What is handed to enqueue of them.
abbrev pub messages : List Frame → List Bytes
messages [] = []
messages (counted digits message ∷ frames) = message ∷ messages frames
messages (lined body ∷ frames) = enqueued (trim_return body) (messages frames)

-- Whether a text is the number of some length.
abbrev pub states : Option ℤ → ℕ → Bool
states none n = false
states (some (negsuc m)) n = false
states (some (pos m)) n = m == n

abbrev starts_line : Bytes → Bool
starts_line [] = true
starts_line (c ∷ cs) = not (is_digit c)

-- A length has up to nine digits and is that of the message, which is neither empty nor over the
-- bound. A line starts with no digit, holds no newline and is shorter than the bound.
abbrev pub well_framed : Frame → Bool
well_framed (counted digits message) =
    every_digit digits
    && leb 1 (length digits)
    && leb (length digits) 9
    && states (atoi digits) (length message)
    && leb 1 (length message)
    && leb (length message) max_syslog_line
well_framed (lined body) =
    starts_line body && not (holds 10 body) && ltb (length body) max_syslog_line

read_digits-append :
    (left : ℕ) (digits s : Bytes)
    → every_digit digits ≡ true
    → length digits < left
    → read_digits left (digits ++ 32 ∷ s) ≡ some (digits, s)
unfolding read_digits
read_digits-append zero digits s h lt = absurd (omega arith)
read_digits-append (suc left) [] s h lt = refl
read_digits-append (suc left) (d ∷ ds) s h lt = ground (arith, read_digits-append left ds s)

read_counted-append :
    (o : Option ℤ) (message s : Bytes)
    → states o (length message) ≡ true
    → 1 ≤ length message
    → length message ≤ 65536
    → read_counted o (message ++ s) ≡ some (message, s)
unfolding read_counted
read_counted-append none message s h ge le = absurd (ground arith)
read_counted-append (some (negsuc m)) message s h ge le = absurd (ground arith)
read_counted-append (some (pos m)) message s h ge le =
    ground (arith, same, length-append message s, take-append message s, drop-append message s)
  where
    same : m ≡ length message
    same = ground arith

read_octet_counted-append :
    (digits message s : Bytes)
    → well_framed (counted digits message) ≡ true
    → read_octet_counted (digits ++ (32 ∷ (message ++ s))) ≡ some (message, s)
unfolding read_octet_counted
read_octet_counted-append digits message s h =
    ap
      (λ (o : Option (Bytes × Bytes)). elim o as (λ _. Option (Bytes × Bytes)) [
        | none ↦ none
        | some (digits, after) ↦ read_counted (atoi digits) after
      ])
      (read_digits-append 10 digits (message ++ s) (ground arith) (ground arith))
    ∙ read_counted-append (atoi digits) message s (ground arith) (ground arith) (ground arith)

read_limited_line-append :
    (left : ℕ) (body s : Bytes)
    → holds 10 body ≡ false
    → length body < left
    → read_limited_line left (body ++ 10 ∷ s) ≡ (body, some s)
unfolding read_limited_line
read_limited_line-append zero body s h lt = absurd (omega arith)
read_limited_line-append (suc left) [] s h lt = ground arith
read_limited_line-append (suc left) (c ∷ cs) s h lt =
    ground (arith, read_limited_line-append left cs s)

-- One round of the loop, for each of the two framings.
read_frames_counted :
    (fuel c : ℕ) (cs message after : Bytes)
    → is_digit c ≡ true
    → read_octet_counted (c ∷ cs) ≡ some (message, after)
    → read_frames (suc fuel) (c ∷ cs) ≡ message ∷ read_frames fuel after
unfolding read_frames
read_frames_counted fuel c cs message after h e = rw (h, read_frames, e)

read_frames_lined :
    (fuel c : ℕ) (cs body after : Bytes)
    → is_digit c ≡ false
    → read_limited_line max_syslog_line (c ∷ cs) ≡ (body, some after)
    → read_frames (suc fuel) (c ∷ cs) ≡ enqueued (trim_return body) (read_frames fuel after)
unfolding read_frames
read_frames_lined fuel c cs body after h e =
    rw (h, read_frames) (ap (λ (line : Bytes × Option Bytes). next line) e)
  where
    next : Bytes × Option Bytes → List Bytes
    next line = elim line.1 [
      | none ↦ enqueued (trim_return line.0) []
      | some after ↦ enqueued (trim_return line.0) (read_frames fuel after)
    ]

read_frames-send :
    (fuel : ℕ) (frames : List Frame)
    → any (λ f. not (well_framed f)) frames ≡ false
    → length (send frames) ≤ fuel
    → read_frames fuel (send frames) ≡ messages frames
unfolding read_frames
read_frames-send zero [] h le = refl
read_frames-send (suc fuel) [] h le = refl
read_frames-send fuel (counted [] message ∷ frames) h le = absurd (ground arith)
read_frames-send zero (counted (d ∷ ds) message ∷ frames) h le = absurd (omega arith)
read_frames-send zero (lined [] ∷ frames) h le = absurd (omega arith)
read_frames-send zero (lined (c ∷ cs) ∷ frames) h le = absurd (omega arith)
read_frames-send (suc fuel) (lined [] ∷ frames) h le =
    read_frames_lined fuel 10 (send frames) [] (send frames) refl
      (read_limited_line-append max_syslog_line [] (send frames) refl (omega arith))
    ∙ ap (enqueued (trim_return [])) (read_frames-send fuel frames (ground arith) (omega arith))
read_frames-send (suc fuel) (counted (d ∷ ds) message ∷ frames) h le =
    read_frames_counted fuel d (ds ++ (32 ∷ (message ++ send frames))) message (send frames)
      (ground arith) (read_octet_counted-append (d ∷ ds) message (send frames) (ground arith))
    ∙ ap (λ (l : List Bytes). message ∷ l)
        (read_frames-send fuel frames (ground arith) (
          omega (
            arith,
            length-append ds (32 ∷ (message ++ send frames)),
            length-append message (send frames),
          )))
read_frames-send (suc fuel) (lined (c ∷ cs) ∷ frames) h le =
    read_frames_lined fuel c (cs ++ (10 ∷ send frames)) (c ∷ cs) (send frames) (ground arith) (
      read_limited_line-append max_syslog_line (c ∷ cs) (send frames) (ground arith) (ground arith))
    ∙ ap (enqueued (trim_return (c ∷ cs))) (
        read_frames-send fuel frames (ground arith)
          (omega (arith, length-append cs (10 ∷ send frames))))

pub read_connection-raw :
    (frames : List Frame)
    → any (λ f. not (well_framed f)) frames ≡ false
    → read_connection (send frames) ≡ messages frames
unfolding read_connection
read_connection-raw frames h = read_frames-send (length (send frames)) frames h (omega arith)
