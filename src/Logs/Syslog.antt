-- ===== src/Logs/Syslog.antt =====
-- Syslog messages on the wire, RFC 3164 and RFC 5424 (internal/modules/logs/syslog.go). A message is
-- the list of its bytes. The reading of a time (time.Parse, with the year of the present for RFC 3164)
-- is an argument; a time is the number of its nanoseconds.
pub mod Framing
pub mod Wire
pub mod Elements
pub mod RoundTrip
pub mod Queue
pub mod Tests
use my_own_agent.Prelude.{
  ℕ, zero, suc, ◌+◌, ◌-◌, ◌*◌, ◌/◌, ◌%◌, ◌^◌, Bool, true, false, not, ◌&&◌, ◌||◌, Option, none,
  some, List, [], ◌∷◌, length, drop, take, leb, ltb, ◌==◌, if◌then◌else◌,
}
use my_own_agent.Logs.Severity.{
  Bytes, has_prefix, bytes_eq, index_byte, trim_left, is_space, atoi_from,
}
use my_own_agent.Logs.Timestamps.{syslog_month_day}

pub data ℤ : Type 0 where
  pos negsuc : ℕ → ℤ

-- syslogMessage; the severity is `priority`.
pub record SyslogMessage : Type 0 where
  pub priority : ℕ
  pub facility : ℕ
  pub has_priority : Bool
  pub timestamp : ℕ
  pub has_time : Bool
  pub hostname : Bytes
  pub app_name : Bytes
  pub pid : ℕ
  pub message : Bytes

-- The two calls of time.Parse.
pub record Clock : Type 0 where
  pub rfc3339 : Bytes → Option ℕ
  pub stamp : Bytes → Option ℕ

-- The digits of strconv.Atoi, at least one.
abbrev digits_value : Bytes → Option ℕ
digits_value [] = none
digits_value (c ∷ cs) = atoi_from 0 (c ∷ cs)

-- strconv.Atoi, with 64 bits.
unfoldable pub atoi : Bytes → Option ℤ
atoi [] = none
atoi (c ∷ cs) =
    if c == 45
    then elim (digits_value cs) [
      | none ↦ none
      | some zero ↦ some (pos 0)
      | some (suc n) ↦ if ltb n (2 ^ 63) then some (negsuc n) else none
    ]
    else elim (digits_value (if c == 43 then cs else c ∷ cs)) [
      | none ↦ none
      | some n ↦ if ltb n (2 ^ 63) then some (pos n) else none
    ]

-- A process number, 0 where the text is none.
unfoldable pub process_number : Bytes → ℕ
unfolding atoi
process_number s = elim (atoi s) [ none ↦ 0 | some (pos n) ↦ n | some (negsuc n) ↦ 0 ]

abbrev max_syslog_priority : ℕ
max_syslog_priority = 191

-- parsePRI, none where `ok` is false.
unfoldable pub parse_pri : Bytes → Option (Bytes × ℕ)
unfolding atoi
parse_pri s =
    if ltb (length s) 3 || not (has_prefix (60 ∷ []) s) then none else elim (index_byte 62 s) [
      | none ↦ none
      | some end ↦ if ltb end 2 || ltb 4 end then none else elim (atoi (drop 1 (take end s))) [
        | none ↦ none
        | some (negsuc n) ↦ none
        | some (pos n) ↦ if ltb max_syslog_priority n then none else some (drop (end + 1) s, n)
      ]
    ]

-- nextField
unfoldable pub next_field : Bytes → Bytes × Bytes
next_field s =
    let t = trim_left is_space s in
    elim (index_byte 32 t) [ none ↦ (t, []) | some i ↦ (take i t, drop (i + 1) t) ]

-- nilDash
abbrev pub nil_dash : Bytes → Bytes
nil_dash s = if bytes_eq s (45 ∷ []) then [] else s

-- endOfSDElement: what follows the element, none where it does not end.
unfoldable pub after_sd_element : Bool → Bool → Bytes → Option Bytes
after_sd_element in_quote escaped [] = none
after_sd_element in_quote true (c ∷ cs) = after_sd_element in_quote false cs
after_sd_element true false (c ∷ cs) =
    if c == 92
    then after_sd_element true true cs
    else if c == 34
    then after_sd_element false false cs
    else after_sd_element true false cs
after_sd_element false false (c ∷ cs) =
    if c == 92
    then after_sd_element false true cs
    else if c == 34
    then after_sd_element true false cs
    else if c == 93
    then some cs
    else after_sd_element false false cs

-- The loop of skipStructuredData over the elements, on fuel.
unfoldable pub skip_elements : ℕ → Bytes → Bytes
unfolding after_sd_element
skip_elements zero s = s
skip_elements (suc fuel) s = elim (has_prefix (91 ∷ []) s) [
  | false ↦ s
  | true ↦ elim (after_sd_element false false s) [ none ↦ [] | some rest ↦ skip_elements fuel rest ]
]

-- skipStructuredData: every round of the loop takes a byte at least.
unfoldable pub skip_structured_data : Bytes → Bytes
unfolding skip_elements
skip_structured_data s =
    let t = trim_left is_space s in
    if has_prefix (45 ∷ []) t
    then trim_left is_space (drop 1 t)
    else trim_left is_space (skip_elements (length t) t)

-- The UTF-8 of U+FEFF.
abbrev pub byte_order_mark : Bytes
byte_order_mark = 239 ∷ 187 ∷ 191 ∷ []

-- strings.TrimPrefix
abbrev pub trim_prefix : Bytes → Bytes → Bytes
trim_prefix p s = if has_prefix p s then drop (length p) s else s

-- A time that was read, if it was.
abbrev pub with_time : Option ℕ → SyslogMessage → SyslogMessage
with_time none m = m
with_time (some t) m = record m { timestamp = t; has_time = true }

-- parse5424
unfoldable pub parse_5424 : Clock → Bytes → SyslogMessage → SyslogMessage
unfolding next_field process_number skip_structured_data
parse_5424 clock s m =
    let ts = next_field s in
    let host = next_field ts.1 in
    let app = next_field host.1 in
    let procid = next_field app.1 in
    let msgid = next_field procid.1 in
    let number = process_number (nil_dash procid.0) in
    record (with_time (clock.rfc3339 ts.0) m) {
      hostname = nil_dash host.0;
      app_name = nil_dash app.0;
      pid = if number == 0 then m.pid else number;
      message = trim_prefix byte_order_mark (skip_structured_data msgid.1);
    }

-- strings.IndexAny(s, ":[")
abbrev index_tag_end : Bytes → Option ℕ
index_tag_end [] = none
index_tag_end (c ∷ cs) =
    let rest = index_tag_end cs in
    if c == 58 || c == 91 then some 0 else elim rest [ none ↦ none | some n ↦ some (n + 1) ]

-- A "[pid]": the number, and what follows. The number is 0 where none is read.
unfoldable bracketed_pid : Bytes → ℕ × Bytes
unfolding process_number
bracketed_pid s = if not (has_prefix (91 ∷ []) s) then (0, s) else elim (index_byte 93 s) [
  | none ↦ (0, s)
  | some end ↦
      if leb end 1 then (0, s) else (process_number (drop 1 (take end s)), drop (end + 1) s)
]

-- The tag of parse3164, where the rest of the message starts with one.
unfoldable parse_tag : Bytes → SyslogMessage → SyslogMessage
unfolding bracketed_pid
parse_tag after m = elim (index_tag_end after) [
  | none ↦ m
  | some tag_end ↦
      let bracketed = bracketed_pid (drop tag_end after) in
      if tag_end == 0 || ltb 48 tag_end then m else record m {
        app_name = take tag_end after;
        pid = if bracketed.0 == 0 then m.pid else bracketed.0;
        message = trim_left is_space (trim_prefix (58 ∷ []) bracketed.1);
      }
]

-- parse3164
unfoldable pub parse_3164 : Clock → Bytes → SyslogMessage → SyslogMessage
unfolding syslog_month_day next_field parse_tag
parse_3164 clock s m =
    let field = next_field (trim_left is_space (drop 15 s)) in
    if ltb (length s) 16 || not (syslog_month_day s)
    then record m { message = s }
    else parse_tag field.1
        (record (with_time (clock.stamp (take 15 s)) m) { hostname = field.0; message = field.1 })

abbrev pub plain_message : Bytes → SyslogMessage
plain_message line = record {
  priority = 0;
  facility = 0;
  has_priority = false;
  timestamp = 0;
  has_time = false;
  hostname = [];
  app_name = [];
  pid = 0;
  message = line;
}

-- parseSyslog
unfoldable pub parse_syslog : Clock → Bytes → SyslogMessage
unfolding parse_pri parse_5424 parse_3164
parse_syslog clock line = elim (parse_pri line) [
  | none ↦ plain_message line
  | some (rest, pri) ↦
      let m : SyslogMessage = record (plain_message line) {
        has_priority = true;
        priority = pri % 8;
        facility = pri / 8;
        message = rest;
      } in
      if has_prefix (49 ∷ 32 ∷ []) rest
      then parse_5424 clock (drop 2 rest) m
      else parse_3164 clock rest m
]
