-- ===== src/Logs/Severity.antt =====
-- The severity that a log line states (internal/modules/logs/severity.go). A line is the list of its
-- bytes. strings.ToLower is that of ASCII: it differs for the two other characters with an ASCII
-- lower case, U+0130 and U+212A, only.
pub mod Detection
use my_own_agent.Prelude.{
  ℕ, zero, suc, ◌+◌, ◌-◌, ◌*◌, ◌%◌, String, Bool, true, false, not, ◌&&◌, ◌||◌, Option, none, some,
  List, [], ◌∷◌, length, drop, take, leb, ltb, ◌==◌, if◌then◌else◌, codes,
}

abbrev pub Bytes : Type 0
Bytes = List ℕ

-- platform.EventSeverity
pub data EventSeverity : Type 0 where
  severity_debug severity_info severity_warn severity_error : EventSeverity

abbrev pub between : ℕ → ℕ → ℕ → Bool
between a b c = leb a c && leb c b

abbrev is_letter : ℕ → Bool
is_letter c = between 97 122 c || between 65 90 c

abbrev pub is_digit : ℕ → Bool
is_digit c = between 48 57 c

abbrev pub is_word_byte : ℕ → Bool
is_word_byte c = is_letter c || is_digit c || c == 95

-- strings.ToLower
abbrev pub to_lower : Bytes → Bytes
to_lower [] = []
to_lower (c ∷ cs) = (if between 65 90 c then c + 32 else c) ∷ to_lower cs

-- strings.HasPrefix
abbrev pub has_prefix : Bytes → Bytes → Bool
has_prefix [] s = true
has_prefix (p ∷ ps) [] = false
has_prefix (p ∷ ps) (c ∷ cs) = p == c && has_prefix ps cs

abbrev pub bytes_eq : Bytes → Bytes → Bool
bytes_eq [] [] = true
bytes_eq [] (c ∷ cs) = false
bytes_eq (p ∷ ps) [] = false
bytes_eq (p ∷ ps) (c ∷ cs) = p == c && bytes_eq ps cs

-- strings.TrimLeft, with the cutset as a test.
abbrev pub trim_left : (ℕ → Bool) → Bytes → Bytes
trim_left cut [] = []
trim_left cut (c ∷ cs) = let rest = trim_left cut cs in if cut c then rest else c ∷ cs

-- A space or a tab, and a quote or a space.
abbrev pub is_blank : ℕ → Bool
is_blank c = c == 32 || c == 9

abbrev pub is_quote : ℕ → Bool
is_quote c = c == 34 || c == 39 || c == 32

abbrev pub is_space : ℕ → Bool
is_space c = c == 32

-- leadingWord
abbrev leading_word : Bytes → Bytes
leading_word [] = []
leading_word (c ∷ cs) = let rest = leading_word cs in if is_letter c then c ∷ rest else []

-- severityWords
abbrev severity_table : List (String × EventSeverity)
severity_table =
    ("trace", severity_debug)
    ∷ ("debug", severity_debug)
    ∷ ("dbg", severity_debug)
    ∷ ("info", severity_info)
    ∷ ("inf", severity_info)
    ∷ ("notice", severity_info)
    ∷ ("warn", severity_warn)
    ∷ ("warning", severity_warn)
    ∷ ("wrn", severity_warn)
    ∷ ("error", severity_error)
    ∷ ("err", severity_error)
    ∷ ("eror", severity_error)
    ∷ ("fatal", severity_error)
    ∷ ("critical", severity_error)
    ∷ ("crit", severity_error)
    ∷ ("panic", severity_error)
    ∷ ("emergency", severity_error)
    ∷ ("alert", severity_error)
    ∷ []

find_word : List (String × EventSeverity) → Bytes → Option EventSeverity
unfolding codes
find_word [] word = none
find_word ((w, sev) ∷ rest) word =
    let later = find_word rest word in if bytes_eq (codes w) word then some sev else later

-- severityWords[word]
unfoldable severity_words : Bytes → Option EventSeverity
unfolding find_word
severity_words word = find_word severity_table word

-- The switch of klogSeverity.
abbrev pub klog_letter : ℕ → Option EventSeverity
klog_letter c =
    if c == 68
    then some severity_debug
    else if c == 73
    then some severity_info
    else if c == 87
    then some severity_warn
    else if c == 69 || c == 70
    then some severity_error
    else none

-- klogSeverity
unfoldable pub klog_severity : Bytes → Option EventSeverity
klog_severity (c ∷ d1 ∷ d2 ∷ d3 ∷ d4 ∷ rest) =
    if is_digit d1 && is_digit d2 && is_digit d3 && is_digit d4 then klog_letter c else none
klog_severity _ = none

-- What follows a key that stands alone.
unfoldable pub keyed_value : Bytes → Option EventSeverity
unfolding severity_words
keyed_value [] = none
keyed_value (c ∷ cs) =
    if c == 61 || c == 58 then severity_words (leading_word (trim_left is_quote cs)) else none

-- The search for one key. `word` is whether a byte of a word stands ahead, and the next `skip` bytes
-- belong to an occurrence of the key that has been looked at.
unfoldable pub keyed_from : Bytes → Bool → ℕ → Bytes → Option EventSeverity
unfolding keyed_value
keyed_from key word skip [] = none
keyed_from key word (suc skip) (c ∷ cs) = keyed_from key (is_word_byte c) skip cs
keyed_from key word zero (c ∷ cs) =
    let later = keyed_from key (is_word_byte c) 0 cs in
    let behind = keyed_from key (is_word_byte c) (length key - 1) cs in
    if not (has_prefix key (c ∷ cs))
    then later
    else if word
    then behind
    else elim (keyed_value (trim_left is_quote (drop (length key) (c ∷ cs)))) [
      | some sev ↦ some sev
      | none ↦ behind
    ]

-- The loop over the keys.
unfoldable pub keyed_each : List Bytes → Bytes → Option EventSeverity
unfolding keyed_from
keyed_each [] lower = none
keyed_each (key ∷ keys) lower = elim (keyed_from key false 0 lower) [
  | some sev ↦ some sev
  | none ↦ keyed_each keys lower
]

unfoldable pub level_keys : List Bytes
unfolding codes
level_keys = codes "level" ∷ codes "severity" ∷ codes "lvl" ∷ codes "loglevel" ∷ []

-- keyedSeverity
unfoldable pub keyed_severity : Bytes → Option EventSeverity
unfolding keyed_each level_keys
keyed_severity head = keyed_each level_keys (to_lower head)

-- atoiSmall
abbrev pub atoi_from : ℕ → Bytes → Option ℕ
atoi_from n [] = some n
atoi_from n (c ∷ cs) = if is_digit c then atoi_from (n * 10 + (c - 48)) cs else none

abbrev atoi_small : Bytes → Option ℕ
atoi_small s = if length s == 0 || ltb 3 (length s) then none else atoi_from 0 s

-- syslogSeverity
abbrev pub syslog_severity : ℕ → EventSeverity
syslog_severity n =
    if leb n 3
    then severity_error
    else if n == 4
    then severity_warn
    else if leb n 6
    then severity_info
    else severity_debug

-- strings.IndexByte
abbrev pub index_byte : ℕ → Bytes → Option ℕ
index_byte b [] = none
index_byte b (c ∷ cs) =
    let rest = index_byte b cs in
    if c == b then some 0 else elim rest [ none ↦ none | some n ↦ some (n + 1) ]

-- The priority at the start of a syslog line, behind its "<", which is byte 0.
unfoldable pub syslog_priority : Bytes → Option EventSeverity
syslog_priority s = elim (index_byte 62 s) [
  | none ↦ none
  | some end ↦
      if ltb 0 end && leb end 3
      then elim (atoi_small (take end s)) [
        | none ↦ none
        | some pri ↦ some (syslog_severity (pri % 8))
      ]
      else none
]

-- What may follow a bare word: a space, a colon, a tab, a dash, a closing bracket or a bar.
abbrev delimits : Bytes → Bool
delimits [] = true
delimits (c ∷ cs) = c == 32 || c == 58 || c == 9 || c == 45 || c == 93 || c == 124

-- The end of leadingSeverity; `closing` is the bracket that must close.
unfoldable leading_tag : Option ℕ → Bytes → Option EventSeverity
unfolding severity_words
leading_tag closing s =
    let word = leading_word (to_lower s) in
    let rest = drop (length word) s in
    if length word == 0 then none else elim (severity_words word) [
      | none ↦ none
      | some sev ↦ elim closing [
        | none ↦ if delimits rest then some sev else none
        | some close ↦ if has_prefix (close ∷ []) (trim_left is_space rest) then some sev else none
      ]
    ]

-- The two brackets.
unfoldable leading_open : Bytes → Option EventSeverity
unfolding leading_tag
leading_open [] = leading_tag none []
leading_open (c ∷ cs) =
    if c == 91
    then leading_tag (some 93) cs
    else if c == 40
    then leading_tag (some 41) cs
    else leading_tag none (c ∷ cs)

-- The test for a priority.
unfoldable pub leading_priority : Bytes → Option EventSeverity
unfolding syslog_priority
leading_priority [] = none
leading_priority (c ∷ cs) = if c == 60 then syslog_priority cs else none

-- leadingSeverity
unfoldable pub leading_severity : Bytes → Option EventSeverity
unfolding leading_priority leading_open
leading_severity head =
    let s = trim_left is_blank head in
    elim (leading_priority s) [ some sev ↦ some sev | none ↦ leading_open s ]

-- The three formats, in their order.
unfoldable pub detect_head : Bytes → EventSeverity × Bool
unfolding klog_severity keyed_severity leading_severity
detect_head head = elim (klog_severity head) [
  | some sev ↦ (sev, true)
  | none ↦ elim (keyed_severity head) [
    | some sev ↦ (sev, true)
    | none ↦ elim (leading_severity head) [ some sev ↦ (sev, true) | none ↦ (severity_info, false) ]
  ]
]

-- detectSeverity, with severityScanLimit.
unfoldable pub detect_severity : Bytes → EventSeverity × Bool
unfolding detect_head
detect_severity line =
    let head = take 96 line in if bytes_eq head [] then (severity_info, false) else detect_head head
