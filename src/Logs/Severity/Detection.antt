-- ===== src/Logs/Severity/Detection.antt =====
-- Which lines are given a severity (internal/modules/logs/severity.go).
use my_own_agent.Prelude.{
  ℕ, zero, suc, ◌+◌, ◌-◌, ◌*◌, ◌/◌, ◌%◌, ◌≤◌, ◌<◌, ◌≡◌, refl, ap, ◌∙◌, Bool, true, false, not, ◌&&◌,
  ◌||◌, none, some, List, [], ◌∷◌, ◌++◌, length, drop, take, ltb, ◌==◌, if◌then◌else◌, arith,
  Bool-cases, inl, inr, length-append,
}
use my_own_agent.Logs.Severity.{
  Bytes, EventSeverity, is_digit, is_word_byte, is_quote, to_lower, trim_left, klog_letter,
  klog_severity, keyed_value, keyed_from, keyed_each, level_keys, keyed_severity, syslog_severity,
  syslog_priority, leading_priority, leading_severity, detect_head, detect_severity,
}

take-append : (n : ℕ) (head rest : Bytes) → n ≤ length head → take n (head ++ rest) ≡ take n head
take-append zero head rest h = refl
take-append (suc n) [] rest h = absurd (omega arith)
take-append (suc n) (c ∷ cs) rest h =
    ap (λ (t : Bytes). c ∷ t) (take-append n cs rest (omega arith))

-- What stands behind the first 96 bytes of a line has no influence on its severity.
detect_severity_window :
    (head rest other : Bytes)
    → 96 ≤ length head
    → detect_severity (head ++ rest) ≡ detect_severity (head ++ other)
unfolding detect_severity
detect_severity_window head rest other h =
    rw (take-append 96 head rest h, take-append 96 head other h) refl

-- Whether a byte is "=" or ":".
abbrev is_assign : ℕ → Bool
is_assign c = c == 61 || c == 58

-- No byte of the line is "=" or ":".
abbrev unassigned : Bytes → Bool
unassigned [] = true
unassigned (c ∷ cs) = not (is_assign c) && unassigned cs

unassigned-to_lower : (s : Bytes) → unassigned s ≡ true → unassigned (to_lower s) ≡ true
unassigned-to_lower [] h = refl
unassigned-to_lower (c ∷ cs) h = ground (arith, unassigned-to_lower cs)

unassigned-drop : (n : ℕ) (s : Bytes) → unassigned s ≡ true → unassigned (drop n s) ≡ true
unassigned-drop zero s h = h
unassigned-drop (suc n) [] h = refl
unassigned-drop (suc n) (c ∷ cs) h = unassigned-drop n cs (ground arith)

unassigned-trim_left :
    (cut : ℕ → Bool) (s : Bytes) → unassigned s ≡ true → unassigned (trim_left cut s) ≡ true
unassigned-trim_left cut [] h = refl
unassigned-trim_left cut (c ∷ cs) h = ground (arith, unassigned-trim_left cut cs)

keyed_value-unassigned : (s : Bytes) → unassigned s ≡ true → keyed_value s ≡ none
unfolding keyed_value
keyed_value-unassigned [] h = refl
keyed_value-unassigned (c ∷ cs) h = ground arith

keyed_from-unassigned :
    (key : Bytes) (word : Bool) (skip : ℕ) (s : Bytes)
    → unassigned s ≡ true
    → keyed_from key word skip s ≡ none
unfolding keyed_from
keyed_from-unassigned key word skip [] h = refl
keyed_from-unassigned key word (suc skip) (c ∷ cs) h =
    keyed_from-unassigned key (is_word_byte c) skip cs (ground arith)
keyed_from-unassigned key word zero (c ∷ cs) h = ground (
  arith,
  keyed_from-unassigned key (is_word_byte c) 0 cs,
  keyed_from-unassigned key (is_word_byte c) (length key - 1) cs,
  keyed_value-unassigned (trim_left is_quote (drop (length key) (c ∷ cs))) (
      unassigned-trim_left is_quote (drop (length key) (c ∷ cs))
        (unassigned-drop (length key) (c ∷ cs) h)),
)

keyed_each-unassigned :
    (keys : List Bytes) (s : Bytes) → unassigned s ≡ true → keyed_each keys s ≡ none
unfolding keyed_each
keyed_each-unassigned [] s h = refl
keyed_each-unassigned (key ∷ keys) s h =
    rw (keyed_from-unassigned key false 0 s h, keyed_each) (keyed_each-unassigned keys s h)

-- A line without "=" and ":" has no key with a level, whatever words it mentions.
keyed_severity-unassigned : (head : Bytes) → unassigned head ≡ true → keyed_severity head ≡ none
unfolding keyed_severity
keyed_severity-unassigned head h =
    keyed_each-unassigned level_keys (to_lower head) (unassigned-to_lower head h)

klog_severity-klog_letter :
    (c d1 d2 d3 d4 : ℕ) (rest : Bytes)
    → is_digit d1 && is_digit d2 && is_digit d3 && is_digit d4 ≡ true
    → klog_severity (c ∷ d1 ∷ d2 ∷ d3 ∷ d4 ∷ rest) ≡ klog_letter c
unfolding klog_severity
klog_severity-klog_letter c d1 d2 d3 d4 rest d = rw d refl

detect_head-klog_severity :
    (head : Bytes) (sev : EventSeverity)
    → klog_severity head ≡ some sev
    → detect_head head ≡ (sev, true)
unfolding detect_head
detect_head-klog_severity head sev h = rw (h, detect_head) refl

-- A line that starts with a level letter and four digits has the level of that letter, whatever
-- follows.
detect_severity-klog_letter :
    (c d1 d2 d3 d4 : ℕ) (rest : Bytes) (sev : EventSeverity)
    → klog_letter c ≡ some sev
    → is_digit d1 && is_digit d2 && is_digit d3 && is_digit d4 ≡ true
    → detect_severity (c ∷ d1 ∷ d2 ∷ d3 ∷ d4 ∷ rest) ≡ (sev, true)
unfolding detect_severity
detect_severity-klog_letter c d1 d2 d3 d4 rest sev l d =
    detect_head-klog_severity (c ∷ d1 ∷ d2 ∷ d3 ∷ d4 ∷ take 91 rest) sev
      (klog_severity-klog_letter c d1 d2 d3 d4 (take 91 rest) d ∙ l)

-- A number below 1000 in decimal.
abbrev decimal : ℕ → Bytes
decimal n =
    if ltb n 10
    then ((48 + n) ∷ [])
    else if ltb n 100
    then ((48 + n / 10) ∷ (48 + n % 10) ∷ [])
    else ((48 + n / 100) ∷ (48 + n / 10 % 10) ∷ (48 + n % 10) ∷ [])

priority_one :
    (a : ℕ) (rest : Bytes)
    → a < 10
    → syslog_priority ((48 + a) ∷ 62 ∷ rest) ≡ some (syslog_severity (a % 8))
unfolding syslog_priority
priority_one a rest h = ground arith

priority_two :
    (a b : ℕ) (rest : Bytes)
    → a < 10
    → b < 10
    → syslog_priority ((48 + a) ∷ (48 + b) ∷ 62 ∷ rest) ≡ some (syslog_severity ((a * 10 + b) % 8))
unfolding syslog_priority
priority_two a b rest h k = ground arith

priority_three :
    (a b c : ℕ) (rest : Bytes)
    → a < 10
    → b < 10
    → c < 10
    → syslog_priority ((48 + a) ∷ (48 + b) ∷ (48 + c) ∷ 62 ∷ rest)
      ≡ some (syslog_severity (((a * 10 + b) * 10 + c) % 8))
unfolding syslog_priority
priority_three a b c rest h k l = ground arith

priority-decimal :
    (n : ℕ) (rest : Bytes)
    → n < 1000
    → syslog_priority (decimal n ++ 62 ∷ rest) ≡ some (syslog_severity (n % 8))
priority-decimal n rest h =
    let two : n / 10 * 10 + n % 10 ≡ n = omega arith in
    let three : (n / 100 * 10 + n / 10 % 10) * 10 + n % 10 ≡ n = omega arith in
    elim (Bool-cases (ltb n 10)) [
      | inl a ↦ rw a (priority_one n rest (ground arith))
      | inr a ↦ elim (Bool-cases (ltb n 100)) [
        | inl b ↦
            rw (a, b)
              (priority_two (n / 10) (n % 10) rest (ground arith) (ground arith)
                ∙ ap (λ (k : ℕ). some (syslog_severity (k % 8))) two)
        | inr b ↦
            rw (a, b)
              (priority_three (n / 100) (n / 10 % 10) (n % 10) rest (ground arith) (ground arith)
                  (ground arith)
                ∙ ap (λ (k : ℕ). some (syslog_severity (k % 8))) three)
      ]
    ]

leading_severity-decimal :
    (n : ℕ) (rest : Bytes)
    → n < 1000
    → leading_severity (60 ∷ decimal n ++ 62 ∷ rest) ≡ some (syslog_severity (n % 8))
unfolding leading_severity leading_priority
leading_severity-decimal n rest h = rw (priority-decimal n rest h, leading_severity) refl

klog_severity-none : (c : ℕ) (cs : Bytes) → klog_letter c ≡ none → klog_severity (c ∷ cs) ≡ none
unfolding klog_severity
klog_severity-none c [] h = refl
klog_severity-none c (d1 ∷ []) h = refl
klog_severity-none c (d1 ∷ d2 ∷ []) h = refl
klog_severity-none c (d1 ∷ d2 ∷ d3 ∷ []) h = refl
klog_severity-none c (d1 ∷ d2 ∷ d3 ∷ d4 ∷ rest) h = ground (arith, h)

unassigned-append : (xs ys : Bytes) → unassigned (xs ++ ys) ≡ (unassigned xs && unassigned ys)
unassigned-append [] ys = refl
unassigned-append (c ∷ cs) ys = ground (arith, unassigned-append cs ys)

digit_unassigned : (d : ℕ) → d < 10 → is_assign (48 + d) ≡ false
digit_unassigned d h = ground arith

unassigned-decimal : (n : ℕ) → n < 1000 → unassigned (decimal n) ≡ true
unassigned-decimal n h = elim (Bool-cases (ltb n 10)) [
  | inl a ↦ rw a (ground (arith, digit_unassigned n))
  | inr a ↦ elim (Bool-cases (ltb n 100)) [
    | inl b ↦ rw (a, b) (ground (arith, digit_unassigned (n / 10), digit_unassigned (n % 10)))
    | inr b ↦
        rw (a, b)
          (ground (
            arith,
            digit_unassigned (n / 100),
            digit_unassigned (n / 10 % 10),
            digit_unassigned (n % 10),
          ))
  ]
]

length-decimal : (n : ℕ) → length (decimal n) ≤ 3
length-decimal n = ground arith

take_all : (n : ℕ) (s : Bytes) → length s ≤ n → take n s ≡ s
take_all zero [] h = refl
take_all zero (c ∷ cs) h = absurd (omega arith)
take_all (suc n) [] h = refl
take_all (suc n) (c ∷ cs) h = ap (λ (t : Bytes). c ∷ t) (take_all n cs (omega arith))

detect_head-leading_severity :
    (head : Bytes) (sev : EventSeverity)
    → klog_severity head ≡ none
    → keyed_severity head ≡ none
    → leading_severity head ≡ some sev
    → detect_head head ≡ (sev, true)
unfolding detect_head
detect_head-leading_severity head sev k l m = rw (k, detect_head) (rw l (rw m refl))

-- A line of up to 95 bytes that starts with a syslog priority below 1000 in decimal, and has no "="
-- and no ":" behind it, has the severity that the last three bits of the priority stand for.
detect_severity-decimal :
    (n : ℕ) (rest : Bytes)
    → n < 1000
    → length rest ≤ 90
    → unassigned rest ≡ true
    → detect_severity (60 ∷ decimal n ++ 62 ∷ rest) ≡ (syslog_severity (n % 8), true)
unfolding detect_severity
detect_severity-decimal n rest h short u =
    ap detect_head (
      take_all 96 line
        (omega (arith, length-append {0} (60 ∷ decimal n) (62 ∷ rest), length-decimal n)))
    ∙ detect_head-leading_severity line (syslog_severity (n % 8))
        (klog_severity-none 60 (decimal n ++ 62 ∷ rest) refl)
        (keyed_severity-unassigned line
          (unassigned-append (60 ∷ decimal n) (62 ∷ rest) ∙ rw (unassigned-decimal n h) u))
        (leading_severity-decimal n rest h)
  where
    line : Bytes
    line = 60 ∷ decimal n ++ 62 ∷ rest
