-- ===== src/Logs/Timestamps.antt =====
-- The start of a log record, seen by its timestamp (internal/modules/logs/timestamp.go). A line is the
-- list of its bytes.
pub mod Clock
use my_own_agent.Prelude.{
  ℕ, ◌+◌, String, Bool, true, false, not, ◌&&◌, ◌||◌, Option, none, some, List, [], ◌∷◌, length,
  drop, take, leb, ltb, ◌==◌, if◌then◌else◌, codes, any,
}
use my_own_agent.Logs.Severity.{Bytes, between, bytes_eq, is_digit, is_blank, is_space, trim_left}

-- isASCIIDigit is is_digit.
abbrev pub every_digit : Bytes → Bool
every_digit [] = true
every_digit (c ∷ cs) = is_digit c && every_digit cs

-- digitsOnly
abbrev digits_only : Bytes → Bool
digits_only [] = false
digits_only (c ∷ cs) = is_digit c && every_digit cs

-- lower3, on one byte.
abbrev pub lower : ℕ → ℕ
lower c = if between 65 90 c then c + 32 else c

unfoldable name_in : Bytes → List String → Bool
unfolding codes
name_in s names = any (λ n. bytes_eq (codes n) s) names

unfoldable month_names : List String
month_names =
    "jan" ∷ "feb" ∷ "mar" ∷ "apr" ∷ "may" ∷ "jun" ∷ "jul" ∷ "aug" ∷ "sep" ∷ "oct" ∷ "nov" ∷ "dec"
    ∷ []

unfoldable weekday_names : List String
weekday_names = "mon" ∷ "tue" ∷ "wed" ∷ "thu" ∷ "fri" ∷ "sat" ∷ "sun" ∷ []

-- isMonthName of the first three bytes.
unfoldable pub month_ahead : Bytes → Bool
unfolding month_names name_in
month_ahead (a ∷ b ∷ c ∷ rest) = name_in (lower a ∷ lower b ∷ lower c ∷ []) month_names
month_ahead _ = false

-- isWeekdayName of the first three bytes.
unfoldable pub weekday_ahead : Bytes → Bool
unfolding weekday_names name_in
weekday_ahead (a ∷ b ∷ c ∷ rest) = name_in (lower a ∷ lower b ∷ lower c ∷ []) weekday_names
weekday_ahead _ = false

-- s[i], under a test of the length.
abbrev byte_at : ℕ → Bytes → ℕ
byte_at i s = elim (drop i s) [ [] ↦ 0 | c ∷ cs ↦ c ]

-- s[i : i + n], under a test of the length.
abbrev slice : ℕ → ℕ → Bytes → Bytes
slice i n s = take n (drop i s)

-- isClockTime
unfoldable pub is_clock_time : Bytes → Bool
is_clock_time s =
    leb 8 (length s)
    && digits_only (slice 0 2 s)
    && byte_at 2 s == 58
    && digits_only (slice 3 2 s)
    && byte_at 5 s == 58
    && digits_only (slice 6 2 s)

-- What may join a date and a time: "T", a space or "_".
abbrev joins : ℕ → Bool
joins c = c == 84 || c == 32 || c == 95

-- isoDateTime
unfoldable pub iso_date_time : Bytes → Bool
iso_date_time s =
    let sep = byte_at 4 s in
    leb 16 (length s)
    && (sep == 45 || sep == 47)
    && digits_only (slice 0 4 s)
    && digits_only (slice 5 2 s)
    && digits_only (slice 8 2 s)
    && byte_at 7 s == sep
    && joins (byte_at 10 s)
    && digits_only (slice 11 2 s)
    && byte_at 13 s == 58
    && digits_only (slice 14 2 s)

-- The loop over the digits of a day: at most two, with how many there were.
unfoldable day_digits : Bytes → ℕ × Bytes
day_digits [] = (0, [])
day_digits (a ∷ []) = if is_digit a then (1, []) else (0, a ∷ [])
day_digits (a ∷ b ∷ rest) =
    if not (is_digit a) then (0, a ∷ b ∷ rest) else if is_digit b then (2, rest) else (1, b ∷ rest)

-- What follows a month and a day, where there is a day.
unfoldable after_day : Bytes → Option Bytes
unfolding day_digits
after_day s =
    let (day, rest) = day_digits (trim_left is_space (drop 3 s)) in
    if day == 0 then none else some rest

-- syslogMonthDay
unfoldable pub syslog_month_day : Bytes → Bool
unfolding after_day month_ahead is_clock_time
syslog_month_day s = not (ltb (length s) 15) && month_ahead s && elim (after_day s) [
  | none ↦ false
  | some [] ↦ false
  | some (c ∷ rest) ↦ c == 32 && is_clock_time rest
]

-- A day of two digits, a space and a month.
unfoldable day_month : Bytes → Bool
unfolding month_ahead
day_month (a ∷ b ∷ c ∷ rest) = is_digit a && is_digit b && c == 32 && month_ahead rest
day_month _ = false

abbrev skip_comma : Bytes → Bytes
skip_comma [] = []
skip_comma (c ∷ cs) = if c == 44 then cs else c ∷ cs

-- weekdayDate
unfoldable pub weekday_date : Bytes → Bool
unfolding day_month weekday_ahead
weekday_date s =
    let rest = trim_left is_space (skip_comma (drop 3 s)) in
    not (ltb (length s) 12) && weekday_ahead s && (day_month rest || month_ahead rest)

-- javaMonthDayYear
unfoldable pub java_month_day_year : Bytes → Bool
unfolding after_day month_ahead
java_month_day_year s = not (ltb (length s) 12) && month_ahead s && elim (after_day s) [
  | none ↦ false
  | some [] ↦ false
  | some (c ∷ rest) ↦
      let year = trim_left is_space rest in
      c == 44 && leb 4 (length year) && digits_only (take 4 year)
]

-- klogStamp
unfoldable pub klog_stamp : Bytes → Bool
unfolding is_clock_time
klog_stamp s =
    let l = byte_at 0 s in
    leb 14 (length s)
    && (l == 73 || l == 87 || l == 69 || l == 70 || l == 68)
    && digits_only (slice 1 4 s)
    && byte_at 5 s == 32
    && is_clock_time (drop 6 s)

-- The five formats.
unfoldable pub has_stamp : Bytes → Bool
unfolding iso_date_time syslog_month_day weekday_date java_month_day_year klog_stamp
has_stamp s =
    iso_date_time s || syslog_month_day s || weekday_date s || java_month_day_year s || klog_stamp s

-- The wrapper that may stand ahead.
abbrev pub unwrapped : Bytes → Bytes
unwrapped [] = []
unwrapped (c ∷ cs) = if c == 91 || c == 60 then cs else c ∷ cs

-- startsWithTimestamp
unfoldable pub starts_with_timestamp : Bytes → Bool
unfolding has_stamp
starts_with_timestamp line = has_stamp (trim_left is_blank (unwrapped line))
