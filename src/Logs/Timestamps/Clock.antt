-- ===== src/Logs/Timestamps/Clock.antt =====
-- A time of day alone does not start a record (internal/modules/logs/timestamp.go).
use my_own_agent.Prelude.{ℕ, ◌≡◌, refl, ap, ◌∙◌, true, false, [], ◌∷◌, arith}
use my_own_agent.Logs.Severity.{Bytes, is_digit, is_blank, trim_left}
use my_own_agent.Logs.Timestamps.{
  month_ahead, weekday_ahead, is_clock_time, iso_date_time, syslog_month_day, weekday_date,
  java_month_day_year, klog_stamp, has_stamp, unwrapped, starts_with_timestamp,
}

month_ahead-digit : (c : ℕ) (s : Bytes) → is_digit c ≡ true → month_ahead (c ∷ s) ≡ false
unfolding month_ahead
month_ahead-digit c [] h = refl
month_ahead-digit c (a ∷ []) h = refl
month_ahead-digit c (a ∷ b ∷ s) h = ground arith

weekday_ahead-digit : (c : ℕ) (s : Bytes) → is_digit c ≡ true → weekday_ahead (c ∷ s) ≡ false
unfolding weekday_ahead
weekday_ahead-digit c [] h = refl
weekday_ahead-digit c (a ∷ []) h = refl
weekday_ahead-digit c (a ∷ b ∷ s) h = ground arith

-- A line with a digit first and a colon third has none of the formats.
iso_date_time-colon :
    (a b : ℕ) (s : Bytes) → is_digit a ≡ true → iso_date_time (a ∷ b ∷ 58 ∷ s) ≡ false
unfolding iso_date_time
iso_date_time-colon a b s h = ground (arith)

syslog_month_day-colon :
    (a b : ℕ) (s : Bytes) → is_digit a ≡ true → syslog_month_day (a ∷ b ∷ 58 ∷ s) ≡ false
unfolding syslog_month_day
syslog_month_day-colon a b s h = ground (arith, month_ahead-digit a (b ∷ 58 ∷ s))

weekday_date-colon :
    (a b : ℕ) (s : Bytes) → is_digit a ≡ true → weekday_date (a ∷ b ∷ 58 ∷ s) ≡ false
unfolding weekday_date
weekday_date-colon a b s h = ground (arith, weekday_ahead-digit a (b ∷ 58 ∷ s))

java_month_day_year-colon :
    (a b : ℕ) (s : Bytes) → is_digit a ≡ true → java_month_day_year (a ∷ b ∷ 58 ∷ s) ≡ false
unfolding java_month_day_year
java_month_day_year-colon a b s h = ground (arith, month_ahead-digit a (b ∷ 58 ∷ s))

klog_stamp-colon : (a b : ℕ) (s : Bytes) → is_digit a ≡ true → klog_stamp (a ∷ b ∷ 58 ∷ s) ≡ false
unfolding klog_stamp
klog_stamp-colon a b s h = ground (arith)

has_stamp-colon : (a b : ℕ) (s : Bytes) → is_digit a ≡ true → has_stamp (a ∷ b ∷ 58 ∷ s) ≡ false
unfolding has_stamp
has_stamp-colon a b s h = ground (
  arith,
  iso_date_time-colon a b s,
  syslog_month_day-colon a b s,
  weekday_date-colon a b s,
  java_month_day_year-colon a b s,
  klog_stamp-colon a b s,
)

has_stamp-is_clock_time : (s : Bytes) → is_clock_time s ≡ true → has_stamp s ≡ false
unfolding is_clock_time
has_stamp-is_clock_time [] h = absurd (ground arith)
has_stamp-is_clock_time (a ∷ []) h = absurd (ground arith)
has_stamp-is_clock_time (a ∷ b ∷ []) h = absurd (ground arith)
has_stamp-is_clock_time (a ∷ b ∷ c ∷ s) h =
    ap (λ (x : ℕ). has_stamp (a ∷ b ∷ x ∷ s)) (ground arith) ∙ has_stamp-colon a b s (ground arith)

-- A line that has a time of day first, behind a bracket or blanks, does not start a record: what
-- starts one has a date.
starts_with_timestamp-is_clock_time :
    (line : Bytes)
    → is_clock_time (trim_left is_blank (unwrapped line)) ≡ true
    → starts_with_timestamp line ≡ false
unfolding starts_with_timestamp
starts_with_timestamp-is_clock_time line h =
    has_stamp-is_clock_time (trim_left is_blank (unwrapped line)) h
