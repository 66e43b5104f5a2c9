-- ===== src/Calendar.antt =====
-- What the program uses of Go's `time`: a moment is its wall clock in one zone, whose offset does
-- not change, so two moments compare field by field.
pub mod Format
pub mod Order
use sshbackup.Common.{
  ℕ, zero, suc, ◌+◌, ◌-◌, ◌%◌, Bool, true, false, not, ◌&&◌, ◌||◌, ltb, ◌==◌, if◌then◌else◌, ℤ, pos,
  negsuc, ◌≤◌,
}

pub record Time : Type 0 where
  pub year : ℕ
  pub month : ℕ
  pub day : ℕ
  pub hour : ℕ
  pub minute : ℕ
  pub second : ℕ
  pub nano : ℕ

-- The first difference decides.
abbrev pub lex : ℕ → ℕ → Bool → Bool
lex a b rest = ltb a b || ((a == b) && rest)

-- `a.Before(b)`, which is also `b.After(a)`.
unfoldable pub before : Time → Time → Bool
before a b = lex a.year b.year (
    lex a.month b.month (
      lex a.day b.day
        (lex a.hour b.hour (lex a.minute b.minute (lex a.second b.second (ltb a.nano b.nano))))))

-- The Gregorian leap years.
unfoldable pub is_leap : ℕ → Bool
is_leap y = (y % 4 == 0) && (not (y % 100 == 0) || (y % 400 == 0))

-- The days of month `m`, from 1 to 12, as the calendar has them.
unfoldable pub days_in_month : ℕ → ℕ → ℕ
unfolding is_leap
days_in_month y m =
    if m == 2
    then (if is_leap y then 29 else 28)
    else if m == 4 || m == 6 || m == 9 || m == 11
    then 30
    else 31

-- The day after, and the day before (the first day of year 0 has none).
unfoldable pub next_day : Time → Time
unfolding days_in_month
next_day t =
    if ltb t.day (days_in_month t.year t.month)
    then record t { day = t.day + 1 }
    else if ltb t.month 12
    then record t { month = t.month + 1; day = 1 }
    else record t { year = t.year + 1; month = 1; day = 1 }

unfoldable pub previous_day : Time → Time
unfolding days_in_month
previous_day t =
    if ltb 1 t.day
    then record t { day = t.day - 1 }
    else if ltb 1 t.month
    then record t { month = t.month - 1; day = days_in_month t.year (t.month - 1) }
    else record t { year = t.year - 1; month = 12; day = 31 }

unfoldable pub days_later : ℕ → Time → Time
unfolding next_day
days_later zero t = t
days_later (suc n) t = next_day (days_later n t)

unfoldable pub days_earlier : ℕ → Time → Time
unfolding previous_day
days_earlier zero t = t
days_earlier (suc n) t = previous_day (days_earlier n t)

-- `t.AddDate(0, 0, n)`.
unfoldable pub add_days : Time → ℤ → Time
unfolding days_later days_earlier
add_days t (pos n) = days_later n t
add_days t (negsuc n) = days_earlier (suc n) t

-- `time.Date` at a whole minute, for a month up to 13, which is the next year's January.
unfoldable pub date : ℕ → ℕ → ℕ → ℕ → ℕ → Time
date year month day hour minute = record {
  year = if ltb 12 month then year + 1 else year;
  month = if ltb 12 month then month - 12 else month;
  day = day;
  hour = hour;
  minute = minute;
  second = 0;
  nano = 0;
}

-- A moment of the calendar.
pub record IsDate (t : Time) : Type 0 where
  pub month_low : 1 ≤ t.month
  pub month_high : t.month ≤ 12
