-- ===== src/Scheduler/Monthly.antt =====
-- The monthly schedules of server/internal/scheduler/nextrun.go, against the calendar.
use sshbackup.Common.{
  ℕ, ◌+◌, ◌≤◌, ◌<◌, ◌≡◌, true, false, arith, ltb, pos_part, ◌⊎◌, inl, inr, Bool-cases,
  if◌then◌else◌,
}
use sshbackup.Calendar.{Time, before, date, days_in_month, IsDate}
use sshbackup.Calendar.Order.{before_irrefl, before_of_month, month_of_before}
use sshbackup.Domain.{Schedule}
use sshbackup.Scheduler.NextRun.{last_day_of_month, monthly_occurrence, next_monthly}

-- For a month from 1 to 12, the arithmetic of dates gives the calendar's number of days in it.
pub last_day_of_month_lem : (y m : ℕ) → 1 ≤ m → m ≤ 12 → last_day_of_month y m ≡ days_in_month y m
unfolding last_day_of_month days_in_month
last_day_of_month_lem y m h k = ground arith

abbrev occurrence : Schedule → ℕ → ℕ → Time
occurrence s year month =
    monthly_occurrence year month (pos_part s.day_of_month) (pos_part s.hour) (pos_part s.minute)

occurrence_month :
    (s : Schedule) (y m : ℕ)
    → m ≤ 12
    → ((occurrence s y m).year ≡ y) × ((occurrence s y m).month ≡ m)
unfolding monthly_occurrence date
occurrence_month s y m h = ground arith

module _ (s : Schedule) (after : Time) (d : IsDate after) where
  -- The month that follows.
  next_year : ℕ
  next_year = if ltb 12 (after.month + 1) then after.year + 1 else after.year

  next_month : ℕ
  next_month = if ltb 12 (after.month + 1) then 1 else after.month + 1

  next_month_after :
      (next_month ≤ 12)
      × ((after.year < next_year) ⊎ ((after.year ≡ next_year) × (after.month < next_month)))
  unfolding next_year next_month
  next_month_after = ground (arith, d.month_high)

  next_monthly_lem : next_monthly s after ≡ (
      if before after (occurrence s after.year after.month)
      then occurrence s after.year after.month
      else occurrence s next_year next_month)
  unfolding next_monthly next_year next_month
  next_monthly_lem = ground arith

  abbrev this_one : Time
  this_one = occurrence s after.year after.month

  abbrev following : Time
  following = occurrence s next_year next_month

  following_after : before after following ≡ true
  following_after =
      before_of_month after following (
        ground
          (arith, occurrence_month s next_year next_month next_month_after.0, next_month_after))

  -- The next monthly occurrence lies strictly after the moment it is asked for.
  pub next_monthly-before : before after (next_monthly s after) ≡ true
  next_monthly-before = ground (arith, next_monthly_lem, following_after)

  module _ (y m : ℕ) (low : 1 ≤ m) (high : m ≤ 12)
      (due : before after (occurrence s y m) ≡ true) where
    this_first : before (occurrence s y m) this_one ≡ false
    this_first = elim (Bool-cases (before (occurrence s y m) this_one)) [
      | inr k ↦ k
      | inl k ↦ ground (
        arith,
        occurrence_month s y m high,
        d.month_high,
        occurrence_month s after.year after.month d.month_high,
        month_of_before (occurrence s y m) this_one k,
        month_of_before after (occurrence s y m) due,
        before_irrefl this_one,
      )
    ]

    same_month :
        before (occurrence s y m) following ≡ true
        → ((y ≡ after.year) × (m ≡ after.month)) ⊎ ((y ≡ next_year) × (m ≡ next_month))
    unfolding next_year next_month
    same_month k = ground (
      arith,
      occurrence_month s y m high,
      d.month_high,
      occurrence_month s next_year next_month next_month_after.0,
      month_of_before (occurrence s y m) following k,
      month_of_before after (occurrence s y m) due,
    )

    following_first : before after this_one ≡ false → before (occurrence s y m) following ≡ false
    following_first passed = elim (Bool-cases (before (occurrence s y m) following)) [
      | inr k ↦ k
      | inl k ↦ ground (arith, same_month k, due, passed, before_irrefl following)
    ]

    -- For a moment in a month from 1 to 12, the occurrence that `nextMonthly` gives lies strictly
    -- after it, and no monthly occurrence of the schedule after that moment, in whatever year and
    -- month, comes before the one that it gives.
    pub next_monthly_first :
        (before after (next_monthly s after) ≡ true)
        × (before (occurrence s y m) (next_monthly s after) ≡ false)
    next_monthly_first =
        (next_monthly-before, ground (arith, next_monthly_lem, this_first, following_first))
