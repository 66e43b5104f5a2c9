-- ===== src/Scheduler/NextRun.antt =====
-- server/internal/scheduler/nextrun.go. robfig/cron is a parameter: the next occurrence of an
-- expression after a moment, or the text of the parser's error.
use sshbackup.Common.{
  ℕ, ◌+◌, String, ◌<>◌, itoa_ℤ, join, quote, negsuc, pos_part, Option, none, some, map, ltb,
  if◌then◌else◌,
}
use sshbackup.Calendar.{Time, before, date, add_days}
use sshbackup.Domain.{
  Schedule, ScheduleType, manual_schedule, daily, weekly, monthly, cron, other_schedule_type,
  Result, ok, err, plain_error,
}

-- `lastDayOfMonth`.
unfoldable pub last_day_of_month : ℕ → ℕ → ℕ
unfolding date add_days
last_day_of_month year month = (add_days (date year (month + 1) 1 0 0) (negsuc 0)).day

-- `monthlyOccurrence` on the schedules that `ValidateSchedule` accepts, whose day is from 1 to 31, hour
-- below 24 and minute below 60: what `time.Date` makes of other numbers is left out.
unfoldable pub monthly_occurrence : ℕ → ℕ → ℕ → ℕ → ℕ → Time
unfolding last_day_of_month
monthly_occurrence year month day hour minute =
    let last = last_day_of_month year month in
    date year month (if ltb last day then last else day) hour minute

-- `nextMonthly`.
unfoldable pub next_monthly : Schedule → Time → Time
next_monthly s after =
    let day = pos_part s.day_of_month in
    let hour = pos_part s.hour in
    let minute = pos_part s.minute in
    let candidate = monthly_occurrence after.year after.month day hour minute in
    if before after candidate
    then candidate
    else if ltb 12 (after.month + 1)
    then monthly_occurrence (after.year + 1) 1 day hour minute
    else monthly_occurrence after.year (after.month + 1) day hour minute

module _ (cron_next : String → Time → Result Time) where
  -- `nextFromCronSpec`.
  unfoldable pub next_from_cron_spec : String → Time → Result (Option Time)
  next_from_cron_spec spec after = elim (cron_next spec after) [
    | ok t ↦ ok (some t)
    | err e ↦ err (record e { text = "parse cron spec " <> quote spec <> ": " <> e.text })
  ]

  next_of_type : ScheduleType → Schedule → Time → Result (Option Time)
  next_of_type manual_schedule s after = ok none
  next_of_type daily s after =
      next_from_cron_spec (itoa_ℤ s.minute <> " " <> itoa_ℤ s.hour <> " * * *") after
  next_of_type weekly s after =
      next_from_cron_spec
        (itoa_ℤ s.minute <> " " <> itoa_ℤ s.hour <> " * * " <> join (map itoa_ℤ s.weekdays) ",")
        after
  next_of_type monthly s after = ok (some (next_monthly s after))
  next_of_type cron s after = next_from_cron_spec s.cron_expression after
  next_of_type (other_schedule_type t) s after =
      err (plain_error ("unknown schedule type " <> quote t))

  -- `NextRun`; `ok` false is `none`.
  unfoldable pub next_run : Schedule → Time → Result (Option Time)
  unfolding next_of_type
  next_run s after = next_of_type s.schedule_type s after
