-- ===== src/Examples/Schedules.antt =====
-- Witnesses for the dispatcher, the schedules and the remote connections.
use sshbackup.Common.{
  ◌≡◌, refl, arith, String, pos, true, false, none, some, [], ◌∷◌, str_eq, if◌then◌else◌,
}
use sshbackup.Calendar.{Time, before, days_in_month, IsDate}
use sshbackup.Domain.{Result, ok, err, Server}
use sshbackup.Scheduler.NextRun.{last_day_of_month, monthly_occurrence, next_monthly, next_run}
use sshbackup.Scheduler.Monthly.{last_day_of_month_lem, next_monthly_first}
use sshbackup.Scheduler.Dispatcher.{
  Dispatcher, new_dispatcher, put, reserve, set_baseline, try_start, due, consider_job, tick,
}
use sshbackup.Scheduler.Limits.{here, next, reserved, IsConsistent, Reach-IsConsistent}
use sshbackup.Examples.Samples.{noon, refusal, job, server, settings, monthly_31}

last_day_of_month_lem_example : last_day_of_month 2024 2 ≡ days_in_month 2024 2
last_day_of_month_lem_example = last_day_of_month_lem 2024 2 (omega arith) (omega arith)

noon-IsDate : IsDate (noon 29)
noon-IsDate = record { month_low = omega arith; month_high = omega arith }

-- The 31st falls on the 29th in February 2024, before noon; the next is in March.
march : next_monthly monthly_31 (noon 29) ≡ monthly_occurrence 2024 3 31 3 30
unfolding next_monthly monthly_occurrence last_day_of_month before
march = refl

april_due : before (noon 29) (monthly_occurrence 2024 4 31 3 30) ≡ true
unfolding monthly_occurrence before
april_due = refl

next_monthly_first_example :
    (before (noon 29) (next_monthly monthly_31 (noon 29)) ≡ true)
    × (before (monthly_occurrence 2024 4 31 3 30) (next_monthly monthly_31 (noon 29)) ≡ false)
next_monthly_first_example =
    next_monthly_first monthly_31 (noon 29) noon-IsDate 2024 4 (omega arith) (omega arith) april_due

abbrev one_reserved : Dispatcher
one_reserved = record {
  scheduled_up_to = λ k. none;
  running_count = 1;
  running_servers = put (λ k. 0) "server" 1;
  active = "server" ∷ [];
  catching = [];
}

reserve_server : reserve "server" (pos 2) new_dispatcher ≡ some one_reserved
unfolding reserve new_dispatcher
reserve_server = refl

Reach-IsConsistent_example : IsConsistent one_reserved
Reach-IsConsistent_example =
    Reach-IsConsistent (next here (reserved "server" (pos 2) reserve_server))

abbrev no_cron : String → Time → Result Time
no_cron expression after = err refusal

abbrev one_server : String → Result Server
one_server id = if str_eq id "server" then ok server else err refusal

abbrev waiting : Dispatcher
waiting = set_baseline "job" (noon 1) new_dispatcher

abbrev leap_day : Time
leap_day = record { year = 2024; month = 2; day = 29; hour = 3; minute = 30; second = 0; nano = 0 }

due_on_leap_day : due (next_run no_cron monthly_31 (noon 1)) (noon 29) ≡ some leap_day
unfolding next_run next_monthly monthly_occurrence before
due_on_leap_day = refl

-- The due job is started.
started_now :
    (tick no_cron (ok settings) (ok (job ∷ [])) one_server (noon 29) waiting).active ≡ "server" ∷ []
unfolding tick sshbackup.Scheduler.Dispatcher.consider_jobs consider_job try_start reserve
    set_baseline new_dispatcher next_run next_monthly monthly_occurrence before
started_now = refl
