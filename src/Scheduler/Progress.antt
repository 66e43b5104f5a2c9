-- ===== src/Scheduler/Progress.antt =====
-- What a tick of server/internal/scheduler/dispatcher.go must not leave undone.
use sshbackup.Common.{◌≡◌, String, ℤ, false, none, some, ◌⊎◌}
use sshbackup.Calendar.{Time}
use sshbackup.Domain.{Job, Server, Result}
use sshbackup.Scheduler.NextRun.{next_run}
use sshbackup.Scheduler.Dispatcher.{Dispatcher, due}
use sshbackup.Scheduler.Ticks.{Blocked}
use sshbackup.Scheduler.Account.{is_live}

module _ (cron_next : String → Time → Result Time) (servers : String → Result Server) (now : Time)
    (limit : ℤ) where
  -- A job has its baseline at the tick's time, or it is not due, or something keeps it from starting.
  pub data Handled (d : Dispatcher) (job : Job) : Type 0 where
    moved_on : d.scheduled_up_to job.id ≡ some now → Handled d job
    not_due :
        (last : Time)
        → d.scheduled_up_to job.id ≡ some last
        → due (next_run cron_next job.schedule last) now ≡ none
        → Handled d job
    kept_back :
        (last : Time)
        → d.scheduled_up_to job.id ≡ some last
        → Blocked cron_next servers now limit job d
        → Handled d job

  -- The tick passes over the job, or it is handled.
  abbrev pub IsServed : Dispatcher → Job → Type 0
  IsServed d job = (is_live job ≡ false) ⊎ Handled d job
