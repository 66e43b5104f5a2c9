-- ===== src/Scheduler/Dispatcher.antt =====
-- server/internal/scheduler/dispatcher.go and missedrun.go. What one lock protects is one function;
-- `active` lists the servers of the `runAndRelease` goroutines that have not returned, `catching`
-- those of the catch-up runs of the missed-run detection, which take no place.
use sshbackup.Common.{
  ℕ, ◌+◌, ◌-◌, String, ℤ, pos, Bool, true, false, ◌&&◌, Option, none, some, List, [], ◌∷◌, map, ltb,
  ltb_ℤ, str_eq, if◌then◌else◌,
}
use sshbackup.Calendar.{Time, before}
use sshbackup.Domain.{
  Job, Server, Settings, Run, Result, ok, err, is_automatic, MissedRunPolicy, skip_missed,
  missed_schedule, new_run, skipped,
}
use sshbackup.Scheduler.NextRun.{next_run}

pub record Dispatcher : Type 0 where
  pub scheduled_up_to : String → Option Time
  pub running_count : ℕ
  pub running_servers : String → ℕ
  pub active : List String
  pub catching : List String

-- `NewDispatcher`.
unfoldable pub new_dispatcher : Dispatcher
new_dispatcher = record {
  scheduled_up_to = λ k. none;
  running_count = 0;
  running_servers = λ k. 0;
  active = [];
  catching = [];
}

-- A map with one key set.
abbrev pub put {ℓ} : {V : Type ℓ} → (String → V) → String → V → String → V
put f k v j = if str_eq k j then v else f j

-- d.scheduledUpTo[job] = t
unfoldable pub set_baseline : String → Time → Dispatcher → Dispatcher
set_baseline job t d = record d { scheduled_up_to = put d.scheduled_up_to job (some t) }

-- The critical section of `tryStart`: the limits are tested and a place is taken.
unfoldable pub reserve : String → ℤ → Dispatcher → Option Dispatcher
reserve server limit d =
    if ltb_ℤ (pos d.running_count) limit
    then (if ltb 0 (d.running_servers server)
        then none
        else some (record d {
          running_count = d.running_count + 1;
          running_servers = put d.running_servers server (d.running_servers server + 1);
          active = server ∷ d.active;
        }))
    else none

abbrev pub erase : String → List String → List String
erase x [] = []
erase x (y ∷ ys) = elim (str_eq x y) [ true ↦ ys | false ↦ y ∷ erase x ys ]

-- The deferred section of `runAndRelease`.
unfoldable pub release : String → Dispatcher → Dispatcher
release server d = record d {
  running_count = d.running_count - 1;
  running_servers = put d.running_servers server (d.running_servers server - 1);
  active = erase server d.active;
}

-- `Runner.Run` in `detectMissedRunForJob`, from its call to its return.
unfoldable pub begin_catch_up : String → Dispatcher → Dispatcher
begin_catch_up server d = record d { catching = server ∷ d.catching }

unfoldable pub end_catch_up : String → Dispatcher → Dispatcher
end_catch_up server d = record d { catching = erase server d.catching }

abbrev pub started_or : Option Dispatcher → Dispatcher → Dispatcher × Bool
started_or none d = (d, false)
started_or (some d') d = (d', true)

-- `tryStart`; `servers` answers `Servers.Get`.
unfoldable pub try_start : (String → Result Server) → Job → ℤ → Dispatcher → Dispatcher × Bool
try_start servers job limit d = elim (servers job.server_id) [
  | err e ↦ (d, false)
  | ok server ↦ started_or (reserve job.server_id limit d) d
]

-- An occurrence that is due: computed, found, and not after `now`.
abbrev pub due : Result (Option Time) → Time → Option Time
due (err e) now = none
due (ok none) now = none
due (ok (some next)) now = if before now next then none else some next

abbrev pub settle : String → Time → Dispatcher × Bool → Dispatcher
settle job now (d, started) = if started then set_baseline job now d else d

-- What `detectMissedRunForJob` decides to do about a job.
pub data CatchUp : Type 0 where
  nothing : CatchUp
  record_skipped : Time → CatchUp
  catch_up : CatchUp

abbrev pub is_skip : MissedRunPolicy → Bool
is_skip skip_missed = true
is_skip _ = false

module _ (cron_next : String → Time → Result Time) where
  module _ (servers : String → Result Server) (now : Time) (limit : ℤ) where
    -- `considerJob`.
    unfoldable pub consider_job : Job → Dispatcher → Dispatcher
    consider_job job d = elim (d.scheduled_up_to job.id) [
      | none ↦ set_baseline job.id now d
      | some last ↦ elim (due (next_run cron_next job.schedule last) now) [
        | none ↦ d
        | some next ↦ settle job.id now (try_start servers job limit d)
      ]
    ]

    -- The loop of `tick`.
    unfoldable pub consider_jobs : List Job → Dispatcher → Dispatcher
    consider_jobs [] d = d
    consider_jobs (job ∷ jobs) d =
        consider_jobs jobs
          (if job.enabled && is_automatic job.schedule.schedule_type then consider_job job d else d)

  -- `tick`, given what the settings and the job store answer.
  unfoldable pub tick :
      Result Settings
      → Result (List Job)
      → (String → Result Server)
      → Time
      → Dispatcher
      → Dispatcher
  tick (err e) jobs servers now d = d
  tick (ok settings) (err e) servers now d = d
  tick (ok settings) (ok jobs) servers now d =
      if settings.schedules_paused
      then d
      else consider_jobs servers now settings.global_concurrency_limit jobs d

  -- `detectMissedRunForJob` up to the run that it starts or records; `none` is no earlier run.
  unfoldable pub detect_missed_run : Job → Option Run → Time → Dispatcher → Dispatcher × CatchUp
  detect_missed_run job none now d = (d, nothing)
  detect_missed_run job (some last) now d =
      elim (due (next_run cron_next job.schedule last.started_at) now) [
        | none ↦ (d, nothing)
        | some missed ↦ (
          set_baseline job.id now d,
          if is_skip job.schedule.missed_run_policy then record_skipped missed else catch_up,
        )
      ]

-- The run that `recordSkippedMissedRun` creates.
unfoldable pub skipped_missed_run : String → Job → Time → Time → Run
unfolding new_run
skipped_missed_run id job missed_at finished =
    let run =
      new_run id missed_at job.id job.server_id (map (λ s. s.remote_path) job.sources)
        missed_schedule in
    record run {
      status = skipped;
      error_message = "Scheduled time was missed while the service was not running";
      finished_at = some finished;
    }
