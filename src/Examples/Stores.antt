-- ===== src/Examples/Stores.antt =====
-- Witnesses for the store.
use sshbackup.Common.{
  ℕ, ◌≡◌, ◌⊎◌, refl, String, pos, true, false, Option, none, some, List, [], ◌∷◌, map,
}
use sshbackup.Domain.{Result, ok, Error, Job, Run, Server, interrupted, success}
use sshbackup.Store.Table.{Table}
use sshbackup.Store.Rows.{
  RunRow, run_row, update_run_row, scan_run, server_row, update_server_row, scan_server,
}
use sshbackup.Store.JobRows.{job_row, source_row, script_row, schedule_row, retention_row}
use sshbackup.Store.LoadJobs.{JobQueries, load_jobs}
use sshbackup.Store.JobTrip.{IsSavable, FindsJob, load_jobs-job_row}
use sshbackup.Store.RowTrip.{IsLaterRun, scan_run-update_run_row}
use sshbackup.Store.Lists.{storable}
use sshbackup.Store.Locks.{JobLock, same_job, acquire, release, get, list, release_stale_locks}
use sshbackup.Store.LocksMap.{
  locks_in, Acquires, Releases, locks_refine, release_stale_locks-unlocked,
}
use sshbackup.Store.Runs.{same_run, interrupt_running_runs, recover_interrupted_runs}
use sshbackup.Store.Recovery.{Stopped, recover_interrupted_runs-Stopped}
use sshbackup.Examples.Samples.{job, run_of, noon}
use sshbackup.Store.JobRows.{JobRow}
use sshbackup.Store.Jobs.{Tables, delete_job}
use sshbackup.Store.Deletion.{same_id, IsStore, IsDeleted, delete_job-IsDeleted}
use sshbackup.Examples.Memory.{memory, memory-IsTable, part, part-IsTable, formats}

abbrev queries : JobQueries
queries = record {
  jobs = ok (job_row formats job ∷ []);
  sources = λ ids. ok (map (source_row "job") job.sources);
  scripts = λ ids. ok (map (script_row "job") job.scripts);
  schedules = λ ids. ok (schedule_row "job" job.schedule ∷ []);
  retention = λ ids. ok (retention_row "job" job.retention_policy ∷ []);
}

job-IsSavable : IsSavable formats job
unfolding sshbackup.Common.Text.itoa sshbackup.Common.Text.atoi_ℕ
job-IsSavable = record {
  created = refl;
  updated = refl;
  timeout = refl;
  sources = ((refl, refl), tt);
  weekdays = tt;
  checked = refl;
}

queries-FindsJob : FindsJob formats queries job
queries-FindsJob = record {
  jobs = refl;
  sources = refl;
  scripts = refl;
  schedules = refl;
  retention = refl;
}

load_jobs-job_row_example : load_jobs formats queries ≡ ok (job ∷ [])
load_jobs-job_row_example = load_jobs-job_row formats queries job job-IsSavable queries-FindsJob

-- A run, and the same run when it has ended.
abbrev earlier : Run
earlier = run_of 3

abbrev ended : Run
ended = record earlier { status = success; finished_at = some (noon 4) }

time_kept : formats.parse_time (formats.format_time earlier.started_at) ≡ ok earlier.started_at
unfolding sshbackup.Common.Text.itoa sshbackup.Common.Text.atoi_ℕ sshbackup.Domain.Entities.new_run
time_kept = refl

end_kept : formats.parse_time (formats.format_time (noon 4)) ≡ ok (noon 4)
unfolding sshbackup.Common.Text.itoa sshbackup.Common.Text.atoi_ℕ
end_kept = refl

paths_kept : storable earlier.source_paths ≡ true
unfolding sshbackup.Domain.Entities.new_run
paths_kept = refl

earlier-IsLaterRun : IsLaterRun earlier ended
earlier-IsLaterRun = record {
  id = refl;
  job_id = refl;
  server_id = refl;
  source_paths = refl;
  trigger = refl;
  started_at = refl;
}

scan_run-update_run_row_example :
    scan_run formats (update_run_row formats ended (run_row formats earlier)) ≡ ok ended
scan_run-update_run_row_example =
    scan_run-update_run_row formats earlier ended earlier-IsLaterRun paths_kept time_kept end_kept

abbrev lock : String → JobLock
lock id = record { job_id = id; run_id = "run"; started_at = "1"; process_id = pos 7 }

abbrev locks : Table (List JobLock) JobLock
locks = memory same_job

locks_refine_example :
    Acquires locks
      (memory-IsTable same_job)
      (lock "b")
      (lock "a" ∷ [])
      (acquire locks (lock "b") (lock "a" ∷ []))
    × Releases locks
        (memory-IsTable same_job)
        "a"
        (lock "a" ∷ [])
        (release locks "a" (lock "a" ∷ []))
    × ((o : Option JobLock)
        → get locks "a" (lock "a" ∷ []) ≡ ok o
        → o ≡ locks_in locks (memory-IsTable same_job) (lock "a" ∷ []) "a")
locks_refine_example = locks_refine locks (memory-IsTable same_job) (lock "b") "a" (lock "a" ∷ [])

both_listed : list locks (lock "a" ∷ lock "b" ∷ []) ≡ ok (lock "a" ∷ lock "b" ∷ [])
unfolding list
both_listed = refl

release_stale_locks-unlocked_example :
    locks_in locks
      (memory-IsTable same_job)
      (release_stale_locks locks (lock "a" ∷ lock "b" ∷ []))
      "b"
    ≡ none
release_stale_locks-unlocked_example =
    release_stale_locks-unlocked locks (memory-IsTable same_job) (λ p d. refl)
      (lock "a" ∷ lock "b" ∷ []) (lock "a" ∷ lock "b" ∷ []) "b" both_listed

abbrev runs : Table (List RunRow) RunRow
runs = memory same_run

-- A run that was in progress.
abbrev halted : List RunRow
halted = run_row formats earlier ∷ []

interrupted_one :
    (interrupt_running_runs runs (λ rows. rows) formats (noon 4) halted).0 ≡ ok ("run" ∷ [])
unfolding interrupt_running_runs sshbackup.Store.Runs.running_ids sshbackup.Store.Rows.run_row
    sshbackup.Domain.Entities.new_run sshbackup.Store.Runs.interrupt_found
interrupted_one = refl

recover_interrupted_runs-Stopped_example :
    Stopped runs
      (λ rows. rows)
      formats
      (memory-IsTable same_run)
      (recover_interrupted_runs runs (λ rows. rows) formats (noon 4) halted)
recover_interrupted_runs-Stopped_example =
    recover_interrupted_runs-Stopped runs (λ rows. rows) formats (memory-IsTable same_run) (noon 4)
      halted ("run" ∷ []) interrupted_one

-- Three tables in memory.
abbrev Disk : Type 0
Disk = List JobRow × List RunRow × List JobLock

abbrev job_table : Table Disk JobRow
job_table = part (λ d. d.0) (λ rows d. (rows, d.1, d.2)) same_id

abbrev run_table : Table Disk RunRow
run_table = part (λ d. d.1) (λ rows d. (d.0, rows, d.2)) same_run

abbrev lock_table : Table Disk JobLock
lock_table = part (λ d. d.2) (λ rows d. (d.0, d.1, rows)) same_job

abbrev disk_tables : Tables Disk
disk_tables = record {
  jobs = job_table;
  sources = part (λ d. []) (λ rows d. d) (λ a b. false);
  scripts = part (λ d. []) (λ rows d. d) (λ a b. false);
  upsert_schedule = λ row d. (none, d);
  upsert_retention = λ row d. (none, d);
  runs = run_table;
  locks = lock_table;
  begin = λ d. none;
  commit = λ d. none;
}

disk-IsStore : IsStore disk_tables
disk-IsStore = record {
  jobs = part-IsTable (λ d. d.0) (λ rows d. (rows, d.1, d.2)) same_id (λ rows d. refl);
  runs = part-IsTable (λ d. d.1) (λ rows d. (d.0, rows, d.2)) same_run (λ rows d. refl);
  locks = part-IsTable (λ d. d.2) (λ rows d. (d.0, d.1, rows)) same_job (λ rows d. refl);
  runs_apart = λ p d. refl;
  jobs_apart = λ p d. refl;
}

-- A job with a run, and a lock of another job.
abbrev disk : Disk
disk = (job_row formats job ∷ [], run_row formats ended ∷ [], lock "other" ∷ [])

delete_job-IsDeleted_example :
    (((delete_job disk_tables formats "job" true disk).0 ≡ none)
      × IsDeleted disk_tables formats disk-IsStore "job" true disk
          (delete_job disk_tables formats "job" true disk).1)
    ⊎ ((e : Error) × ((delete_job disk_tables formats "job" true disk).0 ≡ some e)
        × ((delete_job disk_tables formats "job" true disk).1 ≡ disk))
delete_job-IsDeleted_example = delete_job-IsDeleted disk_tables formats disk-IsStore "job" true disk
