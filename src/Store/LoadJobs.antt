-- ===== src/Store/LoadJobs.antt =====
-- `loadJobs` of server/internal/store/jobs.go with the functions of jobs_children.go: how the rows of
-- five queries make the jobs again.
use sshbackup.Common.{String, pos, Option, none, some, List, [], ◌∷◌, ◌++◌, str_eq, if◌then◌else◌}
use sshbackup.Domain.{
  Result, ok, err, Source, Script, Schedule, no_policy, HealthCheck, Job, other_schedule_type,
}
use sshbackup.Backup.World.{seconds}
use sshbackup.Store.Convert.{Formats, int_to_bool, is_empty, split_strings, split_ints}
use sshbackup.Store.Rows.{with_result}
use sshbackup.Store.JobRows.{JobRow, SourceRow, ScriptRow, ScheduleRow, RetentionRow}

-- The health check of `scanJobRow`.
abbrev pub scan_health_check : JobRow → Option HealthCheck
scan_health_check row =
    if is_empty row.health_check_command
    then none
    else some (record {
      command = row.health_check_command;
      attempts = row.health_check_attempts;
      interval_seconds = row.health_check_interval_seconds;
    })

-- The schedule that `scanJobRow` leaves for `attachSchedules` to set.
abbrev pub no_schedule : Schedule
no_schedule = record {
  schedule_type = other_schedule_type "";
  hour = pos 0;
  minute = pos 0;
  weekdays = [];
  day_of_month = pos 0;
  cron_expression = "";
  missed_run_policy = no_policy;
}

-- `scanJobRow`.
unfoldable pub scan_job_row : Formats → JobRow → Result Job
scan_job_row c row = with_result (c.parse_time row.created_at) (λ created.
    with_result (c.parse_time row.updated_at) (λ updated. ok (record {
      id = row.id;
      name = row.name;
      server_id = row.server_id;
      enabled = int_to_bool row.enabled;
      sources = [];
      scripts = [];
      schedule = no_schedule;
      retention_policy = record { keep_last = none; max_age_days = none };
      health_check = scan_health_check row;
      remote_temp_directory = row.remote_temp_directory;
      local_destination = row.local_destination;
      archive_timeout = seconds row.archive_timeout_seconds;
      archive_format = row.archive_format;
      created_at = created;
      updated_at = updated;
    })))

-- The source, the script, the schedule and the policy that the `attach` functions scan.
unfoldable pub scan_source : SourceRow → Source
scan_source row = record {
  id = row.id;
  position = row.position;
  remote_path = row.remote_path;
  include = split_strings row.include_patterns;
  exclude = split_strings row.exclude_patterns;
}

unfoldable pub scan_script : ScriptRow → Script
scan_script row = record {
  id = row.id;
  script_type = row.script_type;
  command = row.command;
  position = row.position;
  timeout_seconds = row.timeout_seconds;
  run_condition = row.run_condition;
  critical_cleanup = int_to_bool row.critical_cleanup;
  retry_on_failure = int_to_bool row.retry_on_failure;
}

unfoldable pub scan_schedule : Formats → ScheduleRow → Result Schedule
scan_schedule c row = with_result (split_ints c row.weekdays) (λ days. ok (record {
  schedule_type = row.schedule_type;
  hour = row.hour;
  minute = row.minute;
  weekdays = days;
  day_of_month = row.day_of_month;
  cron_expression = row.cron_expression;
  missed_run_policy = row.missed_run_policy;
}))

-- `if j, ok := jobs[id]; ok { … }` on the jobs of the map, in the order of their rows.
abbrev pub at_job : String → (Job → Job) → List Job → List Job
at_job id f [] = []
at_job id f (j ∷ js) = (if str_eq j.id id then f j else j) ∷ at_job id f js

unfoldable pub attach_sources : List SourceRow → List Job → List Job
attach_sources [] jobs = jobs
attach_sources (row ∷ rows) jobs =
    attach_sources rows
      (at_job row.job_id (λ j. record j { sources = j.sources ++ scan_source row ∷ [] }) jobs)

unfoldable pub attach_scripts : List ScriptRow → List Job → List Job
attach_scripts [] jobs = jobs
attach_scripts (row ∷ rows) jobs =
    attach_scripts rows
      (at_job row.job_id (λ j. record j { scripts = j.scripts ++ scan_script row ∷ [] }) jobs)

unfoldable pub attach_schedules : Formats → List ScheduleRow → List Job → Result (List Job)
attach_schedules c [] jobs = ok jobs
attach_schedules c (row ∷ rows) jobs =
    with_result (scan_schedule c row)
      (λ s. attach_schedules c rows (at_job row.job_id (λ j. record j { schedule = s }) jobs))

unfoldable pub attach_retention : List RetentionRow → List Job → List Job
attach_retention [] jobs = jobs
attach_retention (row ∷ rows) jobs = attach_retention rows (
    at_job row.job_id
      (λ j. record j {
        retention_policy = record { keep_last = row.keep_last; max_age_days = row.max_age_days };
      })
      jobs)

-- The answers to the five queries of `loadJobs`: rows in the queries' orders, or an error.
pub record JobQueries : Type 0 where
  pub jobs : Result (List JobRow)
  pub sources : List String → Result (List SourceRow)
  pub scripts : List String → Result (List ScriptRow)
  pub schedules : List String → Result (List ScheduleRow)
  pub retention : List String → Result (List RetentionRow)

abbrev pub push_job : Job → Result (List Job) → Result (List Job)
push_job j (ok js) = ok (j ∷ js)
push_job j (err e) = err e

unfoldable pub scan_jobs : Formats → List JobRow → Result (List Job)
scan_jobs c [] = ok []
scan_jobs c (row ∷ rows) =
    let rest = scan_jobs c rows in with_result (scan_job_row c row) (λ j. push_job j rest)

abbrev pub ids_of : List Job → List String
ids_of [] = []
ids_of (j ∷ js) = j.id ∷ ids_of js

-- `loadJobs` from the second query on.
unfoldable pub attach_children : Formats → JobQueries → List Job → Result (List Job)
attach_children c q [] = ok []
attach_children c q (j ∷ js) =
    let ids = ids_of (j ∷ js) in
    with_result (q.sources ids) (λ sources. with_result (q.scripts ids) (λ scripts.
      with_result (q.schedules ids) (λ schedules.
        with_result
          (attach_schedules c schedules (attach_scripts scripts (attach_sources sources (j ∷ js))))
          (λ jobs. with_result (q.retention ids) (λ rows. ok (attach_retention rows jobs))))))

-- `loadJobs`; the rows' identifiers differ, as the table's primary key.
unfoldable pub load_jobs : Formats → JobQueries → Result (List Job)
load_jobs c q = with_result q.jobs (λ rows. with_result (scan_jobs c rows) (attach_children c q))
