-- ===== src/Store/JobRows.antt =====
-- The rows of a job in server/internal/store/jobs.go and jobs_children.go: what is written for the
-- job and its children.
use sshbackup.Common.{String, ℤ, pos, Option, none, some}
use sshbackup.Domain.{
  Source, Script, ScriptType, RunCondition, Schedule, ScheduleType, MissedRunPolicy,
  RetentionPolicy, HealthCheck, Job, ArchiveFormat,
}
use sshbackup.Store.Convert.{Formats, bool_to_int, join_strings, join_ints}

pub record JobRow : Type 0 where
  pub id : String
  pub name : String
  pub server_id : String
  pub enabled : ℤ
  pub archive_format : ArchiveFormat
  pub remote_temp_directory : String
  pub local_destination : String
  pub archive_timeout_seconds : ℤ
  pub health_check_command : String
  pub health_check_attempts : ℤ
  pub health_check_interval_seconds : ℤ
  pub created_at : String
  pub updated_at : String

pub record SourceRow : Type 0 where
  pub id : String
  pub job_id : String
  pub remote_path : String
  pub position : ℤ
  pub include_patterns : String
  pub exclude_patterns : String

pub record ScriptRow : Type 0 where
  pub id : String
  pub job_id : String
  pub script_type : ScriptType
  pub command : String
  pub position : ℤ
  pub timeout_seconds : ℤ
  pub run_condition : RunCondition
  pub critical_cleanup : ℤ
  pub retry_on_failure : ℤ

pub record ScheduleRow : Type 0 where
  pub job_id : String
  pub schedule_type : ScheduleType
  pub hour : ℤ
  pub minute : ℤ
  pub weekdays : String
  pub day_of_month : ℤ
  pub cron_expression : String
  pub missed_run_policy : MissedRunPolicy

-- A column of type `sql.NullInt64` is an option.
pub record RetentionRow : Type 0 where
  pub job_id : String
  pub keep_last : Option ℤ
  pub max_age_days : Option ℤ

abbrev pub health_check_command : Option HealthCheck → String
health_check_command none = ""
health_check_command (some h) = h.command

abbrev pub health_check_attempts : Option HealthCheck → ℤ
health_check_attempts none = pos 0
health_check_attempts (some h) = h.attempts

abbrev pub health_check_interval_seconds : Option HealthCheck → ℤ
health_check_interval_seconds none = pos 0
health_check_interval_seconds (some h) = h.interval_seconds

-- The values of `insertJobRow`.
unfoldable pub job_row : Formats → Job → JobRow
job_row c j = record {
  id = j.id;
  name = j.name;
  server_id = j.server_id;
  enabled = bool_to_int j.enabled;
  archive_format = j.archive_format;
  remote_temp_directory = j.remote_temp_directory;
  local_destination = j.local_destination;
  archive_timeout_seconds = c.whole_seconds j.archive_timeout;
  health_check_command = health_check_command j.health_check;
  health_check_attempts = health_check_attempts j.health_check;
  health_check_interval_seconds = health_check_interval_seconds j.health_check;
  created_at = c.format_time j.created_at;
  updated_at = c.format_time j.updated_at;
}

-- The values of the insertions of `replaceJobChildren`.
unfoldable pub source_row : String → Source → SourceRow
source_row job_id s = record {
  id = s.id;
  job_id = job_id;
  remote_path = s.remote_path;
  position = s.position;
  include_patterns = join_strings s.include;
  exclude_patterns = join_strings s.exclude;
}

unfoldable pub script_row : String → Script → ScriptRow
script_row job_id sc = record {
  id = sc.id;
  job_id = job_id;
  script_type = sc.script_type;
  command = sc.command;
  position = sc.position;
  timeout_seconds = sc.timeout_seconds;
  run_condition = sc.run_condition;
  critical_cleanup = bool_to_int sc.critical_cleanup;
  retry_on_failure = bool_to_int sc.retry_on_failure;
}

-- The values of `upsertSchedule`.
unfoldable pub schedule_row : String → Schedule → ScheduleRow
schedule_row job_id s = record {
  job_id = job_id;
  schedule_type = s.schedule_type;
  hour = s.hour;
  minute = s.minute;
  weekdays = join_ints s.weekdays;
  day_of_month = s.day_of_month;
  cron_expression = s.cron_expression;
  missed_run_policy = s.missed_run_policy;
}

-- The values of `upsertRetention`.
unfoldable pub retention_row : String → RetentionPolicy → RetentionRow
retention_row job_id p = record {
  job_id = job_id;
  keep_last = p.keep_last;
  max_age_days = p.max_age_days;
}
