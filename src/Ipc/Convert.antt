-- ===== src/Ipc/Convert.antt =====
-- server/internal/ipc/convert.go. `time.Time` and `time.Duration` are parameters.
use sshbackup.Common.{String, ℤ, Bool, not, Option, none, some, if◌then◌else◌, map}
use sshbackup.Calendar.{Time}
use sshbackup.Domain.{Source, Script, HealthCheck, Job, Server, Settings, Run}
use sshbackup.Domain.Validate.{is_empty}
use sshbackup.Domain.NewJob.{NewJobParams}
use sshbackup.Backup.World.{seconds}
use sshbackup.Ipc.Dto.{ServerDto, SourceDto, ScriptDto, HealthCheckDto, JobDto, SettingsDto, RunDto}

-- `t.IsZero()`, `t.UTC().Format(time.RFC3339)` and `int(d.Seconds())`.
pub record Times : Type 0 where
  pub is_zero_time : Time → Bool
  pub rfc3339 : Time → String
  pub whole_seconds : ℤ → ℤ

abbrev pub format_time : Times → Time → String
format_time c t = if c.is_zero_time t then "" else c.rfc3339 t

abbrev pub format_time_ptr : Times → Option Time → String
format_time_ptr c none = ""
format_time_ptr c (some t) = format_time c t

-- `serverToDTO`.
abbrev pub server_to_dto : Times → Server → ServerDto
server_to_dto c s = record {
  id = s.id;
  name = s.name;
  host = s.host;
  port = s.port;
  username = s.username;
  auth_type = s.auth_type;
  has_credential = not (is_empty s.credential_reference);
  host_key_algorithm = s.host_key_algorithm;
  host_key_fingerprint = s.host_key_fingerprint;
  connection_timeout_seconds = s.connection_timeout_seconds;
  command_timeout_seconds = s.command_timeout_seconds;
  created_at = format_time c s.created_at;
  updated_at = format_time c s.updated_at;
}

-- The loops of `jobToDTO` and `dtoToJobParams`.
abbrev pub source_to_dto : Source → SourceDto
source_to_dto s = record {
  remote_path = s.remote_path;
  position = s.position;
  include = s.include;
  exclude = s.exclude;
}

abbrev pub script_to_dto : Script → ScriptDto
script_to_dto s = record {
  script_type = s.script_type;
  command = s.command;
  position = s.position;
  timeout_seconds = s.timeout_seconds;
  run_condition = s.run_condition;
  critical_cleanup = s.critical_cleanup;
  retry_on_failure = s.retry_on_failure;
}

abbrev pub dto_to_source : SourceDto → Source
dto_to_source s = record {
  id = "";
  position = s.position;
  remote_path = s.remote_path;
  include = s.include;
  exclude = s.exclude;
}

abbrev pub dto_to_script : ScriptDto → Script
dto_to_script s = record {
  id = "";
  script_type = s.script_type;
  command = s.command;
  position = s.position;
  timeout_seconds = s.timeout_seconds;
  run_condition = s.run_condition;
  critical_cleanup = s.critical_cleanup;
  retry_on_failure = s.retry_on_failure;
}

abbrev pub health_check_to_dto : Option HealthCheck → Option HealthCheckDto
health_check_to_dto none = none
health_check_to_dto (some h) =
    some
      (record { command = h.command; attempts = h.attempts; interval_seconds = h.interval_seconds })

abbrev pub dto_to_health_check : Option HealthCheckDto → Option HealthCheck
dto_to_health_check none = none
dto_to_health_check (some h) =
    some
      (record { command = h.command; attempts = h.attempts; interval_seconds = h.interval_seconds })

-- `jobToDTO`.
abbrev pub job_to_dto : Times → Job → String → JobDto
job_to_dto c j next_run_at = record {
  id = j.id;
  name = j.name;
  server_id = j.server_id;
  enabled = j.enabled;
  sources = map source_to_dto j.sources;
  scripts = map script_to_dto j.scripts;
  schedule = record {
    schedule_type = j.schedule.schedule_type;
    hour = j.schedule.hour;
    minute = j.schedule.minute;
    weekdays = j.schedule.weekdays;
    day_of_month = j.schedule.day_of_month;
    cron_expression = j.schedule.cron_expression;
    missed_run_policy = j.schedule.missed_run_policy;
  };
  retention_policy = record {
    keep_last = j.retention_policy.keep_last;
    max_age_days = j.retention_policy.max_age_days;
  };
  health_check = health_check_to_dto j.health_check;
  archive_format = j.archive_format;
  remote_temp_directory = j.remote_temp_directory;
  local_destination = j.local_destination;
  archive_timeout_seconds = c.whole_seconds j.archive_timeout;
  next_run_at = next_run_at;
  created_at = format_time c j.created_at;
  updated_at = format_time c j.updated_at;
}

-- `dtoToJobParams`.
abbrev pub dto_to_job_params : JobDto → NewJobParams
dto_to_job_params d = record {
  name = d.name;
  server_id = d.server_id;
  enabled = d.enabled;
  sources = map dto_to_source d.sources;
  scripts = map dto_to_script d.scripts;
  schedule = record {
    schedule_type = d.schedule.schedule_type;
    hour = d.schedule.hour;
    minute = d.schedule.minute;
    weekdays = d.schedule.weekdays;
    day_of_month = d.schedule.day_of_month;
    cron_expression = d.schedule.cron_expression;
    missed_run_policy = d.schedule.missed_run_policy;
  };
  retention_policy = record {
    keep_last = d.retention_policy.keep_last;
    max_age_days = d.retention_policy.max_age_days;
  };
  health_check = dto_to_health_check d.health_check;
  remote_temp_directory = d.remote_temp_directory;
  local_destination = d.local_destination;
  archive_timeout = seconds d.archive_timeout_seconds;
}

-- `runToDTO`.
abbrev pub run_to_dto : Times → Run → RunDto
run_to_dto c r = record {
  id = r.id;
  job_id = r.job_id;
  server_id = r.server_id;
  source_paths = r.source_paths;
  trigger = r.trigger;
  started_at = format_time c r.started_at;
  finished_at = format_time_ptr c r.finished_at;
  status = r.status;
  archive_name = r.archive_name;
  archive_size = r.archive_size;
  checksum = r.checksum;
  error_code = r.error_code;
  error_message = r.error_message;
  recovery_outcome = r.recovery_outcome;
}

-- `settingsToDTO` and `dtoToSettings`.
abbrev pub settings_to_dto : Settings → SettingsDto
settings_to_dto s = record {
  schedules_paused = s.schedules_paused;
  global_concurrency_limit = s.global_concurrency_limit;
  notify_success = s.notify_success;
  notify_failure = s.notify_failure;
  stale_remote_cleanup_enabled = s.stale_remote_cleanup_enabled;
  stale_remote_cleanup_age_hours = s.stale_remote_cleanup_age_hours;
}

abbrev pub dto_to_settings : SettingsDto → Settings
dto_to_settings d = record {
  schedules_paused = d.schedules_paused;
  global_concurrency_limit = d.global_concurrency_limit;
  notify_success = d.notify_success;
  notify_failure = d.notify_failure;
  stale_remote_cleanup_enabled = d.stale_remote_cleanup_enabled;
  stale_remote_cleanup_age_hours = d.stale_remote_cleanup_age_hours;
}
