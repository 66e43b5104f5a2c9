-- ===== src/Store/Rows.antt =====
-- The rows of server/internal/store: runs.go, servers.go, settings.go, jobs.go, jobs_children.go.
-- A Go string type such as `domain.RunStatus` is kept as it is: its conversion to a text changes
-- nothing.
use sshbackup.Common.{String, ℤ, Option}
use sshbackup.Domain.{
  Result, ok, err, Run, RunStatus, Trigger, ErrorCode, RecoveryOutcome, Server, AuthenticationType,
  Settings,
}
use sshbackup.Store.Convert.{
  Formats, format_time_ptr, parse_time_ptr, bool_to_int, int_to_bool, join_strings, split_strings,
}

pub record RunRow : Type 0 where
  pub id : String
  pub job_id : String
  pub server_id : String
  pub source_paths : String
  pub trigger : Trigger
  pub started_at : String
  pub finished_at : Option String
  pub status : RunStatus
  pub archive_name : String
  pub archive_size : ℤ
  pub checksum : String
  pub error_code : ErrorCode
  pub error_message : String
  pub recovery_outcome : RecoveryOutcome

pub record ServerRow : Type 0 where
  pub id : String
  pub name : String
  pub host : String
  pub port : ℤ
  pub username : String
  pub authentication_type : AuthenticationType
  pub credential_reference : String
  pub private_key_path : String
  pub host_key_algorithm : String
  pub host_key_fingerprint : String
  pub connection_timeout_seconds : ℤ
  pub command_timeout_seconds : ℤ
  pub created_at : String
  pub updated_at : String

pub record SettingsRow : Type 0 where
  pub schedules_paused : ℤ
  pub global_concurrency_limit : ℤ
  pub notify_success : ℤ
  pub notify_failure : ℤ
  pub stale_remote_cleanup_enabled : ℤ
  pub stale_remote_cleanup_age_hours : ℤ

-- A value, or the error in its place.
abbrev pub with_result : {A B : Type 0} → Result A → (A → Result B) → Result B
with_result (ok a) f = f a
with_result (err e) f = err e

-- The values of `RunRepository.Create`.
unfoldable pub run_row : Formats → Run → RunRow
run_row c run = record {
  id = run.id;
  job_id = run.job_id;
  server_id = run.server_id;
  source_paths = join_strings run.source_paths;
  trigger = run.trigger;
  started_at = c.format_time run.started_at;
  finished_at = format_time_ptr c run.finished_at;
  status = run.status;
  archive_name = run.archive_name;
  archive_size = run.archive_size;
  checksum = run.checksum;
  error_code = run.error_code;
  error_message = run.error_message;
  recovery_outcome = run.recovery_outcome;
}

-- The columns that `RunRepository.Update` sets.
unfoldable pub update_run_row : Formats → Run → RunRow → RunRow
update_run_row c run row = record row {
  finished_at = format_time_ptr c run.finished_at;
  status = run.status;
  archive_name = run.archive_name;
  archive_size = run.archive_size;
  checksum = run.checksum;
  error_code = run.error_code;
  error_message = run.error_message;
  recovery_outcome = run.recovery_outcome;
}

-- `scanRun`.
unfoldable pub scan_run : Formats → RunRow → Result Run
scan_run c row = with_result (c.parse_time row.started_at) (λ started.
    with_result (parse_time_ptr c row.finished_at) (λ finished. ok (record {
      id = row.id;
      job_id = row.job_id;
      server_id = row.server_id;
      source_paths = split_strings row.source_paths;
      trigger = row.trigger;
      started_at = started;
      finished_at = finished;
      status = row.status;
      archive_name = row.archive_name;
      archive_size = row.archive_size;
      checksum = row.checksum;
      error_code = row.error_code;
      error_message = row.error_message;
      recovery_outcome = row.recovery_outcome;
    })))

-- The values of `ServerRepository.Create`.
unfoldable pub server_row : Formats → Server → ServerRow
server_row c s = record {
  id = s.id;
  name = s.name;
  host = s.host;
  port = s.port;
  username = s.username;
  authentication_type = s.auth_type;
  credential_reference = s.credential_reference;
  private_key_path = s.private_key_path;
  host_key_algorithm = s.host_key_algorithm;
  host_key_fingerprint = s.host_key_fingerprint;
  connection_timeout_seconds = s.connection_timeout_seconds;
  command_timeout_seconds = s.command_timeout_seconds;
  created_at = c.format_time s.created_at;
  updated_at = c.format_time s.updated_at;
}

-- The columns that `ServerRepository.Update` sets.
unfoldable pub update_server_row : Formats → Server → ServerRow → ServerRow
update_server_row c s row = record row {
  name = s.name;
  host = s.host;
  port = s.port;
  username = s.username;
  authentication_type = s.auth_type;
  credential_reference = s.credential_reference;
  private_key_path = s.private_key_path;
  host_key_algorithm = s.host_key_algorithm;
  host_key_fingerprint = s.host_key_fingerprint;
  connection_timeout_seconds = s.connection_timeout_seconds;
  command_timeout_seconds = s.command_timeout_seconds;
  updated_at = c.format_time s.updated_at;
}

-- `scanServer`.
unfoldable pub scan_server : Formats → ServerRow → Result Server
scan_server c row = with_result (c.parse_time row.created_at) (λ created.
    with_result (c.parse_time row.updated_at) (λ updated. ok (record {
      id = row.id;
      name = row.name;
      host = row.host;
      port = row.port;
      username = row.username;
      auth_type = row.authentication_type;
      credential_reference = row.credential_reference;
      private_key_path = row.private_key_path;
      host_key_algorithm = row.host_key_algorithm;
      host_key_fingerprint = row.host_key_fingerprint;
      connection_timeout_seconds = row.connection_timeout_seconds;
      command_timeout_seconds = row.command_timeout_seconds;
      created_at = created;
      updated_at = updated;
    })))

-- The values of `SettingsRepository.Update`, which sets every column.
unfoldable pub settings_row : Settings → SettingsRow
settings_row s = record {
  schedules_paused = bool_to_int s.schedules_paused;
  global_concurrency_limit = s.global_concurrency_limit;
  notify_success = bool_to_int s.notify_success;
  notify_failure = bool_to_int s.notify_failure;
  stale_remote_cleanup_enabled = bool_to_int s.stale_remote_cleanup_enabled;
  stale_remote_cleanup_age_hours = s.stale_remote_cleanup_age_hours;
}

-- `SettingsRepository.Get` on the row it scans.
unfoldable pub scan_settings : SettingsRow → Settings
scan_settings row = record {
  schedules_paused = int_to_bool row.schedules_paused;
  global_concurrency_limit = row.global_concurrency_limit;
  notify_success = int_to_bool row.notify_success;
  notify_failure = int_to_bool row.notify_failure;
  stale_remote_cleanup_enabled = int_to_bool row.stale_remote_cleanup_enabled;
  stale_remote_cleanup_age_hours = row.stale_remote_cleanup_age_hours;
}
