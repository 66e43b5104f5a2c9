-- ===== src/Ipc/Dto.antt =====
-- server/internal/ipc/messages.go: the records on the wire. A Go string type is converted to a text
-- and back, which changes nothing.
use sshbackup.Common.{String, ℤ, Bool, Option, List}
use sshbackup.Domain.{
  ScriptType, RunCondition, ScheduleType, MissedRunPolicy, ArchiveFormat, AuthenticationType,
  Trigger, RunStatus, ErrorCode, RecoveryOutcome,
}

pub record ServerDto : Type 0 where
  pub id : String
  pub name : String
  pub host : String
  pub port : ℤ
  pub username : String
  pub auth_type : AuthenticationType
  pub has_credential : Bool
  pub host_key_algorithm : String
  pub host_key_fingerprint : String
  pub connection_timeout_seconds : ℤ
  pub command_timeout_seconds : ℤ
  pub created_at : String
  pub updated_at : String

pub record SourceDto : Type 0 where
  pub remote_path : String
  pub position : ℤ
  pub include : List String
  pub exclude : List String

pub record ScriptDto : Type 0 where
  pub script_type : ScriptType
  pub command : String
  pub position : ℤ
  pub timeout_seconds : ℤ
  pub run_condition : RunCondition
  pub critical_cleanup : Bool
  pub retry_on_failure : Bool

pub record ScheduleDto : Type 0 where
  pub schedule_type : ScheduleType
  pub hour : ℤ
  pub minute : ℤ
  pub weekdays : List ℤ
  pub day_of_month : ℤ
  pub cron_expression : String
  pub missed_run_policy : MissedRunPolicy

pub record RetentionPolicyDto : Type 0 where
  pub keep_last : Option ℤ
  pub max_age_days : Option ℤ

pub record HealthCheckDto : Type 0 where
  pub command : String
  pub attempts : ℤ
  pub interval_seconds : ℤ

pub record JobDto : Type 0 where
  pub id : String
  pub name : String
  pub server_id : String
  pub enabled : Bool
  pub sources : List SourceDto
  pub scripts : List ScriptDto
  pub schedule : ScheduleDto
  pub retention_policy : RetentionPolicyDto
  pub health_check : Option HealthCheckDto
  pub archive_format : ArchiveFormat
  pub remote_temp_directory : String
  pub local_destination : String
  pub archive_timeout_seconds : ℤ
  pub next_run_at : String
  pub created_at : String
  pub updated_at : String

pub record SettingsDto : Type 0 where
  pub schedules_paused : Bool
  pub global_concurrency_limit : ℤ
  pub notify_success : Bool
  pub notify_failure : Bool
  pub stale_remote_cleanup_enabled : Bool
  pub stale_remote_cleanup_age_hours : ℤ

pub record RunDto : Type 0 where
  pub id : String
  pub job_id : String
  pub server_id : String
  pub source_paths : List String
  pub trigger : Trigger
  pub started_at : String
  pub finished_at : String
  pub status : RunStatus
  pub archive_name : String
  pub archive_size : ℤ
  pub checksum : String
  pub error_code : ErrorCode
  pub error_message : String
  pub recovery_outcome : RecoveryOutcome
