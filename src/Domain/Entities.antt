-- ===== src/Domain/Entities.antt =====
-- server/internal/domain: the entities as records, one field for each field that the code reads.
use sshbackup.Common.{
  String, ℤ, Bool, true, false, not, Option, none, some, List, if◌then◌else◌, ◌<>◌,
}
use sshbackup.Domain.Enums.{
  RunStatus, StepStatus, StepType, ScriptType, RunCondition, on_success, on_failure, always,
  other_run_condition, Trigger, ScheduleType, manual_schedule, daily, MissedRunPolicy,
  AuthenticationType, ArchiveFormat, RecoveryOutcome, ErrorCode, is_terminal, pending,
  no_error_code, recovery_not_applicable, step_running, step_skipped,
}
use sshbackup.Calendar.{Time}

pub record Source : Type 0 where
  pub id : String
  pub position : ℤ
  pub remote_path : String
  pub include : List String
  pub exclude : List String

pub record Script : Type 0 where
  pub id : String
  pub script_type : ScriptType
  pub command : String
  pub position : ℤ
  pub timeout_seconds : ℤ
  pub run_condition : RunCondition
  pub critical_cleanup : Bool
  pub retry_on_failure : Bool

pub record Schedule : Type 0 where
  pub schedule_type : ScheduleType
  pub hour : ℤ
  pub minute : ℤ
  pub weekdays : List ℤ
  pub day_of_month : ℤ
  pub cron_expression : String
  pub missed_run_policy : MissedRunPolicy

pub record RetentionPolicy : Type 0 where
  pub keep_last : Option ℤ
  pub max_age_days : Option ℤ

pub record HealthCheck : Type 0 where
  pub command : String
  pub attempts : ℤ
  pub interval_seconds : ℤ

pub record Job : Type 0 where
  pub id : String
  pub name : String
  pub server_id : String
  pub enabled : Bool
  pub sources : List Source
  pub scripts : List Script
  pub schedule : Schedule
  pub retention_policy : RetentionPolicy
  pub health_check : Option HealthCheck
  pub remote_temp_directory : String
  pub local_destination : String
  pub archive_timeout : ℤ
  pub archive_format : ArchiveFormat
  pub created_at : Time
  pub updated_at : Time

pub record Server : Type 0 where
  pub id : String
  pub name : String
  pub host : String
  pub port : ℤ
  pub username : String
  pub auth_type : AuthenticationType
  pub credential_reference : String
  pub private_key_path : String
  pub host_key_algorithm : String
  pub host_key_fingerprint : String
  pub connection_timeout_seconds : ℤ
  pub command_timeout_seconds : ℤ
  pub created_at : Time
  pub updated_at : Time

pub record Settings : Type 0 where
  pub schedules_paused : Bool
  pub global_concurrency_limit : ℤ
  pub notify_success : Bool
  pub notify_failure : Bool
  pub stale_remote_cleanup_enabled : Bool
  pub stale_remote_cleanup_age_hours : ℤ

pub record Run : Type 0 where
  pub id : String
  pub job_id : String
  pub server_id : String
  pub source_paths : List String
  pub trigger : Trigger
  pub started_at : Time
  pub finished_at : Option Time
  pub status : RunStatus
  pub archive_name : String
  pub archive_size : ℤ
  pub checksum : String
  pub error_code : ErrorCode
  pub error_message : String
  pub recovery_outcome : RecoveryOutcome

pub record RunStep : Type 0 where
  pub id : String
  pub run_id : String
  pub step_type : StepType
  pub started_at : Time
  pub finished_at : Option Time
  pub status : StepStatus
  pub output : String
  pub error : String
  pub command : String

-- `NewRun` with the identifier that `NewID` gave.
unfoldable pub new_run : String → Time → String → String → List String → Trigger → Run
new_run id now job_id server_id source_paths trigger = record {
  id = id;
  job_id = job_id;
  server_id = server_id;
  source_paths = source_paths;
  trigger = trigger;
  started_at = now;
  finished_at = none;
  status = pending;
  archive_name = "";
  archive_size = ℤ.pos 0;
  checksum = "";
  error_code = no_error_code;
  error_message = "";
  recovery_outcome = recovery_not_applicable;
}

-- `Run.Finish`: a terminal status is kept.
unfoldable pub finish : Time → RunStatus → Run → Run
finish now status run =
    if is_terminal run.status then run else record run { status = status; finished_at = some now }

-- `NewRunStep` with the identifier that `NewID` gave.
abbrev pub new_run_step : String → Time → String → StepType → RunStep
new_run_step id now run_id step_type = record {
  id = id;
  run_id = run_id;
  step_type = step_type;
  started_at = now;
  finished_at = none;
  status = step_running;
  output = "";
  error = "";
  command = "";
}

-- `RunStep.Finish`.
abbrev pub finish_step : Time → StepStatus → RunStep → RunStep
finish_step now status step = record step { status = status; finished_at = some now }

-- `RunStep.Skip`.
abbrev pub skip_step : Time → String → RunStep → RunStep
skip_step now reason step = record step {
  status = step_skipped;
  error = reason;
  finished_at = some now;
}

-- `Script.ShouldRun`.
unfoldable pub should_run : RunCondition → Bool → Bool
should_run always failed_so_far = true
should_run on_failure failed_so_far = failed_so_far
should_run on_success failed_so_far = not failed_so_far
should_run (other_run_condition s) failed_so_far = false

-- `Job.RemoteJobDirectory`.
abbrev pub remote_job_directory : Job → String
remote_job_directory j = j.remote_temp_directory <> "/" <> j.id

-- `Schedule.IsAutomatic`.
abbrev pub is_automatic : ScheduleType → Bool
is_automatic manual_schedule = false
is_automatic daily = true
is_automatic _ = true

-- `RetentionPolicy.HasLimit`.
abbrev pub has_limit : RetentionPolicy → Bool
has_limit p = elim p.keep_last [
  | some _ ↦ true
  | none ↦ elim p.max_age_days [ some _ ↦ true | none ↦ false ]
]
