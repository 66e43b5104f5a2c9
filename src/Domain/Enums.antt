-- ===== src/Domain/Enums.antt =====
-- server/internal/domain/enums.go, errorcode.go. Go keeps these as texts: where the code has a
-- default branch, a constructor stands for every other text.
use sshbackup.Common.{◌≡◌, ◌⊎◌, inl, inr, refl}
use mathlib.Core.Bool.{Bool, true, false}
use mathlib.Core.Option.{Option, none, some}
use Prim.Native.String.{String}

pub data RunStatus : Type 0 where
  pending running success warning failed cancelled skipped interrupted : RunStatus

pub data StepStatus : Type 0 where
  step_pending step_running step_success step_failed step_skipped step_cancelled : StepStatus

pub data StepType : Type 0 where
  preflight_step pre_backup_script_step archive_step remote_checksum_step download_step : StepType
  local_checksum_step verify_checksum_step post_backup_script_step health_check_step : StepType
  remote_cleanup_step retention_step : StepType

pub data ScriptType : Type 0 where
  pre_backup post_backup : ScriptType
  other_script_type : String → ScriptType

pub data RunCondition : Type 0 where
  on_success on_failure always : RunCondition
  other_run_condition : String → RunCondition

pub data Trigger : Type 0 where
  schedule manual missed_schedule : Trigger

pub data ScheduleType : Type 0 where
  manual_schedule daily weekly monthly cron : ScheduleType
  other_schedule_type : String → ScheduleType

-- `no_policy` is the empty text, which `NewJob` replaces.
pub data MissedRunPolicy : Type 0 where
  run_as_soon_as_possible skip_missed no_policy : MissedRunPolicy
  other_missed_run_policy : String → MissedRunPolicy

pub data AuthenticationType : Type 0 where
  private_key password : AuthenticationType
  other_auth_type : String → AuthenticationType

pub data ArchiveFormat : Type 0 where
  tar_gz : ArchiveFormat
  other_archive_format : String → ArchiveFormat

pub data RecoveryOutcome : Type 0 where
  recovery_not_applicable recovery_success recovery_failed : RecoveryOutcome

-- `no_error_code` is the empty text of a run that has no error.
pub data ErrorCode : Type 0 where
  ssh_connection_failed ssh_auth_failed ssh_host_key_unverified ssh_host_key_changed : ErrorCode
  remote_source_not_found remote_permission_denied remote_tool_missing remote_no_space : ErrorCode
  archive_failed archive_timeout download_failed checksum_mismatch : ErrorCode
  pre_script_failed post_script_failed health_check_failed : ErrorCode
  local_no_space local_permission_denied job_already_running invalid_config : ErrorCode
  run_cancelled not_found internal no_error_code : ErrorCode

-- `RunStatus.IsTerminal`.
abbrev pub is_terminal : RunStatus → Bool
is_terminal RunStatus.pending = false
is_terminal running = false
is_terminal success = true
is_terminal warning = true
is_terminal RunStatus.failed = true
is_terminal cancelled = true
is_terminal skipped = true
is_terminal interrupted = true

-- A Go error: the code that `CodeOf` finds along the Unwrap chain, and what the callers ask of it.
pub record Error : Type 0 where
  pub code : Option ErrorCode
  pub text : String
  pub deadline_exceeded : Bool
  pub not_exist : Bool

-- `code, ok := CodeOf(err); if !ok { code = d }`.
abbrev pub code_or : Error → ErrorCode → ErrorCode
code_or e d = elim e.code [ none ↦ d | some c ↦ c ]

abbrev pub is_no_code : ErrorCode → Bool
is_no_code no_error_code = true
is_no_code internal = false
is_no_code _ = false

abbrev pub same_script_type : ScriptType → ScriptType → Bool
same_script_type pre_backup pre_backup = true
same_script_type post_backup post_backup = true
same_script_type _ _ = false

-- A value or an error.
pub data Result {ℓ} (A : Type ℓ) : Type ℓ where
  ok : A → Result A
  err : Error → Result A

pub Result-cases :
    {A : Type 0} (r : Result A) → ((a : A) × (r ≡ ok a)) ⊎ ((e : Error) × (r ≡ err e))
Result-cases (ok a) = inl (a, refl)
Result-cases (err e) = inr (e, refl)

-- An error made by `fmt.Errorf` with no cause.
abbrev pub plain_error : String → Error
plain_error text = record { code = none; text = text; deadline_exceeded = false; not_exist = false }
