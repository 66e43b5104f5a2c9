-- ===== src/Domain/Validate.antt =====
-- The Validate methods of server/internal/domain. `errors.Join` of the errors is the list of their
-- messages, empty for nil. Whether robfig/cron accepts an expression is a parameter: the text of
-- its error, if any.
use sshbackup.Common.{
  String, ℤ, Bool, true, false, Option, none, some, List, [], ◌∷◌, ◌++◌, ◌<>◌, ltb_ℤ, str_eq,
  if◌then◌else◌, itoa_ℤ, quote, is_blank, ◌&&◌, ◌||◌, not, ◌==◌,
}
use sshbackup.Domain.Enums.{
  ScriptType, pre_backup, post_backup, other_script_type, RunCondition, other_run_condition,
  on_success, on_failure, always, ScheduleType, manual_schedule, daily, weekly, monthly, cron,
  other_schedule_type, MissedRunPolicy, run_as_soon_as_possible, skip_missed, AuthenticationType,
  private_key, password, other_auth_type,
}
use sshbackup.Domain.Entities.{
  Script, Schedule, RetentionPolicy, HealthCheck, Job, Server, Settings,
}

-- A failed check's message.
abbrev pub check : Bool → String → List String
check true message = message ∷ []
check false message = []

abbrev pub is_empty : String → Bool
is_empty s = str_eq s ""

abbrev pub is_nil {ℓ} : {A : Type ℓ} → List A → Bool
is_nil [] = true
is_nil (x ∷ xs) = false

abbrev pub flat_map {ℓ} : {A : Type ℓ} → (A → List String) → List A → List String
flat_map f [] = []
flat_map f (x ∷ xs) = f x ++ flat_map f xs

abbrev pub starts_with_slash : String → Bool
starts_with_slash String.[] = false
starts_with_slash (String.◌∷◌ c s) = Prim.Native.Char.code c == 47

abbrev outside : ℤ → ℤ → ℤ → Bool
outside lo hi n = ltb_ℤ n lo || ltb_ℤ hi n

-- `ValidateName`.
unfoldable pub validate_name : String → String → List String
validate_name kind name = check (is_blank name) (kind <> " name must not be empty")

-- `ValidateAbsoluteRemotePath`.
unfoldable pub validate_absolute_remote_path : String → List String
validate_absolute_remote_path path =
    check (not (starts_with_slash path)) ("remote path " <> quote path <> " must be absolute")

-- `ValidatePort`.
unfoldable pub validate_port : ℤ → List String
validate_port port =
    check (outside (ℤ.pos 1) (ℤ.pos 65535) port)
      ("port " <> itoa_ℤ port <> " must be between 1 and 65535")

-- `ValidateTimeoutSeconds`.
unfoldable pub validate_timeout_seconds : ℤ → List String
validate_timeout_seconds seconds =
    check (ltb_ℤ seconds (ℤ.pos 1))
      ("timeout must be positive, got " <> itoa_ℤ seconds <> " seconds")

-- `validateTimeOfDay`: the hour's error hides the minute's.
unfoldable pub validate_time_of_day : ℤ → ℤ → List String
validate_time_of_day hour minute =
    if outside (ℤ.pos 0) (ℤ.pos 23) hour
    then ("schedule hour " <> itoa_ℤ hour <> " must be between 0 and 23") ∷ []
    else check (outside (ℤ.pos 0) (ℤ.pos 59) minute)
        ("schedule minute " <> itoa_ℤ minute <> " must be between 0 and 59")

is_known_script_type : ScriptType → Bool
is_known_script_type pre_backup = true
is_known_script_type post_backup = true
is_known_script_type (other_script_type s) = false

is_known_condition : RunCondition → Bool
is_known_condition on_success = true
is_known_condition on_failure = true
is_known_condition always = true
is_known_condition (other_run_condition s) = false

-- `Script.Validate`.
unfoldable pub validate_script : Script → List String
unfolding is_known_script_type is_known_condition validate_timeout_seconds
validate_script s =
    check (not (is_known_script_type s.script_type)) "script type must be PRE_BACKUP or POST_BACKUP"
    ++ (check (is_empty s.command) "script command must not be empty"
        ++ (validate_timeout_seconds s.timeout_seconds
            ++ check (not (is_known_condition s.run_condition))
                "script run condition must be ON_SUCCESS, ON_FAILURE, or ALWAYS"))

-- `HealthCheck.Validate`.
unfoldable pub validate_health_check : HealthCheck → List String
validate_health_check h =
    check (is_empty h.command) "health check command must not be empty"
    ++ (check (ltb_ℤ h.attempts (ℤ.pos 1)) "health check attempts must be at least 1"
        ++ check (ltb_ℤ h.interval_seconds (ℤ.pos 1))
            "health check interval must be at least 1 second")

validate_max_age : Option ℤ → List String
validate_max_age none = []
validate_max_age (some d) =
    check (ltb_ℤ d (ℤ.pos 1)) ("max_age_days must be at least 1, got " <> itoa_ℤ d)

validate_limits : Option ℤ → Option ℤ → List String
unfolding validate_max_age
validate_limits none age = validate_max_age age
validate_limits (some k) age =
    if ltb_ℤ k (ℤ.pos 1)
    then ("keep_last must be at least 1, got " <> itoa_ℤ k) ∷ []
    else validate_max_age age

-- `RetentionPolicy.Validate`: the first limit's error hides the second's.
unfoldable pub validate_retention : RetentionPolicy → List String
unfolding validate_limits
validate_retention r = validate_limits r.keep_last r.max_age_days

-- `Settings.Validate`: the first error hides the second.
unfoldable pub validate_settings : Settings → List String
validate_settings s =
    if ltb_ℤ s.global_concurrency_limit (ℤ.pos 1)
    then "global concurrency limit must be at least 1" ∷ []
    else check (ltb_ℤ s.stale_remote_cleanup_age_hours (ℤ.pos 1))
        "stale remote cleanup age must be at least 1 hour"

is_private_key : AuthenticationType → Bool
is_private_key private_key = true
is_private_key password = false
is_private_key (other_auth_type s) = false

is_password : AuthenticationType → Bool
is_password password = true
is_password private_key = false
is_password (other_auth_type s) = false

-- `Server.Validate`.
unfoldable pub validate_server : Server → List String
unfolding validate_name validate_port is_private_key is_password
validate_server s =
    validate_name "server" s.name
    ++ (check (is_empty s.host) "server host must not be empty"
        ++ (check (is_empty s.username) "server username must not be empty"
            ++ (validate_port s.port
                ++ (check (not (is_private_key s.auth_type || is_password s.auth_type))
                      "server authentication type must be PRIVATE_KEY or PASSWORD"
                    ++ (check (is_private_key s.auth_type && is_empty s.private_key_path)
                          "private key path must not be empty for PRIVATE_KEY authentication"
                        ++ check (is_password s.auth_type && is_empty s.credential_reference)
                            "a password must be set for PASSWORD authentication")))))

module _ (cron_error : String → Option String) where
  -- `ValidateCronExpression`.
  unfoldable pub validate_cron : String → List String
  validate_cron expr =
      if is_blank expr then "cron expression must not be empty" ∷ [] else elim (cron_error expr) [
        | none ↦ []
        | some e ↦ ("invalid cron expression " <> quote expr <> ": " <> e) ∷ []
      ]

  validate_timing : ScheduleType → Schedule → List String
  unfolding validate_time_of_day validate_cron
  validate_timing manual_schedule s = []
  validate_timing daily s = validate_time_of_day s.hour s.minute
  validate_timing weekly s =
      validate_time_of_day s.hour s.minute
      ++ check (is_nil s.weekdays) "weekly schedule requires at least one weekday"
  validate_timing monthly s =
      validate_time_of_day s.hour s.minute
      ++ check (outside (ℤ.pos 1) (ℤ.pos 31) s.day_of_month)
          ("monthly schedule day " <> itoa_ℤ s.day_of_month <> " must be between 1 and 31")
  validate_timing cron s = validate_cron s.cron_expression
  validate_timing (other_schedule_type t) s = ("unknown schedule type " <> quote t) ∷ []

  validate_policy : MissedRunPolicy → List String
  validate_policy run_as_soon_as_possible = []
  validate_policy skip_missed = []
  validate_policy _ = "missed run policy must be RUN_AS_SOON_AS_POSSIBLE or SKIP" ∷ []

  -- `Schedule.Validate`.
  unfoldable pub validate_schedule : Schedule → List String
  unfolding validate_timing validate_policy
  validate_schedule s = validate_timing s.schedule_type s ++ validate_policy s.missed_run_policy

  validate_optional : Option HealthCheck → List String
  validate_optional none = []
  validate_optional (some h) = validate_health_check h

  -- `Job.Validate`.
  unfoldable pub validate_job : Job → List String
  unfolding validate_name validate_absolute_remote_path validate_script validate_schedule
      validate_retention validate_optional
  validate_job j =
      validate_name "job" j.name
      ++ (check (is_empty j.server_id) "job must reference a server"
          ++ (check (is_nil j.sources) "job must have at least one backup source"
              ++ (flat_map (λ s. validate_absolute_remote_path s.remote_path) j.sources
                  ++ (flat_map validate_script j.scripts
                      ++ (validate_absolute_remote_path j.remote_temp_directory
                          ++ (check (is_empty j.local_destination)
                                "job local destination must not be empty"
                              ++ (check (ltb_ℤ j.archive_timeout (ℤ.pos 1))
                                    "job archive timeout must be positive"
                                  ++ (validate_schedule j.schedule
                                      ++ (validate_retention j.retention_policy
                                          ++ validate_optional j.health_check)))))))))
