-- ===== src/Backup/Validator.antt =====
-- server/internal/backup/validate.go: the checks of a job, all of them, without a run.
use sshbackup.Common.{
  String, ◌<>◌, join, Bool, true, false, Option, none, List, [], ◌∷◌, ◌++◌, ℤ, if◌then◌else◌,
}
use sshbackup.Common.Action.{Action, pure, branch, option, ◌>>=◌, ◌>>◌}
use sshbackup.Domain.{
  Job, Server, code_or, invalid_config, ssh_connection_failed, remote_job_directory,
}
use sshbackup.Domain.Validate.{validate_job, is_nil}
use sshbackup.Backup.World.{Env, World, ask, mark, connected, closed}
use sshbackup.Backup.Checks.{
  CheckResult, passed, failed_check, check_source_readable, check_tool_available,
  check_remote_temp_writable, estimate_source_size, measure_remote_free_space,
  check_remote_free_space, check_local_destination_writable, measure_local_free_space,
  check_local_free_space,
}
use sshbackup.Backup.Stages.{required_tools, source_paths}

pub record CheckOutcome : Type 0 where
  pub name : String
  pub passes : Bool
  pub message : String

-- `none` is a size that is not known.
pub record ValidateResult : Type 0 where
  pub success : Bool
  pub checks : List CheckOutcome
  pub source_size : Option ℤ
  pub remote_free : Option ℤ
  pub local_free : Option ℤ

abbrev pub fresh_result : ValidateResult
fresh_result = record {
  success = true;
  checks = [];
  source_size = none;
  remote_free = none;
  local_free = none;
}

-- `add`.
unfoldable pub add_check : String → CheckResult → ValidateResult → ValidateResult
add_check name r result = record result {
  checks = result.checks ++ record { name = name; passes = r.passes; message = r.message } ∷ [];
  success = if r.passes then result.success else false;
}

-- One of the loops over the sources and the tools.
unfoldable pub add_each :
    String
    → (String → Action World CheckResult)
    → List String
    → ValidateResult
    → Action World ValidateResult
add_each prefix check [] result = pure result
add_each prefix check (x ∷ xs) result = do
  r ← check x
  add_each prefix check xs (add_check (prefix <> x) r result)

module _ (env : Env) (job : Job) (server : Server) (dest_dir : String) where
  -- `Validate` after the tools.
  unfoldable pub validate_space : ValidateResult → Action World ValidateResult
  validate_space result = do
    temp ← check_remote_temp_writable env server.command_timeout_seconds (remote_job_directory job)
    size ← estimate_source_size env server.command_timeout_seconds job.sources
    remote ← measure_remote_free_space env server.command_timeout_seconds job.remote_temp_directory
    writable ← check_local_destination_writable env dest_dir
    here ← measure_local_free_space env dest_dir
    mark closed
    pure (
        add_check "local_free_space" (check_local_free_space dest_dir here size) (
          add_check "local_destination_writable" writable (
            add_check "remote_free_space" (check_remote_free_space remote size) (
              add_check "remote_temp_writable" temp
                (record result { source_size = size; remote_free = remote; local_free = here })))))

  -- `Validate` with the connection made.
  unfoldable pub validate_connected : ValidateResult → Action World ValidateResult
  validate_connected result = do
    sources ←
        add_each "source:" (check_source_readable env server.command_timeout_seconds)
          (source_paths job.sources) result
    tools ←
        add_each "tool:" (check_tool_available env server.command_timeout_seconds) required_tools
          sources
    validate_space tools

  -- `Validate`.
  unfoldable pub validate : Action World ValidateResult
  validate =
      branch (is_nil (validate_job env.cron_error job))
        (do
          let configured =
              add_check "configuration" (passed "job configuration is valid") fresh_result
          failure ← ask env.connect connected
          option failure
              (validate_connected
                (add_check "ssh_connection" (passed "connected and authenticated") configured))
              (λ e. pure (
                add_check "ssh_connection" (failed_check (code_or e ssh_connection_failed) e.text)
                  configured)))
        (pure (
          add_check "configuration"
            (failed_check invalid_config (join (validate_job env.cron_error job) "\n"))
            fresh_result))
