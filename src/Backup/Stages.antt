-- ===== src/Backup/Stages.antt =====
-- server/internal/backup/preflight.go, healthcheck.go, remotecleanup.go and retention_stage.go.
use sshbackup.Common.{
  ℕ, zero, suc, String, ◌<>◌, join, Bool, true, false, not, ◌||◌, Option, none, some, List, [], ◌∷◌,
  ℤ, rounds, itoa_ℤ, str_eq,
}
use sshbackup.Common.Action.{pure, gets, modify, when, branch, option, ◌>>=◌, ◌>>◌}
use sshbackup.Domain.{
  Error, Source, HealthCheck, code_or, remote_job_directory, internal, invalid_config,
  ssh_connection_failed, health_check_failed, preflight_step, health_check_step,
  remote_cleanup_step, retention_step,
}
use sshbackup.Domain.Validate.{validate_job, is_nil}
use sshbackup.Backup.World.{ask, connected, retained, run_updated, seconds, other}
use sshbackup.Backup.ShellQuote.{shell_quote}
use sshbackup.Backup.Checks.{
  CheckResult, succeeds, check_source_readable, check_tool_available, check_remote_temp_writable,
  estimate_source_size, measure_remote_free_space, check_remote_free_space,
  check_local_destination_writable, measure_local_free_space, check_local_free_space,
}
use sshbackup.Backup.Context.{
  Setup, Stage, lift, fail, warn, run_remote, finish_recorded, with_step, step_status,
}
use sshbackup.Backup.Scripts.{register_cleanup_scripts, attempt_error}

abbrev pub required_tools : List String
required_tools = "tar" ∷ "gzip" ∷ "sha256sum" ∷ []

-- Whether an option holds a value.
abbrev pub is_some {ℓ} : {A : Type ℓ} → Option A → Bool
is_some none = false
is_some (some a) = true

abbrev pub source_paths : List Source → List String
source_paths [] = []
source_paths (s ∷ ss) = s.remote_path ∷ source_paths ss

module _ (u : Setup) where
  -- `if r := …; !r.ok { rc.fail(r.code, r.message); return false }`.
  unfoldable pub require : CheckResult → Stage Bool → Stage Bool
  require r rest = branch r.passes rest (do fail r.code r.message; pure false)

  unfoldable pub require_each : (String → Stage CheckResult) → List String → Stage Bool → Stage Bool
  require_each check [] rest = rest
  require_each check (x ∷ xs) rest = do r ← check x; require r (require_each check xs rest)

  unfoldable pub preflight_local : Option ℤ → Stage Bool
  preflight_local source_size = do
    writable ← lift (check_local_destination_writable u.env u.dest_dir)
    require writable (do
      free ← lift (measure_local_free_space u.env u.dest_dir)
      require (check_local_free_space u.dest_dir free source_size) (do
        when (not (is_some free))
            (warn internal "could not measure local free space; continuing without a space check")
        pure true))

  unfoldable pub preflight_space : Stage Bool
  preflight_space = do
    source_size ← lift (estimate_source_size u.env u.server.command_timeout_seconds u.job.sources)
    when (not (is_some source_size)) (
        warn internal
          "could not estimate source size (du unavailable); continuing without a size check")
    free ← lift (
        measure_remote_free_space u.env u.server.command_timeout_seconds
          u.job.remote_temp_directory)
    require (check_remote_free_space free source_size) (do
      when (not (is_some free)) (
          warn internal
            "could not measure remote free space (df unavailable); continuing without a space check")
      preflight_local source_size)

  unfoldable pub preflight_temp : Stage Bool
  preflight_temp = do
    r ← lift (
        check_remote_temp_writable u.env u.server.command_timeout_seconds
          (remote_job_directory u.job))
    require r preflight_space

  -- `runPreflight` after the connection.
  unfoldable pub preflight_checks : Stage Bool
  preflight_checks = do
    register_cleanup_scripts u
    require_each (λ path. lift (check_source_readable u.env u.server.command_timeout_seconds path))
        (source_paths u.job.sources)
        (require_each
          (λ tool. lift (check_tool_available u.env u.server.command_timeout_seconds tool))
          required_tools preflight_temp)

  -- `runPreflight`.
  unfoldable pub run_preflight : Stage Bool
  run_preflight =
      branch (is_nil (validate_job u.env.cron_error u.job))
        (do
          failure ← lift (ask u.env.connect connected)
          option failure (do modify (λ s. record s { has_transport = true }); preflight_checks)
              (λ e. do fail (code_or e ssh_connection_failed) (u.env.redact e.text); pure false))
        (do fail invalid_config (join (validate_job u.env.cron_error u.job) "\n"); pure false)

  -- `preflight`.
  unfoldable pub preflight : Stage Bool
  preflight =
      with_step u preflight_step
        (λ e. do fail internal "could not record preflight step"; pure false)
        (λ step. do
          ok ← run_preflight
          message ← gets (λ s. s.run.error_message)
          finish_recorded u (step_status ok) (record step { error = message })
          pure ok)

  -- The loop of `healthCheck`: the attempts left, whether this is the first, the last error. The
  -- value is the error to report, or `none` when an attempt succeeded.
  unfoldable pub health_attempts :
      ℕ → Bool → HealthCheck → Option Error → Stage (Option (Option Error))
  health_attempts zero first hc last = pure (some last)
  health_attempts (suc n) first hc last = do
    interrupted ←
        branch first (pure none)
          (lift (ask (λ t. u.env.sleep t (seconds hc.interval_seconds)) other))
    option interrupted
        (do
          reply ← run_remote u hc.command
          option (attempt_error u reply) (pure none) (λ e. health_attempts n false hc (some e)))
        (λ e. pure (some (some e)))

  abbrev error_text : Option Error → String
  error_text none = "<nil>"
  error_text (some e) = e.text

  -- `healthCheck` with a check configured.
  unfoldable pub run_health_check : HealthCheck → Stage (Unit {0})
  run_health_check hc =
      with_step u health_check_step (λ e. pure tt)
        (λ step. do
          outcome ← health_attempts (rounds hc.attempts) true hc none
          option outcome (finish_recorded u (step_status true) step) (λ last. do
            warn health_check_failed (
                "health check failed after "
                <> itoa_ℤ hc.attempts
                <> " attempt(s): "
                <> u.env.redact (error_text last))
            message ← gets (λ s. s.run.error_message)
            finish_recorded u (step_status false) (record step { error = message })))

  -- `healthCheck`.
  unfoldable pub health_check : Stage (Unit {0})
  health_check = option u.job.health_check (pure tt) run_health_check

  -- `remoteCleanup` past its early return.
  unfoldable pub remove_remote_archive : String → Stage (Unit {0})
  remove_remote_archive path =
      with_step u remote_cleanup_step (λ e. pure tt)
        (λ step. do
          reply ← run_remote u ("rm -f " <> shell_quote path)
          branch (succeeds reply) (finish_recorded u (step_status true) step) (do
            warn internal ("could not remove remote temporary archive " <> path)
            message ← gets (λ s. s.run.error_message)
            finish_recorded u (step_status false) (record step { error = message })))

  -- `remoteCleanup`.
  unfoldable pub remote_cleanup : Stage (Unit {0})
  remote_cleanup = do
    path ← gets (λ s. s.remote_archive_path)
    has_transport ← gets (λ s. s.has_transport)
    when (not (str_eq path "" || not has_transport)) (remove_remote_archive path)

  -- The warning of `applyRetention`, if retention reports anything.
  unfoldable pub retention_warning : Option Error × List String → Option String
  retention_warning (some e, warnings) = some ("retention: " <> e.text)
  retention_warning (none, []) = none
  retention_warning (none, w ∷ ws) = some ("retention: " <> join (w ∷ ws) "; ")

  -- `applyRetention`.
  unfoldable pub apply_retention : Stage (Unit {0})
  apply_retention = do
    run ← gets (λ s. s.run)
    lift (ask (λ t. u.env.update_run t run) (run_updated run))
    with_step u retention_step (λ e. pure tt)
        (λ step. do
          outcome ← lift (ask u.env.apply_retention retained)
          option (retention_warning outcome) (finish_recorded u (step_status true) step) (λ message.
              do
                warn internal message
                shown ← gets (λ s. s.run.error_message)
                finish_recorded u (step_status false) (record step { error = shown })))
