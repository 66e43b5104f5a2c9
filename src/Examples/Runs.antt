-- ===== src/Examples/Runs.antt =====
-- Witnesses for the run engine.
use sshbackup.Common.{ℕ, ◌≡◌, ◌⊎◌, refl, arith, String, true, false, none, some, List, [], ◌∷◌, suc}
use sshbackup.Common.Action.{Leads}
use sshbackup.Calendar.{Time}
use sshbackup.Domain.{
  pre_backup_script_step, post_backup_script_step, Run, RunStatus, ScriptType, is_terminal, success,
  running, no_error_code, manual, new_run,
}
use sshbackup.Backup.World.{World, lock_released}
use sshbackup.Backup.Context.{RunContext, final_status}
use sshbackup.Backup.Scripts.{run_scripts, drain_cleanup, pending_from}
use sshbackup.Backup.Archive.{archive}
use sshbackup.Backup.Download.{download_and_verify}
use sshbackup.Backup.Engine.{final_stages, new_context, execute, finish_run, run_job}
use sshbackup.Backup.FirstFailure.{KeepsFailure, stages-KeepsFailure}
use sshbackup.Backup.Conclusion.{
  EndsWith, updates, finish_run_ends, finish_run_success, run_job-EndsWith,
}
use sshbackup.Backup.Cleanup.{tried, tried_after, drain_cleanup-tried}
use sshbackup.Backup.Answered.{unanswered}
use sshbackup.Backup.Guarantee.{execute-tried}
use sshbackup.Backup.Registry.{times}
use sshbackup.Backup.Stages.{preflight}
use sshbackup.Backup.Verified.{IsRemoteSum, IsLocalSum, download_and_verify-verified}
use sshbackup.Backup.Validator.{validate}
use sshbackup.Backup.Report.{IsFair, validate-IsFair}
use sshbackup.Backup.ShellQuote.{shell_quote}
use sshbackup.Backup.ShellWord.{outside, read_word, read_word-shell_quote}
use sshbackup.Examples.Samples.{
  calm, job, server, setup, fresh_run, start, stop_service, start_service,
}

no_error : fresh_run.error_code ≡ no_error_code
unfolding new_run
no_error = refl

no_message : fresh_run.error_message ≡ ""
unfolding new_run
no_message = refl

stages-KeepsFailure_example :
    ((phase : ScriptType) → Leads KeepsFailure (run_scripts setup phase))
    × Leads KeepsFailure (archive setup)
    × Leads KeepsFailure (download_and_verify setup)
    × Leads KeepsFailure (final_stages setup)
    × Leads KeepsFailure (drain_cleanup setup)
stages-KeepsFailure_example = stages-KeepsFailure setup

finish_run_ends_example :
    (updates (finish_run setup fresh_run start).1.calls
      ≡ (finish_run setup fresh_run start).0
        ∷ updates (execute setup (new_context fresh_run start)).1.world.calls)
    × (is_terminal (finish_run setup fresh_run start).0.status ≡ true)
    × ((finish_run setup fresh_run start).0.status
        ≡ final_status (execute setup (new_context fresh_run start)).1)
    × ((t : Time) × ((finish_run setup fresh_run start).0.finished_at ≡ some t))
    × ((finish_run setup fresh_run start).0.id ≡ fresh_run.id)
    × ((finish_run setup fresh_run start).0.started_at ≡ fresh_run.started_at)
finish_run_ends_example = finish_run_ends setup fresh_run start refl

run_job-EndsWith_example : EndsWith (lock_released "job") (run_job setup manual start).1
run_job-EndsWith_example = run_job-EndsWith setup manual start refl refl

all_well : (finish_run setup fresh_run start).0.status ≡ success
unfolding sshbackup.Backup.Archive.archive sshbackup.Backup.Archive.archive_command
    sshbackup.Backup.Archive.archive_failure sshbackup.Backup.Archive.include_archive_command
    sshbackup.Backup.Archive.remove_partial_remote_archive sshbackup.Backup.Archive.run_archive
    sshbackup.Backup.Archive.trim_slashes sshbackup.Backup.Checks.check_local_destination_writable
    sshbackup.Backup.Checks.check_local_free_space sshbackup.Backup.Checks.check_remote_free_space
    sshbackup.Backup.Checks.check_remote_temp_writable sshbackup.Backup.Checks.check_source_exists
    sshbackup.Backup.Checks.check_source_readable sshbackup.Backup.Checks.check_tool_available
    sshbackup.Backup.Checks.estimate_source_size sshbackup.Backup.Checks.measure_local_free_space
    sshbackup.Backup.Checks.measure_remote_free_space sshbackup.Backup.Checks.probe_outcome
    sshbackup.Backup.Checks.run_on_transport sshbackup.Backup.Context.check_cancelled
    sshbackup.Backup.Context.fail sshbackup.Backup.Context.final_status
    sshbackup.Backup.Context.finish_recorded sshbackup.Backup.Context.lift
    sshbackup.Backup.Context.mark_done sshbackup.Backup.Context.notify_change
    sshbackup.Backup.Context.now sshbackup.Backup.Context.on_result
    sshbackup.Backup.Context.persist_new sshbackup.Backup.Context.persist_step
    sshbackup.Backup.Context.record_recovery sshbackup.Backup.Context.run_command
    sshbackup.Backup.Context.run_remote sshbackup.Backup.Context.skip_recorded
    sshbackup.Backup.Context.start_step sshbackup.Backup.Context.warn
    sshbackup.Backup.Context.with_step sshbackup.Backup.Download.accept_archive
    sshbackup.Backup.Download.delete_part sshbackup.Backup.Download.download_and_verify
    sshbackup.Backup.Download.download_archive sshbackup.Backup.Download.downloaded
    sshbackup.Backup.Download.finish_failed sshbackup.Backup.Download.hashed
    sshbackup.Backup.Download.local_checksum sshbackup.Backup.Download.remote_checksum
    sshbackup.Backup.Download.stream_download sshbackup.Backup.Download.verify_checksums
    sshbackup.Backup.Engine.begin_run sshbackup.Backup.Engine.close
    sshbackup.Backup.Engine.closing_run sshbackup.Backup.Engine.conclude
    sshbackup.Backup.Engine.execute sshbackup.Backup.Engine.final_stages
    sshbackup.Backup.Engine.finish_context sshbackup.Backup.Engine.finish_run
    sshbackup.Backup.Engine.new_context sshbackup.Backup.Engine.refused_lock
    sshbackup.Backup.Engine.run_job sshbackup.Backup.Engine.stages
    sshbackup.Backup.Engine.start_locked sshbackup.Backup.Engine.unless_cancelled
    sshbackup.Backup.Engine.unless_failed sshbackup.Backup.Scripts.after_script
    sshbackup.Backup.Scripts.attempt_error sshbackup.Backup.Scripts.drain_cleanup
    sshbackup.Backup.Scripts.drain_entry sshbackup.Backup.Scripts.drain_pending
    sshbackup.Backup.Scripts.execute_script sshbackup.Backup.Scripts.record_outcome
    sshbackup.Backup.Scripts.register_cleanup_scripts sshbackup.Backup.Scripts.register_script
    sshbackup.Backup.Scripts.run_script_recorded sshbackup.Backup.Scripts.report_failure
    sshbackup.Backup.Scripts.run_scripts sshbackup.Backup.Scripts.run_scripts_from
    sshbackup.Backup.Scripts.script_attempts sshbackup.Backup.Scripts.settle_entry
    sshbackup.Backup.Scripts.visit_script sshbackup.Backup.ShellQuote.escape_quotes
    sshbackup.Backup.ShellQuote.shell_quote sshbackup.Backup.Stages.apply_retention
    sshbackup.Backup.Stages.health_attempts sshbackup.Backup.Stages.health_check
    sshbackup.Backup.Stages.preflight sshbackup.Backup.Stages.preflight_checks
    sshbackup.Backup.Stages.preflight_local sshbackup.Backup.Stages.preflight_space
    sshbackup.Backup.Stages.preflight_temp sshbackup.Backup.Stages.remote_cleanup
    sshbackup.Backup.Stages.remove_remote_archive sshbackup.Backup.Stages.require
    sshbackup.Backup.Stages.require_each sshbackup.Backup.Stages.retention_warning
    sshbackup.Backup.Stages.run_health_check sshbackup.Backup.Stages.run_preflight
    sshbackup.Backup.World.ask sshbackup.Backup.World.mark sshbackup.Calendar.Format.format_archive
    sshbackup.Common.Action.branch sshbackup.Common.Action.for_each sshbackup.Common.Action.gets
    sshbackup.Common.Action.modify sshbackup.Common.Action.option sshbackup.Common.Action.pure
    sshbackup.Common.Action.when sshbackup.Common.Action.◌>>=◌ sshbackup.Common.Action.◌>>◌
    sshbackup.Common.Text.atoi_ℕ sshbackup.Common.Text.is_blank sshbackup.Common.Text.is_space
    sshbackup.Common.Text.itoa sshbackup.Common.Text.itoa_ℤ sshbackup.Common.Text.join
    sshbackup.Common.Text.pad2 sshbackup.Common.Text.parse_int sshbackup.Common.Text.quote
    sshbackup.Common.Text.trim_space sshbackup.Domain.ArchiveName.archive_file_name
    sshbackup.Domain.ArchiveName.sanitize sshbackup.Domain.Entities.finish
    sshbackup.Domain.Entities.new_run sshbackup.Domain.Entities.should_run
    sshbackup.Domain.Validate.validate_absolute_remote_path sshbackup.Domain.Validate.validate_cron
    sshbackup.Domain.Validate.validate_health_check sshbackup.Domain.Validate.validate_job
    sshbackup.Domain.Validate.validate_name sshbackup.Domain.Validate.validate_port
    sshbackup.Domain.Validate.validate_retention sshbackup.Domain.Validate.validate_schedule
    sshbackup.Domain.Validate.validate_script sshbackup.Domain.Validate.validate_server
    sshbackup.Domain.Validate.validate_settings sshbackup.Domain.Validate.validate_time_of_day
    sshbackup.Domain.Validate.validate_timeout_seconds
all_well = refl

finish_run_success_example :
    ((finish_run setup fresh_run start).0.error_code ≡ no_error_code)
    × ((finish_run setup fresh_run start).0.error_message ≡ "")
finish_run_success_example =
    finish_run_success setup fresh_run start refl (no_error, no_message) all_well

-- A context whose registry has a pending entry and one that is done.
abbrev halfway : RunContext
halfway = record (new_context fresh_run start) {
  entries =
      record { script = stop_service; step_type = pre_backup_script_step; done = true }
      ∷ record { script = start_service; step_type = post_backup_script_step; done = false }
      ∷ [];
  remote_archive_path = "/tmp/job/site.tar.gz";
}

drain_cleanup-tried_example :
    (tried (drain_cleanup setup halfway).1.world.calls
      ≡ tried_after (pending_from 0 halfway.entries) (tried halfway.world.calls))
    × (pending_from 0 (drain_cleanup setup halfway).1.entries ≡ [])
drain_cleanup-tried_example = drain_cleanup-tried setup halfway

-- Only the pending script is tried.
one_tried : tried_after (pending_from 0 halfway.entries) [] ≡ start_service ∷ []
one_tried = refl

execute-tried_example :
    ((times "start" (tried (execute setup (new_context fresh_run start)).1.world.calls)
        ≡ suc (times "start" (tried start.calls)))
      ⊎ (((preflight setup (new_context fresh_run start)).0 ≡ false)
          × (tried (execute setup (new_context fresh_run start)).1.world.calls
              ≡ tried start.calls)))
    × (unanswered (execute setup (new_context fresh_run start)).1.world.calls ≡ [])
execute-tried_example = execute-tried setup "start" refl refl fresh_run start refl

not_yet : halfway.archive_verified ≡ false
unfolding new_context
not_yet = refl

accepted : (download_and_verify setup halfway).1.archive_verified ≡ true
unfolding sshbackup.Backup.Archive.archive sshbackup.Backup.Archive.archive_command
    sshbackup.Backup.Archive.archive_failure sshbackup.Backup.Archive.include_archive_command
    sshbackup.Backup.Archive.remove_partial_remote_archive sshbackup.Backup.Archive.run_archive
    sshbackup.Backup.Archive.trim_slashes sshbackup.Backup.Checks.check_local_destination_writable
    sshbackup.Backup.Checks.check_local_free_space sshbackup.Backup.Checks.check_remote_free_space
    sshbackup.Backup.Checks.check_remote_temp_writable sshbackup.Backup.Checks.check_source_exists
    sshbackup.Backup.Checks.check_source_readable sshbackup.Backup.Checks.check_tool_available
    sshbackup.Backup.Checks.estimate_source_size sshbackup.Backup.Checks.measure_local_free_space
    sshbackup.Backup.Checks.measure_remote_free_space sshbackup.Backup.Checks.probe_outcome
    sshbackup.Backup.Checks.run_on_transport sshbackup.Backup.Context.check_cancelled
    sshbackup.Backup.Context.fail sshbackup.Backup.Context.final_status
    sshbackup.Backup.Context.finish_recorded sshbackup.Backup.Context.lift
    sshbackup.Backup.Context.mark_done sshbackup.Backup.Context.notify_change
    sshbackup.Backup.Context.now sshbackup.Backup.Context.on_result
    sshbackup.Backup.Context.persist_new sshbackup.Backup.Context.persist_step
    sshbackup.Backup.Context.record_recovery sshbackup.Backup.Context.run_command
    sshbackup.Backup.Context.run_remote sshbackup.Backup.Context.skip_recorded
    sshbackup.Backup.Context.start_step sshbackup.Backup.Context.warn
    sshbackup.Backup.Context.with_step sshbackup.Backup.Download.accept_archive
    sshbackup.Backup.Download.delete_part sshbackup.Backup.Download.download_and_verify
    sshbackup.Backup.Download.download_archive sshbackup.Backup.Download.downloaded
    sshbackup.Backup.Download.finish_failed sshbackup.Backup.Download.hashed
    sshbackup.Backup.Download.local_checksum sshbackup.Backup.Download.remote_checksum
    sshbackup.Backup.Download.stream_download sshbackup.Backup.Download.verify_checksums
    sshbackup.Backup.Engine.begin_run sshbackup.Backup.Engine.close
    sshbackup.Backup.Engine.closing_run sshbackup.Backup.Engine.conclude
    sshbackup.Backup.Engine.execute sshbackup.Backup.Engine.final_stages
    sshbackup.Backup.Engine.finish_context sshbackup.Backup.Engine.finish_run
    sshbackup.Backup.Engine.new_context sshbackup.Backup.Engine.refused_lock
    sshbackup.Backup.Engine.run_job sshbackup.Backup.Engine.stages
    sshbackup.Backup.Engine.start_locked sshbackup.Backup.Engine.unless_cancelled
    sshbackup.Backup.Engine.unless_failed sshbackup.Backup.Scripts.after_script
    sshbackup.Backup.Scripts.attempt_error sshbackup.Backup.Scripts.drain_cleanup
    sshbackup.Backup.Scripts.drain_entry sshbackup.Backup.Scripts.drain_pending
    sshbackup.Backup.Scripts.execute_script sshbackup.Backup.Scripts.record_outcome
    sshbackup.Backup.Scripts.register_cleanup_scripts sshbackup.Backup.Scripts.register_script
    sshbackup.Backup.Scripts.run_script_recorded sshbackup.Backup.Scripts.report_failure
    sshbackup.Backup.Scripts.run_scripts sshbackup.Backup.Scripts.run_scripts_from
    sshbackup.Backup.Scripts.script_attempts sshbackup.Backup.Scripts.settle_entry
    sshbackup.Backup.Scripts.visit_script sshbackup.Backup.ShellQuote.escape_quotes
    sshbackup.Backup.ShellQuote.shell_quote sshbackup.Backup.Stages.apply_retention
    sshbackup.Backup.Stages.health_attempts sshbackup.Backup.Stages.health_check
    sshbackup.Backup.Stages.preflight sshbackup.Backup.Stages.preflight_checks
    sshbackup.Backup.Stages.preflight_local sshbackup.Backup.Stages.preflight_space
    sshbackup.Backup.Stages.preflight_temp sshbackup.Backup.Stages.remote_cleanup
    sshbackup.Backup.Stages.remove_remote_archive sshbackup.Backup.Stages.require
    sshbackup.Backup.Stages.require_each sshbackup.Backup.Stages.retention_warning
    sshbackup.Backup.Stages.run_health_check sshbackup.Backup.Stages.run_preflight
    sshbackup.Backup.World.ask sshbackup.Backup.World.mark sshbackup.Calendar.Format.format_archive
    sshbackup.Common.Action.branch sshbackup.Common.Action.for_each sshbackup.Common.Action.gets
    sshbackup.Common.Action.modify sshbackup.Common.Action.option sshbackup.Common.Action.pure
    sshbackup.Common.Action.when sshbackup.Common.Action.◌>>=◌ sshbackup.Common.Action.◌>>◌
    sshbackup.Common.Text.atoi_ℕ sshbackup.Common.Text.is_blank sshbackup.Common.Text.is_space
    sshbackup.Common.Text.itoa sshbackup.Common.Text.itoa_ℤ sshbackup.Common.Text.join
    sshbackup.Common.Text.pad2 sshbackup.Common.Text.parse_int sshbackup.Common.Text.quote
    sshbackup.Common.Text.trim_space sshbackup.Domain.ArchiveName.archive_file_name
    sshbackup.Domain.ArchiveName.sanitize sshbackup.Domain.Entities.finish
    sshbackup.Domain.Entities.new_run sshbackup.Domain.Entities.should_run
    sshbackup.Domain.Validate.validate_absolute_remote_path sshbackup.Domain.Validate.validate_cron
    sshbackup.Domain.Validate.validate_health_check sshbackup.Domain.Validate.validate_job
    sshbackup.Domain.Validate.validate_name sshbackup.Domain.Validate.validate_port
    sshbackup.Domain.Validate.validate_retention sshbackup.Domain.Validate.validate_schedule
    sshbackup.Domain.Validate.validate_script sshbackup.Domain.Validate.validate_server
    sshbackup.Domain.Validate.validate_settings sshbackup.Domain.Validate.validate_time_of_day
    sshbackup.Domain.Validate.validate_timeout_seconds
accepted = refl

download_and_verify-verified_example :
    (sum : String) × IsRemoteSum setup "/tmp/job/site.tar.gz" sum
    × IsLocalSum setup "/tmp/job/site.tar.gz" sum
download_and_verify-verified_example = download_and_verify-verified setup halfway not_yet accepted

validate-IsFair_example : IsFair (validate calm job server "C:" start).0
validate-IsFair_example = validate-IsFair calm job server "C:" start

read_word-shell_quote_example :
    read_word outside (shell_quote "it's; rm -rf /") ≡ some "it's; rm -rf /"
read_word-shell_quote_example = read_word-shell_quote "it's; rm -rf /"
