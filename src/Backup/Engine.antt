-- ===== src/Backup/Engine.antt =====
-- server/internal/backup/engine.go, and `execute` of runcontext.go.
use sshbackup.Common.{◌<>◌, Bool, true, false, not, ◌&&◌, Option, none, some, []}
use sshbackup.Common.Action.{Action, pure, gets, when, branch, option, ◌>>=◌, ◌>>◌}
use sshbackup.Calendar.{Time}
use sshbackup.Domain.{
  Error, ErrorCode, job_already_running, Result, ok, err, Run, Trigger, new_run, finish, skipped,
  running, pre_backup, post_backup, recovery_not_applicable,
}
use sshbackup.Backup.World.{
  World, ask, mark, other, closed, run_created, run_updated, run_started, run_finished,
  lock_acquired, lock_released,
}
use sshbackup.Backup.Context.{
  Setup, RunContext, Stage, lift, check_cancelled, final_status, on_result,
}
use sshbackup.Backup.Scripts.{run_scripts, drain_cleanup}
use sshbackup.Backup.Archive.{archive}
use sshbackup.Backup.Download.{download_and_verify}
use sshbackup.Backup.Stages.{preflight, health_check, remote_cleanup, apply_retention, source_paths}

-- What `beginRun` comes to.
pub data Begun : Type 0 where
  refused : Error → Begun
  already_running : Run → Begun
  started : Run → Begun

abbrev pub is_already_running : Option ErrorCode → Bool
is_already_running none = false
is_already_running (some job_already_running) = true
is_already_running (some _) = false

-- The run of a job that runs already.
abbrev pub skipped_run : Run → Time → Run
skipped_run run t = record run {
  status = skipped;
  error_message = "Job already running";
  finished_at = some t;
}

-- The `runContext` that `beginRun` makes.
unfoldable pub new_context : Run → World → RunContext
new_context run w = record {
  run = run;
  position = 0;
  entries = [];
  tokens = [];
  has_transport = false;
  failed = false;
  has_warn = false;
  cancelled = false;
  recovery_out = recovery_not_applicable;
  recovery_attempted = false;
  remote_archive_path = "";
  local_part_path = "";
  archive_verified = false;
  world = w;
}

-- The run that `finishRun` persists.
unfoldable pub closing_run : RunContext → Time → Run
unfolding finish
closing_run s t =
    let done = finish t (final_status s) s.run in record done { recovery_outcome = s.recovery_out }

module _ (u : Setup) where
  -- A stage that runs only if nothing has failed.
  unfoldable pub unless_failed : Stage (Unit {0}) → Stage (Unit {0})
  unless_failed stage = do failed ← gets (λ s. s.failed); when (not failed) stage

  -- `if rc.checkCancelled() { return }`, and what follows it.
  unfoldable pub unless_cancelled : Stage (Unit {0}) → Stage (Unit {0})
  unless_cancelled rest = do stop ← check_cancelled u; when (not stop) rest

  -- The stages of `execute` that follow the last cancellation test.
  unfoldable pub final_stages : Stage (Unit {0})
  final_stages = do
    unless_failed (health_check u)
    remote_cleanup u
    wanted ← gets (λ s. not s.failed && (s.archive_verified && u.env.has_retention))
    when wanted (apply_retention u)

  -- `execute` between the preflight and the deferred calls.
  unfoldable pub stages : Stage (Unit {0})
  stages = do
    run_scripts u pre_backup
    unless_cancelled (do
      unless_failed (archive u)
      unless_cancelled (do
        unless_failed (download_and_verify u)
        unless_cancelled (do run_scripts u post_backup; unless_cancelled final_stages)))

  -- `transport.Close()`, deferred after a preflight that succeeds.
  unfoldable pub close : Stage (Unit {0})
  close = do has_transport ← gets (λ s. s.has_transport); when has_transport (lift (mark closed))

  -- `execute`. Deferred calls run last in, first out: the transport is closed before the drain.
  unfoldable pub execute : Stage (Unit {0})
  execute = do ready ← preflight u; when ready (do stages; close); drain_cleanup u

  -- `Runs.Update` of a run.
  unfoldable pub write_run : Run → Action World (Option Error)
  write_run run = ask (λ k. u.env.update_run k run) (run_updated run)

  -- The end of `finishRun`: the lock's release is deferred, so it comes last.
  unfoldable pub finish_context : RunContext → Action World Run
  finish_context s = do
    t ← ask u.env.now other
    write_run (closing_run s t)
    when u.env.has_events (mark (run_finished (closing_run s t)))
    ask (λ k. u.env.release_lock k u.job.id) (lock_released u.job.id)
    pure (closing_run s t)

  -- `finishRun`.
  unfoldable pub finish_run : Run → Action World Run
  finish_run run w = let s = (execute (new_context run w)).1 in finish_context s s.world

  -- `beginRun` when the lock is not taken.
  unfoldable pub refused_lock : Run → Error → Action World Begun
  refused_lock run e =
      branch (is_already_running e.code)
        (do
          finished ← ask u.env.now other
          failure ←
              ask (λ k. u.env.create_run k (skipped_run run finished))
                (run_created (skipped_run run finished))
          option failure (pure (already_running (skipped_run run finished)))
              (λ e. pure (refused (record e { text = "persist skipped run: " <> e.text }))))
        (pure (refused e))

  -- `beginRun` when the lock is taken.
  unfoldable pub start_locked : Run → Action World Begun
  start_locked run = do
    failure ← ask (λ k. u.env.create_run k run) (run_created run)
    option failure (do when u.env.has_events (mark (run_started run)); pure (started run))
        (λ e. do
          ask (λ k. u.env.release_lock k u.job.id) (lock_released u.job.id)
          pure (refused (record e { text = "persist run: " <> e.text })))

  -- `beginRun`.
  unfoldable pub begin_run : Trigger → Action World Begun
  begin_run trigger = do
    t ← ask u.env.now other
    id ← ask u.env.new_id other
    on_result id (λ e. pure (refused e))
        (λ i. do
          let run = new_run i t u.job.id u.server.id (source_paths u.job.sources) trigger
          failure ← ask (λ k. u.env.acquire_lock k u.job.id i) (lock_acquired u.job.id)
          option failure (start_locked (record run { status = running })) (λ e. refused_lock run e))

  unfoldable pub conclude : Begun → Action World (Result Run)
  conclude (refused e) = pure (err e)
  conclude (already_running run) = pure (ok run)
  conclude (started run) = do done ← finish_run run; pure (ok done)

  -- `Engine.Run`; `Start` differs in that it does not wait for `finishRun`.
  unfoldable pub run_job : Trigger → Action World (Result Run)
  run_job trigger = do begun ← begin_run trigger; conclude begun
