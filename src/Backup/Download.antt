-- ===== src/Backup/Download.antt =====
-- server/internal/backup/download.go. A value with `ok` false is `none`.
use sshbackup.Common.{
  String, ◌<>◌, trim_space, true, false, not, ◌&&◌, Option, none, some, str_eq, if◌then◌else◌,
}
use sshbackup.Common.Action.{pure, gets, modify, when, branch, option, ◌>>=◌, ◌>>◌}
use sshbackup.Domain.{
  Error, Result, ok, err, RunStep, code_or, internal, archive_failed, download_failed,
  checksum_mismatch, remote_checksum_step, download_step, local_checksum_step, verify_checksum_step,
}
use sshbackup.Backup.World.{Reply, ask, other, fetched, renamed, removed}
use sshbackup.Backup.ShellQuote.{shell_quote}
use sshbackup.Backup.Checks.{succeeds}
use sshbackup.Backup.Context.{
  Setup, Stage, lift, fail, run_remote, finish_recorded, with_step, step_status,
}

-- The command of `remoteChecksum`.
abbrev pub checksum_command : String → String
checksum_command path = "sha256sum " <> shell_quote path <> " | awk '{print $1}'"

-- The sum that a reply carries, if the command succeeded with one.
abbrev pub checksum_of : Reply → Option String
checksum_of reply =
    let sum = trim_space reply.stdout in
    if succeeds reply && not (str_eq sum "") then some sum else none

module _ (u : Setup) where
  -- `deletePart`.
  unfoldable pub delete_part : Stage (Unit {0})
  delete_part = do
    path ← gets (λ s. s.local_part_path)
    when (not (str_eq path "")) (do lift (ask (λ t. u.env.remove t path) (removed path)); pure tt)

  -- A stage that failed: its step shows the run's message.
  unfoldable pub finish_failed : RunStep → Stage (Unit {0})
  finish_failed step = do
    message ← gets (λ s. s.run.error_message)
    finish_recorded u (step_status false) (record step { error = message })

  -- `remoteChecksum`.
  unfoldable pub remote_checksum : Stage (Option String)
  remote_checksum =
      with_step u remote_checksum_step
        (λ e. do fail internal "could not record remote checksum step"; pure none)
        (λ step. do
          path ← gets (λ s. s.remote_archive_path)
          reply ← run_remote u (checksum_command path)
          option (checksum_of reply)
              (do
                fail archive_failed "could not compute the remote archive checksum"
                finish_failed step)
              (λ sum. finish_recorded u (step_status true) (record step { output = sum }))
          pure (checksum_of reply))

  -- The stream's end: what was written is hashed, unless the transfer or the flush failed.
  unfoldable pub hashed : String × Option Error → Stage (Result String)
  hashed (bytes, some e) = pure (err e)
  hashed (bytes, none) = do
    failure ← lift (ask u.env.sync_file other)
    option failure (pure (ok (u.env.sha256_hex bytes)))
        (λ e. pure (err (record e { text = "flush local part file: " <> e.text })))

  -- `streamDownload`.
  unfoldable pub stream_download : Stage (Result String)
  stream_download = do
    part ← gets (λ s. s.local_part_path)
    failure ← lift (ask (λ t. u.env.create_file t part) other)
    option failure
        (do
          path ← gets (λ s. s.remote_archive_path)
          got ← lift (ask (λ t. u.env.download t path) (fetched path))
          hashed got)
        (λ e. pure (err (record e { text = "create local part file: " <> e.text })))

  -- The end of `downloadArchive`.
  unfoldable pub downloaded : RunStep → Result String → Stage (Option String)
  downloaded step (ok sum) = do finish_recorded u (step_status true) step; pure (some sum)
  downloaded step (err e) = do
    fail (code_or e download_failed) (u.env.redact e.text)
    delete_part
    finish_failed step
    pure none

  -- `downloadArchive`.
  unfoldable pub download_archive : Stage (Option String)
  download_archive =
      with_step u download_step (λ e. do fail internal "could not record download step"; pure none)
        (λ step. do
          modify (λ s. record s {
            local_part_path = u.env.join_path u.dest_dir (s.run.archive_name <> ".part");
          })
          outcome ← stream_download
          downloaded step outcome)

  -- `localChecksumStep`.
  unfoldable pub local_checksum : String → Stage (Unit {0})
  local_checksum sum =
      with_step u local_checksum_step (λ e. pure tt)
        (λ step. finish_recorded u (step_status true) (record step { output = sum }))

  -- `verifyChecksums` after the rename.
  unfoldable pub accept_archive : String → String → RunStep → Stage (Unit {0})
  accept_archive final_path sum step = do
    modify (λ s. record s { archive_verified = true; run = record s.run { checksum = sum } })
    size ← lift (ask (λ t. u.env.stat_size t final_path) other)
    option size (pure tt) (λ n. modify (λ s. record s { run = record s.run { archive_size = n } }))
    finish_recorded u (step_status true) step

  -- `verifyChecksums`.
  unfoldable pub verify_checksums : String → String → Stage (Unit {0})
  verify_checksums remote_sum local_sum =
      with_step u verify_checksum_step (λ e. fail internal "could not record verify checksum step")
        (λ step.
          branch (str_eq remote_sum local_sum)
            (do
              name ← gets (λ s. s.run.archive_name)
              part ← gets (λ s. s.local_part_path)
              let final_path = u.env.join_path u.dest_dir name
              failure ← lift (ask (λ t. u.env.rename t part final_path) (renamed final_path))
              option failure (accept_archive final_path local_sum step) (λ e. do
                fail download_failed ("could not finalize downloaded archive: " <> e.text)
                finish_failed step))
            (do
              fail checksum_mismatch
                  ("checksum mismatch: remote " <> remote_sum <> ", local " <> local_sum)
              message ← gets (λ s. s.run.error_message)
              delete_part
              finish_recorded u (step_status false) (record step { error = message })))

  -- `downloadAndVerify`.
  unfoldable pub download_and_verify : Stage (Unit {0})
  download_and_verify = do
    remote ← remote_checksum
    option remote (pure tt) (λ remote_sum. do
      local ← download_archive
      option local (pure tt)
          (λ local_sum. do local_checksum local_sum; verify_checksums remote_sum local_sum))
