-- ===== src/Backup/Archive.antt =====
-- server/internal/backup/archive.go.
use Prim.Native.Char.{code}
use sshbackup.Common.{
  String, ◌<>◌, join, Bool, true, false, not, List, [], ◌∷◌, ◌++◌, map, pos, is_zero, itoa_ℤ, ◌==◌,
  str_eq, if◌then◌else◌, any,
}
use sshbackup.Common.Action.{pure, gets, modify, when, branch, option, ◌>>=◌, ◌>>◌}
use sshbackup.Domain.{
  Source, remote_job_directory, internal, archive_failed, archive_timeout, archive_step,
}
use sshbackup.Domain.ArchiveName.{archive_file_name}
use sshbackup.Backup.World.{Reply}
use sshbackup.Backup.ShellQuote.{shell_quote}
use sshbackup.Backup.Context.{
  Setup, Stage, fail, run_command, finish_recorded, with_step, step_status,
}

abbrev pub flatten_map : (Source → List String) → List Source → List String
flatten_map f [] = []
flatten_map f (x ∷ xs) = f x ++ flatten_map f xs

only_slashes : String → Bool
only_slashes String.[] = true
only_slashes (String.◌∷◌ c s) = if code c == 47 then only_slashes s else false

-- strings.TrimRight(pattern, "/").
unfoldable pub trim_slashes : String → String
unfolding only_slashes
trim_slashes String.[] = ""
trim_slashes (String.◌∷◌ c s) =
    if only_slashes (String.◌∷◌ c s) then "" else String.◌∷◌ c (trim_slashes s)

abbrev pub has_patterns : Source → Bool
has_patterns s = elim s.include [ [] ↦ false | p ∷ ps ↦ true ]

abbrev pub exclude_args : List Source → List String
exclude_args = flatten_map (λ s. map (λ p. "--exclude=" <> shell_quote p) s.exclude)

list_command : Source → String
list_command s =
    if has_patterns s
    then "find "
      <> shell_quote s.remote_path
      <> " -mindepth 1 \\( "
      <> join (map (λ p. "-name " <> shell_quote (trim_slashes p)) s.include) " -o "
      <> " \\) -prune -print0"
    else "printf '%s\\000' " <> shell_quote s.remote_path

-- `includeArchiveCommand`.
unfoldable pub include_archive_command : List Source → String → String
unfolding list_command
include_archive_command sources path =
    let list = shell_quote (path <> ".list") in
    let tar =
      ("tar" ∷ "--null" ∷ "-T" ∷ list ∷ [])
      ++ (exclude_args sources ++ ("-czf" ∷ shell_quote path ∷ [])) in
    "{ "
    <> join (map list_command sources) " && "
    <> "; } > "
    <> list
    <> " && "
    <> join tar " "
    <> "; status=$?; rm -f "
    <> list
    <> "; exit $status"

-- `archiveCommand`.
unfoldable pub archive_command : List Source → String → String → String
unfolding include_archive_command
archive_command sources dir path =
    let mkdir = "mkdir -p " <> shell_quote dir in
    if any has_patterns sources
    then mkdir <> " && " <> include_archive_command sources path
    else join
        ((mkdir ∷ "&&" ∷ "tar" ∷ [])
          ++ (exclude_args sources
              ++ (("-czf" ∷ shell_quote path ∷ "--" ∷ [])
                  ++ map (λ s. shell_quote s.remote_path) sources)))
        " "

module _ (u : Setup) where
  -- `removePartialRemoteArchive`.
  unfoldable pub remove_partial_remote_archive : Stage (Unit {0})
  remove_partial_remote_archive = do
    path ← gets (λ s. s.remote_archive_path)
    when (not (str_eq path "")) (do
      run_command u ("rm -f " <> shell_quote path <> " " <> shell_quote (path <> ".list")) (pos 0)
      pure tt)

  -- The failure of an archive command: an error of the transport, or an exit code.
  unfoldable pub archive_failure : Reply → Stage Bool
  archive_failure reply =
      option reply.error
        (branch (is_zero reply.exit_code) (pure true) (do
          fail archive_failed (
              "tar exited with code "
              <> itoa_ℤ reply.exit_code
              <> ": "
              <> u.env.redact reply.stderr)
          pure false))
        (λ e. do
          branch e.deadline_exceeded (fail archive_timeout "archive creation exceeded its timeout")
              (fail archive_failed (u.env.redact e.text))
          pure false)

  -- `runArchive`, without the step's error text, which `archive` reads back from the run.
  unfoldable pub run_archive : Stage Bool
  run_archive = do
    modify (λ s. record s {
      run = record s.run { archive_name = archive_file_name u.job.name s.run.started_at };
      remote_archive_path =
          remote_job_directory u.job <> "/" <> archive_file_name u.job.name s.run.started_at;
    })
    path ← gets (λ s. s.remote_archive_path)
    reply ←
        run_command u (archive_command u.job.sources (remote_job_directory u.job) path)
          u.job.archive_timeout
    ok ← archive_failure reply
    when (not ok) remove_partial_remote_archive
    pure ok

  -- `archive`. A failed step shows the run's error message.
  unfoldable pub archive : Stage (Unit {0})
  archive =
      with_step u archive_step (λ e. fail internal "could not record archive step")
        (λ step. do
          ok ← run_archive
          message ← gets (λ s. s.run.error_message)
          finish_recorded u (step_status ok)
              (record step { error = if ok then step.error else message }))
