-- ===== src/Backup/Checks.antt =====
-- server/internal/backup/checks.go and diskspace.go.
use sshbackup.Common.{
  String, ◌<>◌, join, trim_space, parse_int, itoa_ℤ, quote, ℤ, ltb_ℤ, is_zero, Bool, true, false,
  Option, none, some, List, map, if◌then◌else◌,
}
use sshbackup.Common.Action.{Action, pure, branch, option, ◌>>=◌, ◌>>◌}
use sshbackup.Domain.{
  ErrorCode, Result, ok, err, Source, remote_source_not_found, remote_permission_denied,
  remote_tool_missing, remote_no_space, local_permission_denied, local_no_space, no_error_code,
}
use sshbackup.Backup.World.{Env, World, Reply, ran, removed, other, ask, seconds}
use sshbackup.Backup.ShellQuote.{shell_quote}

-- `checkResult`; `passed` leaves the code empty.
pub record CheckResult : Type 0 where
  pub passes : Bool
  pub code : ErrorCode
  pub message : String

abbrev pub passed : String → CheckResult
passed message = record { passes = true; code = no_error_code; message = message }

abbrev pub failed_check : ErrorCode → String → CheckResult
failed_check code message = record { passes = false; code = code; message = message }

-- `err == nil && res.ExitCode == 0`.
abbrev pub succeeds : Reply → Bool
succeeds r = elim r.error [ none ↦ is_zero r.exit_code | some _ ↦ false ]

-- `MeasuredSize`: a number of bytes, or unknown.
abbrev pub measured : Reply → Option ℤ
measured r = if succeeds r then parse_int (trim_space r.stdout) else none

abbrev pub quoted_paths : List Source → List String
quoted_paths sources = map (λ s. shell_quote s.remote_path) sources

-- `checkRemoteFreeSpace`; `none` is a size that is not known.
unfoldable pub check_remote_free_space : Option ℤ → Option ℤ → CheckResult
check_remote_free_space none source_size =
    passed "remote free space could not be measured; continuing without a space check"
check_remote_free_space (some free) none = passed ("remote free space: " <> itoa_ℤ free <> " bytes")
check_remote_free_space (some free) (some size) =
    if ltb_ℤ free size
    then failed_check remote_no_space (
        "estimated source size "
        <> itoa_ℤ size
        <> " bytes exceeds remote free space "
        <> itoa_ℤ free
        <> " bytes")
    else passed ("remote free space: " <> itoa_ℤ free <> " bytes")

-- `checkLocalFreeSpace`.
unfoldable pub check_local_free_space : String → Option ℤ → Option ℤ → CheckResult
check_local_free_space dir none source_size =
    passed "local free space could not be measured; continuing without a space check"
check_local_free_space dir (some free) none =
    passed ("local free space: " <> itoa_ℤ free <> " bytes")
check_local_free_space dir (some free) (some size) =
    if ltb_ℤ free size
    then failed_check local_no_space (
        "estimated source size "
        <> itoa_ℤ size
        <> " bytes exceeds local free space "
        <> itoa_ℤ free
        <> " bytes on "
        <> dir)
    else passed ("local free space: " <> itoa_ℤ free <> " bytes")

module _ (env : Env) (timeout_seconds : ℤ) where
  -- `runOnTransport`.
  unfoldable pub run_on_transport : String → Action World Reply
  run_on_transport cmd =
      ask (λ t. env.run_remote t cmd (seconds timeout_seconds)) (ran cmd (seconds timeout_seconds))

  -- `checkSourceExists`.
  unfoldable pub check_source_exists : String → Action World CheckResult
  check_source_exists path = do
    res ← run_on_transport ("test -e " <> shell_quote path)
    branch (succeeds res) (pure (passed ("source path " <> path <> " exists"))) (
        pure (
          failed_check remote_source_not_found
            ("source path " <> path <> " does not exist on the remote host")))

  -- `checkSourceReadable`.
  unfoldable pub check_source_readable : String → Action World CheckResult
  check_source_readable path = do
    r ← check_source_exists path
    branch r.passes
        (do
          res ← run_on_transport ("test -r " <> shell_quote path)
          branch (succeeds res) (pure (passed ("source path " <> path <> " is readable"))) (
              pure (
                failed_check remote_permission_denied
                  ("source path " <> path <> " is not readable by the configured user"))))
        (pure r)

  -- `checkToolAvailable`.
  unfoldable pub check_tool_available : String → Action World CheckResult
  check_tool_available tool = do
    res ← run_on_transport ("command -v " <> shell_quote tool)
    branch (succeeds res) (pure (passed (tool <> " is available"))) (
        pure (
          failed_check remote_tool_missing
            ("required remote utility " <> quote tool <> " is not available")))

  -- `checkRemoteTempWritable`.
  unfoldable pub check_remote_temp_writable : String → Action World CheckResult
  check_remote_temp_writable dir = do
    res ← run_on_transport ("mkdir -p " <> shell_quote dir <> " && test -w " <> shell_quote dir)
    branch (succeeds res) (pure (passed ("remote temporary directory " <> dir <> " is writable"))) (
        pure (
          failed_check remote_permission_denied
            ("remote temporary directory " <> dir <> " is not writable")))

  -- `estimateSourceSize`.
  unfoldable pub estimate_source_size : List Source → Action World (Option ℤ)
  estimate_source_size sources = do
    res ← run_on_transport (
        "du -sb " <> join (quoted_paths sources) " " <> " 2>/dev/null | awk '{s+=$1} END{print s}'")
    pure (measured res)

  -- `measureRemoteFreeSpace`.
  unfoldable pub measure_remote_free_space : String → Action World (Option ℤ)
  measure_remote_free_space dir = do
    res ← run_on_transport ("df -B1 --output=avail " <> shell_quote dir <> " | tail -n1")
    pure (measured res)

module _ (env : Env) where
  unfoldable pub probe_outcome : String → Result String → Action World CheckResult
  probe_outcome dir (err e) = pure (
      failed_check local_permission_denied
        ("local destination " <> dir <> " is not writable: " <> e.text))
  probe_outcome dir (ok name) = do
    ask (λ t. env.remove t name) (removed name)
    pure (passed ("local destination " <> dir <> " is writable"))

  -- `checkLocalDestinationWritable`.
  unfoldable pub check_local_destination_writable : String → Action World CheckResult
  check_local_destination_writable dir = do
    failure ← ask (λ t. env.make_dir t dir) other
    option failure (do probe ← ask (λ t. env.create_temp t dir) other; probe_outcome dir probe)
        (λ e. pure (
          failed_check local_permission_denied
            ("local destination " <> dir <> " could not be created: " <> e.text)))

  -- `measureLocalFreeSpace`; `localFreeBytes` is the operating system's answer.
  unfoldable pub measure_local_free_space : String → Action World (Option ℤ)
  measure_local_free_space dir = ask (λ t. env.local_free t dir) other
