-- ===== src/Retention/Stale.antt =====
-- server/internal/retention/staleremote.go: old files in a job's temporary directory on the server.
use sshbackup.Common.{
  ℕ, String, ◌<>◌, itoa, quote, trim_space, ◌==◌, Bool, true, false, Option, none, some, List, [],
  ◌∷◌, str_eq, if◌then◌else◌,
}
use sshbackup.Common.Action.{Action, pure, branch, option, ◌>>=◌, ◌>>◌}
use Prim.Native.Char.{code}
use sshbackup.Domain.{Error, Result, ok, err, Job, Server, remote_job_directory}
use sshbackup.Backup.World.{Env, World, Reply, ask, mark, connected, closed, ran, other, seconds}
use sshbackup.Backup.Checks.{succeeds}
use sshbackup.Backup.ShellQuote.{shell_quote}

-- What `Scan` returns: the findings' paths, with an error or without.
pub record Scanned : Type 0 where
  pub findings : List String
  pub error : Option Error

-- strings.Split(s, "\n").
unfoldable pub split_lines : String → List String
split_lines String.[] = "" ∷ []
split_lines (String.◌∷◌ c s) = elim (split_lines s) [
  | [] ↦ String.◌∷◌ c "" ∷ []
  | l ∷ ls ↦ if code c == 10 then "" ∷ l ∷ ls else String.◌∷◌ c l ∷ ls
]

abbrev pub without_empty : List String → List String
without_empty [] = []
without_empty (x ∷ xs) = let rest = without_empty xs in if str_eq x "" then rest else x ∷ rest

-- The command of `Scan`, for an age in minutes.
abbrev pub find_command : Job → ℕ → String
find_command job minutes =
    "find "
    <> shell_quote (remote_job_directory job)
    <> " -maxdepth 1 -type f -mmin +"
    <> itoa minutes
    <> " 2>/dev/null"

abbrev pub remove_command : String → String
remove_command path = "rm -f " <> shell_quote path

-- The findings of a reply.
unfoldable pub findings_of : Reply → List String
findings_of reply =
    if succeeds reply then without_empty (split_lines (trim_space reply.stdout)) else []

module _ (env : Env) (is_locked : ℕ → Result Bool) (job : Job) (server : Server) where
  unfoldable pub run_on_server : String → Action World Reply
  run_on_server command =
      ask (λ t. env.run_remote t command (seconds server.command_timeout_seconds))
        (ran command (seconds server.command_timeout_seconds))

  -- The loop that deletes; its value is the error that stops it.
  unfoldable pub delete_each : List String → Action World (Option Error)
  delete_each [] = pure none
  delete_each (path ∷ paths) = do
    reply ← run_on_server (remove_command path)
    option reply.error (delete_each paths) (λ e.
        pure (
          some
            (record e { text = "delete stale remote archive " <> quote path <> ": " <> e.text })))

  -- `Scan` with the connection made.
  unfoldable pub scan_connected : ℕ → Bool → Action World Scanned
  scan_connected minutes auto_delete = do
    reply ← run_on_server (find_command job minutes)
    failure ← branch auto_delete (delete_each (findings_of reply)) (pure none)
    mark closed
    pure (record { findings = findings_of reply; error = failure })

  unfoldable pub refuse : Error → Action World Scanned
  refuse e = pure (record { findings = []; error = some e })

  -- `Scan` when the lock is known.
  unfoldable pub scan_unlocked : ℕ → Bool → Action World Scanned
  scan_unlocked minutes auto_delete = do
    failure ← ask env.connect connected
    option failure (scan_connected minutes auto_delete) refuse

  unfoldable pub after_lock : ℕ → Bool → Result Bool → Action World Scanned
  after_lock minutes auto_delete (err e) =
      refuse (record e { text = "check active lock for job " <> quote job.id <> ": " <> e.text })
  after_lock minutes auto_delete (ok true) = pure (record { findings = []; error = none })
  after_lock minutes auto_delete (ok false) = scan_unlocked minutes auto_delete

  -- `Scan`.
  unfoldable pub scan : ℕ → Bool → Action World Scanned
  scan minutes auto_delete = do locked ← ask is_locked other; after_lock minutes auto_delete locked
