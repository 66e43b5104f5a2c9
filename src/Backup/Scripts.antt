-- ===== src/Backup/Scripts.antt =====
-- server/internal/backup/scripts.go, and the drain of cleanup.go.
use sshbackup.Common.{
  ℕ, zero, suc, String, ◌<>◌, Bool, true, false, ◌||◌, Option, none, some, List, [], ◌∷◌, ◌++◌,
  length, if◌then◌else◌, is_zero, itoa_ℤ,
}
use sshbackup.Common.Action.{pure, gets, when, branch, option, for_each, ◌>>=◌, ◌>>◌}
use sshbackup.Domain.{
  Error, plain_error, RunStep, StepType, ScriptType, pre_backup, post_backup, other_script_type,
  RunCondition, always, Script, should_run, same_script_type, pre_script_failed, post_script_failed,
  pre_backup_script_step, post_backup_script_step, ErrorCode,
}
use sshbackup.Backup.World.{Reply, attempted, unrecorded, mark, seconds}
use sshbackup.Backup.Context.{
  Setup, CleanupEntry, Stage, lift, fail, record_recovery, mark_done, find_cleanup_entry,
  check_cancelled, run_command, finish_recorded, skip_recorded, with_step, step_status,
}

-- `scriptStepType`.
abbrev pub script_step_type : ScriptType → StepType
script_step_type post_backup = post_backup_script_step
script_step_type pre_backup = pre_backup_script_step
script_step_type (other_script_type t) = pre_backup_script_step

abbrev pub is_always : RunCondition → Bool
is_always always = true
is_always _ = false

-- Whether `registerCleanupScripts` registers a script.
abbrev pub is_guaranteed : Script → Bool
is_guaranteed script = is_always script.run_condition || script.critical_cleanup

-- One round of `registerCleanupScripts`: the entry, and the token that names its place.
unfoldable pub register_script : Script → Stage (Unit {0})
register_script script s =
    if is_guaranteed script
    then (
      tt,
      record s {
        entries =
            s.entries
            ++ record {
              script = script;
              step_type = script_step_type script.script_type;
              done = false;
            }
              ∷ [];
        tokens = s.tokens ++ (script.id, length s.entries) ∷ [];
      },
    )
    else (tt, s)

abbrev pub script_type_text : ScriptType → String
script_type_text pre_backup = "PRE_BACKUP"
script_type_text post_backup = "POST_BACKUP"
script_type_text (other_script_type t) = t

-- The code of a script that failed in a phase.
abbrev pub script_failure_code : ScriptType → ErrorCode
script_failure_code pre_backup = pre_script_failed
script_failure_code post_backup = post_script_failed
script_failure_code (other_script_type t) = post_script_failed

-- The registry's pending entries, with their places from `i` on.
abbrev pub pending_from : ℕ → List CleanupEntry → List (ℕ × CleanupEntry)
pending_from i [] = []
pending_from i (e ∷ es) =
    let rest = pending_from (suc i) es in if e.done then rest else (i, e) ∷ rest

module _ (u : Setup) where
  -- `registerCleanupScripts`.
  unfoldable pub register_cleanup_scripts : Stage (Unit {0})
  register_cleanup_scripts = for_each register_script u.job.scripts

  -- The error of one attempt, if it failed.
  unfoldable pub attempt_error : Reply → Option Error
  attempt_error reply = elim reply.error [
    | some e ↦ some e
    | none ↦
        if is_zero reply.exit_code
        then none
        else some (
            plain_error
              ("exit code " <> itoa_ℤ reply.exit_code <> ": " <> u.env.redact reply.stderr))
  ]

  -- The loop of `executeScript` over the attempts left, with the last error.
  unfoldable pub script_attempts : ℕ → Script → Option Error → Stage (Option Error)
  script_attempts zero script last = pure last
  script_attempts (suc n) script last = do
    reply ← run_command u script.command (seconds script.timeout_seconds)
    option (attempt_error reply) (pure none) (λ e. script_attempts n script (some e))

  -- `executeScript`: one attempt, or two with the retry.
  unfoldable pub execute_script : Script → Stage (Option Error)
  execute_script script = script_attempts (if script.retry_on_failure then 2 else 1) script none

  -- The end of `runScriptRecorded`.
  unfoldable pub record_outcome : RunStep → Option Error → Stage (Option Error)
  record_outcome step outcome = do
    option outcome (finish_recorded u (step_status true) step)
        (λ e. finish_recorded u (step_status false) (record step { error = u.env.redact e.text }))
    pure outcome

  -- The return of `runScriptRecorded` where its step could not be recorded: the script is not run.
  unfoldable pub give_up : Script → Error → Stage (Option Error)
  give_up script e = do lift (mark (unrecorded script)); pure (some e)

  -- `runScriptRecorded`.
  unfoldable pub run_script_recorded : Script → StepType → Stage (Option Error)
  run_script_recorded script step_type = do
    lift (mark (attempted script))
    with_step u step_type (give_up script) (λ step. do
      outcome ← execute_script script
      record_outcome (record step { command = script.command }) outcome)

  -- `MarkDone` and `recordRecovery`, if the script has an entry.
  unfoldable pub settle_entry : Option ℕ → Option Error → Stage (Unit {0})
  settle_entry place outcome = option place (pure tt) (λ i. do mark_done i; record_recovery outcome)

  -- `rc.fail` for a script that failed.
  unfoldable pub report_failure : ScriptType → Script → Option Error → Stage (Unit {0})
  report_failure phase script outcome = option outcome (pure tt) (λ e.
      fail (script_failure_code phase) (
        script_type_text phase
        <> " script at position "
        <> itoa_ℤ script.position
        <> " failed: "
        <> u.env.redact e.text))

  -- What `runScripts` does with a script's outcome.
  unfoldable pub after_script : ScriptType → Script → Option Error → Stage (Unit {0})
  after_script phase script outcome = do
    tokens ← gets (λ s. s.tokens)
    settle_entry (find_cleanup_entry script.id tokens) outcome
    report_failure phase script outcome

  -- One round of `runScripts`; the value says whether the loop goes on.
  unfoldable pub visit_script : ScriptType → Script → Stage Bool
  visit_script phase script =
      branch (same_script_type script.script_type phase)
        (do
          stop ← check_cancelled u
          branch stop (pure false) (do
            failed ← gets (λ s. s.failed)
            branch (should_run script.run_condition failed)
                (do
                  outcome ← run_script_recorded script (script_step_type phase)
                  after_script phase script outcome)
                (skip_recorded u (script_step_type phase)
                  "preceding stage did not meet this script's run condition" script.command)
            pure true))
        (pure true)

  unfoldable pub run_scripts_from : ScriptType → List Script → Stage (Unit {0})
  run_scripts_from phase [] = pure tt
  run_scripts_from phase (script ∷ scripts) = do
    go_on ← visit_script phase script
    when go_on (run_scripts_from phase scripts)

  -- `runScripts`.
  unfoldable pub run_scripts : ScriptType → Stage (Unit {0})
  run_scripts phase = run_scripts_from phase u.job.scripts

  -- One round of the second loop of `Drain`.
  unfoldable pub drain_entry : ℕ → CleanupEntry → Stage (Option Error)
  drain_entry i e = do outcome ← run_script_recorded e.script e.step_type; mark_done i; pure outcome

  -- The second loop of `Drain`: every pending entry runs, whatever became of those before it.
  unfoldable pub drain_pending : List (ℕ × CleanupEntry) → Stage (List (Option Error))
  drain_pending [] = pure []
  drain_pending ((i, e) ∷ pending) = do
    outcome ← drain_entry i e
    outcomes ← drain_pending pending
    pure (outcome ∷ outcomes)

  -- `drainCleanup`, with `Drain`.
  unfoldable pub drain_cleanup : Stage (Unit {0})
  drain_cleanup = do
    entries ← gets (λ s. s.entries)
    outcomes ← drain_pending (pending_from 0 entries)
    for_each record_recovery outcomes
