-- ===== src/Backup/Context.antt =====
-- server/internal/backup/runcontext.go, steprecorder.go and cleanup.go: the state of one run. What
-- the code only logs is left out. A cleanup entry's closure is the script that it runs.
use sshbackup.Common.{
  ℕ, zero, suc, ◌+◌, String, ℤ, Bool, true, false, Option, none, some, List, [], ◌∷◌, if◌then◌else◌,
  str_eq,
}
use sshbackup.Common.Action.{Action, pure, gets, modify, when, branch, option, ◌>>=◌, ◌>>◌}
use sshbackup.Calendar.{Time}
use sshbackup.Domain.{
  ErrorCode, Error, Result, ok, err, Run, RunStep, RunStatus, StepStatus, StepType, Script, Job,
  Server, RecoveryOutcome, success, warning, recovery_success, recovery_failed,
  recovery_not_applicable, step_success, step_failed, is_no_code, new_run_step, finish_step,
  skip_step,
}
use sshbackup.Backup.World.{
  Env, World, Reply, ask, ran, step_created, step_updated, step_changed, other, seconds, mark,
}

-- What a run is given: the engine's ports, the job, its server and the destination.
pub record Setup : Type 0 where
  pub env : Env
  pub job : Job
  pub server : Server
  pub dest_dir : String

-- `cleanupEntry`.
pub record CleanupEntry : Type 0 where
  pub script : Script
  pub step_type : StepType
  pub done : Bool

-- `runContext`. A cleanup token's entry is its place in the registry.
pub record RunContext : Type 0 where
  pub run : Run
  pub position : ℕ
  pub entries : List CleanupEntry
  pub tokens : List (String × ℕ)
  pub has_transport : Bool
  pub failed : Bool
  pub has_warn : Bool
  pub cancelled : Bool
  pub recovery_out : RecoveryOutcome
  pub recovery_attempted : Bool
  pub remote_archive_path : String
  pub local_part_path : String
  pub archive_verified : Bool
  pub world : World

abbrev pub Stage {ℓ} : Type ℓ → Type ℓ
Stage A = Action RunContext A

-- An action of the outside, inside a run.
unfoldable pub lift {ℓ} : {A : Type ℓ} → Action World A → Stage A
lift m s = let (a, w) = m s.world in (a, record s { world = w })

-- `fail`: the first failure is kept.
unfoldable pub fail : ErrorCode → String → Stage (Unit {0})
fail code message s = if s.failed then (tt, s) else (
  tt,
  record s { failed = true; run = record s.run { error_code = code; error_message = message } },
)

warned : ErrorCode → String → RunContext → RunContext
warned code message s =
    if s.failed
    then record s { has_warn = true }
    else if is_no_code s.run.error_code
    then record s {
      has_warn = true;
      run = record s.run { error_code = code; error_message = message };
    }
    else record s { has_warn = true }

-- `warn`: a failure, and an earlier warning, stay the headline.
unfoldable pub warn : ErrorCode → String → Stage (Unit {0})
unfolding warned
warn code message s = (tt, warned code message s)

abbrev pub is_recovery_failed : RecoveryOutcome → Bool
is_recovery_failed recovery_failed = true
is_recovery_failed recovery_success = false
is_recovery_failed recovery_not_applicable = false

-- `recordRecovery`.
unfoldable pub record_recovery : Option Error → Stage (Unit {0})
record_recovery (some e) s =
    (tt, record s { recovery_attempted = true; recovery_out = recovery_failed })
record_recovery none s =
    if is_recovery_failed s.recovery_out
    then (tt, record s { recovery_attempted = true })
    else (tt, record s { recovery_attempted = true; recovery_out = recovery_success })

-- `finalStatus`.
unfoldable pub final_status : RunContext → RunStatus
final_status s =
    if s.cancelled
    then RunStatus.cancelled
    else if s.failed
    then RunStatus.failed
    else if s.has_warn
    then warning
    else success

-- `stepStatus`.
abbrev pub step_status : Bool → StepStatus
step_status true = step_success
step_status false = step_failed

-- The registry's `MarkDone`, on the entry at a place.
abbrev pub mark_done_at : ℕ → List CleanupEntry → List CleanupEntry
mark_done_at i [] = []
mark_done_at zero (e ∷ es) = record e { done = true } ∷ es
mark_done_at (suc i) (e ∷ es) = e ∷ mark_done_at i es

unfoldable pub mark_done : ℕ → Stage (Unit {0})
mark_done i s = (tt, record s { entries = mark_done_at i s.entries })

-- `findCleanupEntry`: the first token with the script's identifier.
abbrev pub find_cleanup_entry : String → List (String × ℕ) → Option ℕ
find_cleanup_entry id [] = none
find_cleanup_entry id ((k, i) ∷ ts) = if str_eq k id then some i else find_cleanup_entry id ts

-- A value, or what is done with the error in its place.
unfoldable pub on_result :
    {S A B : Type 0} → Result A → (Error → Action S B) → (A → Action S B) → Action S B
on_result (err e) refused f s = refused e s
on_result (ok a) refused f s = f a s

module _ (u : Setup) where
  -- `now`.
  unfoldable pub now : Stage Time
  now = lift (ask u.env.now other)

  -- `checkCancelled`.
  unfoldable pub check_cancelled : Stage Bool
  check_cancelled = do
    stop ← lift (ask u.env.cancelled other)
    branch stop (do modify (λ s. record s { cancelled = true }); pure true) (pure false)

  -- `runRemote`, and `transport.Run` under any timeout.
  unfoldable pub run_command : String → ℤ → Stage Reply
  run_command cmd timeout = lift (ask (λ t. u.env.run_remote t cmd timeout) (ran cmd timeout))

  unfoldable pub run_remote : String → Stage Reply
  run_remote cmd = run_command cmd (seconds u.server.command_timeout_seconds)

  -- The part of `stepRecorder.Start` and `Skip` that persists a step at the next position.
  unfoldable pub persist_new : RunStep → Stage (Option Error)
  persist_new step = do
    position ← gets (λ s. s.position)
    failure ← lift (ask (λ t. u.env.create_step t step position) (step_created step position))
    option failure (do modify (λ s. record s { position = s.position + 1 }); pure none)
        (λ e. pure (some e))

  -- `stepRecorder.Start`.
  unfoldable pub start_step : StepType → Stage (Result RunStep)
  start_step step_type = do
    t ← now
    run_id ← gets (λ s. s.run.id)
    id ← lift (ask u.env.new_id other)
    on_result id (λ e. pure (err e))
        (λ i. do
          let step = new_run_step i t run_id step_type
          failure ← persist_new step
          option failure (pure (ok step)) (λ e. pure (err e)))

  -- `stepRecorder.onChange`.
  unfoldable pub notify_change : RunStep → Stage (Unit {0})
  notify_change step = when u.env.has_events (lift (mark (step_changed step)))

  -- `stepRecorder.Finish`, whose error the callers log.
  unfoldable pub persist_step : RunStep → Stage (Unit {0})
  persist_step step = do
    failure ← lift (ask (λ t. u.env.update_step t step) (step_updated step))
    option failure (notify_change step) (λ e. pure tt)

  -- `step.Finish(rc.now(), status)` and then `rc.steps.Finish`.
  unfoldable pub finish_recorded : StepStatus → RunStep → Stage (Unit {0})
  finish_recorded status step = do t ← now; persist_step (finish_step t status step)

  -- `stepRecorder.Skip`, whose error the caller logs.
  unfoldable pub skip_recorded : StepType → String → String → Stage (Unit {0})
  skip_recorded step_type reason command = do
    t ← now
    run_id ← gets (λ s. s.run.id)
    id ← lift (ask u.env.new_id other)
    on_result id (λ e. pure tt)
        (λ i. do
          let step =
              skip_step t reason (record (new_run_step i t run_id step_type) { command = command })
          failure ← persist_new step
          option failure (notify_change step) (λ e. pure tt))

  -- A stage's body under a recorded step, with what to do when the step cannot be recorded.
  unfoldable pub with_step :
      {A : Type 0} → StepType → (Error → Stage A) → (RunStep → Stage A) → Stage A
  with_step step_type refused body = do
    started ← start_step step_type
    on_result started refused body
