-- ===== src/Backup/World.antt =====
-- The ports of server/internal/backup (transport.go, clock.go, store.go, the interfaces of
-- engine.go) and the operating system. `Env` answers each call by the number of calls made before,
-- so it ranges over every behaviour of the outside; `World` counts the calls and keeps them.
use sshbackup.Common.{ℕ, suc, ◌+◌, ◌-◌, ◌*◌, String, ℤ, pos, negsuc, Bool, Option, List, ◌∷◌}
use sshbackup.Common.Action.{Action}
use sshbackup.Calendar.{Time}
use sshbackup.Domain.{Error, Result, Run, RunStep, Script}

-- `RunResult` with the error that `Transport.Run` returns beside it.
pub record Reply : Type 0 where
  pub exit_code : ℤ
  pub stdout : String
  pub stderr : String
  pub error : Option Error

pub record Env : Type 0 where
  pub now : ℕ → Time
  pub new_id : ℕ → Result String
  pub cancelled : ℕ → Bool  -- ctx.Err() != nil
  pub connect : ℕ → Option Error
  pub run_remote : ℕ → String → ℤ → Reply
  pub download : ℕ → String → String × Option Error  -- what was written, and the error
  pub sha256_hex : String → String
  pub create_file : ℕ → String → Option Error
  pub sync_file : ℕ → Option Error
  pub rename : ℕ → String → String → Option Error
  pub remove : ℕ → String → Option Error
  pub stat_size : ℕ → String → Option ℤ
  pub make_dir : ℕ → String → Option Error
  pub create_temp : ℕ → String → Result String
  pub local_free : ℕ → String → Option ℤ
  pub create_step : ℕ → RunStep → ℕ → Option Error
  pub update_step : ℕ → RunStep → Option Error
  pub create_run : ℕ → Run → Option Error
  pub update_run : ℕ → Run → Option Error
  pub acquire_lock : ℕ → String → String → Option Error
  pub release_lock : ℕ → String → Option Error
  pub sleep : ℕ → ℤ → Option Error
  pub apply_retention : ℕ → Option Error × List String  -- the error, and the warnings
  pub has_retention : Bool
  pub has_events : Bool
  pub redact : String → String
  pub cron_error : String → Option String
  pub join_path : String → String → String  -- filepath.Join

-- The calls that the theorems speak of. `attempted` marks the entry of `runScriptRecorded`, and
-- `unrecorded` its end where the step could not be recorded.
pub data Call : Type 0 where
  connected closed retained : Call
  ran : String → ℤ → Call
  fetched : String → Call
  renamed removed : String → Call
  step_created : RunStep → ℕ → Call
  step_updated step_changed : RunStep → Call
  attempted unrecorded : Script → Call
  run_created run_updated run_started run_finished : Run → Call
  lock_acquired lock_released : String → Call
  other : Call

-- The last call stands first.
pub record World : Type 0 where
  pub tick : ℕ
  pub calls : List Call

-- One call: the environment's answer, and the call on record.
unfoldable pub ask : {A : Type 0} → (ℕ → A) → Call → Action World A
ask answer call w = (answer w.tick, record { tick = suc w.tick; calls = call ∷ w.calls })

-- A mark on the record that is no call.
unfoldable pub mark : Call → Action World (Unit {0})
mark call w = (tt, record w { calls = call ∷ w.calls })

-- time.Duration(n) * time.Second, in nanoseconds.
abbrev pub seconds : ℤ → ℤ
seconds (pos n) = pos (n * 1_000_000_000)
seconds (negsuc n) = negsuc ((n + 1) * 1_000_000_000 - 1)
