-- ===== src/Backup/Respects.antt =====
-- Relations that the run engine respects: a relation on run contexts that composes and that every
-- elementary change respects holds between the start and the end of each stage.
pub mod Recording
pub mod Checking
pub mod Transfer
pub mod Staging
pub mod Whole
use sshbackup.Common.{ℕ, suc, ◌+◌, String, ℤ, Bool, true, false, ◌≡◌, refl, List, ◌∷◌, ◌++◌, length}
use sshbackup.Common.Action.{IsPreorder}
use sshbackup.Domain.{ErrorCode, RecoveryOutcome, Script}
use sshbackup.Backup.World.{World, Call, attempted, closed}
use sshbackup.Backup.Context.{RunContext, CleanupEntry}

-- Every call but a script's and the closing of the transport.
abbrev pub IsQuiet : Call → Type 0
IsQuiet (attempted s) = ⊥
IsQuiet closed = ⊥
IsQuiet _ = Unit {0}

abbrev pub after_ask : Call → World → World
after_ask c w = record { tick = suc w.tick; calls = c ∷ w.calls }

abbrev pub after_mark : Call → World → World
after_mark c w = record w { calls = c ∷ w.calls }

-- What every stage changes.
pub record IsPlain (R : RunContext → RunContext → Type 0) : Type 0 where
  pub order : IsPreorder R
  pub on_ask :
      (s : RunContext) (c : Call) → IsQuiet c → R s (record s { world = after_ask c s.world })
  pub on_mark :
      (s : RunContext) (c : Call) → IsQuiet c → R s (record s { world = after_mark c s.world })
  pub on_cancel : (s : RunContext) → R s (record s { cancelled = true })
  pub on_position : (s : RunContext) → R s (record s { position = s.position + 1 })
  pub on_failure :
      (s : RunContext) (c : ErrorCode) (m : String)
      → s.failed ≡ false
      → R s (record s { failed = true; run = record s.run { error_code = c; error_message = m } })
  pub on_warned : (s : RunContext) → R s (record s { has_warn = true })
  pub on_warning :
      (s : RunContext) (c : ErrorCode) (m : String)
      → s.failed ≡ false
      → R s (record s { has_warn = true; run = record s.run { error_code = c; error_message = m } })
  pub on_recovery :
      (s : RunContext) (o : RecoveryOutcome)
      → R s (record s { recovery_attempted = true; recovery_out = o })
  pub on_part : (s : RunContext) (path : String) → R s (record s { local_part_path = path })
  pub on_size :
      (s : RunContext) (n : ℤ) → R s (record s { run = record s.run { archive_size = n } })

-- The archive's name and place, and its acceptance, too.
pub record IsRespected (R : RunContext → RunContext → Type 0) : Type 0 where
  pub plain : IsPlain R
  pub on_archive :
      (s : RunContext) (name path : String)
      → R s (record s { run = record s.run { archive_name = name }; remote_archive_path = path })
  pub on_verified :
      (s : RunContext) (sum : String)
      → R s (record s { archive_verified = true; run = record s.run { checksum = sum } })
