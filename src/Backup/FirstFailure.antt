-- ===== src/Backup/FirstFailure.antt =====
-- The error that a run shows: `fail` and `warn` of server/internal/backup/runcontext.go.
use sshbackup.Common.{true, ◌≡◌, refl, ◌∙◌, arith}
use sshbackup.Common.Action.{IsPreorder, Leads}
use sshbackup.Backup.Context.{Setup, RunContext}
use sshbackup.Backup.Scripts.{run_scripts, drain_cleanup}
use sshbackup.Backup.Archive.{archive}
use sshbackup.Backup.Download.{download_and_verify}
use sshbackup.Backup.Engine.{final_stages}
use sshbackup.Domain.{ScriptType}
use sshbackup.Backup.Respects.{IsRespected}
use sshbackup.Backup.Respects.Whole.{
  IsRespectedByAll, marked_script-Leads, run_scripts-Leads, drain_cleanup-Leads,
}
use sshbackup.Backup.Respects.Transfer.{archive-Leads, download_and_verify-Leads}
use sshbackup.Backup.Respects.Staging.{final_stages-Leads}

-- Once a failure is on record, it stays, with its code and its message.
pub record KeepsFailure (s t : RunContext) : Type 0 where
  pub failed : s.failed ≡ true → t.failed ≡ true
  pub code : s.failed ≡ true → t.run.error_code ≡ s.run.error_code
  pub message : s.failed ≡ true → t.run.error_message ≡ s.run.error_message

KeepsFailure-IsPreorder : IsPreorder KeepsFailure
KeepsFailure-IsPreorder = record {
  same = λ s. record { failed = λ h. h; code = λ h. refl; message = λ h. refl };
  chain = λ s t u p q. record {
    failed = λ h. q.failed (p.failed h);
    code = λ h. q.code (p.failed h) ∙ p.code h;
    message = λ h. q.message (p.failed h) ∙ p.message h;
  };
}

KeepsFailure-IsRespected : IsRespected KeepsFailure
KeepsFailure-IsRespected = record {
  plain = record {
    order = KeepsFailure-IsPreorder;
    on_ask = λ s c q. ground arith;
    on_mark = λ s c q. ground arith;
    on_cancel = λ s. ground arith;
    on_position = λ s. ground arith;
    on_failure = λ s c m h. ground arith;
    on_warned = λ s. ground arith;
    on_warning = λ s c m h. ground arith;
    on_recovery = λ s o. ground arith;
    on_part = λ s p. ground arith;
    on_size = λ s n. ground arith;
  };
  on_archive = λ s n p. ground arith;
  on_verified = λ s x. ground arith;
}

KeepsFailure-IsRespectedByAll : IsRespectedByAll KeepsFailure
KeepsFailure-IsRespectedByAll = record {
  quiet = KeepsFailure-IsRespected;
  on_script = marked_script-Leads KeepsFailure-IsRespected.plain (λ s x. ground arith);
  on_close = λ s. ground arith;
  on_done = λ s i. ground arith;
  on_registered = λ s x. ground arith;
  on_transport = λ s. ground arith;
}

-- Every stage that `execute` goes through after the preflight, in whatever state it is entered,
-- and the drain at the end: if a failure is on record before, the run is failed after, with the same
-- code and the same message.
pub stages-KeepsFailure :
    (u : Setup)
    → ((phase : ScriptType) → Leads KeepsFailure (run_scripts u phase))
      × Leads KeepsFailure (archive u)
      × Leads KeepsFailure (download_and_verify u)
      × Leads KeepsFailure (final_stages u)
      × Leads KeepsFailure (drain_cleanup u)
stages-KeepsFailure u = (
  run_scripts-Leads KeepsFailure-IsRespectedByAll u,
  archive-Leads KeepsFailure-IsRespected u,
  download_and_verify-Leads KeepsFailure-IsRespected u,
  final_stages-Leads KeepsFailure-IsRespected.plain u,
  drain_cleanup-Leads KeepsFailure-IsRespectedByAll u,
)
