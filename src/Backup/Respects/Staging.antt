-- ===== src/Backup/Respects/Staging.antt =====
-- The health check, the remote clean-up and retention respect what every elementary change respects.
use sshbackup.Common.{ℕ, zero, suc, String, Bool, false, Option, some}
use sshbackup.Common.Action.{Leads}
use sshbackup.Domain.{Error, HealthCheck}
use sshbackup.Backup.Context.{Setup, RunContext, Stage}
use sshbackup.Backup.Stages.{
  health_attempts, run_health_check, health_check, remove_remote_archive, remote_cleanup,
  apply_retention,
}
use sshbackup.Backup.Engine.{unless_failed, unless_cancelled, final_stages}
use sshbackup.Backup.Respects.{IsPlain}
use sshbackup.Backup.Respects.Recording.{
  base_rules, run_remote-Leads, finish_recorded-Leads, with_step-Leads, check_cancelled-Leads,
}

module _ {R : RunContext → RunContext → Type 0} (r : IsPlain R) (u : Setup) where
  health_attempts-Leads :
      (n : ℕ) (first : Bool) (hc : HealthCheck) (last : Option Error)
      → Leads R (health_attempts u n first hc last)
  unfolding health_attempts
  health_attempts-Leads zero first hc last = search (base_rules, r.order)
  health_attempts-Leads (suc n) first hc last =
      let later = λ (e : Error). health_attempts-Leads n false hc (some e) in
      search (base_rules, r.order, tt, run_remote-Leads, later) depth 12

  run_health_check-Leads : (hc : HealthCheck) → Leads R (run_health_check u hc)
  unfolding run_health_check
  run_health_check-Leads hc =
      search (base_rules, r.order, with_step-Leads, health_attempts-Leads, finish_recorded-Leads)
        depth 12

  pub health_check-Leads : Leads R (health_check u)
  unfolding health_check
  health_check-Leads = search (base_rules, r.order, run_health_check-Leads)

  remove_remote_archive-Leads : (path : String) → Leads R (remove_remote_archive u path)
  unfolding remove_remote_archive
  remove_remote_archive-Leads path =
      search (base_rules, r.order, with_step-Leads, run_remote-Leads, finish_recorded-Leads) depth
        12

  pub remote_cleanup-Leads : Leads R (remote_cleanup u)
  unfolding remote_cleanup
  remote_cleanup-Leads = search (base_rules, r.order, remove_remote_archive-Leads) depth 9

  pub apply_retention-Leads : Leads R (apply_retention u)
  unfolding apply_retention
  apply_retention-Leads =
      search (base_rules, r.order, tt, with_step-Leads, finish_recorded-Leads) depth 12

  pub unless_failed-Leads : (m : Stage (Unit {0})) → Leads R m → Leads R (unless_failed u m)
  unfolding unless_failed
  unless_failed-Leads m h = search (base_rules, r.order)

  pub unless_cancelled-Leads : (m : Stage (Unit {0})) → Leads R m → Leads R (unless_cancelled u m)
  unfolding unless_cancelled
  unless_cancelled-Leads m h = search (base_rules, r.order, check_cancelled-Leads)

  pub final_stages-Leads : Leads R (final_stages u)
  unfolding final_stages
  final_stages-Leads =
      search
        (
          base_rules, r.order, unless_failed-Leads, health_check-Leads, remote_cleanup-Leads,
          apply_retention-Leads,
        )
        depth 9
