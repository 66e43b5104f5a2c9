-- ===== src/Backup/Respects/Checking.antt =====
-- The pre-flight checks respect what every quiet call respects.
use sshbackup.Common.{Bool, String, ℤ, Option, List, [], ◌∷◌}
use sshbackup.Common.Action.{Leads, Leads-bind}
use sshbackup.Domain.{Result, ok, err, Source}
use sshbackup.Backup.World.{Env}
use sshbackup.Backup.Context.{Setup, RunContext, Stage}
use sshbackup.Backup.Checks.{
  CheckResult, run_on_transport, check_source_exists, check_source_readable, check_tool_available,
  check_remote_temp_writable, estimate_source_size, measure_remote_free_space, probe_outcome,
  check_local_destination_writable, measure_local_free_space,
}
use sshbackup.Backup.Stages.{
  require, require_each, preflight_local, preflight_space, preflight_temp,
}
use sshbackup.Backup.Respects.{IsPlain}
use sshbackup.Backup.Respects.Recording.{OnWorld, base_rules}

module _ {R : RunContext → RunContext → Type 0} (r : IsPlain R) (env : Env) (t : ℤ) where
  run_on_transport-Leads : (cmd : String) → Leads (OnWorld R) (run_on_transport env t cmd)
  unfolding run_on_transport
  run_on_transport-Leads cmd = search (base_rules, tt)

  check_source_exists-Leads : (path : String) → Leads (OnWorld R) (check_source_exists env t path)
  unfolding check_source_exists
  check_source_exists-Leads path = search (base_rules, run_on_transport-Leads)

  pub check_source_readable-Leads :
      (path : String) → Leads (OnWorld R) (check_source_readable env t path)
  unfolding check_source_readable
  check_source_readable-Leads path =
      search (base_rules, run_on_transport-Leads, check_source_exists-Leads) depth 9

  pub check_tool_available-Leads :
      (tool : String) → Leads (OnWorld R) (check_tool_available env t tool)
  unfolding check_tool_available
  check_tool_available-Leads tool = search (base_rules, run_on_transport-Leads)

  pub check_remote_temp_writable-Leads :
      (dir : String) → Leads (OnWorld R) (check_remote_temp_writable env t dir)
  unfolding check_remote_temp_writable
  check_remote_temp_writable-Leads dir = search (base_rules, run_on_transport-Leads)

  pub estimate_source_size-Leads :
      (ss : List Source) → Leads (OnWorld R) (estimate_source_size env t ss)
  unfolding estimate_source_size
  estimate_source_size-Leads ss = search (base_rules, run_on_transport-Leads)

  pub measure_remote_free_space-Leads :
      (dir : String) → Leads (OnWorld R) (measure_remote_free_space env t dir)
  unfolding measure_remote_free_space
  measure_remote_free_space-Leads dir = search (base_rules, run_on_transport-Leads)

module _ {R : RunContext → RunContext → Type 0} (r : IsPlain R) (env : Env) where
  probe_outcome-Leads :
      (dir : String) (x : Result String) → Leads (OnWorld R) (probe_outcome env dir x)
  unfolding probe_outcome
  probe_outcome-Leads dir (ok name) = search (base_rules, tt)
  probe_outcome-Leads dir (err e) = search base_rules

  pub check_local_destination_writable-Leads :
      (dir : String) → Leads (OnWorld R) (check_local_destination_writable env dir)
  unfolding check_local_destination_writable
  check_local_destination_writable-Leads dir = search (base_rules, tt, probe_outcome-Leads) depth 9

  pub measure_local_free_space-Leads :
      (dir : String) → Leads (OnWorld R) (measure_local_free_space env dir)
  unfolding measure_local_free_space
  measure_local_free_space-Leads dir = search (base_rules, tt)

module _ {R : RunContext → RunContext → Type 0} (r : IsPlain R) (u : Setup) where
  pub require-Leads :
      (x : CheckResult) (rest : Stage Bool) → Leads R rest → Leads R (require u x rest)
  unfolding require
  require-Leads x rest h = search (base_rules, r.order)

  pub require_each-Leads :
      (check : String → Stage CheckResult) (xs : List String) (rest : Stage Bool)
      → ((x : String) → Leads R (check x))
      → Leads R rest
      → Leads R (require_each u check xs rest)
  unfolding require_each
  require_each-Leads check [] rest h k = k
  require_each-Leads check (x ∷ xs) rest h k =
      let later = require_each-Leads check xs rest h k in
      Leads-bind r.order (check x) (λ y. require u y (require_each u check xs rest)) (h x)
        (λ y. require-Leads y (require_each u check xs rest) later)

  preflight_local-Leads : (size : Option ℤ) → Leads R (preflight_local u size)
  unfolding preflight_local
  preflight_local-Leads size =
      search
        (
          base_rules, r.order, require-Leads, check_local_destination_writable-Leads,
          measure_local_free_space-Leads,
        )
        depth 12

  preflight_space-Leads : Leads R (preflight_space u)
  unfolding preflight_space
  preflight_space-Leads =
      search
        (
          base_rules, r.order, require-Leads, preflight_local-Leads, estimate_source_size-Leads,
          measure_remote_free_space-Leads,
        )
        depth 12

  pub preflight_temp-Leads : Leads R (preflight_temp u)
  unfolding preflight_temp
  preflight_temp-Leads =
      search (
        base_rules, r.order, require-Leads, preflight_space-Leads, check_remote_temp_writable-Leads,
      )
