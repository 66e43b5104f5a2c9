-- ===== src/Examples/Actives.antt =====
-- Witnesses for the runs that the application starts.
use sshbackup.Common.{◌≡◌, refl, String, [], ◌∷◌}
use sshbackup.Domain.{ok, Run, running, manual}
use sshbackup.Domain.Entities.{new_run}
use sshbackup.Ipc.ActiveRuns.{
  Active, Phase, Reach, start, after_start, after_early_end, after_late_registration, new_active,
  unknown, started, finished_early, registered_late, set_phase, register, unregister, cancel, held,
  answer, Reach-cancel,
}
use sshbackup.Ipc.RunHandlers.{RunPorts, Desk, handle_runs_start}
use sshbackup.Ipc.Contexts.{Settled, handle_runs_start-Settled}
use sshbackup.Examples.Samples.{noon}
use sshbackup.Examples.Wire.{Stored, kept_settings, backend}

-- A run that finished before it was registered.
abbrev phases : String → Phase
phases =
    set_phase "r1" (registered_late 0)
      (set_phase "r1" (finished_early 0) (set_phase "r1" (started 0) (λ x. unknown)))

abbrev left : Active
left = register "r1" 0 (unregister "r1" new_active)

left-Reach : Reach phases left
left-Reach =
    after_late_registration "r1" 0 (after_early_end "r1" 0 (after_start "r1" 0 start refl) refl)
      refl

Reach-cancel_example :
    ((cancel "r1" left).0, (cancel "r1" left).1.called) ≡ answer (held (phases "r1")) left.called
Reach-cancel_example = Reach-cancel phases left left-Reach "r1"

abbrev fresh : Run
fresh = record (new_run "r2" (noon 1) "j1" "s1" [] manual) { status = running }

abbrev ports : RunPorts Stored
ports = record {
  start = λ c j s k dir t w. (ok fresh, w);
  list_runs = λ j s n w. (ok (fresh ∷ []), w);
}

abbrev desk : Stored → Desk Stored
desk w = record { world = w; active = new_active; next = 3 }

handle_runs_start-Settled_example :
    Settled 3 new_active
      (handle_runs_start backend ports (ok "j1") (desk kept_settings)).0
      (handle_runs_start backend ports (ok "j1") (desk kept_settings)).1
handle_runs_start-Settled_example =
    handle_runs_start-Settled backend ports (ok "j1") (desk kept_settings)
