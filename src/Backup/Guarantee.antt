-- ===== src/Backup/Guarantee.antt =====
-- How often `execute` of server/internal/backup/runcontext.go attempts a guaranteed script.
use sshbackup.Common.{
  ℕ, zero, suc, ◌+◌, ◌≡◌, refl, ap, ◌∙◌, String, Bool, false, [], arith, inl, inr, ◌⊎◌,
}
use sshbackup.Common.Action.{
  Once-when, Once-later, Once-then_later, Once-then_earlier, Leads, Leads-bind, Leads-then,
  Leads-when, leads_rules, ◌>>=◌, ◌>>◌, when,
}
use sshbackup.Domain.{Run, pre_backup, post_backup}
use sshbackup.Backup.World.{World, closed, mark}
use sshbackup.Backup.Context.{Setup, Stage, RunContext, lift, check_cancelled}
use sshbackup.Backup.Scripts.{run_scripts, drain_cleanup, pending_from}
use sshbackup.Backup.Stages.{preflight}
use sshbackup.Backup.Engine.{
  unless_failed, unless_cancelled, final_stages, stages, close, execute, new_context,
}
use sshbackup.Backup.Cleanup.{
  tried, tried_after, SameLedger, SameLedger-IsPlain, SameLedger-IsRespected, drain_cleanup-tried,
}
use sshbackup.Backup.Respects.Transfer.{archive-Leads, download_and_verify-Leads}
use sshbackup.Backup.Respects.Staging.{unless_failed-Leads, final_stages-Leads}
use sshbackup.Backup.Archive.{archive}
use sshbackup.Backup.Download.{download_and_verify}
use sshbackup.Backup.Answered.{unanswered, execute-answers}
use sshbackup.Backup.Registry.{times, waiting, times-tried_after}
use sshbackup.Backup.Enrolment.{IsEmpty, guaranteed_times}
use sshbackup.Backup.Visits.{Steady, Spends, Steady-IsPreorder, Leads-Steady, quiet_cancel}
use sshbackup.Backup.Once.{Steady-IsOnce, visits, visits-times, scripts_never, scripts_once}
use sshbackup.Backup.Ready.{IsReadyAt, preflight-IsReady}

nat_cases : (n : ℕ) → (n ≡ 0) ⊎ ((m : ℕ) × (n ≡ suc m))
nat_cases zero = inl refl
nat_cases (suc n) = inr (n, refl)

module _ (u : Setup) (x : String) where
  later_stage :
      (m : Stage (Unit {0})) → Leads (Spends x) m → Leads (Spends x) (unless_cancelled u m)
  unfolding unless_cancelled
  later_stage m h =
      Once-later (Steady-IsOnce x) (check_cancelled u) _ (quiet_cancel u x)
        (λ stop. Once-when (Steady-IsOnce x) _ m h)

  quiet_stage : (m : Stage (Unit {0})) → Leads SameLedger m → Leads (Steady x) (unless_failed u m)
  quiet_stage m h = Leads-Steady x (unless_failed-Leads SameLedger-IsPlain u m h)

  stages-Steady : Leads (Steady x) (final_stages u)
  stages-Steady = Leads-Steady x (final_stages-Leads SameLedger-IsPlain u)

  quiet_rest : (m : Stage (Unit {0})) → Leads (Steady x) m → Leads (Steady x) (unless_cancelled u m)
  unfolding unless_cancelled
  quiet_rest m h =
      Leads-bind (Steady-IsPreorder x) (check_cancelled u) _ (quiet_cancel u x)
        (λ stop. Leads-when (Steady-IsPreorder x) _ m h)

  stages_once : times x u.job.scripts ≡ 1 → Leads (Spends x) (stages u)
  unfolding stages run_scripts
  stages_once once =
      let o = Steady-IsOnce x in
      let counted = visits-times x u.job.scripts in
      let transfer = quiet_stage (archive u) (archive-Leads SameLedger-IsRespected u) in
      let download =
        quiet_stage (download_and_verify u) (download_and_verify-Leads SameLedger-IsRespected u) in
      let order = Steady-IsPreorder x in
      elim (nat_cases (visits x pre_backup u.job.scripts)) [
        | inl none_before ↦
            let post = scripts_once u x post_backup u.job.scripts (omega (arith, counted, once)) in
            Once-then_later o _ _ (scripts_never u x pre_backup u.job.scripts none_before) (
              later_stage _ (
                Once-then_later o _ _ transfer (
                  later_stage _ (
                    Once-then_later o _ _ download (
                      later_stage _ (Once-then_earlier o _ _ post (quiet_rest _ stages-Steady)))))))
        | inr (n, some_before) ↦
            let pre = scripts_once u x pre_backup u.job.scripts (omega (arith, counted, once)) in
            let post =
              scripts_never u x post_backup u.job.scripts
                (omega (arith, counted, once, some_before)) in
            let ending = quiet_rest _ (Leads-then order _ _ post (quiet_rest _ stages-Steady)) in
            Once-then_earlier o _ _ pre (
              quiet_rest _ (
                Leads-then order _ _ transfer
                  (quiet_rest _ (Leads-then order _ _ download ending))))
      ]

  close_mark : Leads SameLedger (lift (mark closed))
  unfolding lift mark
  close_mark = record { at = λ s. record { tries = refl; entries = refl; tokens = refl } }

  close-Steady : Leads (Steady x) (close u)
  unfolding close
  close-Steady = Leads-Steady x (search (leads_rules, SameLedger-IsPlain.order, close_mark))

  tried-drain :
      (s : RunContext)
      → times x (tried (drain_cleanup u s).1.world.calls)
        ≡ waiting x s.entries + times x (tried s.world.calls)
  tried-drain s =
      ap (times x) (drain_cleanup-tried u s).0
      ∙ times-tried_after x 0 s.entries (tried s.world.calls)

module _ (u : Setup) (x : String) (once : times x u.job.scripts ≡ 1) where
  body_once : Leads (Spends x) (do stages u; close u)
  body_once =
      Once-then_earlier (Steady-IsOnce x) (stages u) (close u) (stages_once u x once)
        (close-Steady u x)

  ready_once :
      (s t : RunContext) (b : Bool)
      → IsReadyAt x s (b, t)
      → IsEmpty s
      → (times x (tried (drain_cleanup u (when b (do stages u; close u) t).1).1.world.calls)
          ≡ suc (times x (tried s.world.calls)))
        ⊎ ((b ≡ false)
            × (tried (drain_cleanup u (when b (do stages u; close u) t).1).1.world.calls
                ≡ tried s.world.calls))
  unfolding when
  ready_once s t b (inl (refused, same)) e =
      let nothing_left =
        ap (λ es. tried_after (pending_from 0 es) (tried t.world.calls))
          (same.entries ∙ e.entries) in
      rw refused (inr (refl, (drain_cleanup-tried u t).0 ∙ nothing_left ∙ same.tries))
  ready_once s t b (inr fill) e =
      let f = fill e in
      let end = (when b (do stages u; close u) t).1 in
      let spends = (Once-when (Steady-IsOnce x) b (do stages u; close u) body_once).at t in
      inl (omega (arith, tried-drain u x end, spends.spent f.ledger f.open_entries, f.tries))

module _ (u : Setup) (x : String) (only : guaranteed_times x u.job.scripts ≡ 1)
    (once : times x u.job.scripts ≡ 1) where
  entered_once :
      (run : Run) (w : World)
      → (times x (tried (execute u (new_context run w)).1.world.calls)
          ≡ suc (times x (tried w.calls)))
        ⊎ (((preflight u (new_context run w)).0 ≡ false)
            × (tried (execute u (new_context run w)).1.world.calls ≡ tried w.calls))
  unfolding execute ◌>>=◌ ◌>>◌ new_context
  entered_once run w =
      let s = new_context run w in
      let (b, t) = preflight u s in
      ready_once u x once s t b ((preflight-IsReady x u only).at s)
        (record { entries = refl; tokens = refl })

  kept_world :
      (run : Run) (w : World)
      → unanswered w.calls ≡ []
      → unanswered (new_context run w).world.calls ≡ []
  unfolding new_context
  kept_world run w answered = answered

  -- For a job where one script has the identifier and that script is guaranteed (it runs always, or
  -- is a critical cleanup), and a record of calls where every script has its answer: over the whole
  -- of `execute`, in the script loops or in the drain, whatever fails or is cancelled, either
  -- `runScriptRecorded` is entered with that script exactly once, or the preflight failed and it is
  -- entered with no script at all; and every script that it is entered with has its answer: its
  -- command is sent to the server after that, or its step could not be recorded.
  pub execute-tried :
      (run : Run) (w : World)
      → unanswered w.calls ≡ []
      → ((times x (tried (execute u (new_context run w)).1.world.calls)
            ≡ suc (times x (tried w.calls)))
          ⊎ (((preflight u (new_context run w)).0 ≡ false)
              × (tried (execute u (new_context run w)).1.world.calls ≡ tried w.calls)))
        × (unanswered (execute u (new_context run w)).1.world.calls ≡ [])
  execute-tried run w answered = (
    entered_once run w,
    ((execute-answers u).at (new_context run w)).kept (kept_world run w answered),
  )
