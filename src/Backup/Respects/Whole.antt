-- ===== src/Backup/Respects/Whole.antt =====
-- What the scripts and the transport change too, and then the whole of `execute`.
use sshbackup.Common.{
  ℕ, zero, suc, true, false, Option, some, List, [], ◌∷◌, ◌++◌, length, Bool-cases, inl, inr,
}
use sshbackup.Common.Action.{
  Leads, Leads-bind, Leads-when, Leads-modify, Leads-pure, modify, when, pure, ◌>>=◌, ◌>>◌,
}
use sshbackup.Domain.{Error, RunStep, Script, ScriptType, StepType}
use sshbackup.Backup.World.{attempted, closed, mark}
use sshbackup.Backup.Context.{
  Setup, CleanupEntry, RunContext, lift, with_step, mark_done, mark_done_at,
}
use sshbackup.Backup.Scripts.{
  is_guaranteed, script_step_type, register_script, register_cleanup_scripts, script_attempts,
  give_up, execute_script, record_outcome, run_script_recorded, after_script, settle_entry,
  report_failure, visit_script, run_scripts_from, run_scripts, drain_entry, drain_pending,
  drain_cleanup,
}
use sshbackup.Backup.Stages.{preflight_checks, run_preflight, preflight}
use sshbackup.Backup.Engine.{stages, close, execute}
use sshbackup.Backup.Respects.{IsPlain, IsRespected, after_mark}
use sshbackup.Backup.Respects.Recording.{
  base_rules, run_command-Leads, finish_recorded-Leads, with_step-Leads, check_cancelled-Leads,
  skip_recorded-Leads,
}
use sshbackup.Backup.Respects.Checking.{
  require_each-Leads, preflight_temp-Leads, check_source_readable-Leads, check_tool_available-Leads,
}
use sshbackup.Backup.Respects.Transfer.{archive-Leads, download_and_verify-Leads}
use sshbackup.Backup.Respects.Staging.{
  unless_failed-Leads, unless_cancelled-Leads, final_stages-Leads,
}

-- The entry that `registerCleanupScripts` makes for a script.
abbrev pub entry_of : Script → CleanupEntry
entry_of script = record {
  script = script;
  step_type = script_step_type script.script_type;
  done = false;
}

module _ {R : RunContext → RunContext → Type 0} (r : IsPlain R) (u : Setup) where
  pub script_attempts-Leads :
      (n : ℕ) (script : Script) (last : Option Error) → Leads R (script_attempts u n script last)
  unfolding script_attempts
  script_attempts-Leads zero script last = search (base_rules, r.order)
  script_attempts-Leads (suc n) script last =
      let later = λ (e : Error). script_attempts-Leads n script (some e) in
      search (base_rules, r, r.order, run_command-Leads, later) depth 9

  pub execute_script-Leads : (script : Script) → Leads R (execute_script u script)
  unfolding execute_script
  execute_script-Leads script = search script_attempts-Leads

  pub record_outcome-Leads : (step : RunStep) (x : Option Error) → Leads R (record_outcome u step x)
  unfolding record_outcome
  record_outcome-Leads step x = search (base_rules, r, r.order, finish_recorded-Leads) depth 9

  give_up-Leads : (script : Script) (e : Error) → Leads R (give_up u script e)
  unfolding give_up
  give_up-Leads script e = search (base_rules, r, r.order, tt)

  -- What `runScriptRecorded` does after it is entered.
  pub recorded_script-Leads :
      (script : Script) (t : StepType)
      → Leads R (
          with_step u t (give_up u script) (λ step. do
            outcome ← execute_script u script
            record_outcome u (record step { command = script.command }) outcome))
  recorded_script-Leads script t =
      search
        (
          base_rules, r, r.order, with_step-Leads, give_up-Leads, execute_script-Leads,
          record_outcome-Leads,
        )
        depth 12

-- A script that is run, where the mark of its entry keeps the relation too.
pub marked_script-Leads :
    {R : RunContext → RunContext → Type 0}
    → IsPlain R
    → ((s : RunContext) (script : Script)
        → R s (record s { world = after_mark (attempted script) s.world }))
    → (u : Setup) (script : Script) (t : StepType) → Leads R (run_script_recorded u script t)
unfolding run_script_recorded lift mark ◌>>◌
marked_script-Leads r h u script t = record {
  at = λ s. r.order.chain s _ _ (h s script) (
      (recorded_script-Leads r u script t).at
        (record s { world = after_mark (attempted script) s.world }));
}

pub record IsRespectedByAll (R : RunContext → RunContext → Type 0) : Type 0 where
  pub quiet : IsRespected R
  pub on_script :
      (u : Setup) (script : Script) (t : StepType) → Leads R (run_script_recorded u script t)
  pub on_close : (s : RunContext) → R s (record s { world = after_mark closed s.world })
  pub on_done : (s : RunContext) (i : ℕ) → R s (record s { entries = mark_done_at i s.entries })
  pub on_registered :
      (s : RunContext) (script : Script)
      → R s (record s {
        entries = s.entries ++ entry_of script ∷ [];
        tokens = s.tokens ++ (script.id, length s.entries) ∷ [];
      })
  pub on_transport : (s : RunContext) → R s (record s { has_transport = true })

module _ {R : RunContext → RunContext → Type 0} (a : IsRespectedByAll R) (u : Setup) where
  mark_closed-Leads : Leads R (lift (mark closed))
  unfolding lift mark
  mark_closed-Leads = record { at = a.on_close }

  mark_done-Leads : (i : ℕ) → Leads R (mark_done i)
  unfolding mark_done
  mark_done-Leads i = record { at = λ s. a.on_done s i }

  transport-Leads : Leads R (modify (λ s. record s { has_transport = true }))
  transport-Leads = Leads-modify _ a.on_transport

  register_script-Leads : (script : Script) → Leads R (register_script script)
  unfolding register_script
  register_script-Leads script = record {
    at = λ s. elim (Bool-cases (is_guaranteed script)) [
      | inl h ↦ simp h (a.on_registered s script)
      | inr h ↦ simp h (a.quiet.plain.order.same s)
    ];
  }

  pub register-Leads : Leads R (register_cleanup_scripts u)
  unfolding register_cleanup_scripts
  register-Leads = search (base_rules, a.quiet.plain.order, register_script-Leads)

  run_script_recorded-Leads :
      (script : Script) (t : StepType) → Leads R (run_script_recorded u script t)
  run_script_recorded-Leads = a.on_script u

  after_script-Leads :
      (phase : ScriptType) (script : Script) (x : Option Error)
      → Leads R (after_script u phase script x)
  unfolding after_script settle_entry report_failure
  after_script-Leads phase script x =
      search (base_rules, a.quiet.plain, a.quiet.plain.order, mark_done-Leads) depth 12

  visit_script-Leads :
      (phase : ScriptType) (script : Script) → Leads R (visit_script u phase script)
  unfolding visit_script
  visit_script-Leads phase script =
      search
        (
          base_rules, a.quiet.plain, a.quiet.plain.order, check_cancelled-Leads,
          skip_recorded-Leads, run_script_recorded-Leads, after_script-Leads,
        )
        depth 14

  run_scripts_from-Leads :
      (phase : ScriptType) (scripts : List Script) → Leads R (run_scripts_from u phase scripts)
  unfolding run_scripts_from
  run_scripts_from-Leads phase [] = search (base_rules, a.quiet.plain.order)
  run_scripts_from-Leads phase (script ∷ scripts) =
      Leads-bind a.quiet.plain.order (visit_script u phase script)
        (λ b. when b (run_scripts_from u phase scripts)) (visit_script-Leads phase script)
        (λ b. Leads-when a.quiet.plain.order b _ (run_scripts_from-Leads phase scripts))

  pub run_scripts-Leads : (phase : ScriptType) → Leads R (run_scripts u phase)
  unfolding run_scripts
  run_scripts-Leads phase = run_scripts_from-Leads phase u.job.scripts

  drain_entry-Leads : (i : ℕ) (e : CleanupEntry) → Leads R (drain_entry u i e)
  unfolding drain_entry
  drain_entry-Leads i e =
      search (base_rules, a.quiet.plain.order, run_script_recorded-Leads, mark_done-Leads)

  drain_pending-Leads : (xs : List (ℕ × CleanupEntry)) → Leads R (drain_pending u xs)
  unfolding drain_pending
  drain_pending-Leads [] = search (base_rules, a.quiet.plain.order)
  drain_pending-Leads ((i, e) ∷ xs) =
      Leads-bind a.quiet.plain.order (drain_entry u i e)
        (λ x. drain_pending u xs >>= λ ys. pure (x ∷ ys)) (drain_entry-Leads i e)
        (λ x.
          Leads-bind a.quiet.plain.order (drain_pending u xs) (λ ys. pure (x ∷ ys))
            (drain_pending-Leads xs) (λ ys. Leads-pure a.quiet.plain.order (x ∷ ys)))

  pub drain_cleanup-Leads : Leads R (drain_cleanup u)
  unfolding drain_cleanup
  drain_cleanup-Leads =
      search (base_rules, a.quiet.plain, a.quiet.plain.order, drain_pending-Leads) depth 9

  pub preflight-Leads : Leads R (preflight u)
  unfolding preflight run_preflight preflight_checks
  preflight-Leads =
      search
        (
          base_rules, a.quiet.plain, a.quiet.plain.order, tt, with_step-Leads, transport-Leads,
          register-Leads, require_each-Leads, preflight_temp-Leads, check_source_readable-Leads,
          check_tool_available-Leads, finish_recorded-Leads,
        )
        depth 16

  pub stages-Leads : Leads R (stages u)
  unfolding stages
  stages-Leads =
      search
        (
          base_rules, a.quiet.plain, a.quiet.plain.order, run_scripts-Leads, unless_failed-Leads,
          unless_cancelled-Leads, archive-Leads, download_and_verify-Leads, final_stages-Leads,
        )
        depth 16

  pub close-Leads : Leads R (close u)
  unfolding close
  close-Leads = search (base_rules, a.quiet.plain.order, mark_closed-Leads)

  -- `execute` respects every relation that its elementary changes respect.
  pub execute-Leads : Leads R (execute u)
  unfolding execute
  execute-Leads =
      search
        (
          base_rules, a.quiet.plain.order, preflight-Leads, stages-Leads, close-Leads,
          drain_cleanup-Leads,
        )
        depth 9
