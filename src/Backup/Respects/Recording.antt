-- ===== src/Backup/Respects/Recording.antt =====
-- The helpers of a stage respect what every elementary change respects.
use sshbackup.Common.{
  ℕ, ◌+◌, String, ℤ, Bool, true, false, ◌≡◌, refl, Option, none, some, Bool-cases, if◌then◌else◌,
  inl, inr,
}
use sshbackup.Common.Action.{
  Action, IsPreorder, Leads, leads_rules, Leads-modify, modify, branch, option, pure, ◌>>=◌, ◌>>◌,
}
use sshbackup.Domain.{
  ErrorCode, Error, Result, ok, err, recovery_failed, recovery_success, RunStep, StepType,
  StepStatus, is_no_code,
}
use sshbackup.Backup.World.{World, Call, ask, mark}
use sshbackup.Backup.Context.{
  Setup, RunContext, Stage, lift, fail, warn, record_recovery, now, check_cancelled, run_command,
  run_remote, persist_new, start_step, notify_change, persist_step, finish_recorded, skip_recorded,
  with_step, on_result, is_recovery_failed,
}
use sshbackup.Backup.Respects.{IsQuiet, IsPlain}

-- The relation on worlds that a relation on run contexts gives.
pub record OnWorld (R : RunContext → RunContext → Type 0) (w w' : World) : Type 0 where
  pub in_any : (s : RunContext) → R (record s { world = w }) (record s { world = w' })

module _ {R : RunContext → RunContext → Type 0} where
  pub OnWorld-IsPreorder : IsPlain R → IsPreorder (OnWorld R)
  OnWorld-IsPreorder r = record {
    same = λ w. record { in_any = λ s. r.order.same (record s { world = w }) };
    chain = λ w v x p q. record {
      in_any = λ s.
          r.order.chain (record s { world = w }) (record s { world = v }) (record s { world = x })
            (p.in_any s) (q.in_any s);
    };
  }

  pub lift-Leads : {A : Type 0} (m : Action World A) → Leads (OnWorld R) m → Leads R (lift m)
  unfolding lift
  lift-Leads m h = record { at = λ s. (h.at s.world).in_any s }

  pub ask-Leads :
      IsPlain R
      → {A : Type 0} (answer : ℕ → A) (c : Call) → IsQuiet c
      → Leads (OnWorld R) (ask answer c)
  unfolding ask
  ask-Leads r answer c q = record {
    at = λ w. record { in_any = λ s. r.on_ask (record s { world = w }) c q };
  }

  pub mark-Leads : IsPlain R → (c : Call) → IsQuiet c → Leads (OnWorld R) (mark c)
  unfolding mark
  mark-Leads r c q = record {
    at = λ w. record { in_any = λ s. r.on_mark (record s { world = w }) c q };
  }

  pub on_result-Leads :
      {A B : Type 0} (x : Result A) (refused : Error → Stage B) (f : A → Stage B)
      → ((e : Error) → Leads R (refused e))
      → ((a : A) → Leads R (f a))
      → Leads R (on_result x refused f)
  unfolding on_result
  on_result-Leads (err e) refused f h k = record { at = (h e).at }
  on_result-Leads (ok a) refused f h k = record { at = (k a).at }

  pub fail-Leads : IsPlain R → (c : ErrorCode) (m : String) → Leads R (fail c m)
  unfolding fail
  fail-Leads r c m = record {
    at = λ s. elim (Bool-cases s.failed) [
      | inl h ↦ simp h (r.order.same s)
      | inr h ↦ simp h (r.on_failure s c m h)
    ];
  }

  warned-R :
      IsPlain R
      → (s : RunContext) (c : ErrorCode) (m : String) (failed unset : Bool) → s.failed ≡ failed
      → R s (
          if failed
          then record s { has_warn = true }
          else if unset
          then record s {
            has_warn = true;
            run = record s.run { error_code = c; error_message = m };
          }
          else record s { has_warn = true })
  warned-R r s c m true unset h = r.on_warned s
  warned-R r s c m false true h = r.on_warning s c m h
  warned-R r s c m false false h = r.on_warned s

  pub warn-Leads : IsPlain R → (c : ErrorCode) (m : String) → Leads R (warn c m)
  unfolding warn
  warn-Leads r c m = record {
    at = λ s. warned-R r s c m s.failed (is_no_code s.run.error_code) refl;
  }

  pub record_recovery-Leads : IsPlain R → (o : Option Error) → Leads R (record_recovery o)
  unfolding record_recovery
  record_recovery-Leads r (some e) = record { at = λ s. r.on_recovery s recovery_failed }
  record_recovery-Leads r none = record {
    at = λ s. elim (Bool-cases (is_recovery_failed s.recovery_out)) [
      | inl h ↦ simp h (r.on_recovery s s.recovery_out)
      | inr h ↦ simp h (r.on_recovery s recovery_success)
    ];
  }

  pub cancel-Leads : IsPlain R → Leads R (modify (λ s. record s { cancelled = true }))
  cancel-Leads r = Leads-modify (λ s. record s { cancelled = true }) r.on_cancel

  pub position-Leads : IsPlain R → Leads R (modify (λ s. record s { position = s.position + 1 }))
  position-Leads r = Leads-modify (λ s. record s { position = s.position + 1 }) r.on_position

pub ruleset base_rules = (
  leads_rules, OnWorld-IsPreorder, lift-Leads, ask-Leads, mark-Leads, on_result-Leads, fail-Leads,
  warn-Leads, record_recovery-Leads, cancel-Leads, position-Leads,
)

module _ {R : RunContext → RunContext → Type 0} (r : IsPlain R) (u : Setup) where
  pub now-Leads : Leads R (now u)
  unfolding now
  now-Leads = search (base_rules, tt)

  pub check_cancelled-Leads : Leads R (check_cancelled u)
  unfolding check_cancelled
  check_cancelled-Leads = search (base_rules, r.order, tt)

  pub run_command-Leads : (cmd : String) (t : ℤ) → Leads R (run_command u cmd t)
  unfolding run_command
  run_command-Leads cmd t = search (base_rules, tt)

  pub run_remote-Leads : (cmd : String) → Leads R (run_remote u cmd)
  unfolding run_remote
  run_remote-Leads cmd = search run_command-Leads

  pub persist_new-Leads : (step : RunStep) → Leads R (persist_new u step)
  unfolding persist_new
  persist_new-Leads step = search (base_rules, r.order, tt)

  pub start_step-Leads : (t : StepType) → Leads R (start_step u t)
  unfolding start_step
  start_step-Leads t = search (base_rules, r.order, tt, now-Leads, persist_new-Leads) depth 9

  pub notify_change-Leads : (step : RunStep) → Leads R (notify_change u step)
  unfolding notify_change
  notify_change-Leads step = search (base_rules, r.order, tt)

  pub persist_step-Leads : (step : RunStep) → Leads R (persist_step u step)
  unfolding persist_step
  persist_step-Leads step = search (base_rules, r.order, tt, notify_change-Leads)

  pub finish_recorded-Leads : (x : StepStatus) (step : RunStep) → Leads R (finish_recorded u x step)
  unfolding finish_recorded
  finish_recorded-Leads x step = search (base_rules, r.order, now-Leads, persist_step-Leads)

  pub skip_recorded-Leads :
      (t : StepType) (reason command : String) → Leads R (skip_recorded u t reason command)
  unfolding skip_recorded
  skip_recorded-Leads t reason command =
      search (base_rules, r.order, tt, now-Leads, persist_new-Leads, notify_change-Leads) depth 9

  pub with_step-Leads :
      {A : Type 0} (t : StepType) (refused : Error → Stage A) (body : RunStep → Stage A)
      → ((e : Error) → Leads R (refused e))
      → ((step : RunStep) → Leads R (body step))
      → Leads R (with_step u t refused body)
  unfolding with_step
  with_step-Leads t refused body h k = search (base_rules, r.order, start_step-Leads)
