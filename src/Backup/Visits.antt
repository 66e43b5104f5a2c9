-- ===== src/Backup/Visits.antt =====
-- How the script loop of server/internal/backup/scripts.go moves the count of a script's attempts.
use sshbackup.Common.{
  ℕ, suc, ◌+◌, ◌≡◌, refl, sym, subst, ap, ◌∙◌, String, true, false, Option, some, List, [], ◌∷◌,
  All, arith, str_eq, Option-cases, inl, inr,
}
use sshbackup.Common.Action.{
  IsPreorder, Leads, leads_rules, Leads-branch-false, Leads-pure, ◌>>=◌, ◌>>◌, gets, pure, option,
}
use sshbackup.Domain.{Script, ScriptType, StepType, Error, same_script_type}
use sshbackup.Backup.Context.{
  Setup, CleanupEntry, RunContext, mark_done_at, mark_done, find_cleanup_entry, check_cancelled,
  skip_recorded, record_recovery,
}
use sshbackup.Backup.Scripts.{
  run_script_recorded, after_script, settle_entry, report_failure, visit_script,
}
use sshbackup.Backup.Cleanup.{tried, SameLedger, SameLedger-IsPlain, run_script_recorded-tried}
use sshbackup.Backup.Respects.Recording.{
  base_rules, record_recovery-Leads, check_cancelled-Leads, skip_recorded-Leads,
}
use sshbackup.Backup.Registry.{
  times, enrolled, waiting, IsToken, name_at-mark_done_at, enrolled-mark_done_at,
  waiting-mark_done_at, waiting-mark_own, find-IsToken,
}
use sshbackup.Backup.Enrolment.{Ledger}

-- Nothing happens to a script: its entry, its token and its attempts stay.
pub record Steady (x : String) (s t : RunContext) : Type 0 where
  pub ledger : Ledger x s → Ledger x t
  pub tries : Ledger x s → times x (tried t.world.calls) ≡ times x (tried s.world.calls)
  pub open_entries : Ledger x s → waiting x t.entries ≡ waiting x s.entries

-- A script that waits is tried once, or waits on.
pub record Spends (x : String) (s t : RunContext) : Type 0 where
  pub ledger : Ledger x s → Ledger x t
  pub spent :
      Ledger x s
      → waiting x s.entries ≡ 1
      → times x (tried t.world.calls) + waiting x t.entries ≡ suc (times x (tried s.world.calls))

pub Steady-IsPreorder : (x : String) → IsPreorder (Steady x)
Steady-IsPreorder x = record {
  same = λ s. record { ledger = λ l. l; tries = λ l. refl; open_entries = λ l. refl };
  chain = λ s t u p q. record {
    ledger = λ l. q.ledger (p.ledger l);
    tries = λ l. q.tries (p.ledger l) ∙ p.tries l;
    open_entries = λ l. q.open_entries (p.ledger l) ∙ p.open_entries l;
  };
}

pub same-Ledger :
    (x : String) (s t : RunContext)
    → t.entries ≡ s.entries
    → t.tokens ≡ s.tokens
    → Ledger x s
    → Ledger x t
same-Ledger x s t e k l = record {
  tokens =
      subst (λ ts. All (IsToken t.entries) ts) (sym k)
        (subst (λ es. All (IsToken es) s.tokens) (sym e) l.tokens);
  one = ap (enrolled x) e ∙ l.one;
  place = l.place;
  found = ap (find_cleanup_entry x) k ∙ l.found;
}

pub SameLedger-Steady : (x : String) (s t : RunContext) → SameLedger s t → Steady x s t
SameLedger-Steady x s t h = record {
  ledger = same-Ledger x s t h.entries h.tokens;
  tries = λ l. ap (times x) h.tries;
  open_entries = λ l. ap (waiting x) h.entries;
}

pub Leads-Steady :
    {A : Type 0} (x : String) {m : RunContext → A × RunContext}
    → Leads SameLedger m
    → Leads (Steady x) m
Leads-Steady x {m} h = record { at = λ s. SameLedger-Steady x s (m s).1 (h.at s) }

mark_tokens :
    (i : ℕ) (es : List CleanupEntry) (ts : List (String × ℕ))
    → All (IsToken es) ts
    → All (IsToken (mark_done_at i es)) ts
mark_tokens i es [] h = tt
mark_tokens i es ((k, j) ∷ ts) h = (name_at-mark_done_at j i es ∙ h.0, mark_tokens i es ts h.1)

mark_done-Ledger :
    (x : String) (i : ℕ) (s : RunContext)
    → Ledger x s
    → Ledger x (record s { entries = mark_done_at i s.entries })
mark_done-Ledger x i s l = record {
  tokens = mark_tokens i s.entries s.tokens l.tokens;
  one = enrolled-mark_done_at x i s.entries ∙ l.one;
  place = l.place;
  found = l.found;
}

-- The entry of another script is marked.
mark_other :
    (x y : String) (i : ℕ) (s : RunContext)
    → str_eq y x ≡ false
    → find_cleanup_entry y s.tokens ≡ some i
    → Steady x s (record s { entries = mark_done_at i s.entries })
mark_other x y i s k h = record {
  ledger = mark_done-Ledger x i s;
  tries = λ l. refl;
  open_entries =
      λ l. waiting-mark_done_at x y i s.entries (find-IsToken s.entries y s.tokens l.tokens h) k;
}

module _ (u : Setup) (x : String) where
  report-SameLedger :
      (phase : ScriptType) (script : Script) (outcome : Option Error)
      → Leads SameLedger (report_failure u phase script outcome)
  unfolding report_failure
  report-SameLedger phase script outcome =
      search (base_rules, SameLedger-IsPlain, SameLedger-IsPlain.order) depth 9

  recovery-Steady : (outcome : Option Error) → Leads (Steady x) (record_recovery outcome)
  recovery-Steady outcome = Leads-Steady x (record_recovery-Leads SameLedger-IsPlain outcome)

  -- The entry of another script is settled.
  settle_other :
      (y : String) (outcome : Option Error) (s : RunContext)
      → str_eq y x ≡ false
      → Steady x s (settle_entry u (find_cleanup_entry y s.tokens) outcome s).1
  unfolding settle_entry option ◌>>◌ mark_done pure
  settle_other y outcome s k = elim (Option-cases (find_cleanup_entry y s.tokens)) [
    | inl h ↦ rw h ((Steady-IsPreorder x).same s)
    | inr (i, h) ↦ rw h (
        (Steady-IsPreorder x).chain s _ _ (mark_other x y i s k h)
          ((recovery-Steady outcome).at (record s { entries = mark_done_at i s.entries })))
  ]

  after_other :
      (phase : ScriptType) (script : Script) (outcome : Option Error)
      → str_eq script.id x ≡ false
      → Leads (Steady x) (after_script u phase script outcome)
  unfolding after_script ◌>>=◌ ◌>>◌ gets
  after_other phase script outcome k = record {
    at = λ s. (Steady-IsPreorder x).chain s _ _ (settle_other script.id outcome s k) (
        (Leads-Steady x (report-SameLedger phase script outcome)).at
          (settle_entry u (find_cleanup_entry script.id s.tokens) outcome s).1);
  }

  run_other :
      (script : Script) (t : StepType)
      → str_eq script.id x ≡ false
      → Leads (Steady x) (run_script_recorded u script t)
  run_other script t k = record {
    at = λ s.
        let ran = run_script_recorded-tried u script t s in
        record {
          ledger = same-Ledger x s (run_script_recorded u script t s).1 ran.1 ran.2;
          tries = λ l. ap (times x) ran.0 ∙ ground (arith, k);
          open_entries = λ l. ap (waiting x) ran.1;
        };
  }

  pub quiet_cancel : Leads (Steady x) (check_cancelled u)
  quiet_cancel = Leads-Steady x (check_cancelled-Leads SameLedger-IsPlain u)

  pub quiet_skip :
      (t : StepType) (reason command : String) → Leads (Steady x) (skip_recorded u t reason command)
  quiet_skip t reason command =
      Leads-Steady x (skip_recorded-Leads SameLedger-IsPlain u t reason command)

  pub visit_other :
      (phase : ScriptType) (script : Script)
      → str_eq script.id x ≡ false
      → Leads (Steady x) (visit_script u phase script)
  unfolding visit_script
  visit_other phase script k =
      let order = Steady-IsPreorder x in
      search (leads_rules, order, k, quiet_cancel, quiet_skip, run_other, after_other) depth 14

  pub visit_mistyped :
      (phase : ScriptType) (script : Script)
      → same_script_type script.script_type phase ≡ false
      → Leads (Steady x) (visit_script u phase script)
  unfolding visit_script
  visit_mistyped phase script k =
      rw k (Leads-branch-false false _ _ refl (Leads-pure (Steady-IsPreorder x) true))

  -- The entry of the script itself is settled.
  pub after_own :
      (phase : ScriptType) (script : Script) (outcome : Option Error) (s : RunContext)
      → script.id ≡ x
      → Ledger x s
      → Ledger x (after_script u phase script outcome s).1
        × (times x (tried (after_script u phase script outcome s).1.world.calls)
            ≡ times x (tried s.world.calls))
        × (waiting x (after_script u phase script outcome s).1.entries ≡ 0)
  unfolding after_script settle_entry option ◌>>=◌ ◌>>◌ gets mark_done report_failure
  after_own phase script outcome s own l =
      let m = record s { entries = mark_done_at l.place s.entries } in
      let marked = mark_done-Ledger x l.place s l in
      let none_waits =
        waiting-mark_own x l.place s.entries (find-IsToken s.entries x s.tokens l.tokens l.found)
          l.one in
      let later = (Steady-IsPreorder x).chain m _ _ ((recovery-Steady outcome).at m) (
        (Leads-Steady x (report-SameLedger phase script outcome)).at
          (record_recovery outcome m).1) in
      simp (own, l.found)
        (later.ledger marked, later.tries marked, later.open_entries marked ∙ none_waits)
