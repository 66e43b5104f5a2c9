-- ===== src/Backup/Once.antt =====
-- The script loops of server/internal/backup/scripts.go inside `execute`.
use sshbackup.Common.{
  ℕ, suc, ◌+◌, ◌≤◌, ◌≡◌, refl, ap, ◌∙◌, String, Bool, true, false, not, List, [], ◌∷◌, arith,
  str_eq, eq_iff, eq_refl, Bool-cases, inl, inr, ◌⊎◌, if◌then◌else◌, ◌||◌,
}
use sshbackup.Common.Action.{
  IsOnce, Once-never, Once-when, Once-later, Once-earlier, Once-then_earlier, Leads, Leads-bind,
  Leads-when, Leads-branch, Leads-gets, Leads-pure, ◌>>=◌, gets,
}
use sshbackup.Domain.{
  Script, ScriptType, pre_backup, post_backup, other_script_type, same_script_type, should_run,
}
use sshbackup.Backup.Context.{Setup}
use sshbackup.Backup.Scripts.{
  run_script_recorded, after_script, visit_script, run_scripts_from, script_step_type,
}
use sshbackup.Backup.Cleanup.{tried, run_script_recorded-tried}
use sshbackup.Backup.Registry.{times}
use sshbackup.Backup.Enrolment.{Ledger}
use sshbackup.Backup.Visits.{
  Steady, Spends, Steady-IsPreorder, same-Ledger, quiet_cancel, quiet_skip, visit_other,
  visit_mistyped, after_own,
}

pub Steady-IsOnce : (x : String) → IsOnce (Steady x) (Spends x)
Steady-IsOnce x = record {
  around = Steady-IsPreorder x;
  never = λ s t p. record {
    ledger = p.ledger;
    spent = λ l w. omega (arith, p.tries l, p.open_entries l, w);
  };
  before = λ s t u p q. record {
    ledger = λ l. q.ledger (p.ledger l);
    spent = λ l w. omega (arith, q.spent (p.ledger l) (p.open_entries l ∙ w), p.tries l);
  };
  after = λ s t u p q. record {
    ledger = λ l. q.ledger (p.ledger l);
    spent = λ l w. omega (arith, p.spent l w, q.tries (p.ledger l), q.open_entries (p.ledger l));
  };
}

-- How many scripts of a phase have an identifier.
abbrev pub visits : String → ScriptType → List Script → ℕ
visits x phase [] = 0
visits x phase (s ∷ ss) =
    let rest = visits x phase ss in
    if str_eq s.id x
    then (if same_script_type s.script_type phase then suc rest else rest)
    else rest

one_phase :
    (t : ScriptType)
    → (same_script_type t pre_backup ≡ false) ⊎ (same_script_type t post_backup ≡ false)
one_phase pre_backup = inr refl
one_phase post_backup = inl refl
one_phase (other_script_type t) = inl refl

pub visits-times :
    (x : String) (scripts : List Script)
    → visits x pre_backup scripts + visits x post_backup scripts ≤ times x scripts
visits-times x [] = omega arith
visits-times x (s ∷ ss) = elim (one_phase s.script_type) [
  | inl h ↦ ground (arith, h, visits-times x ss)
  | inr h ↦ ground (arith, h, visits-times x ss)
]

times-own :
    (x : String) (script : Script) (rest : List Script)
    → script.id ≡ x
    → times x (script ∷ rest) ≡ suc (times x rest)
times-own x script rest own = ground (arith, ap (λ (n : String). str_eq n x) own, eq_refl x)

module _ (u : Setup) (x : String) where
  run_own :
      (phase : ScriptType) (script : Script)
      → script.id ≡ x
      → Leads (Spends x) (
          run_script_recorded u script (script_step_type phase) >>= λ outcome.
          after_script u phase script outcome)
  unfolding ◌>>=◌
  run_own phase script own = record {
    at = λ s.
        let ran = run_script_recorded-tried u script (script_step_type phase) s in
        let kept =
          same-Ledger x s (run_script_recorded u script (script_step_type phase) s).1 ran.1 ran.2 in
        let later = λ (l : Ledger x s).
          after_own u x phase script (run_script_recorded u script (script_step_type phase) s).0
            (run_script_recorded u script (script_step_type phase) s).1 own (kept l) in
        record {
          ledger = λ l. (later l).0;
          spent = λ l w. omega (
            arith,
            (later l).1,
            (later l).2,
            ap (times x) ran.0,
            times-own x script (tried s.world.calls) own,
          );
        };
  }

  visit_own :
      (phase : ScriptType) (script : Script)
      → script.id ≡ x
      → Leads (Spends x) (visit_script u phase script)
  unfolding visit_script
  visit_own phase script own =
      let once = Steady-IsOnce x in
      let order = Steady-IsPreorder x in
      let stays = λ (b : Bool). Once-never once _ (Leads-pure order b) in
      let visited = λ (failed : Bool).
        Once-then_earlier once _ _
          (Leads-branch (should_run script.run_condition failed) _ _ (run_own phase script own)
            (Once-never once _ (quiet_skip u x _ _ _)))
          (Leads-pure order true) in
      let asked =
        Once-later once (gets (λ s. s.failed)) _ (Leads-gets order (λ s. s.failed)) visited in
      Leads-branch (same_script_type script.script_type phase) _ _
        (Once-later once _ _ (quiet_cancel u x) (λ stop. Leads-branch stop _ _ (stays false) asked))
        (stays true)

  -- A script that is not the one counted, or not of this phase.
  abbrev is_foreign : ScriptType → Script → Bool
  is_foreign phase script =
      not (str_eq script.id x) || not (same_script_type script.script_type phase)

  visit_foreign :
      (phase : ScriptType) (script : Script)
      → is_foreign phase script ≡ true
      → Leads (Steady x) (visit_script u phase script)
  visit_foreign phase script h = elim (Bool-cases (str_eq script.id x)) [
    | inr k ↦ visit_other u x phase script k
    | inl k ↦ visit_mistyped u x phase script (ground (arith, h, k))
  ]

  is_own :
      (phase : ScriptType) (script : Script)
      → ((script.id ≡ x) × (same_script_type script.script_type phase ≡ true))
        ⊎ (is_foreign phase script ≡ true)
  is_own phase script = elim (Bool-cases (str_eq script.id x)) [
    | inr k ↦ inr (ground (arith, k))
    | inl k ↦ elim (Bool-cases (same_script_type script.script_type phase)) [
      | inr m ↦ inr (ground (arith, k, m))
      | inl m ↦ inl ((eq_iff script.id x).0 k, m)
    ]
  ]

  pub scripts_never :
      (phase : ScriptType) (scripts : List Script)
      → visits x phase scripts ≡ 0
      → Leads (Steady x) (run_scripts_from u phase scripts)
  unfolding run_scripts_from
  scripts_never phase [] none_left = Leads-pure (Steady-IsPreorder x) tt
  scripts_never phase (script ∷ scripts) none_left =
      let rest = scripts_never phase scripts (ground (arith, none_left)) in
      let here = visit_foreign phase script (ground (arith, none_left)) in
      Leads-bind (Steady-IsPreorder x) (visit_script u phase script) _ here
        (λ b. Leads-when (Steady-IsPreorder x) b _ rest)

  pub scripts_once :
      (phase : ScriptType) (scripts : List Script)
      → visits x phase scripts ≤ 1
      → Leads (Spends x) (run_scripts_from u phase scripts)
  unfolding run_scripts_from
  scripts_once phase [] once = Once-never (Steady-IsOnce x) _ (Leads-pure (Steady-IsPreorder x) tt)
  scripts_once phase (script ∷ scripts) once = elim (is_own phase script) [
    | inr foreign ↦
        let rest = scripts_once phase scripts (ground (arith, once)) in
        Once-later (Steady-IsOnce x) (visit_script u phase script) _
          (visit_foreign phase script foreign) (λ b. Once-when (Steady-IsOnce x) b _ rest)
    | inl own ↦
        let same = ap (λ (n : String). str_eq n x) own.0 in
        let rest = scripts_never phase scripts (ground (arith, once, same, own.1, eq_refl x)) in
        Once-earlier (Steady-IsOnce x) (visit_script u phase script) _
          (visit_own phase script own.0) (λ b. Leads-when (Steady-IsPreorder x) b _ rest)
  ]
