-- ===== src/Backup/Cleanup.antt =====
-- What the drain of server/internal/backup/cleanup.go makes of the registry.
use sshbackup.Common.{
  ℕ, suc, ◌≡◌, refl, sym, ap, ◌∙◌, true, List, [], ◌∷◌, ◌++◌, length, length-append, arith,
  Bool-cases, inl, inr,
}
use sshbackup.Common.Action.{Leads-for_each, ◌>>=◌, ◌>>◌, gets, pure}
use sshbackup.Domain.{Script, StepType}
use mathlib.Core.List.{append_assoc}
use sshbackup.Backup.World.{
  Call, attempted, unrecorded, mark, connected, closed, retained, ran, fetched, renamed, removed,
  step_created, step_updated, step_changed, run_created, run_updated, run_started, run_finished,
  lock_acquired, lock_released, other,
}
use sshbackup.Backup.Context.{
  Setup, CleanupEntry, RunContext, lift, mark_done_at, mark_done, record_recovery,
}
use sshbackup.Backup.Scripts.{
  pending_from, run_script_recorded, drain_entry, drain_pending, drain_cleanup,
}
use sshbackup.Backup.Respects.{IsPlain, IsQuiet, IsRespected}
use sshbackup.Backup.Respects.Recording.{record_recovery-Leads}
use sshbackup.Backup.Respects.Whole.{recorded_script-Leads}

-- The scripts that `runScriptRecorded` was entered with, the last one first.
abbrev pub tried : List Call → List Script
tried [] = []
tried (attempted script ∷ calls) = script ∷ tried calls
tried (_ ∷ calls) = tried calls

-- The registry and the scripts tried are the same.
pub record SameLedger (s t : RunContext) : Type 0 where
  pub tries : tried t.world.calls ≡ tried s.world.calls
  pub entries : t.entries ≡ s.entries
  pub tokens : t.tokens ≡ s.tokens

tried_quiet : (c : Call) (cs : List Call) → IsQuiet c → tried (c ∷ cs) ≡ tried cs
tried_quiet (attempted script) cs q = elim q [ ]
tried_quiet (unrecorded _) cs q = refl
tried_quiet connected cs q = refl
tried_quiet closed cs q = refl
tried_quiet retained cs q = refl
tried_quiet (ran _ _) cs q = refl
tried_quiet (fetched _) cs q = refl
tried_quiet (renamed _) cs q = refl
tried_quiet (removed _) cs q = refl
tried_quiet (step_created _ _) cs q = refl
tried_quiet (step_updated _) cs q = refl
tried_quiet (step_changed _) cs q = refl
tried_quiet (run_created _) cs q = refl
tried_quiet (run_updated _) cs q = refl
tried_quiet (run_started _) cs q = refl
tried_quiet (run_finished _) cs q = refl
tried_quiet (lock_acquired _) cs q = refl
tried_quiet (lock_released _) cs q = refl
tried_quiet other cs q = refl

pub SameLedger-IsPlain : IsPlain SameLedger
SameLedger-IsPlain = record {
  order = record {
    same = λ s. record { tries = refl; entries = refl; tokens = refl };
    chain = λ s t u p q. record {
      tries = q.tries ∙ p.tries;
      entries = q.entries ∙ p.entries;
      tokens = q.tokens ∙ p.tokens;
    };
  };
  on_ask = λ s c q. record { tries = tried_quiet c s.world.calls q; entries = refl; tokens = refl };
  on_mark =
      λ s c q. record { tries = tried_quiet c s.world.calls q; entries = refl; tokens = refl };
  on_cancel = λ s. record { tries = refl; entries = refl; tokens = refl };
  on_position = λ s. record { tries = refl; entries = refl; tokens = refl };
  on_failure = λ s c m h. record { tries = refl; entries = refl; tokens = refl };
  on_warned = λ s. record { tries = refl; entries = refl; tokens = refl };
  on_warning = λ s c m h. record { tries = refl; entries = refl; tokens = refl };
  on_recovery = λ s o. record { tries = refl; entries = refl; tokens = refl };
  on_part = λ s p. record { tries = refl; entries = refl; tokens = refl };
  on_size = λ s n. record { tries = refl; entries = refl; tokens = refl };
}

pub SameLedger-IsRespected : IsRespected SameLedger
SameLedger-IsRespected = record {
  plain = SameLedger-IsPlain;
  on_archive = λ s n p. record { tries = refl; entries = refl; tokens = refl };
  on_verified = λ s x. record { tries = refl; entries = refl; tokens = refl };
}

-- Entries after those at some places are marked.
abbrev pub mark_all : List (ℕ × CleanupEntry) → List CleanupEntry → List CleanupEntry
mark_all [] es = es
mark_all ((i, e) ∷ ps) es = mark_all ps (mark_done_at i es)

-- The scripts of some pending entries, in their order, on top of those tried before.
abbrev pub tried_after : List (ℕ × CleanupEntry) → List Script → List Script
tried_after [] scripts = scripts
tried_after ((i, e) ∷ ps) scripts = tried_after ps (e.script ∷ scripts)

module _ (u : Setup) where
  pub run_script_recorded-tried :
      (script : Script) (t : StepType) (s : RunContext)
      → (tried (run_script_recorded u script t s).1.world.calls ≡ script ∷ tried s.world.calls)
        × ((run_script_recorded u script t s).1.entries ≡ s.entries)
        × ((run_script_recorded u script t s).1.tokens ≡ s.tokens)
  unfolding run_script_recorded lift mark ◌>>◌
  run_script_recorded-tried script t s =
      let same =
        (recorded_script-Leads SameLedger-IsPlain u script t).at
          (lift (mark (attempted script)) s).1 in
      (same.tries, same.entries, same.tokens)

  drain_pending-tried :
      (ps : List (ℕ × CleanupEntry)) (s : RunContext)
      → (tried (drain_pending u ps s).1.world.calls ≡ tried_after ps (tried s.world.calls))
        × ((drain_pending u ps s).1.entries ≡ mark_all ps s.entries)
  unfolding drain_pending drain_entry mark_done ◌>>=◌ ◌>>◌ pure
  drain_pending-tried [] s = (refl, refl)
  drain_pending-tried ((i, e) ∷ ps) s =
      let here = run_script_recorded-tried e.script e.step_type s in
      let rest = drain_pending-tried ps (drain_entry u i e s).1 in
      (
        rest.0 ∙ ap (tried_after ps) here.0,
        rest.1 ∙ ap (λ es. mark_all ps (mark_done_at i es)) here.1,
      )

-- Marked entries.
abbrev pub done_all : List CleanupEntry → List CleanupEntry
done_all [] = []
done_all (e ∷ es) = record e { done = true } ∷ done_all es

done_none : (i : ℕ) (es : List CleanupEntry) → pending_from i (done_all es) ≡ []
done_none i [] = refl
done_none i (e ∷ es) = done_none (suc i) es

mark_done_at-append :
    (ps : List CleanupEntry) (e : CleanupEntry) (es : List CleanupEntry)
    → mark_done_at (length ps) (ps ++ e ∷ es) ≡ ps ++ record e { done = true } ∷ es
mark_done_at-append [] e es = refl
mark_done_at-append (p ∷ ps) e es = ap (λ l. p ∷ l) (mark_done_at-append ps e es)

length_snoc : (ps : List CleanupEntry) (e : CleanupEntry) → length (ps ++ e ∷ []) ≡ suc (length ps)
length_snoc ps e = omega (arith, length-append ps (e ∷ []))

marked_done : (e : CleanupEntry) → e.done ≡ true → record e { done = true } ≡ e
marked_done e h = ap (λ b. record e { done = b }) (sym h)

mark_all-pending_from :
    (ps es : List CleanupEntry)
    → mark_all (pending_from (length ps) es) (ps ++ es) ≡ ps ++ done_all es
mark_all-pending_from ps [] = refl
mark_all-pending_from ps (e ∷ es) =
    let f = record e { done = true } in
    let later : mark_all (pending_from (suc (length ps)) es) (ps ++ f ∷ es)
        ≡ ps ++ f ∷ done_all es =
      simp (length_snoc ps f, append_assoc ps (f ∷ []) es, append_assoc ps (f ∷ []) (done_all es))
        at (mark_all-pending_from (ps ++ f ∷ []) es) in
    elim (Bool-cases e.done) [
      | inl h ↦ simp h (
          ap (λ x. mark_all (pending_from (suc (length ps)) es) (ps ++ x ∷ es))
            (sym (marked_done e h))
          ∙ later)
      | inr h ↦
          simp h (
            ap (mark_all (pending_from (suc (length ps)) es)) (mark_done_at-append ps e es) ∙ later)
    ]

module _ (u : Setup) where
  -- The drain enters `runScriptRecorded` exactly once for each entry that is pending when it
  -- starts, in the order of registration, and for nothing else, and it leaves no entry pending:
  -- whatever the scripts, the store and the server answer.
  pub drain_cleanup-tried :
      (s : RunContext)
      → (tried (drain_cleanup u s).1.world.calls
          ≡ tried_after (pending_from 0 s.entries) (tried s.world.calls))
        × (pending_from 0 (drain_cleanup u s).1.entries ≡ [])
  unfolding drain_cleanup ◌>>=◌ gets
  drain_cleanup-tried s =
      let drained = drain_pending-tried u (pending_from 0 s.entries) s in
      let outcomes = (drain_pending u (pending_from 0 s.entries) s).0 in
      let rest =
        (Leads-for_each SameLedger-IsPlain.order record_recovery outcomes
            (record_recovery-Leads SameLedger-IsPlain)).at
          (drain_pending u (pending_from 0 s.entries) s).1 in
      let none_left = mark_all-pending_from [] s.entries in
      (
        rest.tries ∙ drained.0,
        ap (pending_from 0) (rest.entries ∙ (drained.1 ∙ none_left)) ∙ done_none 0 s.entries,
      )
