-- ===== src/Backup/Answered.antt =====
-- What becomes of a script that `runScriptRecorded` of server/internal/backup/scripts.go is entered
-- with: its command is sent to the server, or its step could not be recorded.
use sshbackup.Common.{
  ℕ, suc, ◌≡◌, refl, ap, String, none, some, Option-cases, List, [], ◌∷◌, str_eq, eq_refl,
  if◌then◌else◌, Bool-cases, inl, inr, ◌⊎◌,
}
use sshbackup.Common.Action.{Leads, ◌>>=◌, ◌>>◌, pure, option}
use sshbackup.Domain.{Result, ok, err, Script, StepType, RunStep}
use sshbackup.Backup.World.{
  Call, seconds, mark, ask, attempted, unrecorded, connected, closed, retained, ran, fetched,
  renamed, removed, step_created, step_updated, step_changed, run_created, run_updated, run_started,
  run_finished, lock_acquired, lock_released, other,
}
use sshbackup.Backup.Context.{
  Setup, RunContext, lift, with_step, start_step, on_result, run_command,
}
use sshbackup.Backup.Scripts.{
  run_script_recorded, give_up, execute_script, script_attempts, record_outcome, attempt_error,
}
use sshbackup.Backup.Engine.{execute}
use sshbackup.Backup.Respects.{IsPlain, IsQuiet}
use sshbackup.Backup.Respects.Recording.{start_step-Leads}
use sshbackup.Backup.Respects.Whole.{
  IsRespectedByAll, script_attempts-Leads, record_outcome-Leads, execute-Leads,
}

-- The command of the last script without an answer was sent.
abbrev pub sent : String → List Script → List Script
sent command [] = []
sent command (s ∷ ss) = if str_eq command s.command then ss else s ∷ ss

abbrev pub given_up : List Script → List Script
given_up [] = []
given_up (s ∷ ss) = ss

-- The scripts that `runScriptRecorded` was entered with and that have had no answer since: neither
-- was their command sent to the server, nor did their step fail to be recorded.
abbrev pub unanswered : List Call → List Script
unanswered [] = []
unanswered (attempted script ∷ calls) = script ∷ unanswered calls
unanswered (unrecorded script ∷ calls) = given_up (unanswered calls)
unanswered (ran command timeout ∷ calls) = sent command (unanswered calls)
unanswered (_ ∷ calls) = unanswered calls

-- At most one script has no answer.
IsOwed : Script → List Script → Type 0
IsOwed script l = (l ≡ []) ⊎ (l ≡ script ∷ [])

sent-IsOwed :
    (script : Script) (command : String) (l : List Script)
    → IsOwed script l
    → IsOwed script (sent command l)
unfolding IsOwed
sent-IsOwed script command l (inl h) = rw h (inl refl)
sent-IsOwed script command l (inr h) = elim (Bool-cases (str_eq command script.command)) [
  | inl k ↦ inl (simp (h, k) refl)
  | inr k ↦ inr (simp (h, k) refl)
]

given_up-IsOwed : (script : Script) (l : List Script) → IsOwed script l → given_up l ≡ []
unfolding IsOwed
given_up-IsOwed script l (inl h) = rw h refl
given_up-IsOwed script l (inr h) = rw h refl

sent_own : (script : Script) (l : List Script) → IsOwed script l → sent script.command l ≡ []
unfolding IsOwed
sent_own script l (inl h) = rw h refl
sent_own script l (inr h) = simp (h, eq_refl script.command) refl

-- A call that is no entry of a script keeps it so.
quiet-IsOwed :
    (script : Script) (c : Call) (cs : List Call)
    → IsQuiet c
    → IsOwed script (unanswered cs)
    → IsOwed script (unanswered (c ∷ cs))
unfolding IsOwed
quiet-IsOwed script (attempted x) cs q h = elim q [ ]
quiet-IsOwed script (unrecorded _) cs q h = inl (given_up-IsOwed script (unanswered cs) h)
quiet-IsOwed script (ran command t) cs q h = sent-IsOwed script command (unanswered cs) h
quiet-IsOwed script connected cs q h = h
quiet-IsOwed script closed cs q h = h
quiet-IsOwed script retained cs q h = h
quiet-IsOwed script (fetched _) cs q h = h
quiet-IsOwed script (renamed _) cs q h = h
quiet-IsOwed script (removed _) cs q h = h
quiet-IsOwed script (step_created _ _) cs q h = h
quiet-IsOwed script (step_updated _) cs q h = h
quiet-IsOwed script (step_changed _) cs q h = h
quiet-IsOwed script (run_created _) cs q h = h
quiet-IsOwed script (run_updated _) cs q h = h
quiet-IsOwed script (run_started _) cs q h = h
quiet-IsOwed script (run_finished _) cs q h = h
quiet-IsOwed script (lock_acquired _) cs q h = h
quiet-IsOwed script (lock_released _) cs q h = h
quiet-IsOwed script other cs q h = h

quiet_answered :
    (c : Call) (cs : List Call) → IsQuiet c → unanswered cs ≡ [] → unanswered (c ∷ cs) ≡ []
quiet_answered (attempted x) cs q h = elim q [ ]
quiet_answered (unrecorded _) cs q h = rw h refl
quiet_answered (ran command t) cs q h = rw h refl
quiet_answered connected cs q h = h
quiet_answered closed cs q h = h
quiet_answered retained cs q h = h
quiet_answered (fetched _) cs q h = h
quiet_answered (renamed _) cs q h = h
quiet_answered (removed _) cs q h = h
quiet_answered (step_created _ _) cs q h = h
quiet_answered (step_updated _) cs q h = h
quiet_answered (step_changed _) cs q h = h
quiet_answered (run_created _) cs q h = h
quiet_answered (run_updated _) cs q h = h
quiet_answered (run_started _) cs q h = h
quiet_answered (run_finished _) cs q h = h
quiet_answered (lock_acquired _) cs q h = h
quiet_answered (lock_released _) cs q h = h
quiet_answered other cs q h = h

record KeepsOwed (script : Script) (s t : RunContext) : Type 0 where
  kept : IsOwed script (unanswered s.world.calls) → IsOwed script (unanswered t.world.calls)

-- Where every script has its answer, every script has it later.
pub record KeepsAnswers (s t : RunContext) : Type 0 where
  pub kept : unanswered s.world.calls ≡ [] → unanswered t.world.calls ≡ []

KeepsOwed-IsPlain : (script : Script) → IsPlain (KeepsOwed script)
KeepsOwed-IsPlain script = record {
  order = record {
    same = λ s. record { kept = λ h. h };
    chain = λ s t u p q. record { kept = λ h. q.kept (p.kept h) };
  };
  on_ask = λ s c q. record { kept = quiet-IsOwed script c s.world.calls q };
  on_mark = λ s c q. record { kept = quiet-IsOwed script c s.world.calls q };
  on_cancel = λ s. record { kept = λ h. h };
  on_position = λ s. record { kept = λ h. h };
  on_failure = λ s c m h. record { kept = λ h. h };
  on_warned = λ s. record { kept = λ h. h };
  on_warning = λ s c m h. record { kept = λ h. h };
  on_recovery = λ s o. record { kept = λ h. h };
  on_part = λ s p. record { kept = λ h. h };
  on_size = λ s n. record { kept = λ h. h };
}

KeepsAnswers-IsPlain : IsPlain KeepsAnswers
KeepsAnswers-IsPlain = record {
  order = record {
    same = λ s. record { kept = λ h. h };
    chain = λ s t u p q. record { kept = λ h. q.kept (p.kept h) };
  };
  on_ask = λ s c q. record { kept = quiet_answered c s.world.calls q };
  on_mark = λ s c q. record { kept = quiet_answered c s.world.calls q };
  on_cancel = λ s. record { kept = λ h. h };
  on_position = λ s. record { kept = λ h. h };
  on_failure = λ s c m h. record { kept = λ h. h };
  on_warned = λ s. record { kept = λ h. h };
  on_warning = λ s c m h. record { kept = λ h. h };
  on_recovery = λ s o. record { kept = λ h. h };
  on_part = λ s p. record { kept = λ h. h };
  on_size = λ s n. record { kept = λ h. h };
}

module _ (u : Setup) (script : Script) where
  -- The first attempt sends the command.
  attempts_answer :
      (n : ℕ) (s : RunContext)
      → IsOwed script (unanswered s.world.calls)
      → unanswered (script_attempts u (suc n) script none s).1.world.calls ≡ []
  unfolding script_attempts ◌>>=◌ run_command lift ask option pure
  attempts_answer n s h =
      let reply = u.env.run_remote s.world.tick script.command (seconds script.timeout_seconds) in
      let gone = sent_own script (unanswered s.world.calls) h in
      elim (Option-cases (attempt_error u reply)) [
        | inl well ↦ simp well gone
        | inr (e, failed) ↦ simp failed (
            ((script_attempts-Leads KeepsAnswers-IsPlain u n script (some e)).at
                (run_command u script.command (seconds script.timeout_seconds) s).1).kept
              gone)
      ]

  execute_answer :
      (s : RunContext)
      → IsOwed script (unanswered s.world.calls)
      → unanswered (execute_script u script s).1.world.calls ≡ []
  unfolding execute_script
  execute_answer s h = elim (Bool-cases script.retry_on_failure) [
    | inl k ↦ simp k (attempts_answer 1 s h)
    | inr k ↦ simp k (attempts_answer 0 s h)
  ]

  started_answer :
      (started : Result RunStep) (s : RunContext)
      → IsOwed script (unanswered s.world.calls)
      → unanswered
          (on_result started
            (give_up u script)
            (λ step. do
              outcome ← execute_script u script
              record_outcome u (record step { command = script.command }) outcome)
            s).1.world.calls
        ≡ []
  unfolding on_result give_up lift mark pure ◌>>=◌ ◌>>◌
  started_answer (err e) s h = given_up-IsOwed script (unanswered s.world.calls) h
  started_answer (ok step) s h =
      let (outcome, t) = execute_script u script s in
      ((record_outcome-Leads KeepsAnswers-IsPlain u (record step { command = script.command })
            outcome).at
          t).kept
        (execute_answer s h)

  pub run_script_recorded-answer :
      (t : StepType) → Leads KeepsAnswers (run_script_recorded u script t)
  unfolding run_script_recorded with_step lift mark ◌>>=◌ ◌>>◌ IsOwed
  run_script_recorded-answer t = record {
    at = λ s. record {
      kept = λ h.
          let entered = (lift (mark (attempted script)) s).1 in
          let (started, begun) = start_step u t entered in
          started_answer started begun (
            ((start_step-Leads (KeepsOwed-IsPlain script) u t).at entered).kept
              (inr (ap (λ l. script ∷ l) h)));
    };
  }

KeepsAnswers-IsRespectedByAll : IsRespectedByAll KeepsAnswers
KeepsAnswers-IsRespectedByAll = record {
  quiet = record {
    plain = KeepsAnswers-IsPlain;
    on_archive = λ s n p. record { kept = λ h. h };
    on_verified = λ s x. record { kept = λ h. h };
  };
  on_script = run_script_recorded-answer;
  on_close = λ s. record { kept = λ h. h };
  on_done = λ s i. record { kept = λ h. h };
  on_registered = λ s x. record { kept = λ h. h };
  on_transport = λ s. record { kept = λ h. h };
}

-- No script is left without an answer by a whole run.
pub execute-answers : (u : Setup) → Leads KeepsAnswers (execute u)
execute-answers u = execute-Leads KeepsAnswers-IsRespectedByAll u
