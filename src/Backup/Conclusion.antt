-- ===== src/Backup/Conclusion.antt =====
-- How a run ends: what `finishRun` of server/internal/backup/engine.go persists, and the job's lock.
use sshbackup.Common.{
  suc, String, true, false, ◌≡◌, refl, sym, ◌∙◌, arith, none, some, List, [], ◌∷◌, Option-cases,
  Bool-cases, inl, inr,
}
use sshbackup.Common.Action.{IsPreorder, Leads, when, pure, ◌>>=◌, ◌>>◌, option}
use sshbackup.Calendar.{Time}
use sshbackup.Domain.{Run, running, success, is_terminal, no_error_code, finish, ok, Trigger}
use sshbackup.Backup.World.{World, Call, ask, mark, lock_released, run_updated}
use sshbackup.Backup.Context.{Setup, RunContext, final_status, on_result}
use sshbackup.Backup.Engine.{
  new_context, closing_run, execute, finish_context, finish_run, run_job, begin_run, conclude,
  start_locked, write_run,
}
use sshbackup.Backup.Respects.{IsRespected}
use sshbackup.Backup.Respects.Whole.{IsRespectedByAll, marked_script-Leads, execute-Leads}

-- The runs that were written to the store with `Update`, the last one first.
abbrev pub updates : List Call → List Run
updates [] = []
updates (run_updated run ∷ calls) = run ∷ updates calls
updates (_ ∷ calls) = updates calls

-- A run with neither a failure nor a warning shows no error.
abbrev pub IsClean : RunContext → Type 0
IsClean s =
    s.failed ≡ false
    → s.has_warn ≡ false
    → (s.run.error_code ≡ no_error_code) × (s.run.error_message ≡ "")

-- What a run's stages leave alone, and what they keep true.
pub record KeepsRun (s t : RunContext) : Type 0 where
  pub id : t.run.id ≡ s.run.id
  pub job_id : t.run.job_id ≡ s.run.job_id
  pub trigger : t.run.trigger ≡ s.run.trigger
  pub started_at : t.run.started_at ≡ s.run.started_at
  pub status : t.run.status ≡ s.run.status
  pub clean : IsClean s → IsClean t

KeepsRun-IsPreorder : IsPreorder KeepsRun
KeepsRun-IsPreorder = record {
  same = λ s. record {
    id = refl;
    job_id = refl;
    trigger = refl;
    started_at = refl;
    status = refl;
    clean = λ h. h;
  };
  chain = λ s t u p q. record {
    id = q.id ∙ p.id;
    job_id = q.job_id ∙ p.job_id;
    trigger = q.trigger ∙ p.trigger;
    started_at = q.started_at ∙ p.started_at;
    status = q.status ∙ p.status;
    clean = λ h. q.clean (p.clean h);
  };
}

KeepsRun-IsRespected : IsRespected KeepsRun
KeepsRun-IsRespected = record {
  plain = record {
    order = KeepsRun-IsPreorder;
    on_ask = λ s c q. ground arith;
    on_mark = λ s c q. ground arith;
    on_cancel = λ s. ground arith;
    on_position = λ s. ground arith;
    on_failure = λ s c m h. ground arith;
    on_warned = λ s. ground arith;
    on_warning = λ s c m h. ground arith;
    on_recovery = λ s o. ground arith;
    on_part = λ s p. ground arith;
    on_size = λ s n. ground arith;
  };
  on_archive = λ s n p. ground arith;
  on_verified = λ s x. ground arith;
}

KeepsRun-IsRespectedByAll : IsRespectedByAll KeepsRun
KeepsRun-IsRespectedByAll = record {
  quiet = KeepsRun-IsRespected;
  on_script = marked_script-Leads KeepsRun-IsRespected.plain (λ s x. ground arith);
  on_close = λ s. ground arith;
  on_done = λ s i. ground arith;
  on_registered = λ s x. ground arith;
  on_transport = λ s. ground arith;
}

execute-KeepsRun : (u : Setup) → Leads KeepsRun (execute u)
execute-KeepsRun u = execute-Leads KeepsRun-IsRespectedByAll u

final_status_terminal : (s : RunContext) → is_terminal (final_status s) ≡ true
unfolding final_status
final_status_terminal s = ground arith

final_status_success :
    (s : RunContext) → final_status s ≡ success → (s.failed ≡ false) × (s.has_warn ≡ false)
unfolding final_status
final_status_success s h = ground arith

closing_run_lem :
    (s : RunContext) (t : Time)
    → s.run.status ≡ running
    → closing_run s t ≡ record s.run {
      status = final_status s;
      finished_at = some t;
      recovery_outcome = s.recovery_out;
    }
unfolding closing_run finish
closing_run_lem s t h = simp h refl

module _ (u : Setup) (run : Run) (w : World) (open_run : run.status ≡ running) where
  abbrev final_context : RunContext
  final_context = (execute u (new_context run w)).1

  kept : KeepsRun (new_context run w) final_context
  kept = (execute-KeepsRun u).at (new_context run w)

  still_running : final_context.run.status ≡ running
  unfolding new_context
  still_running = kept.status ∙ open_run

  written :
      updates (finish_run u run w).1.calls
      ≡ (finish_run u run w).0 ∷ updates final_context.world.calls
  unfolding finish_run finish_context write_run new_context ask when mark pure ◌>>=◌ ◌>>◌
  written = elim (Bool-cases u.env.has_events) [ inl h ↦ rw h refl | inr h ↦ rw h refl ]

  -- `finishRun` on a running run writes one run to the store after the stages, the one it returns,
  -- and that run is ended: it is terminal with the final status of its context, it is finished, and
  -- it has the identity that it was started with.
  pub finish_run_ends :
      (updates (finish_run u run w).1.calls
        ≡ (finish_run u run w).0 ∷ updates final_context.world.calls)
      × (is_terminal (finish_run u run w).0.status ≡ true)
      × ((finish_run u run w).0.status ≡ final_status final_context)
      × ((t : Time) × ((finish_run u run w).0.finished_at ≡ some t))
      × ((finish_run u run w).0.id ≡ run.id)
      × ((finish_run u run w).0.started_at ≡ run.started_at)
  unfolding finish_run finish_context write_run new_context ask when mark pure ◌>>=◌ ◌>>◌
  finish_run_ends =
      simp (closing_run_lem final_context (u.env.now final_context.world.tick) still_running) (
        simp (closing_run_lem final_context (u.env.now final_context.world.tick) still_running) at
            written,
        final_status_terminal final_context,
        refl,
        (_, refl),
        kept.id,
        kept.started_at,
      )

  -- A run that was started without an error and ends as a success shows no error: no error code and
  -- no message.
  pub finish_run_success :
      (run.error_code ≡ no_error_code) × (run.error_message ≡ "")
      → (finish_run u run w).0.status ≡ success
      → ((finish_run u run w).0.error_code ≡ no_error_code)
        × ((finish_run u run w).0.error_message ≡ "")
  unfolding finish_run finish_context write_run new_context ask when mark pure ◌>>=◌ ◌>>◌
  finish_run_success start h =
      let closed =
        closing_run_lem final_context (u.env.now final_context.world.tick) still_running in
      let ends = final_status_success final_context (sym (finish_run_ends.2) ∙ h) in
      simp closed (kept.clean (λ a b. start) ends.0 ends.1)

-- The last call of a stretch of the run.
abbrev pub EndsWith : Call → World → Type 0
EndsWith c w = (rest : List Call) × (w.calls ≡ c ∷ rest)

module _ (u : Setup) where
  finish_run-EndsWith :
      (run : Run) (w : World) → EndsWith (lock_released u.job.id) (finish_run u run w).1
  unfolding finish_run finish_context write_run ask when mark pure ◌>>=◌ ◌>>◌
  finish_run-EndsWith run w = (_, refl)

  start_locked_released :
      (run : Run) (w : World)
      → EndsWith
          (lock_released u.job.id)
          (conclude u (start_locked u run w).0 (start_locked u run w).1).1
  unfolding start_locked ask when mark pure ◌>>=◌ ◌>>◌ option conclude
  start_locked_released run w = elim (Option-cases (u.env.create_run w.tick run)) [
    | inl h ↦ rw h (finish_run-EndsWith run _)
    | inr (e, h) ↦ rw h (_, refl)
  ]

  -- A lock that `Engine.Run` takes is released by the last call it makes, whatever the stages, the
  -- store and the server answer: whether the run is recorded and executed or could not be recorded.
  pub run_job-EndsWith :
      (trigger : Trigger) (w : World) {id : String}
      → u.env.new_id (suc w.tick) ≡ ok id
      → u.env.acquire_lock (suc (suc w.tick)) u.job.id id ≡ none
      → EndsWith (lock_released u.job.id) (run_job u trigger w).1
  unfolding run_job begin_run ask pure ◌>>=◌ ◌>>◌ option on_result
  run_job-EndsWith trigger w h k = rw (h, k) (start_locked_released _ _)
