-- ===== src/Backup/Ready.antt =====
-- What `preflight` of server/internal/backup/preflight.go has registered by the time it returns.
use sshbackup.Common.{
  ◌≡◌, refl, ap, ◌∙◌, String, Bool, true, false, Option, none, some, inl, inr, ◌⊎◌,
}
use sshbackup.Common.Action.{Leads, Leads-modify, ◌>>=◌, ◌>>◌, gets, pure, option, branch}
use sshbackup.Domain.{ErrorCode, Result, ok, err, RunStep, internal, invalid_config, preflight_step}
use sshbackup.Backup.Context.{
  Setup, Stage, RunContext, lift, fail, finish_recorded, with_step, start_step, step_status,
  on_result,
}
use sshbackup.Backup.Stages.{
  require_each, required_tools, preflight_temp, preflight_checks, run_preflight, preflight,
  source_paths,
}
use sshbackup.Domain.Validate.{validate_job, is_nil}
use sshbackup.Backup.World.{World}
use sshbackup.Backup.Checks.{check_source_readable, check_tool_available}
use sshbackup.Backup.Respects.Checking.{
  require_each-Leads, preflight_temp-Leads, check_source_readable-Leads, check_tool_available-Leads,
}
use sshbackup.Backup.Scripts.{register_cleanup_scripts}
use sshbackup.Backup.Cleanup.{tried, SameLedger, SameLedger-IsPlain}
use sshbackup.Backup.Respects.Recording.{base_rules, start_step-Leads, finish_recorded-Leads}
use sshbackup.Backup.Registry.{times, waiting}
use sshbackup.Backup.Visits.{same-Ledger}
use sshbackup.Backup.Enrolment.{Ledger, IsEmpty, guaranteed_times, register-Ledger}

-- The registry of a run that has registered the script and not tried it.
pub record Filled (x : String) (s t : RunContext) : Type 0 where
  pub ledger : Ledger x t
  pub open_entries : waiting x t.entries ≡ 1
  pub tries : times x (tried t.world.calls) ≡ times x (tried s.world.calls)

module _ (x : String) where
  same-Filled : (s t v : RunContext) → Filled x s t → SameLedger t v → Filled x s v
  same-Filled s t v f h = record {
    ledger = same-Ledger x t v h.entries h.tokens f.ledger;
    open_entries = ap (waiting x) h.entries ∙ f.open_entries;
    tries = ap (times x) h.tries ∙ f.tries;
  }

  later-Filled : (s t v : RunContext) → SameLedger s t → Filled x t v → Filled x s v
  later-Filled s t v h f = record {
    ledger = f.ledger;
    open_entries = f.open_entries;
    tries = f.tries ∙ ap (times x) h.tries;
  }

  -- A stage refuses and leaves the registry as it was, or fills an empty registry.
  abbrev pub IsReadyAt : RunContext → Bool × RunContext → Type 0
  IsReadyAt s r = ((r.0 ≡ false) × SameLedger s r.1) ⊎ (IsEmpty s → Filled x s r.1)

  pub record IsReady (m : Stage Bool) : Type 0 where
    pub at : (s : RunContext) → IsReadyAt s (m s)

  refuses-IsReady : {A : Type 0} (m : Stage A) → Leads SameLedger m → IsReady (m >> pure false)
  unfolding ◌>>◌ pure
  refuses-IsReady m h = record { at = λ s. inl (refl, h.at s) }

  ready_later :
      (s t : RunContext) (r : Bool × RunContext) → SameLedger s t → IsReadyAt t r → IsReadyAt s r
  ready_later s t r h (inl (refuses, k)) = inl (refuses, SameLedger-IsPlain.order.chain s t r.1 h k)
  ready_later s t r h (inr f) = inr (λ e.
      later-Filled s t r.1 h
        (f (record { entries = h.entries ∙ e.entries; tokens = h.tokens ∙ e.tokens })))

  then-IsReady :
      {A : Type 0} (m : Stage A) (f : A → Stage Bool)
      → Leads SameLedger m
      → ((a : A) → IsReady (f a))
      → IsReady (m >>= f)
  unfolding ◌>>=◌
  then-IsReady m f hm hf = record {
    at = λ s. let (a, s') = m s in ready_later s s' (f a s') (hm.at s) ((hf a).at s');
  }

  following-IsReady :
      {A : Type 0} (m : Stage A) (n : Stage Bool)
      → Leads SameLedger m
      → IsReady n
      → IsReady (m >> n)
  unfolding ◌>>◌
  following-IsReady m n hm hn = record {
    at = λ s. let (a, s') = m s in ready_later s s' (n s') (hm.at s) (hn.at s');
  }

  branch-IsReady : (b : Bool) (m n : Stage Bool) → IsReady m → IsReady n → IsReady (branch b m n)
  unfolding branch
  branch-IsReady true m n hm hn = record { at = hm.at }
  branch-IsReady false m n hm hn = record { at = hn.at }

  option-IsReady :
      {A : Type 0} (o : Option A) (m : Stage Bool) (f : A → Stage Bool)
      → IsReady m
      → ((a : A) → IsReady (f a))
      → IsReady (option o m f)
  unfolding option
  option-IsReady none m f hm hf = record { at = hm.at }
  option-IsReady (some a) m f hm hf = record { at = (hf a).at }

  kept :
      (s t : RunContext) (b : Bool) (v : RunContext)
      → IsReadyAt s (b, t)
      → SameLedger t v
      → IsReadyAt s (b, v)
  kept s t b v (inl (refuses, k)) h = inl (refuses, SameLedger-IsPlain.order.chain s t v k h)
  kept s t b v (inr f) h = inr (λ e. same-Filled s t v (f e) h)

  module _ (u : Setup) (only : guaranteed_times x u.job.scripts ≡ 1) where
    checks_later : Leads SameLedger (
        require_each u
          (λ path. lift (check_source_readable u.env u.server.command_timeout_seconds path))
          (source_paths u.job.sources)
          (require_each u
            (λ tool. lift (check_tool_available u.env u.server.command_timeout_seconds tool))
            required_tools
            (preflight_temp u)))
    checks_later =
        search
          (
            base_rules, SameLedger-IsPlain, require_each-Leads, preflight_temp-Leads,
            check_source_readable-Leads, check_tool_available-Leads,
          )
          depth 16

    checks-IsReady : IsReady (preflight_checks u)
    unfolding preflight_checks ◌>>◌
    checks-IsReady = record {
      at = λ s. inr (λ e.
          let (full, open_entries, same) = register-Ledger u x only s e in
          let filled : Filled x s (register_cleanup_scripts u s).1 = record {
            ledger = full;
            open_entries = open_entries;
            tries = ap (λ (w : World). times x (tried w.calls)) same;
          } in
          same-Filled s (register_cleanup_scripts u s).1 _ filled
            (checks_later.at (register_cleanup_scripts u s).1));
    }

    refused-IsReady : (c : ErrorCode) (m : String) → IsReady (do fail c m; pure false)
    refused-IsReady c m = refuses-IsReady (fail c m) (search (base_rules, SameLedger-IsPlain))

    run_preflight-IsReady : IsReady (run_preflight u)
    unfolding run_preflight
    run_preflight-IsReady =
        branch-IsReady (is_nil (validate_job u.env.cron_error u.job)) _ _
          (then-IsReady _ _ (search (base_rules, SameLedger-IsPlain, tt)) (λ failure.
            option-IsReady failure _ _
              (following-IsReady _ _
                (Leads-modify _ (λ s. record { tries = refl; entries = refl; tokens = refl }))
                checks-IsReady)
              (λ e. refused-IsReady _ _)))
          (refused-IsReady invalid_config _)

    body-IsReady :
        (step : RunStep)
        → IsReady (do
          done ← run_preflight u
          message ← gets (λ s. s.run.error_message)
          finish_recorded u (step_status done) (record step { error = message })
          pure done)
    unfolding ◌>>=◌ ◌>>◌ gets pure
    body-IsReady step = record {
      at = λ s.
          let (done, t) = run_preflight u s in
          kept s t done _ (run_preflight-IsReady.at s) (
            (finish_recorded-Leads SameLedger-IsPlain u (step_status done)
                (record step { error = t.run.error_message })).at
              t);
    }

    started-IsReady :
        (started : Result RunStep) (body : RunStep → Stage Bool)
        → ((step : RunStep) → IsReady (body step))
        → IsReady (
            on_result started
              (λ e. do fail internal "could not record preflight step"; pure false)
              body)
    unfolding on_result
    started-IsReady (err e) body h = record {
      at = (refused-IsReady internal "could not record preflight step").at;
    }
    started-IsReady (ok step) body h = record { at = (h step).at }

    pub preflight-IsReady : IsReady (preflight u)
    unfolding preflight with_step
    preflight-IsReady =
        then-IsReady (start_step u preflight_step) _
          (start_step-Leads SameLedger-IsPlain u preflight_step)
          (λ started. started-IsReady started _ body-IsReady)
