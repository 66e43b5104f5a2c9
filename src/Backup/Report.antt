-- ===== src/Backup/Report.antt =====
-- The report that `Validate` of server/internal/backup/validate.go makes of its checks.
use sshbackup.Common.{
  String, ◌<>◌, Bool, ◌&&◌, List, [], ◌∷◌, ◌++◌, all, ◌≡◌, refl, arith, Bool-cases, Option-cases,
  inl, inr,
}
use sshbackup.Common.Action.{Action, pure, branch, option, ◌>>=◌, ◌>>◌}
use sshbackup.Domain.{Job, Server}
use sshbackup.Domain.Validate.{validate_job, is_nil}
use sshbackup.Backup.World.{Env, World, ask}
use sshbackup.Backup.Checks.{CheckResult, check_source_readable, check_tool_available}
use sshbackup.Backup.Stages.{required_tools, source_paths}
use sshbackup.Backup.Validator.{
  CheckOutcome, ValidateResult, fresh_result, add_check, add_each, validate_space,
  validate_connected, validate,
}

abbrev pub all_pass : List CheckOutcome → Bool
all_pass checks = all (λ c. c.passes) checks

-- The verdict is the conjunction of the checks that are listed.
pub record IsFair (r : ValidateResult) : Type 0 where
  pub verdict : r.success ≡ all_pass r.checks

all_pass-append :
    (cs : List CheckOutcome) (c : CheckOutcome)
    → all_pass (cs ++ c ∷ []) ≡ (all_pass cs && c.passes)
all_pass-append [] c = ground arith
all_pass-append (x ∷ xs) c = ground (arith, all_pass-append xs c)

add_check-IsFair :
    (name : String) (r : CheckResult) (result : ValidateResult)
    → IsFair result
    → IsFair (add_check name r result)
unfolding add_check
add_check-IsFair name r result h = record {
  verdict = ground (
    arith,
    h.verdict,
    all_pass-append result.checks (record { name = name; passes = r.passes; message = r.message }),
  );
}

add_each-IsFair :
    (prefix : String) (check : String → Action World CheckResult) (xs : List String)
    (result : ValidateResult) (w : World)
    → IsFair result
    → IsFair (add_each prefix check xs result w).0
unfolding add_each ◌>>=◌ pure
add_each-IsFair prefix check [] result w h = h
add_each-IsFair prefix check (x ∷ xs) result w h =
    add_each-IsFair prefix check xs (add_check (prefix <> x) (check x w).0 result) (check x w).1
      (add_check-IsFair (prefix <> x) (check x w).0 result h)

module _ (env : Env) (job : Job) (server : Server) (dest_dir : String) where
  validate_space-IsFair :
      (result : ValidateResult) (w : World)
      → IsFair result
      → IsFair (validate_space env job server dest_dir result w).0
  unfolding validate_space ◌>>=◌ ◌>>◌ pure
  validate_space-IsFair result w h = add_check-IsFair _ _ _ (
      add_check-IsFair _ _ _
        (add_check-IsFair _ _ _ (add_check-IsFair _ _ _ (record { verdict = h.verdict }))))

  validate_connected-IsFair :
      (result : ValidateResult) (w : World)
      → IsFair result
      → IsFair (validate_connected env job server dest_dir result w).0
  unfolding validate_connected ◌>>=◌
  validate_connected-IsFair result w h = validate_space-IsFair _ _ (
      add_each-IsFair "tool:" (check_tool_available env server.command_timeout_seconds)
        required_tools _ _
        (add_each-IsFair "source:" (check_source_readable env server.command_timeout_seconds)
          (source_paths job.sources) result w h))

  -- Whatever the connection, the server and the local disk answer, `Validate` reports success
  -- exactly if every check that it lists has passed.
  pub validate-IsFair : (w : World) → IsFair (validate env job server dest_dir w).0
  unfolding validate ◌>>=◌ ask pure branch option
  validate-IsFair w = elim (Bool-cases (is_nil (validate_job env.cron_error job))) [
    | inr h ↦ rw h (add_check-IsFair _ _ fresh_result (record { verdict = refl }))
    | inl h ↦ elim (Option-cases (env.connect w.tick)) [
      | inl k ↦
          rw (h, k)
            (validate_connected-IsFair _ _ (
              add_check-IsFair _ _ _
                (add_check-IsFair _ _ fresh_result (record { verdict = refl }))))
      | inr (e, k) ↦
          rw (h, k)
            (add_check-IsFair _ _ _ (add_check-IsFair _ _ fresh_result (record { verdict = refl })))
    ]
  ]
