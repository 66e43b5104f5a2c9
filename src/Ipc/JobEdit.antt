-- ===== src/Ipc/JobEdit.antt =====
-- A job that is listed and saved again: `handleJobsUpdate` of server/internal/ipc/handlers_jobs.go.
use sshbackup.Common.{
  ◌≡◌, refl, sym, ap, ◌∙◌, String, ℤ, is_zero, false, Option, none, some, List, [], ◌∷◌, All, map,
  arith,
}
use sshbackup.Common.Action.{Action, pure, ◌>>=◌}
use sshbackup.Calendar.{Time}
use sshbackup.Domain.{Source, Script, HealthCheck, Job, Result, ok, err, tar_gz}
use sshbackup.Domain.Validate.{is_empty, validate_job}
use sshbackup.Domain.NewJob.{
  new_job, built_job, try, identify, identify_sources, identify_scripts, default_policy,
  default_text, default_number, validated, default_remote_temp_directory, default_archive_timeout,
  default_script_timeout_seconds,
}
use sshbackup.Backup.World.{seconds}
use sshbackup.Ipc.Convert.{
  Times, job_to_dto, dto_to_job_params, source_to_dto, script_to_dto, dto_to_source, dto_to_script,
  health_check_to_dto, dto_to_health_check,
}

-- The job that `handleJobsUpdate` stores, from the stored one and the one that `NewJob` makes.
abbrev pub updated_job : Job → Time → Job → Job
updated_job existing now built = record built { id = existing.id; updated_at = now }

abbrev forget_source : Source → Source
forget_source s = record s { id = "" }

abbrev forget_script : Script → Script
forget_script s = record s { id = "" }

-- A job without the identifiers of its sources and scripts.
abbrev pub without_ids : Job → Job
without_ids j = record j {
  sources = map forget_source j.sources;
  scripts = map forget_script j.scripts;
}

-- The job has no field that `NewJob` replaces, and a timeout of whole seconds.
pub record IsSettled (c : Times) (j : Job) : Type 0 where
  pub timeout : seconds (c.whole_seconds j.archive_timeout) ≡ j.archive_timeout
  pub positive : is_zero j.archive_timeout ≡ false
  pub directory : is_empty j.remote_temp_directory ≡ false
  pub policy : default_policy j.schedule.missed_run_policy ≡ j.schedule.missed_run_policy
  pub scripts : All (λ s. is_zero s.timeout_seconds ≡ false) j.scripts
  pub format : j.archive_format ≡ tar_gz

abbrev result_or : {A : Type 0} → A → Result A → A
result_or a (ok b) = b
result_or a (err e) = a

module _ {W : Type 0} (new_id : Action W (Result String)) where
  try_ok :
      {A B : Type 0} (r : Result A) (f : A → Action W (Result B)) (w : W) (b : B)
      → (try r f w).0 ≡ ok b
      → (a : A) × (r ≡ ok a) × ((f a w).0 ≡ ok b)
  unfolding try
  try_ok (ok a) f w b h = (a, refl, h)
  try_ok (err e) f w b h = absurd (ground (arith, h))

  kept_sources :
      (ss : List Source) (w : W) (done : List Source)
      → (identify_sources new_id (map dto_to_source (map source_to_dto ss)) w).0 ≡ ok done
      → map forget_source done ≡ map forget_source ss
  unfolding identify_sources ◌>>=◌ pure
  kept_sources [] w done h = ap (λ r. map forget_source (result_or [] r)) (sym h)
  kept_sources (s ∷ ss) w done h =
      let (id, w1) = identify new_id "" w in
      let (i, _, then_rest) = try_ok id _ w1 done h in
      let (rest, w2) = identify_sources new_id (map dto_to_source (map source_to_dto ss)) w1 in
      let (later, found, last) = try_ok rest _ w2 done then_rest in
      ap (λ r. map forget_source (result_or [] r)) (sym last)
      ∙ ap (λ xs. forget_source s ∷ xs) (kept_sources ss w1 later found)

  kept_scripts :
      (ss : List Script) (w : W) (done : List Script)
      → All (λ s. is_zero s.timeout_seconds ≡ false) ss
      → (identify_scripts new_id (map dto_to_script (map script_to_dto ss)) w).0 ≡ ok done
      → map forget_script done ≡ map forget_script ss
  unfolding identify_scripts ◌>>=◌ pure
  kept_scripts [] w done p h = ap (λ r. map forget_script (result_or [] r)) (sym h)
  kept_scripts (s ∷ ss) w done p h =
      let (id, w1) = identify new_id "" w in
      let (i, _, then_rest) = try_ok id _ w1 done h in
      let (rest, w2) = identify_scripts new_id (map dto_to_script (map script_to_dto ss)) w1 in
      let (later, found, last) = try_ok rest _ w2 done then_rest in
      let same : default_number default_script_timeout_seconds s.timeout_seconds
          ≡ s.timeout_seconds =
        rw p.0 refl in
      ap (λ r. map forget_script (result_or [] r)) (sym last)
      ∙ (ap (λ (n : ℤ). forget_script (record s { timeout_seconds = n }) ∷ map forget_script later)
            same
          ∙ ap (λ xs. forget_script s ∷ xs) (kept_scripts ss w1 later p.1 found))

  health_kept : (h : Option HealthCheck) → dto_to_health_check (health_check_to_dto h) ≡ h
  health_kept none = refl
  health_kept (some h) = refl

  validated_ok : {A : Type 0} (es : List String) (a b : A) → validated es a ≡ ok b → b ≡ a
  validated_ok [] a b h = ap (result_or a) (sym h)
  validated_ok (e ∷ es) a b h = absurd (ground (arith, h))

  -- A job that is listed and saved again as it was listed is stored as it was, with a new time of
  -- update and new identifiers for its sources and scripts, if `NewJob` accepts it.
  pub updated_job-unchanged :
      (c : Times) (cron_error : String → Option String) (j built : Job) (next_run_at : String)
      (now : Time) (w : W)
      → IsSettled c j
      → (new_job new_id cron_error j.created_at
          (dto_to_job_params (job_to_dto c j next_run_at))
          w).0
        ≡ ok built
      → without_ids (updated_job j now built) ≡ without_ids (record j { updated_at = now })
  unfolding new_job ◌>>=◌ pure
  updated_job-unchanged c cron_error j built next_run_at now w s h =
      let p = dto_to_job_params (job_to_dto c j next_run_at) in
      let (id, w1) = new_id w in
      let (i, _, h1) = try_ok id _ w1 built h in
      let (sources, w2) = identify_sources new_id p.sources w1 in
      let (ss, found_sources, h2) = try_ok sources _ w2 built h1 in
      let (scripts, w3) = identify_scripts new_id p.scripts w2 in
      let (cs, found_scripts, h3) = try_ok scripts _ w3 built h2 in
      let (schedule_id, w4) = new_id w3 in
      let (si, _, h4) = try_ok schedule_id _ w4 built h3 in
      let (policy_id, w5) = new_id w4 in
      let (pi, _, h5) = try_ok policy_id _ w5 built h4 in
      let same =
        validated_ok (validate_job cron_error (built_job j.created_at p i ss cs)) _ built h5 in
      let timed : default_number default_archive_timeout
            (seconds (c.whole_seconds j.archive_timeout))
          ≡ j.archive_timeout =
        rw (s.timeout, s.positive) refl in
      let placed : default_text default_remote_temp_directory j.remote_temp_directory
          ≡ j.remote_temp_directory =
        rw (s.directory) refl in
      ap (λ b. without_ids (updated_job j now b)) same
      ∙ rw
          (
            kept_sources j.sources w1 ss found_sources,
            kept_scripts j.scripts w2 cs s.scripts found_scripts,
            timed,
            placed,
            s.policy,
            health_kept j.health_check,
            s.format,
          )
          refl
