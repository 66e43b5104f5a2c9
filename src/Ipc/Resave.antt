-- ===== src/Ipc/Resave.antt =====
-- A job that is listed and saved again through `handleJobsUpdate` of
-- server/internal/ipc/handlers_jobs.go.
use sshbackup.Common.{◌≡◌, refl, sym, ap, subst, String, false, Option, none, some, arith}
use sshbackup.Common.Action.{pure, ◌>>=◌}
use sshbackup.Domain.{Job, Result, ok, err}
use sshbackup.Domain.Validate.{is_empty}
use sshbackup.Domain.NewJob.{try, new_job}
use sshbackup.Ipc.Convert.{Times, job_to_dto, dto_to_job_params}
use sshbackup.Ipc.JobEdit.{updated_job, without_ids, IsSettled, updated_job-unchanged}
use sshbackup.Ipc.Backend.{Backend, refused, done}
use sshbackup.Ipc.Handlers.{handle_jobs_update}

-- The answer `x` was given to `Update` of the store at the end, which accepted it; and it is the job
-- `j` with a new time of update and new identifiers for its sources and scripts.
pub record Saved {W : Type 0} (b : Backend W) (j x : Job) (r : Result Job × W) : Type 0 where
  pub before : W
  pub accepted : (b.update_job x (b.now before).1).0 ≡ none
  pub ends : r.1 ≡ (b.update_job x (b.now before).1).1
  pub same : without_ids x ≡ without_ids (record j { updated_at = (b.now before).0 })

module _ {W : Type 0} (b : Backend W) (c : Times) (j : Job) (next_run_at : String)
    (s : IsSettled c j) where
  finished :
      (x y : Job) (before : W) (failure : Option _) (after : W)
      → b.update_job y (b.now before).1 ≡ (failure, after)
      → without_ids y ≡ without_ids (record j { updated_at = (b.now before).0 })
      → done y failure ≡ ok x
      → Saved b j x (done y failure, after)
  finished x y before none after e same h =
      let equal : y ≡ x = ground (arith, h) in
      subst (λ z. Saved b j z (ok y, after)) equal
        (record {
          before = before;
          accepted = ap (λ r. r.0) e;
          ends = sym (ap (λ r. r.1) e);
          same = same;
        })
  finished x y before (some e) after k same h = absurd (ground (arith, h))

  stored :
      (made : Result Job) (x : Job) (w0 w : W)
      → (new_job b.new_id b.cron_error j.created_at
          (dto_to_job_params (job_to_dto c j next_run_at))
          w0).0
        ≡ made
      → (try
          (refused made)
          (λ built. do
            now ← b.now
            failure ← b.update_job (updated_job j now built)
            pure (done (updated_job j now built) failure))
          w).0
        ≡ ok x
      → Saved b j x (
          try
            (refused made)
            (λ built. do
              now ← b.now
              failure ← b.update_job (updated_job j now built)
              pure (done (updated_job j now built) failure))
            w)
  unfolding try ◌>>=◌ pure
  stored (ok built) x w0 w made h =
      finished x (updated_job j (b.now w).0 built) w
        (b.update_job (updated_job j (b.now w).0 built) (b.now w).1).0
        (b.update_job (updated_job j (b.now w).0 built) (b.now w).1).1 refl
        (updated_job-unchanged b.new_id c b.cron_error j built next_run_at (b.now w).0 w0 s made) h
  stored (err e) x w0 w made h = absurd (ground (arith, h))

  handled :
      (w : W)
      → is_empty j.id ≡ false
      → (b.get_job j.id w).0 ≡ ok j
      → handle_jobs_update b (ok (job_to_dto c j next_run_at)) w ≡ (
          let (made, w2) =
            new_job b.new_id b.cron_error j.created_at
              (dto_to_job_params (job_to_dto c j next_run_at))
              (b.get_job j.id w).1 in
          try
            (refused made)
            (λ built. do
              now ← b.now
              failure ← b.update_job (updated_job j now built)
              pure (done (updated_job j now built) failure))
            w2)
  unfolding handle_jobs_update try ◌>>=◌
  handled w named found = simp (named, found) refl

  -- If a job of the store, whose identifier is not empty and that has no field that NewJob replaces,
  -- is sent to handleJobsUpdate as it is listed, and the answer is not an error: then the job that is
  -- answered is the one that the store's Update has accepted as the last change, and it is the stored
  -- job with a new time of update and new identifiers for its sources and scripts.
  pub handle_jobs_update-Saved :
      (w : W) (x : Job)
      → is_empty j.id ≡ false
      → (b.get_job j.id w).0 ≡ ok j
      → (handle_jobs_update b (ok (job_to_dto c j next_run_at)) w).0 ≡ ok x
      → Saved b j x (handle_jobs_update b (ok (job_to_dto c j next_run_at)) w)
  handle_jobs_update-Saved w x named found h =
      let (made, w2) =
        new_job b.new_id b.cron_error j.created_at (dto_to_job_params (job_to_dto c j next_run_at))
          (b.get_job j.id w).1 in
      subst (λ r. r.0 ≡ ok x → Saved b j x r) (sym (handled w named found))
        (stored made x (b.get_job j.id w).1 w2 refl) h
