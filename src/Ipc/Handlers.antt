-- ===== src/Ipc/Handlers.antt =====
-- server/internal/ipc/handlers_jobs.go and handlers_settings.go. A handler takes the request as
-- `UnmarshalPayload` gives it, decoded or an error.
use sshbackup.Common.{String, Bool, if◌then◌else◌}
use sshbackup.Common.Action.{Action, pure, when, ◌>>=◌, ◌>>◌}
use sshbackup.Domain.{invalid_config, Result, ok, err, Job}
use sshbackup.Domain.Validate.{is_empty, validate_settings}
use sshbackup.Domain.NewJob.{try, validated, new_job}
use sshbackup.Ipc.Dto.{JobDto, SettingsDto}
use sshbackup.Ipc.Convert.{dto_to_job_params, settings_to_dto, dto_to_settings}
use sshbackup.Ipc.JobEdit.{updated_job}
use sshbackup.Ipc.Backend.{Backend, coded, refused, done}

module _ {W : Type 0} (b : Backend W) where
  -- `handleJobsCreate`.
  unfoldable pub handle_jobs_create : Result JobDto → Action W (Result Job)
  handle_jobs_create request = try (refused request) (λ d. do
    now ← b.now
    made ← new_job b.new_id b.cron_error now (dto_to_job_params d)
    try (refused made) (λ j. do failure ← b.create_job j; pure (done j failure)))

  -- `handleJobsUpdate`.
  unfoldable pub handle_jobs_update : Result JobDto → Action W (Result Job)
  handle_jobs_update request = try (refused request) (λ d.
      try
        (if is_empty d.id
          then err (coded invalid_config "job id is required for an update")
          else ok d)
        (λ _. do
          found ← b.get_job d.id
          try found (λ existing. do
            made ← new_job b.new_id b.cron_error existing.created_at (dto_to_job_params d)
            try (refused made) (λ built. do
              now ← b.now
              failure ← b.update_job (updated_job existing now built)
              pure (done (updated_job existing now built) failure)))))

  -- `handleJobsDelete`, with the identifier and whether the history goes too.
  unfoldable pub handle_jobs_delete : Result (String × Bool) → Action W (Result (Unit {0}))
  handle_jobs_delete request =
      try (refused request) (λ r. do failure ← b.delete_job r.0 r.1; pure (done tt failure))

  -- `handleJobsSetEnabled`.
  unfoldable pub handle_jobs_set_enabled : Bool → Result String → Action W (Result (Unit {0}))
  handle_jobs_set_enabled enabled request =
      try (refused request) (λ id. do failure ← b.set_enabled id enabled; pure (done tt failure))

  -- `handleSettingsGet`.
  unfoldable pub handle_settings_get : Action W (Result SettingsDto)
  handle_settings_get = do found ← b.get_settings; try found (λ s. pure (ok (settings_to_dto s)))

  -- `handleSettingsSet`.
  unfoldable pub handle_settings_set : Result SettingsDto → Action W (Result SettingsDto)
  handle_settings_set request = try (refused request) (λ d. do
    let s = dto_to_settings d
    try (refused (validated (validate_settings s) s)) (λ v. do
      failure ← b.update_settings v
      try (done v failure)
          (λ _. do when b.has_events (b.publish_settings v); pure (ok (settings_to_dto v)))))
