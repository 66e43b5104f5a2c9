-- ===== src/Ipc/RunHandlers.antt =====
-- server/internal/ipc/handlers_runs.go. The state is the backend's with the registry of active runs
-- and the number of the next cancel function.
use sshbackup.Common.{ℕ, suc, if◌then◌else◌, String, ℤ, Bool, true, false, List, [], ◌∷◌}
use sshbackup.Common.Action.{Action, pure, modify, ◌>>=◌, ◌>>◌}
use sshbackup.Domain.{
  Result, ok, err, not_found, Job, Server, Run, RunStatus, running, Trigger, manual,
}
use sshbackup.Domain.NewJob.{try}
use sshbackup.Ipc.Dto.{RunDto}
use sshbackup.Ipc.Convert.{Times, run_to_dto}
use sshbackup.Ipc.Backend.{Backend, Credentials, coded, refused, resolve_credentials}
use sshbackup.Ipc.ActiveRuns.{Active, register, cancel, call}

-- `Engine.Start` under the context of a cancel function, with the archives' directory, and the
-- stores that the handlers read.
pub record RunPorts (W : Type 0) : Type 0 where
  pub start : ℕ → Job → Server → Credentials → String → Trigger → Action W (Result Run)
  pub list_runs : String → String → ℤ → Action W (Result (List Run))

pub record Desk (W : Type 0) : Type 0 where
  pub world : W
  pub active : Active
  pub next : ℕ

pub record RunNowResponse : Type 0 where
  pub run_id : String
  pub status : RunStatus

pub record ListRunsRequest : Type 0 where
  pub job_id : String
  pub status : String
  pub limit : ℤ

abbrev pub is_running : RunStatus → Bool
is_running running = true
is_running _ = false

abbrev pub runs_to_dtos : Times → List Run → List RunDto
runs_to_dtos t [] = []
runs_to_dtos t (x ∷ xs) = run_to_dto t x ∷ runs_to_dtos t xs

module _ {W : Type 0} where
  -- A call that does not touch the registry.
  abbrev pub outside : {A : Type 0} → Action W A → Action (Desk W) A
  outside m d = let (a, w) = m d.world in (a, record d { world = w })

  -- `context.WithCancel`.
  abbrev pub with_cancel : Action (Desk W) ℕ
  with_cancel d = (d.next, record d { next = suc d.next })

  abbrev pub on_active : (Active → Active) → Action (Desk W) (Unit {0})
  on_active f = modify (λ d. record d { active = f d.active })

  abbrev pub cancel_active : String → Action (Desk W) Bool
  cancel_active id d = let (found, a) = cancel id d.active in (found, record d { active = a })

  -- The end of `handleRunsStart`.
  unfoldable pub keep_cancel : ℕ → Result Run → Action (Desk W) (Result RunNowResponse)
  keep_cancel c (err e) = do on_active (call c); pure (err e)
  keep_cancel c (ok run) = do
    on_active (if is_running run.status then register run.id c else call c)
    pure (ok (record { run_id = run.id; status = run.status }))

  -- `handleRunsCancel`.
  unfoldable pub handle_runs_cancel : Result String → Action (Desk W) (Result (Unit {0}))
  handle_runs_cancel request = try (refused request) (λ id. do
    found ← cancel_active id
    pure (if found then ok tt else err (coded not_found "run is not currently active")))

  -- `handleRunsList`.
  unfoldable pub handle_runs_list :
      RunPorts W → Times → Result ListRunsRequest → Action (Desk W) (Result (List RunDto))
  handle_runs_list r t request = try (refused request) (λ q. do
    found ← outside (r.list_runs q.job_id q.status q.limit)
    try found (λ runs. pure (ok (runs_to_dtos t runs))))

  module _ (b : Backend W) (r : RunPorts W) where
    -- `handleRunsStart`.
    unfoldable pub handle_runs_start : Result String → Action (Desk W) (Result RunNowResponse)
    handle_runs_start request = try (refused request) (λ id. do
      found ← outside (b.get_job id)
      try found (λ job. do
        known ← outside (b.get_server job.server_id)
        try known (λ server. do
          credentials ← outside (resolve_credentials b server)
          try credentials (λ k. do
            c ← with_cancel
            begun ← outside (r.start c job server k job.local_destination manual)
            keep_cancel c begun))))
