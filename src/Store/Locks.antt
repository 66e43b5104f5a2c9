-- ===== src/Store/Locks.antt =====
-- server/internal/store/locks.go, and `releaseStaleLocks` of
-- server/cmd/vpsbackupservice/wire.go.
use sshbackup.Common.{
  ℕ, String, ◌<>◌, quote, Bool, true, Option, none, some, List, [], ◌∷◌, str_eq, if◌then◌else◌, ℤ,
}
use sshbackup.Common.Action.{Action}
use sshbackup.Domain.{Error, job_already_running, Result, ok, err}
use sshbackup.Store.Table.{SqlError, Table}

pub record JobLock : Type 0 where
  pub job_id : String
  pub run_id : String
  pub started_at : String
  pub process_id : ℤ

-- `WHERE job_id = ?`, and the primary key of the table.
abbrev pub of_job : String → JobLock → Bool
of_job job_id l = str_eq l.job_id job_id

abbrev pub same_job : JobLock → JobLock → Bool
same_job l k = of_job l.job_id k

-- An error with the operation in front of its text.
abbrev pub wrap : String → Error → Error
wrap what e = record e { text = what <> ": " <> e.text }

-- The error of `Acquire`.
abbrev pub acquire_error : String → SqlError → Error
acquire_error job_id e =
    if e.is_constraint
    then record {
      code = some job_already_running;
      text = "JOB_ALREADY_RUNNING: Job already running: " <> e.error.text;
      deadline_exceeded = e.error.deadline_exceeded;
      not_exist = e.error.not_exist;
    }
    else wrap ("acquire lock for job " <> quote job_id) e.error

abbrev pub acquire_outcome : String → Option SqlError → Option Error
acquire_outcome job_id none = none
acquire_outcome job_id (some e) = some (acquire_error job_id e)

abbrev pub release_outcome : String → Result ℕ → Option Error
release_outcome job_id (ok n) = none
release_outcome job_id (err e) = some (wrap ("release lock for job " <> quote job_id) e)

abbrev pub first_lock : List JobLock → Option JobLock
first_lock [] = none
first_lock (l ∷ ls) = some l

abbrev pub got_lock : String → Result (List JobLock) → Result (Option JobLock)
got_lock job_id (ok ls) = ok (first_lock ls)
got_lock job_id (err e) = err (wrap ("get lock for job " <> quote job_id) e)

abbrev pub listed : Result (List JobLock) → Result (List JobLock)
listed (ok ls) = ok ls
listed (err e) = err (wrap "list locks" e)

module _ {Db : Type 0} (t : Table Db JobLock) where
  -- `LockRepository.Acquire`.
  unfoldable pub acquire : JobLock → Action Db (Option Error)
  acquire lock d = let (failure, d') = t.insert lock d in (acquire_outcome lock.job_id failure, d')

  -- `LockRepository.Release`.
  unfoldable pub release : String → Action Db (Option Error)
  release job_id d =
      let (done, d') = t.delete (of_job job_id) d in (release_outcome job_id done, d')

  -- `LockRepository.Get`.
  unfoldable pub get : String → Db → Result (Option JobLock)
  get job_id d = got_lock job_id (t.query (of_job job_id) d)

  -- `LockRepository.List`.
  unfoldable pub list : Db → Result (List JobLock)
  list d = listed (t.query (λ l. true) d)

  -- The loop of `releaseStaleLocks`, which goes on after an error.
  unfoldable pub release_each : List JobLock → Db → Db
  release_each [] d = d
  release_each (l ∷ ls) d = release_each ls (release l.job_id d).1

  release_listed : Result (List JobLock) → Db → Db
  release_listed (ok ls) d = release_each ls d
  release_listed (err e) d = d

  -- `releaseStaleLocks`.
  unfoldable pub release_stale_locks : Db → Db
  unfolding release_listed
  release_stale_locks d = release_listed (list d) d
