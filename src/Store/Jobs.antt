-- ===== src/Store/Jobs.antt =====
-- `JobRepository` of server/internal/store/jobs.go: its statements and their transactions.
use sshbackup.Common.{
  String, ◌<>◌, quote, Bool, true, false, Option, none, some, List, [], ◌∷◌, str_eq,
}
use sshbackup.Common.Action.{Action, pure, ◌>>=◌}
use sshbackup.Domain.{Error, job_already_running, Result, ok, err, Job, Source, Script}
use sshbackup.Store.Convert.{Formats, bool_to_int}
use sshbackup.Store.Rows.{RunRow}
use sshbackup.Store.JobRows.{
  JobRow, SourceRow, ScriptRow, ScheduleRow, RetentionRow, job_row, source_row, script_row,
  schedule_row, retention_row,
}
use sshbackup.Store.Table.{SqlError, Table}
use sshbackup.Store.Locks.{JobLock, of_job, wrap}
use sshbackup.Store.Runs.{affected, inserted}

-- The tables of one database. `upsert` is `INSERT … ON CONFLICT(job_id) DO UPDATE`; `begin` and
-- `commit` fail or not.
pub record Tables (Db : Type 0) : Type 0 where
  pub jobs : Table Db JobRow
  pub sources : Table Db SourceRow
  pub scripts : Table Db ScriptRow
  pub upsert_schedule : ScheduleRow → Db → Option SqlError × Db
  pub upsert_retention : RetentionRow → Db → Option SqlError × Db
  pub runs : Table Db RunRow
  pub locks : Table Db JobLock
  pub begin : Db → Option Error
  pub commit : Db → Option Error

abbrev pub is_job : String → JobRow → Bool
is_job id row = str_eq row.id id

abbrev pub run_of_job : String → RunRow → Bool
run_of_job id row = str_eq row.job_id id

abbrev pub source_of_job : String → SourceRow → Bool
source_of_job id row = str_eq row.job_id id

abbrev pub script_of_job : String → ScriptRow → Bool
script_of_job id row = str_eq row.job_id id

-- The columns that `Update` sets.
abbrev pub update_job_row : Formats → Job → JobRow → JobRow
update_job_row c j row = record (job_row c j) { id = row.id; created_at = row.created_at }

abbrev pub only_error : {A : Type 0} → String → Result A → Option Error
only_error what (ok a) = none
only_error what (err e) = some (wrap what e)

-- `Delete`'s test of the lock: the error that refuses, if any.
abbrev pub lock_refusal : String → Result (List JobLock) → Option Error
lock_refusal id (ok []) = none
lock_refusal id (ok (l ∷ ls)) = some (record {
  code = some job_already_running;
  text =
      "JOB_ALREADY_RUNNING: cannot delete a job with an active run; wait for it to finish or cancel it";
  deadline_exceeded = false;
  not_exist = false;
})
lock_refusal id (err e) = some (wrap ("check active lock for job " <> quote id) e)

module _ {Db : Type 0} where
  -- What follows a statement that gave no error; after one, nothing does.
  unfoldable pub unless : Option Error → Action Db (Option Error) → Action Db (Option Error)
  unless none rest d = rest d
  unless (some e) rest d = (some e, d)

  -- The end of a transaction, by the body's error and the error of the commit.
  unfoldable pub ended : String → Option Error → Option Error → Db → Db → Option Error × Db
  ended what (some e) failure before after = (some e, before)
  ended what none (some e) before after = (some (wrap what e), before)
  ended what none none before after = (none, after)

  unfoldable pub begun : Option Error → Option Error × Db → Db → Option Error × Db
  begun none end before = end
  begun (some e) end before = (some (wrap "begin transaction" e), before)

  -- A transaction: `Rollback` is deferred, so that an error leaves the database as it was.
  unfoldable pub transaction :
      (Db → Option Error)
      → (Db → Option Error)
      → String
      → Action Db (Option Error)
      → Action Db (Option Error)
  transaction begin commit what body d =
      let (failure, d') = body d in begun (begin d) (ended what failure (commit d') d d') d

module _ {Db : Type 0} (t : Tables Db) (c : Formats) where
  unfoldable pub insert_sources : String → List Source → Action Db (Option Error)
  insert_sources id [] = pure none
  insert_sources id (s ∷ ss) = do
    failure ← t.sources.insert (source_row id s)
    unless (inserted ("insert source " <> quote s.id <> " for job " <> quote id) failure)
        (insert_sources id ss)

  unfoldable pub insert_scripts : String → List Script → Action Db (Option Error)
  insert_scripts id [] = pure none
  insert_scripts id (s ∷ ss) = do
    failure ← t.scripts.insert (script_row id s)
    unless (inserted ("insert script " <> quote s.id <> " for job " <> quote id) failure)
        (insert_scripts id ss)

  -- `upsertSchedule` and `upsertRetention`.
  unfoldable pub upsert_both : Job → Action Db (Option Error)
  upsert_both j = do
    failure ← t.upsert_schedule (schedule_row j.id j.schedule)
    unless (inserted ("upsert schedule for job " <> quote j.id) failure) (do
      lost ← t.upsert_retention (retention_row j.id j.retention_policy)
      pure (inserted ("upsert retention policy for job " <> quote j.id) lost))

  -- `replaceJobChildren`.
  unfoldable pub replace_job_children : Job → Action Db (Option Error)
  replace_job_children j = do
    failure ← insert_sources j.id j.sources
    unless failure (do lost ← insert_scripts j.id j.scripts; unless lost (upsert_both j))

  -- `JobRepository.Create`.
  unfoldable pub create_job : Job → Action Db (Option Error)
  create_job j = transaction t.begin t.commit ("commit create job " <> quote j.id) (do
    failure ← t.jobs.insert (job_row c j)
    unless (inserted ("insert job " <> quote j.id) failure) (replace_job_children j))

  -- `JobRepository.Update`.
  unfoldable pub update_job : Job → Action Db (Option Error)
  update_job j = transaction t.begin t.commit ("commit update job " <> quote j.id) (do
    changed ← t.jobs.update (is_job j.id) (update_job_row c j)
    unless (affected ("update job " <> quote j.id) "job" j.id changed) (do
      sources ← t.sources.delete (source_of_job j.id)
      unless (only_error ("clear job children for " <> quote j.id) sources) (do
        scripts ← t.scripts.delete (script_of_job j.id)
        unless (only_error ("clear job children for " <> quote j.id) scripts)
            (do failure ← replace_job_children j; unless failure (upsert_both j)))))

  -- `JobRepository.SetEnabled`.
  unfoldable pub set_enabled : String → Bool → Action Db (Option Error)
  set_enabled id enabled = do
    changed ← t.jobs.update (is_job id) (λ row. record row { enabled = bool_to_int enabled })
    pure (affected ("set job " <> quote id) "job" id changed)

  -- The history's deletion in `Delete`.
  unfoldable pub delete_history : String → Bool → Action Db (Option Error)
  delete_history id false d = (none, d)
  delete_history id true d =
      let (gone, d') = t.runs.delete (run_of_job id) d in
      (only_error ("delete run history for job " <> quote id) gone, d')

  unfoldable pub delete_row : String → Action Db (Option Error)
  delete_row id d =
      let (gone, d') = t.jobs.delete (is_job id) d in
      (affected ("delete job " <> quote id) "job" id gone, d')

  -- `Delete` inside its transaction.
  unfoldable pub delete_body : String → Bool → Action Db (Option Error)
  delete_body id history d =
      unless (lock_refusal id (t.locks.query (of_job id) d))
        (do failure ← delete_history id history; unless failure (delete_row id)) d

  -- `JobRepository.Delete`.
  unfoldable pub delete_job : String → Bool → Action Db (Option Error)
  delete_job id history =
      transaction t.begin t.commit ("commit delete job " <> quote id) (delete_body id history)
