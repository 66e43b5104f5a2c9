-- ===== src/Store/Runs.antt =====
-- server/internal/store/runs.go, and `recoverInterruptedRuns` of
-- server/cmd/vpsbackupservice/wire.go. The order of `ORDER BY started_at DESC` is a parameter.
use sshbackup.Common.{
  ℕ, zero, String, ◌<>◌, quote, Bool, true, false, not, ◌&&◌, Option, none, some, List, [], ◌∷◌,
  str_eq, ℤ,
}
use sshbackup.Common.Action.{Action}
use sshbackup.Calendar.{Time}
use sshbackup.Domain.{
  Error, not_found, Run, RunStatus, running, interrupted, recovery_failed, Result, ok, err,
}
use sshbackup.Store.Convert.{Formats}
use sshbackup.Store.Rows.{RunRow, run_row, update_run_row, scan_run, with_result}
use sshbackup.Store.Table.{SqlError, Table}
use sshbackup.Store.Locks.{wrap}

abbrev pub is_running : RunStatus → Bool
is_running running = true
is_running interrupted = false
is_running _ = false

-- `WHERE id = ?`, `WHERE status = ?` with the running status.
abbrev pub has_id : String → RunRow → Bool
has_id id row = str_eq row.id id

abbrev pub row_running : RunRow → Bool
row_running row = is_running row.status

abbrev pub same_run : RunRow → RunRow → Bool
same_run a b = has_id a.id b

-- `checkRowsAffected`, on the count that a statement gives.
abbrev pub check_rows_affected : String → String → ℕ → Option Error
check_rows_affected kind id zero = some (record {
  code = some not_found;
  text = "NOT_FOUND: " <> kind <> " " <> quote id <> " not found";
  deadline_exceeded = false;
  not_exist = false;
})
check_rows_affected kind id (ℕ.suc n) = none

abbrev pub affected : String → String → String → Result ℕ → Option Error
affected what kind id (ok n) = check_rows_affected kind id n
affected what kind id (err e) = some (wrap what e)

abbrev pub inserted : String → Option SqlError → Option Error
inserted what none = none
inserted what (some e) = some (wrap what e.error)

-- `scanRun` on every row, up to the first that is refused.
unfoldable pub scan_runs : Formats → List RunRow → Result (List Run)
scan_runs c [] = ok []
scan_runs c (row ∷ rows) =
    let rest = scan_runs c rows in
    with_result (scan_run c row) (λ run. with_result rest (λ runs. ok (run ∷ runs)))

-- `RunFilter`; an empty text, and no status, are no condition.
pub record RunFilter : Type 0 where
  pub job_id : String
  pub status : Option RunStatus
  pub limit : ℤ

abbrev pub ids_of_rows : List RunRow → List String
ids_of_rows [] = []
ids_of_rows (r ∷ rs) = r.id ∷ ids_of_rows rs

-- The columns that `InterruptRunningRuns` sets.
abbrev pub interrupt_row : String → RunRow → RunRow
interrupt_row finished row = record row {
  status = interrupted;
  finished_at = some finished;
  error_message = "service stopped unexpectedly while this run was in progress";
}

-- The run that `recoverInterruptedRuns` writes back.
abbrev pub recovered : Run → Run
recovered run = record run {
  recovery_outcome = recovery_failed;
  error_message =
      "the service stopped unexpectedly while this run was in progress; "
      <> "any pending critical cleanup or recovery actions may not have completed";
}

module _ {Db : Type 0} (t : Table Db RunRow) (newest_first : List RunRow → List RunRow)
    (c : Formats) where
  -- `RunRepository.Create`.
  unfoldable pub create_run : Run → Action Db (Option Error)
  create_run run d =
      let (failure, d') = t.insert (run_row c run) d in
      (inserted ("insert run " <> quote run.id) failure, d')

  -- `RunRepository.Update`.
  unfoldable pub update_run : Run → Action Db (Option Error)
  update_run run d =
      let (n, d') = t.update (has_id run.id) (update_run_row c run) d in
      (affected ("update run " <> quote run.id) "run" run.id n, d')

  unfoldable pub first_run : String → List RunRow → Result Run
  first_run id [] = err (record {
    code = some not_found;
    text = "NOT_FOUND: run " <> quote id <> " not found";
    deadline_exceeded = false;
    not_exist = false;
  })
  first_run id (row ∷ rows) = scan_run c row

  -- `RunRepository.Get`.
  unfoldable pub get_run : String → Db → Result Run
  unfolding first_run
  get_run id d = with_result (t.query (has_id id) d) (first_run id)

  -- `RunRepository.ListArchived`.
  unfoldable pub list_archived : String → Db → Result (List Run)
  list_archived job_id d =
      with_result (t.query (λ r. str_eq r.job_id job_id && not (str_eq r.archive_name "")) d)
        (λ rows. scan_runs c (newest_first rows))

  -- `RunRepository.RunningIDs`.
  unfoldable pub running_ids : Db → Result (List String)
  running_ids d = with_result (t.query row_running d) (λ rows. ok (ids_of_rows rows))

  unfoldable pub interrupt_found : Time → Result (List String) → Action Db (Result (List String))
  interrupt_found finished (err e) d = (err e, d)
  interrupt_found finished (ok []) d = (ok [], d)
  interrupt_found finished (ok (id ∷ ids)) d =
      let (n, d') = t.update row_running (interrupt_row (c.format_time finished)) d in
      (with_result n (λ k. ok (id ∷ ids)), d')

  -- `RunRepository.InterruptRunningRuns`.
  unfoldable pub interrupt_running_runs : Time → Action Db (Result (List String))
  unfolding interrupt_found
  interrupt_running_runs finished d = interrupt_found finished (running_ids d) d

  unfoldable pub recover_found : Result Run → Action Db (Unit {0})
  recover_found (err e) d = (tt, d)
  recover_found (ok run) d = (tt, (update_run (recovered run) d).1)

  -- The loop of `recoverInterruptedRuns`, which goes on after an error.
  unfoldable pub recover_each : List String → Db → Db
  unfolding recover_found
  recover_each [] d = d
  recover_each (id ∷ ids) d = recover_each ids (recover_found (get_run id d) d).1

  unfoldable pub recover_ids : Result (List String) → Db → Db
  recover_ids (err e) d = d
  recover_ids (ok ids) d = recover_each ids d

  -- `recoverInterruptedRuns`.
  unfoldable pub recover_interrupted_runs : Time → Db → Db
  unfolding recover_ids
  recover_interrupted_runs now d =
      let (found, d') = interrupt_running_runs now d in recover_ids found d'
