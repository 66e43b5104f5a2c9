-- ===== src/Store/Recovery.antt =====
-- The runs that `recoverInterruptedRuns` of server/cmd/vpsbackupservice/wire.go leaves.
use sshbackup.Common.{
  ◌≡◌, refl, sym, ap, ◌∙◌, String, Bool, false, List, [], ◌∷◌, any, Bool-cases, arith, inl, inr,
}
use sshbackup.Calendar.{Time}
use sshbackup.Domain.{Run, Result, ok, err}
use sshbackup.Store.Convert.{Formats, parse_time_ptr}
use sshbackup.Store.Rows.{RunRow, update_run_row, scan_run, with_result}
use sshbackup.Store.Table.{Table, IsTable, find_rows, change_rows, is_err}
use sshbackup.Domain.Enums.{Result-cases}
use sshbackup.Store.Runs.{
  is_running, has_id, row_running, same_run, interrupt_row, recovered, update_run, get_run,
  running_ids, interrupt_running_runs, recover_each, recover_interrupted_runs, first_run,
  interrupt_found, recover_found, recover_ids, ids_of_rows,
}

none_left :
    (finished : String) (rows : List RunRow)
    → any row_running (change_rows row_running (interrupt_row finished) rows) ≡ false
none_left finished [] = refl
none_left finished (r ∷ rs) = ground (arith, none_left finished rs)

found_stopped :
    (p : RunRow → Bool) (rows : List RunRow)
    → any row_running rows ≡ false
    → any row_running (find_rows p rows) ≡ false
found_stopped p [] h = refl
found_stopped p (r ∷ rs) h = ground (arith, h, found_stopped p rs)

written_stopped :
    (p : RunRow → Bool) (c : Formats) (run : Run) (rows : List RunRow)
    → is_running run.status ≡ false
    → any row_running rows ≡ false
    → any row_running (change_rows p (update_run_row c run) rows) ≡ false
unfolding update_run_row
written_stopped p c run [] k h = refl
written_stopped p c run (r ∷ rs) k h = ground (arith, h, k, written_stopped p c run rs k)

scan_run-status :
    (c : Formats) (row : RunRow) (run : Run) → scan_run c row ≡ ok run → run.status ≡ row.status
unfolding scan_run
scan_run-status c row run h = elim (Result-cases (c.parse_time row.started_at)) [
  | inr (e, k) ↦ absurd (ground (arith, h, k))
  | inl (t, k) ↦ elim (Result-cases (parse_time_ptr c row.finished_at)) [
    | inr (e, m) ↦ absurd (ground (arith, h, k, m))
    | inl (u, m) ↦ ground (arith, h, k, m)
  ]
]

find_none : (rows : List RunRow) → find_rows row_running rows ≡ [] → any row_running rows ≡ false
find_none [] h = refl
find_none (r ∷ rs) h = elim (Bool-cases (row_running r)) [
  | inl k ↦ absurd (ground (arith, h, k))
  | inr k ↦ ground (arith, h, k, find_none rs)
]

no_ids : (rows : List RunRow) → ids_of_rows rows ≡ [] → rows ≡ []
no_ids [] h = refl
no_ids (r ∷ rs) h = absurd (ground (arith, h))

module _ {Db : Type 0} (t : Table Db RunRow) (newest_first : List RunRow → List RunRow)
    (c : Formats) (h : IsTable t same_run) where
  -- No row has the running status.
  abbrev pub Stopped : Db → Type 0
  Stopped d = any row_running (h.rows d) ≡ false

  first_run-status :
      (id : String) (rows : List RunRow) (run : Run)
      → any row_running rows ≡ false
      → first_run t newest_first c id rows ≡ ok run
      → is_running run.status ≡ false
  unfolding first_run
  first_run-status id [] run k g = absurd (ground (arith, g))
  first_run-status id (r ∷ rs) run k g =
      ap is_running (scan_run-status c r run g) ∙ ground (arith, k)

  get_run-Stopped :
      (id : String) (d : Db) (run : Run)
      → Stopped d
      → get_run t newest_first c id d ≡ ok run
      → is_running run.status ≡ false
  unfolding get_run
  get_run-Stopped id d run k g = elim (Result-cases (t.query (has_id id) d)) [
    | inr (e, q) ↦ absurd (ground (arith, g, q))
    | inl (rs, q) ↦
        let stopped =
          ap (any row_running) (h.on_query (has_id id) d rs q)
          ∙ found_stopped (has_id id) (h.rows d) k in
        first_run-status id rs run stopped
          (sym (ap (λ r. with_result r (first_run t newest_first c id)) q) ∙ g)
  ]

  update_run-Stopped :
      (run : Run) (d : Db)
      → is_running run.status ≡ false
      → Stopped d
      → Stopped (update_run t newest_first c run d).1
  unfolding update_run
  update_run-Stopped run d k s =
      let p = has_id run.id in
      let f = update_run_row c run in
      elim (Bool-cases (is_err (t.update p f d).0)) [
        | inl m ↦ ap (any row_running) (h.on_update_error p f d m) ∙ s
        | inr m ↦
            ap (any row_running) (h.on_update p f d m) ∙ written_stopped p c run (h.rows d) k s
      ]

  recover_found-Stopped :
      (id : String) (found : Result Run) (d : Db)
      → get_run t newest_first c id d ≡ found
      → Stopped d
      → Stopped (recover_found t newest_first c found d).1
  unfolding recover_found
  recover_found-Stopped id (err e) d g s = s
  recover_found-Stopped id (ok run) d g s =
      update_run-Stopped (recovered run) d (get_run-Stopped id d run s g) s

  recover_each-Stopped :
      (ids : List String) (d : Db) → Stopped d → Stopped (recover_each t newest_first c ids d)
  unfolding recover_each
  recover_each-Stopped [] d s = s
  recover_each-Stopped (id ∷ ids) d s =
      recover_each-Stopped ids _ (recover_found-Stopped id (get_run t newest_first c id d) d refl s)

  interrupted-Stopped :
      (now : Time) (found : Result (List String)) (d : Db) (ids : List String)
      → running_ids t newest_first c d ≡ found
      → (interrupt_found t newest_first c now found d).0 ≡ ok ids
      → Stopped (interrupt_found t newest_first c now found d).1
  unfolding interrupt_found running_ids
  interrupted-Stopped now (err e) d ids g k = absurd (ground (arith, k))
  interrupted-Stopped now (ok []) d ids g k = elim (Result-cases (t.query row_running d)) [
    | inr (e, q) ↦ absurd (ground (arith, g, q))
    | inl (rs, q) ↦
        let none_found : ids_of_rows rs ≡ [] = ground (arith, g, q) in
        find_none (h.rows d) (sym (h.on_query row_running d rs q) ∙ no_ids rs none_found)
  ]
  interrupted-Stopped now (ok (id ∷ rest)) d ids g k =
      let f = interrupt_row (c.format_time now) in
      elim (Result-cases (t.update row_running f d).0) [
        | inr (e, q) ↦ absurd (ground (arith, k, q))
        | inl (n, q) ↦
            ap (any row_running) (h.on_update row_running f d (ap is_err q))
            ∙ none_left (c.format_time now) (h.rows d)
      ]

  -- Where `InterruptRunningRuns` succeeds, no run has the running status at the end of
  -- `recoverInterruptedRuns`, whatever becomes of the reads and writes that follow.
  pub recover_interrupted_runs-Stopped :
      (now : Time) (d : Db) (ids : List String)
      → (interrupt_running_runs t newest_first c now d).0 ≡ ok ids
      → Stopped (recover_interrupted_runs t newest_first c now d)
  unfolding recover_interrupted_runs interrupt_running_runs recover_ids
  recover_interrupted_runs-Stopped now d ids k =
      let found = running_ids t newest_first c d in
      let stopped = interrupted-Stopped now found d ids refl k in
      rw k (recover_each-Stopped ids _ stopped)
