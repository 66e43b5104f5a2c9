-- ===== src/Store/Deletion.antt =====
-- What `Delete` of server/internal/store/jobs.go leaves.
use sshbackup.Common.{
  ℕ, ◌≡◌, refl, sym, ap, ◌∙◌, subst, String, Bool, true, false, Option, none, some, List, [], ◌∷◌,
  Option-cases, arith, inl, inr, ◌⊎◌,
}
use sshbackup.Common.Action.{◌>>=◌}
use sshbackup.Domain.{Error, Result, ok, err}
use sshbackup.Store.Convert.{Formats}
use sshbackup.Store.Rows.{RunRow}
use sshbackup.Store.JobRows.{JobRow}
use sshbackup.Store.Table.{IsTable, find_rows, keep_rows, is_err}
use sshbackup.Store.Locks.{of_job, same_job}
use sshbackup.Domain.Enums.{Result-cases}
use sshbackup.Store.Runs.{same_run, affected}
use sshbackup.Store.Jobs.{
  Tables, is_job, run_of_job, only_error, lock_refusal, unless, ended, begun, transaction,
  delete_history, delete_row, delete_body, delete_job,
}

abbrev pub same_id : JobRow → JobRow → Bool
same_id a b = is_job a.id b

-- The three tables that `Delete` uses: each statement changes its own table only.
pub record IsStore {Db : Type 0} (t : Tables Db) : Type 0 where
  pub jobs : IsTable t.jobs same_id
  pub runs : IsTable t.runs same_run
  pub locks : IsTable t.locks same_job
  pub runs_apart : (p : RunRow → Bool) (d : Db) → jobs.rows (t.runs.delete p d).1 ≡ jobs.rows d
  pub jobs_apart : (p : JobRow → Bool) (d : Db) → runs.rows (t.jobs.delete p d).1 ≡ runs.rows d

module _ {Db : Type 0} (t : Tables Db) (c : Formats) (h : IsStore t) where
  unless-none :
      (o : Option Error) (rest : Db → Option Error × Db) (d : Db)
      → (unless o rest d).0 ≡ none
      → (o ≡ none) × (unless o rest d ≡ rest d)
  unfolding unless
  unless-none none rest d k = (refl, refl)
  unless-none (some e) rest d k = absurd (ground (arith, k))

  ended-none :
      (what : String) (failure lost : Option Error) (before after : Db)
      → (ended what failure lost before after).0 ≡ none
      → (failure ≡ none) × ((ended what failure lost before after).1 ≡ after)
  unfolding ended
  ended-none what (some e) lost before after k = absurd (ground (arith, k))
  ended-none what none (some e) before after k = absurd (ground (arith, k))
  ended-none what none none before after k = (refl, refl)

  ended_error :
      (what : String) (failure lost : Option Error) (before after : Db) (e : Error)
      → (ended what failure lost before after).0 ≡ some e
      → (ended what failure lost before after).1 ≡ before
  unfolding ended
  ended_error what (some x) lost before after e k = refl
  ended_error what none (some x) before after e k = refl
  ended_error what none none before after e k = absurd (ground (arith, k))

  begun-none :
      (failure : Option Error) (end : Option Error × Db) (before : Db)
      → (begun failure end before).0 ≡ none
      → begun failure end before ≡ end
  unfolding begun
  begun-none none end before k = refl
  begun-none (some e) end before k = absurd (ground (arith, k))

  begun_error :
      (failure : Option Error) (end : Option Error × Db) (before : Db) (e : Error)
      → ((x : Error) → end.0 ≡ some x → end.1 ≡ before)
      → (begun failure end before).0 ≡ some e
      → (begun failure end before).1 ≡ before
  unfolding begun
  begun_error none end before e g k = g e k
  begun_error (some x) end before e g k = refl

  transaction-none :
      (begin commit : Db → Option Error) (what : String) (body : Db → Option Error × Db) (d : Db)
      → (transaction begin commit what body d).0 ≡ none
      → ((body d).0 ≡ none) × ((transaction begin commit what body d).1 ≡ (body d).1)
  unfolding transaction
  transaction-none begin commit what body d k =
      let end = ended what (body d).0 (commit (body d).1) d (body d).1 in
      let same = begun-none (begin d) end d k in
      let finished =
        ended-none what (body d).0 (commit (body d).1) d (body d).1
          (sym (ap (λ r. r.0) same) ∙ k) in
      (finished.0, ap (λ r. r.1) same ∙ finished.1)

  -- A transaction that reports an error leaves the database as it was.
  transaction_error :
      (begin commit : Db → Option Error) (what : String) (body : Db → Option Error × Db) (d : Db)
      (e : Error)
      → (transaction begin commit what body d).0 ≡ some e
      → (transaction begin commit what body d).1 ≡ d
  unfolding transaction
  transaction_error begin commit what body d e k =
      begun_error (begin d) (ended what (body d).0 (commit (body d).1) d (body d).1) d e
        (λ x. ended_error what (body d).0 (commit (body d).1) d (body d).1 x) k

  lock_free :
      (id : String) (d : Db)
      → lock_refusal id (t.locks.query (of_job id) d) ≡ none
      → find_rows (of_job id) (h.locks.rows d) ≡ []
  lock_free id d k = elim (Result-cases (t.locks.query (of_job id) d)) [
    | inr (e, q) ↦ absurd (ground (arith, k, ap (lock_refusal id) q))
    | inl ([], q) ↦ sym (h.locks.on_query (of_job id) d [] q)
    | inl (l ∷ ls, q) ↦ absurd (ground (arith, k, ap (lock_refusal id) q))
  ]

  only_error-none :
      {A : Type 0} (what : String) (r : Result A) → only_error what r ≡ none → is_err r ≡ false
  only_error-none what (ok a) k = refl
  only_error-none what (err e) k = absurd (ground (arith, k))

  affected-none :
      (what kind id : String) (r : Result ℕ) → affected what kind id r ≡ none → is_err r ≡ false
  affected-none what kind id (ok n) k = refl
  affected-none what kind id (err e) k = absurd (ground (arith, k))

  -- The runs that the history's deletion leaves.
  abbrev pub kept_runs : String → Bool → List RunRow → List RunRow
  kept_runs id true rows = keep_rows (run_of_job id) rows
  kept_runs id false rows = rows

  history_kept :
      (id : String) (history : Bool) (d : Db)
      → (delete_history t c id history d).0 ≡ none
      → (h.runs.rows (delete_history t c id history d).1 ≡ kept_runs id history (h.runs.rows d))
        × (h.jobs.rows (delete_history t c id history d).1 ≡ h.jobs.rows d)
  unfolding delete_history
  history_kept id false d k = (refl, refl)
  history_kept id true d k =
      (h.runs.on_delete (run_of_job id) d (only_error-none _ _ k), h.runs_apart (run_of_job id) d)

  -- What a deletion that succeeds has done.
  pub record IsDeleted (id : String) (history : Bool) (d after : Db) : Type 0 where
    pub unlocked : find_rows (of_job id) (h.locks.rows d) ≡ []
    pub jobs : h.jobs.rows after ≡ keep_rows (is_job id) (h.jobs.rows d)
    pub runs : h.runs.rows after ≡ kept_runs id history (h.runs.rows d)

  row_deleted :
      (id : String) (d : Db)
      → (delete_row t c id d).0 ≡ none
      → (h.jobs.rows (delete_row t c id d).1 ≡ keep_rows (is_job id) (h.jobs.rows d))
        × (h.runs.rows (delete_row t c id d).1 ≡ h.runs.rows d)
  unfolding delete_row
  row_deleted id d k =
      (h.jobs.on_delete (is_job id) d (affected-none _ _ _ _ k), h.jobs_apart (is_job id) d)

  body-IsDeleted :
      (id : String) (history : Bool) (d : Db)
      → (delete_body t c id history d).0 ≡ none
      → IsDeleted id history d (delete_body t c id history d).1
  unfolding delete_body ◌>>=◌
  body-IsDeleted id history d k =
      let (free, body) = unless-none (lock_refusal id (t.locks.query (of_job id) d)) _ d k in
      let (failure, v) = delete_history t c id history d in
      let (kept, row) = unless-none failure (delete_row t c id) v (sym (ap (λ r. r.0) body) ∙ k) in
      let all_steps = body ∙ row in
      let (runs_left, jobs_left) = history_kept id history d kept in
      let (job_gone, runs_same) = row_deleted id v (sym (ap (λ r. r.0) all_steps) ∙ k) in
      record {
        unlocked = lock_free id d free;
        jobs =
            ap (λ r. h.jobs.rows r.1) all_steps ∙ (job_gone ∙ ap (keep_rows (is_job id)) jobs_left);
        runs = ap (λ r. h.runs.rows r.1) all_steps ∙ (runs_same ∙ runs_left);
      }

  -- `Delete` either reports an error and leaves the database as it was, or the job was not locked,
  -- and then the jobs are those without it, and the runs are all there, or, if the history was to
  -- go too, are those of the other jobs.
  pub delete_job-IsDeleted :
      (id : String) (history : Bool) (d : Db)
      → (((delete_job t c id history d).0 ≡ none)
          × IsDeleted id history d (delete_job t c id history d).1)
        ⊎ ((e : Error) × ((delete_job t c id history d).0 ≡ some e)
            × ((delete_job t c id history d).1 ≡ d))
  unfolding delete_job
  delete_job-IsDeleted id history d = elim (Option-cases (delete_job t c id history d).0) [
    | inr (e, k) ↦
        inr (e, k, transaction_error t.begin t.commit _ (delete_body t c id history) d e k)
    | inl k ↦
        let (done, same) = transaction-none t.begin t.commit _ (delete_body t c id history) d k in
        inl (k, subst (IsDeleted id history d) (sym same) (body-IsDeleted id history d done))
  ]
