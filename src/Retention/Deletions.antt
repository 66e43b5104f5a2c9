-- ===== src/Retention/Deletions.antt =====
-- What `Apply` deletes.
use sshbackup.Common.{
  ℕ, suc, ap, ◌+◌, ◌≡◌, refl, true, false, Bool, ◌&&◌, Option, none, some, List, [], ◌∷◌, ◌++◌,
  length, length-append, arith, Bool-cases, inl, inr, if◌then◌else◌, All,
}
use sshbackup.Calendar.{Time}
use sshbackup.Domain.{Job, Run, RetentionPolicy, ok, has_limit}
use sshbackup.Retention.{
  Store, Applied, nothing_applied, should_delete, cutoff_of, delete_archive, combine, apply_from,
  apply, real_failure,
}
use sshbackup.Retention.Policy.{should_delete_iff, OutsideCount}

-- The places that the rule selects, from `i` on, with their runs.
abbrev pub selected : RetentionPolicy → Option Time → ℕ → List Run → List (ℕ × Run)
selected p cutoff i [] = []
selected p cutoff i (run ∷ runs) =
    let rest = selected p cutoff (suc i) runs in
    if should_delete p i run.started_at cutoff then (i, run) ∷ rest else rest

abbrev pub places : List (ℕ × Run) → List ℕ
places [] = []
places ((i, run) ∷ ps) = i ∷ places ps

-- The history record of a run whose archive is gone.
abbrev pub emptied : Run → Run
emptied run = record run { archive_name = "" }

abbrev pub is_none : {A : Type 0} → Option A → Bool
is_none none = true
is_none (some a) = false

-- The file of the archive is gone, and the emptied record was accepted by the store.
abbrev pub is_gone : Store → Job → ℕ → Run → Bool
is_gone store job i run =
    is_none (real_failure (store.remove i (store.join_path job.local_destination run.archive_name)))
    && is_none (store.update i (emptied run))

-- The emptied records of the archives that are gone.
abbrev pub gone : Store → Job → List (ℕ × Run) → List Run
gone store job [] = []
gone store job ((i, run) ∷ ps) =
    let rest = gone store job ps in if is_gone store job i run then emptied run ∷ rest else rest

-- The books of a deletion round over some archives: each is tried once; those that are counted are
-- the ones whose file is gone and whose emptied record is written back; and each of the others has
-- a warning.
pub record IsAccount (store : Store) (job : Job) (ps : List (ℕ × Run)) (a : Applied) : Type 0 where
  pub tried : a.removals ≡ places ps
  pub written : a.cleared ≡ gone store job ps
  pub counted : a.deleted ≡ length (gone store job ps)
  pub settled : a.deleted + length a.warnings ≡ length ps

nothing-IsAccount : (store : Store) (job : Job) → IsAccount store job [] nothing_applied
nothing-IsAccount store job = record {
  tried = refl;
  written = refl;
  counted = refl;
  settled = refl;
}

delete_archive-IsAccount :
    (store : Store) (job : Job) (i : ℕ) (run : Run)
    → IsAccount store job ((i, run) ∷ []) (delete_archive store job i run)
unfolding delete_archive
delete_archive-IsAccount store job i run = ground arith

places-append : (ps qs : List (ℕ × Run)) → places (ps ++ qs) ≡ places ps ++ places qs
places-append [] qs = refl
places-append ((i, run) ∷ ps) qs = ap (λ l. i ∷ l) (places-append ps qs)

gone-append :
    (store : Store) (job : Job) (ps qs : List (ℕ × Run))
    → gone store job (ps ++ qs) ≡ gone store job ps ++ gone store job qs
gone-append store job [] qs = refl
gone-append store job ((i, run) ∷ ps) qs = ground (arith, gone-append store job ps qs)

combine-IsAccount :
    (store : Store) (job : Job) (ps qs : List (ℕ × Run)) (a b : Applied)
    → IsAccount store job ps a
    → IsAccount store job qs b
    → IsAccount store job (ps ++ qs) (combine a b)
unfolding combine
combine-IsAccount store job ps qs a b h k = record {
  tried = grind (arith, places-append ps qs, h.tried, k.tried);
  written = grind (arith, gone-append store job ps qs, h.written, k.written);
  counted = omega (
    arith,
    ap length (gone-append store job ps qs),
    length-append (gone store job ps) (gone store job qs),
    h.counted,
    k.counted,
  );
  settled =
      omega (arith, length-append ps qs, length-append a.warnings b.warnings, h.settled, k.settled);
}

apply_from-IsAccount :
    (store : Store) (job : Job) (cutoff : Option Time) (i : ℕ) (runs : List Run)
    → IsAccount store job
        (selected job.retention_policy cutoff i runs)
        (apply_from store job cutoff i runs)
unfolding apply_from
apply_from-IsAccount store job cutoff i [] = nothing-IsAccount store job
apply_from-IsAccount store job cutoff i (run ∷ runs) =
    let rest = apply_from-IsAccount store job cutoff (suc i) runs in
    elim (Bool-cases (should_delete job.retention_policy i run.started_at cutoff)) [
      | inl h ↦ rw h (
          combine-IsAccount store job ((i, run) ∷ [])
            (selected job.retention_policy cutoff (suc i) runs) (delete_archive store job i run)
            (apply_from store job cutoff (suc i) runs) (delete_archive-IsAccount store job i run)
            rest)
      | inr h ↦ rw h (
          combine-IsAccount store job [] (selected job.retention_policy cutoff (suc i) runs)
            nothing_applied (apply_from store job cutoff (suc i) runs) (nothing-IsAccount store job)
            rest)
    ]

-- With a limit set and the archives listed, `Apply` returns, and it tries to delete exactly the
-- archives that the rule selects, once each and in their order. The deleted ones that it counts are
-- those whose file is gone and whose record, with an empty archive name, the store has accepted;
-- and there is one warning for each of the others.
pub apply-IsAccount :
    (store : Store) (job : Job) (runs : List Run)
    → has_limit job.retention_policy ≡ true
    → store.list_archived job.id ≡ ok runs
    → (a : Applied) × (apply store job ≡ ok a)
      × IsAccount store job
          (selected job.retention_policy (cutoff_of job.retention_policy store.now) 0 runs)
          a
unfolding apply
apply-IsAccount store job runs h k = (
  apply_from store job (cutoff_of job.retention_policy store.now) 0 runs,
  ground arith,
  apply_from-IsAccount store job (cutoff_of job.retention_policy store.now) 0 runs,
)

selected_outside :
    (p : RetentionPolicy) (now : Time) (i : ℕ) (runs : List Run)
    → All (OutsideCount p.keep_last) (places (selected p (cutoff_of p now) i runs))
selected_outside p now i [] = tt
selected_outside p now i (run ∷ runs) =
    elim (Bool-cases (should_delete p i run.started_at (cutoff_of p now))) [
      | inl h ↦
          rw h (
            ((should_delete_iff p i run.started_at now).0 h).1,
            selected_outside p now (suc i) runs,
          )
      | inr h ↦ rw h (selected_outside p now (suc i) runs)
    ]

-- `Apply` never tries to delete one of the newest `keep_last` archives, whatever their age and
-- whatever the store and the file system answer.
pub apply_keeps_newest :
    (store : Store) (job : Job) (runs : List Run) {a : Applied}
    → store.list_archived job.id ≡ ok runs
    → apply store job ≡ ok a
    → All (OutsideCount job.retention_policy.keep_last) a.removals
unfolding apply
apply_keeps_newest store job runs {a} h k = elim (Bool-cases (has_limit job.retention_policy)) [
  | inl l ↦
      let (b, e, account) = apply-IsAccount store job runs l h in
      let same : a ≡ b = ground (arith, e) in
      rw (same, account.tried) (selected_outside job.retention_policy store.now 0 runs)
  | inr l ↦ let same : a ≡ nothing_applied = ground arith in rw same tt
]
