-- ===== src/Retention.antt =====
-- server/internal/retention/retention.go: which local archives are deleted. The store, the clock
-- and the file system answer by the archive's place in the list.
pub mod Policy
pub mod Deletions
pub mod Stale
pub mod StaleCommands
use sshbackup.Common.{
  ℕ, zero, suc, ◌+◌, String, ◌<>◌, ℤ, pos, negsuc, neg_part, pos_part, Bool, true, false, not, ◌&&◌,
  Option, none, some, List, [], ◌∷◌, ◌++◌, ltb, ltb_ℤ, if◌then◌else◌,
}
use sshbackup.Calendar.{Time, before, add_days}
use sshbackup.Domain.{Job, Run, RetentionPolicy, Error, Result, ok, err, has_limit}

pub record Store : Type 0 where
  pub list_archived : String → Result (List Run)
  pub now : Time
  pub remove : ℕ → String → Option Error
  pub update : ℕ → Run → Option Error
  pub join_path : String → String → String

-- `-n`.
abbrev pub negate : ℤ → ℤ
negate (pos zero) = pos 0
negate (pos (suc n)) = negsuc n
negate (negsuc n) = pos (suc n)

-- `shouldDelete`; `cutoff` is none where `hasCutoff` is false.
unfoldable pub should_delete : RetentionPolicy → ℕ → Time → Option Time → Bool
should_delete policy index started_at cutoff =
    let within_keep_last : Bool = elim policy.keep_last [
      | none ↦ false
      | some k ↦ ltb_ℤ (pos index) k
    ] in
    let within_max_age : Bool = elim cutoff [ none ↦ false | some c ↦ not (before started_at c) ] in
    elim policy.keep_last [
      | some k ↦ elim policy.max_age_days [
        | some d ↦ not within_keep_last && not within_max_age
        | none ↦ not within_keep_last
      ]
      | none ↦ elim policy.max_age_days [ some d ↦ not within_max_age | none ↦ false ]
    ]

-- `cutoff`, when the policy has a maximal age.
unfoldable pub cutoff_of : RetentionPolicy → Time → Option Time
unfolding add_days
cutoff_of policy now = elim policy.max_age_days [
  | none ↦ none
  | some d ↦ some (add_days now (negate d))
]

-- What `Apply` returns, with the places whose file it removed and the runs it wrote back.
pub record Applied : Type 0 where
  pub deleted : ℕ
  pub warnings : List String
  pub removals : List ℕ
  pub cleared : List Run

abbrev pub nothing_applied : Applied
nothing_applied = record { deleted = 0; warnings = []; removals = []; cleared = [] }

-- `rmErr != nil && !os.IsNotExist(rmErr)`.
abbrev pub real_failure : Option Error → Option Error
real_failure none = none
real_failure (some e) = if e.not_exist then none else some e

-- One archive to delete: the file, and then its history record.
unfoldable pub delete_archive : Store → Job → ℕ → Run → Applied
delete_archive store job i run =
    let path = store.join_path job.local_destination run.archive_name in
    let emptied = record run { archive_name = "" } in
    elim (real_failure (store.remove i path)) [
      | some e ↦ record {
        deleted = 0;
        warnings = ("could not delete archive " <> run.archive_name <> ": " <> e.text) ∷ [];
        removals = i ∷ [];
        cleared = [];
      }
      | none ↦ elim (store.update i emptied) [
        | some e ↦ record {
          deleted = 0;
          warnings =
              ("deleted " <> path <> " but could not update its history record: " <> e.text) ∷ [];
          removals = i ∷ [];
          cleared = [];
        }
        | none ↦ record { deleted = 1; warnings = []; removals = i ∷ []; cleared = emptied ∷ [] }
      ]
    ]

unfoldable pub combine : Applied → Applied → Applied
combine a b = record {
  deleted = a.deleted + b.deleted;
  warnings = a.warnings ++ b.warnings;
  removals = a.removals ++ b.removals;
  cleared = a.cleared ++ b.cleared;
}

-- The loop of `Apply`, from place `i` on.
unfoldable pub apply_from : Store → Job → Option Time → ℕ → List Run → Applied
apply_from store job cutoff i [] = nothing_applied
apply_from store job cutoff i (run ∷ runs) =
    combine
      (if should_delete job.retention_policy i run.started_at cutoff
        then delete_archive store job i run
        else nothing_applied)
      (apply_from store job cutoff (suc i) runs)

-- `Apply`.
unfoldable pub apply : Store → Job → Result Applied
apply store job =
    if has_limit job.retention_policy
    then elim (store.list_archived job.id) [
      | err e ↦ err (record e { text = "list archived runs for job: " <> e.text })
      | ok runs ↦ ok (apply_from store job (cutoff_of job.retention_policy store.now) 0 runs)
    ]
    else ok nothing_applied
