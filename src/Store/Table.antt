-- ===== src/Store/Table.antt =====
-- SQLite as the repositories of server/internal/store use it: a table is a parameter with four
-- statements, and `IsTable` says what SQL promises of them.
use sshbackup.Common.{
  ℕ, ◌≡◌, Bool, true, false, Option, none, some, List, [], ◌∷◌, ◌++◌, any, if◌then◌else◌,
}
use sshbackup.Domain.{Error, Result, ok, err}

-- The error of a statement, and whether it is a violated constraint.
pub record SqlError : Type 0 where
  pub error : Error
  pub is_constraint : Bool

-- The statements on one table. `update` and `delete` give the number of rows they affect.
pub record Table (Db Row : Type 0) : Type 0 where
  pub query : (Row → Bool) → Db → Result (List Row)
  pub insert : Row → Db → Option SqlError × Db
  pub update : (Row → Bool) → (Row → Row) → Db → Result ℕ × Db
  pub delete : (Row → Bool) → Db → Result ℕ × Db

abbrev pub is_err {ℓ} : {A : Type ℓ} → Result A → Bool
is_err (ok a) = false
is_err (err e) = true

-- The rows after an update and after a deletion.
abbrev pub change_rows : {Row : Type 0} → (Row → Bool) → (Row → Row) → List Row → List Row
change_rows p f [] = []
change_rows p f (r ∷ rs) = (if p r then f r else r) ∷ change_rows p f rs

abbrev pub keep_rows : {Row : Type 0} → (Row → Bool) → List Row → List Row
keep_rows p [] = []
keep_rows p (r ∷ rs) = let rest = keep_rows p rs in if p r then rest else r ∷ rest

abbrev pub find_rows : {Row : Type 0} → (Row → Bool) → List Row → List Row
find_rows p [] = []
find_rows p (r ∷ rs) = let rest = find_rows p rs in if p r then r ∷ rest else rest

-- The rows that a database holds, which the statements read and change as SQL says: a statement
-- that fails changes nothing, and an insertion succeeds only if no row has the key of the new one.
pub record IsTable {Db Row : Type 0} (t : Table Db Row) (same_key : Row → Row → Bool) : Type 0 where
  pub rows : Db → List Row
  pub on_query :
      (p : Row → Bool) (d : Db) (rs : List Row) → t.query p d ≡ ok rs → rs ≡ find_rows p (rows d)
  pub on_insert :
      (r : Row) (d : Db)
      → (t.insert r d).0 ≡ none
      → (rows (t.insert r d).1 ≡ rows d ++ r ∷ []) × (any (same_key r) (rows d) ≡ false)
  pub on_insert_error :
      (r : Row) (d : Db) (e : SqlError) → (t.insert r d).0 ≡ some e → rows (t.insert r d).1 ≡ rows d
  pub on_update :
      (p : Row → Bool) (f : Row → Row) (d : Db)
      → is_err (t.update p f d).0 ≡ false
      → rows (t.update p f d).1 ≡ change_rows p f (rows d)
  pub on_update_error :
      (p : Row → Bool) (f : Row → Row) (d : Db)
      → is_err (t.update p f d).0 ≡ true
      → rows (t.update p f d).1 ≡ rows d
  pub on_delete :
      (p : Row → Bool) (d : Db)
      → is_err (t.delete p d).0 ≡ false
      → rows (t.delete p d).1 ≡ keep_rows p (rows d)
  pub on_delete_error :
      (p : Row → Bool) (d : Db) → is_err (t.delete p d).0 ≡ true → rows (t.delete p d).1 ≡ rows d
