-- ===== src/Store/Settings.antt =====
-- server/internal/store/settings.go: the row of the settings, on a table whose rows have identifiers.
use sshbackup.Common.{
  ℕ, ◌≡◌, refl, ap, ◌∙◌, ◌==◌, Bool, true, false, Option, none, some, List, [], ◌∷◌, if◌then◌else◌,
  arith, Bool-cases, inl, inr, ◌⊎◌,
}
use sshbackup.Common.Action.{Action}
use sshbackup.Domain.{Error, Result, ok, err, Settings}
use sshbackup.Store.Table.{Table, IsTable, is_err, change_rows, find_rows}
use sshbackup.Store.Rows.{SettingsRow, settings_row, scan_settings}
use sshbackup.Store.RowTrip.{scan_settings-settings_row}
use sshbackup.Store.Locks.{wrap}

-- A row with its identifier.
abbrev pub KeyedRow : Type 0
KeyedRow = ℕ × SettingsRow

-- `WHERE id = 1`.
abbrev pub is_first : KeyedRow → Bool
is_first row = row.0 == 1

abbrev pub same_number : KeyedRow → KeyedRow → Bool
same_number a b = a.0 == b.0

-- What `QueryRow` and `Scan` make of the rows found: the first one, or the error of no row.
abbrev pub only_row : Error → Result (List KeyedRow) → Result Settings
only_row missing (ok (row ∷ rows)) = ok (scan_settings row.1)
only_row missing (ok []) = err (wrap "get settings" missing)
only_row missing (err e) = err (wrap "get settings" e)

abbrev pub updated_outcome : Result ℕ → Option Error
updated_outcome (ok n) = none
updated_outcome (err e) = some (wrap "update settings" e)

module _ {Db : Type 0} (t : Table Db KeyedRow) (missing : Error) where
  -- `SettingsRepository.Get`; `missing` is `sql.ErrNoRows`.
  unfoldable pub get_settings : Action Db (Result Settings)
  get_settings d = (only_row missing (t.query is_first d), d)

-- `SettingsRepository.Update`, which sets every column.
unfoldable pub update_settings :
    {Db : Type 0} → Table Db KeyedRow → Settings → Action Db (Option Error)
update_settings t s d =
    let (changed, d') = t.update is_first (λ row. (row.0, settings_row s)) d in
    (updated_outcome changed, d')

unfoldable pub has_first : List KeyedRow → Bool
has_first [] = false
has_first (row ∷ rows) = if is_first row then true else has_first rows

-- The database holds the row that the first migration inserts.
unfoldable pub IsSeeded :
    {Db : Type 0} (t : Table Db KeyedRow) → IsTable t same_number → Db → Type 0
IsSeeded t h d = has_first (h.rows d) ≡ true

found_row :
    (x : SettingsRow) (rows : List KeyedRow)
    → has_first rows ≡ true
    → (k : ℕ) × (rest : List KeyedRow) × (find_rows is_first
          (change_rows is_first (λ row. (row.0, x)) rows)
        ≡ (k, x) ∷ rest)
unfolding has_first
found_row x [] h = absurd (ground (arith, h))
found_row x (row ∷ rows) h = elim (Bool-cases (is_first row)) [
  | inl here ↦
      (row.0, find_rows is_first (change_rows is_first (λ r. (r.0, x)) rows), simp here refl)
  | inr off ↦
      let (k, rest, later) = found_row x rows (ground (arith, h, off)) in (k, rest, simp off later)
]

update_accepted : (r : Result ℕ) → updated_outcome r ≡ none → is_err r ≡ false
update_accepted (ok n) h = refl
update_accepted (err e) h = ground (arith, h)

module _ {Db : Type 0} (t : Table Db KeyedRow) (h : IsTable t same_number) (missing : Error) where
  read_back :
      (s : Settings) (k : ℕ) (rest : List KeyedRow) (r : Result (List KeyedRow))
      → ((rs : List KeyedRow) → r ≡ ok rs → rs ≡ (k, settings_row s) ∷ rest)
      → (only_row missing r ≡ ok s) ⊎ ((e : Error) × (only_row missing r ≡ err e))
  read_back s k rest (err e) only = inr (_, refl)
  read_back s k rest (ok rs) only = inl (
      ap (λ l. only_row missing (ok l)) (only rs refl)
      ∙ ap (λ (x : Settings). ok x) (scan_settings-settings_row s))

  -- Settings that `Update` has accepted are what `Get` finds, unless the read fails.
  pub get_settings-update_settings :
      (s : Settings) (d : Db)
      → IsSeeded t h d
      → (update_settings t s d).0 ≡ none
      → ((get_settings t missing (update_settings t s d).1).0 ≡ ok s)
        ⊎ ((e : Error) × ((get_settings t missing (update_settings t s d).1).0 ≡ err e))
  unfolding get_settings update_settings IsSeeded
  get_settings-update_settings s d seeded accepted =
      let (changed, after) = t.update is_first (λ row. (row.0, settings_row s)) d in
      let rows =
        h.on_update is_first (λ row. (row.0, settings_row s)) d
          (update_accepted changed accepted) in
      let (k, rest, found) = found_row (settings_row s) (h.rows d) seeded in
      read_back s k rest (t.query is_first after)
        (λ rs q. h.on_query is_first after rs q ∙ ap (find_rows is_first) rows ∙ found)
