-- ===== src/Examples/Memory.antt =====
-- A table in memory, which does what SQL promises, and formats that keep some days of February.
use sshbackup.Common.{
  ◌≡◌, refl, pos, pos_part, ◌/◌, Bool, true, none, some, List, [], ◌∷◌, ◌++◌, any, length,
  if◌then◌else◌, Bool-cases, arith, inl, inr, itoa, atoi_ℕ,
}
use sshbackup.Domain.{ok, err}
use sshbackup.Store.Convert.{Formats}
use sshbackup.Store.Table.{SqlError, Table, IsTable, find_rows, change_rows, keep_rows}
use sshbackup.Examples.Samples.{noon, refusal}

abbrev conflict : SqlError
conflict = record { error = refusal; is_constraint = true }

-- A table that is a part of a database.
abbrev pub part :
    {Db Row : Type 0} → (Db → List Row) → (List Row → Db → Db) → (Row → Row → Bool) → Table Db Row
part get set same = record {
  query = λ p d. ok (find_rows p (get d));
  insert =
      λ r d. if any (same r) (get d) then (some conflict, d) else (none, set (get d ++ r ∷ []) d);
  update = λ p f d. (ok (length (find_rows p (get d))), set (change_rows p f (get d)) d);
  delete = λ p d. (ok (length (find_rows p (get d))), set (keep_rows p (get d)) d);
}

abbrev pub part-IsTable :
    {Db Row : Type 0} (get : Db → List Row) (set : List Row → Db → Db) (same : Row → Row → Bool)
    → ((rows : List Row) (d : Db) → get (set rows d) ≡ rows)
    → IsTable (part get set same) same
part-IsTable get set same law = record {
  rows = get;
  on_query = λ p d rs h. ground (arith, h);
  on_insert = λ r d h. elim (Bool-cases (any (same r) (get d))) [
    | inl k ↦ absurd (ground (arith, simp k at h))
    | inr k ↦ simp k (law (get d ++ r ∷ []) d, refl)
  ];
  on_insert_error = λ r d e h. elim (Bool-cases (any (same r) (get d))) [
    | inl k ↦ simp k refl
    | inr k ↦ absurd (ground (arith, simp k at h))
  ];
  on_update = λ p f d h. law (change_rows p f (get d)) d;
  on_update_error = λ p f d h. absurd (ground (arith, h));
  on_delete = λ p d h. law (keep_rows p (get d)) d;
  on_delete_error = λ p d h. absurd (ground (arith, h));
}

-- A table that is a whole database.
abbrev pub memory : {Row : Type 0} → (Row → Row → Bool) → Table (List Row) Row
memory same = part (λ d. d) (λ rows d. rows) same

abbrev pub memory-IsTable : {Row : Type 0} (same : Row → Row → Bool) → IsTable (memory same) same
memory-IsTable same = part-IsTable (λ d. d) (λ rows d. rows) same (λ rows d. refl)

abbrev pub formats : Formats
formats = record {
  format_time = λ t. itoa t.day;
  parse_time = λ s. elim (atoi_ℕ s) [ some n ↦ ok (noon n) | none ↦ err refusal ];
  whole_seconds = λ d. pos (pos_part d / 1_000_000_000);
  atoi_error = λ s. refusal;
}
