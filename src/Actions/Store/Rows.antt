-- ===== src/Actions/Store/Rows.antt =====
-- The rows of the table of actions.
use goncho.Prelude.{
  ℕ, ◌≡◌, refl, arith, Option, none, some, List, [], ◌∷◌, if◌then◌else◌, Bool-cases, inl, inr,
}
use goncho.Leases.Table.{ActionKey, same_key}
use goncho.Leases.Rows.{same_key_iff}
use goncho.Actions.Store.Tables.{ActionRow, find_row, upsert_row, complete_if, complete_rows}

-- What stands after a row was written over what stood there.
abbrev pub merged : ActionRow → Option ActionRow → ActionRow
merged new none = new
merged new (some old) = record old {
  title = new.title;
  status = new.status;
  updated_at = new.updated_at;
}

pub find_row-upsert_row :
    (at : ActionKey) (new : ActionRow) (rows : List ActionRow)
    → find_row at (upsert_row new rows)
      ≡ (if same_key new.key at then some (merged new (find_row at rows)) else find_row at rows)
unfolding find_row upsert_row
find_row-upsert_row at new [] = refl
find_row-upsert_row at new (old ∷ rows) = ground (
  arith,
  same_key_iff old.key at,
  same_key_iff new.key at,
  same_key_iff old.key new.key,
  find_row-upsert_row at new rows,
)

abbrev pub completed : ActionKey → ℕ → Option ActionRow → Option ActionRow
completed k now none = none
completed k now (some row) = some (complete_if k now row)

pub find_row-complete_rows :
    (at k : ActionKey) (now : ℕ) (rows : List ActionRow)
    → find_row at (complete_rows k now rows) ≡ completed k now (find_row at rows)
unfolding find_row complete_rows
find_row-complete_rows at k now [] = refl
find_row-complete_rows at k now (row ∷ rows) = elim (Bool-cases (same_key row.key k)) [
  | inl same ↦ elim (Bool-cases (same_key row.key at)) [
    | inl here ↦ rw (same, here) (rw same refl)
    | inr other ↦ rw (same, other) (find_row-complete_rows at k now rows)
  ]
  | inr differs ↦ elim (Bool-cases (same_key row.key at)) [
    | inl here ↦ rw (differs, here) (rw differs refl)
    | inr other ↦ rw (differs, other) (find_row-complete_rows at k now rows)
  ]
]
