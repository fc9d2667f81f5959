-- ===== src/Actions/Graph/Sound.antt =====
-- What holds of the rows of the actions through every series of operations.
use goncho.Prelude.{
  ℕ, ◌≡◌, refl, ap, ◌∙◌, arith, Bool, true, false, ◌||◌, Option, none, some, List, [], ◌∷◌, ◌==◌,
  any, all, All, Bool-cases, inl, inr, String,
}
use goncho.Leases.Table.{ActionKey, same_key}
use goncho.Leases.Params.{Service}
use goncho.Leases.Rows.{same_key_iff}
use goncho.Actions.Store.{upserted}
use goncho.Actions.Store.Keys.{IsNormal}
use goncho.Actions.Store.Tables.{ActionRow, GraphDb, Faults, find_row, upsert_row, complete_rows}
use goncho.Actions.Store.Steps.{
  RowsStep, same_rows, one_written, one_completed, GraphCall, perform, run, perform-RowsStep,
}

abbrev pub has_key : ActionKey → List ActionRow → Bool
has_key k rows = any (λ row. same_key row.key k) rows

-- No two rows have one key.
abbrev pub HasDistinctKeys : List ActionRow → Type 0
HasDistinctKeys [] = Unit
HasDistinctKeys (row ∷ rows) = (has_key row.key rows ≡ false) × HasDistinctKeys rows

abbrev pub is_known : ActionRow → Bool
is_known row = row.status == "pending" || row.status == "done"

-- The keys are distinct and are what a call is normalized to, and each action is pending or done.
pub record IsSound (s : Service) (rows : List ActionRow) : Type 0 where
  pub distinct : HasDistinctKeys rows
  pub known : all is_known rows ≡ true
  pub normal : All (λ row. IsNormal s row.key) rows

has_key-upsert_row :
    (at : ActionKey) (new : ActionRow) (rows : List ActionRow)
    → has_key at (upsert_row new rows) ≡ (same_key new.key at || has_key at rows)
unfolding upsert_row
has_key-upsert_row at new [] = refl
has_key-upsert_row at new (old ∷ rows) = ground (
  arith,
  same_key_iff old.key new.key,
  same_key_iff old.key at,
  same_key_iff new.key at,
  has_key-upsert_row at new rows,
)

upsert_row-HasDistinctKeys :
    (new : ActionRow) (rows : List ActionRow)
    → HasDistinctKeys rows
    → HasDistinctKeys (upsert_row new rows)
unfolding upsert_row
upsert_row-HasDistinctKeys new [] h = (refl, tt)
upsert_row-HasDistinctKeys new (old ∷ rows) h = elim (Bool-cases (same_key old.key new.key)) [
  | inl same ↦ rw same h
  | inr other ↦ rw other (
    has_key-upsert_row old.key new rows
        ∙ ground (arith, h.0, other, same_key_iff old.key new.key, same_key_iff new.key old.key),
    upsert_row-HasDistinctKeys new rows h.1,
  )
]

upsert_row-known :
    (new : ActionRow) (rows : List ActionRow)
    → is_known new ≡ true
    → all is_known rows ≡ true
    → all is_known (upsert_row new rows) ≡ true
unfolding upsert_row
upsert_row-known new [] k h = rw k refl
upsert_row-known new (old ∷ rows) k h = ground (arith, k, h, upsert_row-known new rows k)

upsert_row-IsNormal :
    (s : Service) (new : ActionRow) (rows : List ActionRow)
    → IsNormal s new.key
    → All (λ row. IsNormal s row.key) rows
    → All (λ row. IsNormal s row.key) (upsert_row new rows)
unfolding upsert_row
upsert_row-IsNormal s new [] n h = (n, tt)
upsert_row-IsNormal s new (old ∷ rows) n h = elim (Bool-cases (same_key old.key new.key)) [
  | inl same ↦ rw same h
  | inr other ↦ rw other (h.0, upsert_row-IsNormal s new rows n h.1)
]

find_row-known :
    (k : ActionKey) (rows : List ActionRow) {row : ActionRow}
    → all is_known rows ≡ true
    → find_row k rows ≡ some row
    → is_known row ≡ true
unfolding find_row
find_row-known k [] h found = cc
find_row-known k (old ∷ rows) h found = elim (Bool-cases (same_key old.key k)) [
  | inl same ↦ let here : some old ≡ some _ = rw same at found in ground (arith, h, here)
  | inr other ↦ find_row-known k rows (ground (arith, h)) (rw other at found)
]

upserted-IsSound :
    (s : Service) (k : ActionKey) (title : String) (now : ℕ) (rows : List ActionRow)
    (found : Option ActionRow)
    → find_row k rows ≡ found
    → IsNormal s k
    → IsSound s rows
    → IsSound s (upsert_row (upserted k title now found) rows)
upserted-IsSound s k title now rows none e n sound = record {
  distinct = upsert_row-HasDistinctKeys _ rows sound.distinct;
  known = upsert_row-known _ rows refl sound.known;
  normal = upsert_row-IsNormal s _ rows n sound.normal;
}
upserted-IsSound s k title now rows (some old) e n sound = record {
  distinct = upsert_row-HasDistinctKeys _ rows sound.distinct;
  known = upsert_row-known _ rows (find_row-known k rows sound.known e) sound.known;
  normal = upsert_row-IsNormal s _ rows n sound.normal;
}

has_key-complete_rows :
    (at k : ActionKey) (now : ℕ) (rows : List ActionRow)
    → has_key at (complete_rows k now rows) ≡ has_key at rows
unfolding complete_rows
has_key-complete_rows at k now [] = refl
has_key-complete_rows at k now (row ∷ rows) = elim (Bool-cases (same_key row.key k)) [
  | inl same ↦ rw same (ap (λ b. same_key row.key at || b) (has_key-complete_rows at k now rows))
  | inr other ↦ rw other (ap (λ b. same_key row.key at || b) (has_key-complete_rows at k now rows))
]

pub complete_rows-IsSound :
    (s : Service) (k : ActionKey) (now : ℕ) (rows : List ActionRow)
    → IsSound s rows
    → IsSound s (complete_rows k now rows)
unfolding complete_rows
complete_rows-IsSound s k now [] sound = sound
complete_rows-IsSound s k now (row ∷ rows) sound =
    let rest = complete_rows-IsSound s k now rows (record {
      distinct = sound.distinct.1;
      known = ground (arith, sound.known);
      normal = sound.normal.1;
    }) in
    let fresh : has_key row.key (complete_rows k now rows) ≡ false =
      has_key-complete_rows row.key k now rows ∙ sound.distinct.0 in
    elim (Bool-cases (same_key row.key k)) [
      | inl same ↦ rw same (record {
        distinct = (fresh, rest.distinct);
        known = rest.known;
        normal = (sound.normal.0, rest.normal);
      })
      | inr other ↦ rw other (record {
        distinct = (fresh, rest.distinct);
        known = ground (arith, sound.known, rest.known);
        normal = (sound.normal.0, rest.normal);
      })
    ]

RowsStep-IsSound :
    (s : Service) (before after : List ActionRow)
    → RowsStep s before after
    → IsSound s before
    → IsSound s after
RowsStep-IsSound s before _ same_rows sound = sound
RowsStep-IsSound s before _ (one_written k title now normal) sound =
    upserted-IsSound s k title now before (find_row k before) refl normal sound
RowsStep-IsSound s before _ (one_completed k now) sound = complete_rows-IsSound s k now before sound

pub empty-IsSound : (s : Service) → IsSound s []
empty-IsSound s = record { distinct = tt; known = refl; normal = tt }

pub run-IsSound :
    (s : Service) (calls : List (GraphCall × Faults × ℕ)) (db : GraphDb)
    → IsSound s db.rows
    → IsSound s (run s calls db).rows
run-IsSound s [] db sound = sound
run-IsSound s ((call, faults, now) ∷ calls) db sound =
    run-IsSound s calls (perform s call faults now db)
      (RowsStep-IsSound s db.rows _ (perform-RowsStep s call faults now db) sound)
