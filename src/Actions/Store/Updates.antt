-- ===== src/Actions/Store/Updates.antt =====
-- What the operations do to the actions, one by one and in a series.
use Prim.Native.String.{String}
use goncho.Prelude.{
  ℕ, ◌≡◌, refl, ap, ◌∙◌, Option, none, some, List, [], ◌∷◌, if◌then◌else◌, Bool-cases, inl, inr,
}
use goncho.Leases.Table.{ActionKey, same_key}
use goncho.Leases.Params.{Service}
use goncho.Leases.Rows.{same_key_iff}
use goncho.Actions.Store.{upserted}
use goncho.Actions.Store.Tables.{ActionRow, GraphDb, Faults, find_row, upsert_row, complete_if}
use goncho.Actions.Store.Rows.{merged, find_row-upsert_row, find_row-complete_rows}
use goncho.Actions.Store.Steps.{
  RowsStep, same_rows, one_written, one_completed, GraphCall, perform, run, perform-RowsStep,
}

-- An action that was there before: its identity and its time of creation stay, its status stays or becomes
-- done.
pub record Follows (old row : ActionRow) : Type 0 where
  pub key : row.key ≡ old.key
  pub created_at : row.created_at ≡ old.created_at
  pub stays_done : old.status ≡ "done" → row.status ≡ "done"

abbrev pub FollowsAt : ActionRow → ActionKey → List ActionRow → Type 0
FollowsAt old k rows = (row : ActionRow) × (find_row k rows ≡ some row) × Follows old row

Follows-refl : (row : ActionRow) → Follows row row
Follows-refl row = record { key = refl; created_at = refl; stays_done = λ h. h }

complete_if-Follows :
    (k : ActionKey) (now : ℕ) (old : ActionRow) → Follows old (complete_if k now old)
complete_if-Follows k now old = elim (Bool-cases (same_key old.key k)) [
  | inl same ↦ rw same (record { key = refl; created_at = refl; stays_done = λ h. refl })
  | inr other ↦ rw other (Follows-refl old)
]

find_row-upserted :
    (at k : ActionKey) (title : String) (now : ℕ) (found : Option ActionRow) (rows : List ActionRow)
    → find_row at (upsert_row (upserted k title now found) rows) ≡ (
        if same_key k at
        then some (merged (upserted k title now found) (find_row at rows))
        else find_row at rows)
find_row-upserted at k title now none rows = find_row-upsert_row at (upserted k title now none) rows
find_row-upserted at k title now (some old) rows =
    find_row-upsert_row at (upserted k title now (some old)) rows

RowsStep-FollowsAt :
    (s : Service) (before after : List ActionRow)
    → RowsStep s before after
    → (at : ActionKey) (old : ActionRow) → find_row at before ≡ some old
    → FollowsAt old at after
RowsStep-FollowsAt s before _ same_rows at old there = (old, there, Follows-refl old)
RowsStep-FollowsAt s before _ (one_completed k now) at old there = (
  complete_if k now old,
  find_row-complete_rows at k now before ∙ rw there refl,
  complete_if-Follows k now old,
)
RowsStep-FollowsAt s before _ (one_written k title now normal) at old there =
    elim (Bool-cases (same_key k at)) [
      | inl same ↦
          let here : find_row k before ≡ some old =
            ap (λ x. find_row x before) ((same_key_iff k at).0 same) ∙ there in
          (
            record old { title = title; updated_at = now },
            rw here (find_row-upserted at k title now (some old) before ∙ rw (same, there) refl),
            record { key = refl; created_at = refl; stays_done = λ h. h },
          )
      | inr other ↦ (
        old,
        find_row-upserted at k title now (find_row k before) before ∙ rw (other, there) refl,
        Follows-refl old,
      )
    ]

Follows-trans : (a b c : ActionRow) → Follows a b → Follows b c → Follows a c
Follows-trans a b c f g = record {
  key = g.key ∙ f.key;
  created_at = g.created_at ∙ f.created_at;
  stays_done = λ h. g.stays_done (f.stays_done h);
}

module _ (s : Service) where
  -- Through every series of upserts, completions and signals, whatever fails, an action stays in the
  -- graph under its key with its time of creation, and one that is done stays done.
  pub run-FollowsAt :
      (calls : List (GraphCall × Faults × ℕ)) (at : ActionKey) (db : GraphDb) (old : ActionRow)
      → find_row at db.rows ≡ some old
      → FollowsAt old at (run s calls db).rows
  run-FollowsAt [] at db old there = (old, there, Follows-refl old)
  run-FollowsAt ((call, faults, now) ∷ calls) at db old there =
      let (mid, found, first) =
        RowsStep-FollowsAt s db.rows _ (perform-RowsStep s call faults now db) at old there in
      let (row, last, rest) = run-FollowsAt calls at (perform s call faults now db) mid found in
      (row, last, Follows-trans old mid row first rest)
