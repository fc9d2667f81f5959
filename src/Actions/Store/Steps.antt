-- ===== src/Actions/Store/Steps.antt =====
-- What one operation does to the rows of the actions, and series of operations.
use Prim.Native.String.{String}
use goncho.Prelude.{
  ℕ, ◌≡◌, refl, sym, subst, true, false, List, [], ◌∷◌, ◌==◌, any, Bool-cases, inl, inr,
}
use goncho.Prelude.Text.{trim_space}
use goncho.Prelude.Result.{Result, ok, err}
use goncho.Leases.Table.{ActionKey, same_key}
use goncho.Leases.Params.{Service}
use goncho.Actions.Store.{
  upserted, with_node, upsert_at, upsert_normalized, upsert_action, complete_at, complete_action,
  signal_at, signal_action, key_of,
}
use goncho.Actions.Store.Tables.{
  ActionParams, ActionGraphQuery, ActionSignalParams, ActionRow, GraphDb, get_action, upsert_node,
  complete_row, insert_signal, GraphError, Faults, find_row, upsert_row, complete_rows,
}
use goncho.Actions.Store.Texts.{unique_trimmed}
use goncho.Actions.Store.Keys.{IsNormal, key_of-IsNormal}

-- What an operation does to the rows.
pub data RowsStep (s : Service) (before : List ActionRow) : List ActionRow → Type 0 where
  same_rows : RowsStep s before before
  one_written :
      (k : ActionKey) (title : String) (now : ℕ)
      → IsNormal s k
      → RowsStep s before (upsert_row (upserted k title now (find_row k before)) before)
  one_completed : (k : ActionKey) (now : ℕ) → RowsStep s before (complete_rows k now before)

with_node-db :
    (faults : Faults) (k : ActionKey) (db : GraphDb) (r : Result GraphError (Unit {0}))
    → (with_node faults k db r).0 ≡ db
with_node-db faults k db (err e) = refl
with_node-db faults k db (ok u) = refl

upsert_at-RowsStep :
    (s : Service) (faults : Faults) (k : ActionKey) (title : String) (deps : List String) (now : ℕ)
    (db : GraphDb)
    → IsNormal s k
    → RowsStep s db.rows (upsert_at faults k title deps now db).0.rows
unfolding upsert_at
upsert_at-RowsStep s faults k title deps now db normal = elim (Bool-cases (faults get_action)) [
  | inl down ↦ rw down same_rows
  | inr up ↦ elim (Bool-cases (faults upsert_node)) [
    | inl down ↦ rw (up, down) same_rows
    | inr ready ↦
        rw (up, ready)
          (subst (λ (d : GraphDb). RowsStep s db.rows d.rows) (sym (with_node-db faults k _ _))
            (one_written k title now normal))
  ]
]

upsert_normalized-RowsStep :
    (s : Service) (faults : Faults) (p : ActionParams) (now : ℕ) (db : GraphDb)
    (key : Result GraphError ActionKey)
    → ((k : ActionKey) → key ≡ ok k → IsNormal s k)
    → RowsStep s db.rows (upsert_normalized faults p now db key).0.rows
upsert_normalized-RowsStep s faults p now db (err e) normal = same_rows
upsert_normalized-RowsStep s faults p now db (ok k) normal =
    elim (Bool-cases (trim_space p.title == "")) [
      | inl blank ↦ rw blank same_rows
      | inr full ↦ rw full (
          upsert_at-RowsStep s faults k (trim_space p.title) (unique_trimmed p.depends_on) now db
            (normal k refl))
    ]

complete_at-RowsStep :
    (s : Service) (faults : Faults) (now : ℕ) (db : GraphDb) (key : Result GraphError ActionKey)
    → RowsStep s db.rows (complete_at faults now db key).0.rows
complete_at-RowsStep s faults now db (err e) = same_rows
complete_at-RowsStep s faults now db (ok k) = elim (Bool-cases (k.action_id == "")) [
  | inl blank ↦ rw blank same_rows
  | inr named ↦ elim (Bool-cases (faults complete_row)) [
    | inl down ↦ rw (named, down) same_rows
    | inr up ↦ elim (Bool-cases (any (λ row. same_key row.key k) db.rows)) [
      | inl hit ↦ rw (named, up, hit) (one_completed k now)
      | inr missed ↦ rw (named, up, missed) (one_completed k now)
    ]
  ]
]

signal_at-rows :
    (faults : Faults) (p : ActionSignalParams) (now : ℕ) (db : GraphDb)
    (key : Result GraphError ActionKey)
    → (signal_at faults p now db key).0.rows ≡ db.rows
signal_at-rows faults p now db (err e) = refl
signal_at-rows faults p now db (ok k) = elim (Bool-cases (trim_space p.signal == "")) [
  | inl blank ↦ rw blank refl
  | inr full ↦ elim (Bool-cases (faults get_action)) [
    | inl down ↦ rw (full, down) refl
    | inr up ↦ elim (Bool-cases (faults insert_signal)) [
      | inl down ↦ rw (full, up, down) refl
      | inr ready ↦ rw (full, up, ready) refl
    ]
  ]
]

pub data GraphCall : Type 0 where
  upserting : ActionParams → GraphCall
  completing : ActionGraphQuery → GraphCall
  signalling : ActionSignalParams → GraphCall

module _ (s : Service) where
  abbrev pub perform : GraphCall → Faults → ℕ → GraphDb → GraphDb
  perform (upserting p) faults now db = (upsert_action s faults p now db).0
  perform (completing q) faults now db = (complete_action s faults q now db).0
  perform (signalling p) faults now db = (signal_action s faults p now db).0

  abbrev pub run : List (GraphCall × Faults × ℕ) → GraphDb → GraphDb
  run [] db = db
  run ((call, faults, now) ∷ calls) db = run calls (perform call faults now db)

  pub perform-RowsStep :
      (call : GraphCall) (faults : Faults) (now : ℕ) (db : GraphDb)
      → RowsStep s db.rows (perform call faults now db).rows
  unfolding upsert_action complete_action signal_action
  perform-RowsStep (upserting p) faults now db =
      upsert_normalized-RowsStep s faults p now db
        (key_of s p.workspace_id p.profile_id p.peer p.action_id true)
        (key_of-IsNormal s p.workspace_id p.profile_id p.peer p.action_id)
  perform-RowsStep (completing q) faults now db =
      complete_at-RowsStep s faults now db
        (key_of s q.workspace_id q.profile_id q.peer q.action_id false)
  perform-RowsStep (signalling p) faults now db =
      subst (RowsStep s db.rows)
        (sym (
          signal_at-rows faults p now db
            (key_of s p.workspace_id p.profile_id p.peer p.action_id true)))
        same_rows
