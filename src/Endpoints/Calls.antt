-- ===== src/Endpoints/Calls.antt =====
-- Series of creations and deletions of endpoints.
use Prim.Native.String.{String}
use goncho.Prelude.{
  ℕ, ◌+◌, ◌≤◌, ◌<◌, ◌≡◌, sym, subst, arith, Bool, not, List, [], ◌∷◌, ◌++◌, ◌==◌, eq_iff,
  if◌then◌else◌, keep, keep-append, length-append, Bool-cases, inl, inr,
}
use goncho.Prelude.Text.{trim_space}
use goncho.Prelude.Result.{ok, err}
use goncho.Webhooks.Events.{resolve}
use goncho.Endpoints.{
  NetLibrary, is_row, deleted, delete_endpoint, normalize_url, get_or_create, CreateOutcome,
}
use goncho.Endpoints.Rows.{
  Endpoint, CreateParams, CreateResult, Faults, ensure_table, delete_row, limit_of, is_of, count,
  stored,
}
use goncho.Endpoints.Table.{
  IsNew, Creation, reused, inserted, new_endpoint, CreateMeaning, get_or_create-CreateMeaning,
}

-- A creation has the identifier that is drawn for it and the time of its clock.
pub data Call : Type 0 where
  creating : CreateParams → String → ℕ → Call
  deleting : String → String → Call

-- The limit that a call works under.
abbrev limit_in : Call → ℕ
limit_in (creating p new_id clock) = limit_of p.limit
limit_in (deleting workspace_id id) = 0

abbrev pub HasAtMost : ℕ → List Endpoint → Type 0
HasAtMost n rows = (workspace_id : String) → count workspace_id rows ≤ n

abbrev Within : ℕ → List (Faults × Call) → Type 0
Within n [] = Unit {0}
Within n ((faults, call) ∷ calls) = (limit_in call ≤ n) × Within n calls

count-snoc :
    (w : String) (rows : List Endpoint) (e : Endpoint)
    → count w (rows ++ e ∷ []) ≡ count w rows + (if e.workspace_id == w then 1 else 0)
unfolding count
count-snoc w rows e =
    rw
      (
        keep-append (is_of w) rows (e ∷ []),
        length-append (keep (is_of w) rows) (keep (is_of w) (e ∷ [])),
      )
      ground arith

count-keep :
    (w : String) (p : Endpoint → Bool) (rows : List Endpoint) → count w (keep p rows) ≤ count w rows
unfolding count
count-keep w p [] = ground arith
count-keep w p (row ∷ rows) = let fewer = count-keep w p rows in ground arith

module _ (l : NetLibrary) where
  -- How one call may change the rows.
  pub data Step (call : Call) (rows : List Endpoint) : List Endpoint → Type 0 where
    unchanged : Step call rows rows
    added :
        (e : Endpoint) (raw : String)
        → normalize_url l raw ≡ ok e.url
        → IsNew (limit_in call) rows e
        → Step call rows (rows ++ stored e ∷ [])
    removed :
        (workspace_id id : String)
        → Step call rows (keep (λ row. not (is_row workspace_id id row)) rows)

  CreateMeaning-Step :
      (d : String) (p : CreateParams) (new_id : String) (clock : ℕ) (rows : List Endpoint)
      (outcome : CreateOutcome)
      → CreateMeaning l d p new_id clock rows outcome
      → Step (creating p new_id clock) rows outcome.0
  CreateMeaning-Step d p new_id clock rows (after, err e) h =
      subst (Step (creating p new_id clock) rows) (sym h) unchanged
  CreateMeaning-Step d p new_id clock rows (after, ok r) h =
      Creation-Step d p new_id clock rows after r h.url h.normal h.creation
    where
      Creation-Step :
          (d : String) (p : CreateParams) (new_id : String) (clock : ℕ) (rows after : List Endpoint)
          (r : CreateResult) (url : String)
          → normalize_url l p.url ≡ ok url
          → Creation (limit_of p.limit) rows (new_endpoint d p new_id clock url) after r
          → Step (creating p new_id clock) rows after
      Creation-Step d p new_id clock rows after r url normal (reused existing there) = unchanged
      Creation-Step d p new_id clock rows after r url normal (inserted there new) =
          added (new_endpoint d p new_id clock url) p.url normal new

  module _ (d : String) where
    abbrev pub perform : Faults → Call → List Endpoint → List Endpoint
    perform faults (creating p new_id clock) rows = (get_or_create l faults d p new_id clock rows).0
    perform faults (deleting workspace_id id) rows =
        (delete_endpoint faults d workspace_id id rows).0

    abbrev pub run : List (Faults × Call) → List Endpoint → List Endpoint
    run [] rows = rows
    run ((faults, call) ∷ calls) rows = run calls (perform faults call rows)

    deleted-Step :
        (faults : Faults) (call : Call) (workspace_id id : String) (rows : List Endpoint)
        → Step call rows (deleted faults workspace_id id rows).0
    deleted-Step faults call workspace_id id rows = elim (Bool-cases (faults ensure_table)) [
      | inl down ↦ rw down unchanged
      | inr up ↦ elim (Bool-cases (faults delete_row)) [
        | inl down ↦ rw (up, down) unchanged
        | inr up' ↦ rw (up, up') (removed workspace_id id)
      ]
    ]

    delete_endpoint-Step :
        (faults : Faults) (workspace_id id : String) (rows : List Endpoint)
        → Step (deleting workspace_id id) rows (delete_endpoint faults d workspace_id id rows).0
    unfolding delete_endpoint
    delete_endpoint-Step faults workspace_id id rows =
        let w = resolve workspace_id d in
        elim (Bool-cases (w == "")) [
          | inl blank ↦ rw blank unchanged
          | inr full ↦ elim (Bool-cases (trim_space id == "")) [
            | inl blank ↦ rw (full, blank) unchanged
            | inr named ↦
                rw (full, named)
                  (deleted-Step faults (deleting workspace_id id) w (trim_space id) rows)
          ]
        ]

    pub perform-Step :
        (faults : Faults) (call : Call) (rows : List Endpoint)
        → Step call rows (perform faults call rows)
    perform-Step faults (creating p new_id clock) rows =
        CreateMeaning-Step d p new_id clock rows _
          (get_or_create-CreateMeaning l faults d p new_id clock rows)
    perform-Step faults (deleting workspace_id id) rows =
        delete_endpoint-Step faults workspace_id id rows

    Step-HasAtMost :
        (n : ℕ) (call : Call) (rows after : List Endpoint)
        → limit_in call ≤ n
        → HasAtMost n rows
        → Step call rows after
        → HasAtMost n after
    Step-HasAtMost n call rows _ within most unchanged w = most w
    Step-HasAtMost n call rows _ within most (added e raw normal new) w =
        rw (count-snoc w rows (stored e)) (
          let small = most w in
          let below = new.below in
          elim (Bool-cases (e.workspace_id == w)) [
            | inl same ↦
                let k : e.workspace_id ≡ w = (eq_iff e.workspace_id w).0 same in
                let less : count w rows < limit_in call =
                  subst (λ x. count x rows < limit_in call) k below in
                rw same (ground arith)
            | inr other ↦ rw other (ground arith)
          ])
    Step-HasAtMost n call rows _ within most (removed workspace_id id) w =
        let fewer = count-keep w (λ row. not (is_row workspace_id id row)) rows in
        let small = most w in ground arith

    -- While no creation has a limit above `n`, where a limit that is not positive counts as 10, no
    -- workspace gets more than `n` endpoints by a series of creations and deletions, whatever fails.
    pub run-HasAtMost :
        (n : ℕ) (calls : List (Faults × Call)) (rows : List Endpoint)
        → Within n calls
        → HasAtMost n rows
        → HasAtMost n (run calls rows)
    run-HasAtMost n [] rows within most = most
    run-HasAtMost n ((faults, call) ∷ calls) rows (first, within) most =
        run-HasAtMost n calls (perform faults call rows) within
          (Step-HasAtMost n call rows _ first most (perform-Step faults call rows))
