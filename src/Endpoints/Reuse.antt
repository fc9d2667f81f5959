-- ===== src/Endpoints/Reuse.antt =====
-- A creation that is made again.
use Prim.Native.String.{String}
use goncho.Prelude.{
  ℕ, ◌≡◌, refl, subst, false, ◌&&◌, none, some, List, [], ◌∷◌, ◌++◌, ◌==◌, eq_refl, if◌then◌else◌,
  Bool-cases, inl, inr,
}
use goncho.Prelude.Result.{ok}
use goncho.Webhooks.Events.{resolve}
use goncho.Endpoints.{NetLibrary, normalize_url, get_or_create}
use goncho.Endpoints.Rows.{
  Statement, ensure_table, begin_create, find_url, Endpoint, CreateParams, CreateResult, Faults,
  find_by_url, stored, limit_of,
}
use goncho.Endpoints.Table.{
  Creation, reused, inserted, new_endpoint, Answered, CreateMeaning, get_or_create-CreateMeaning,
}

-- The row of the endpoint that a creation has returned.
abbrev row_of : CreateResult → Endpoint
row_of r = if r.created then stored r.endpoint else r.endpoint

find_by_url-snoc :
    (w url : String) (rows : List Endpoint) (e : Endpoint)
    → find_by_url w url rows ≡ none
    → e.workspace_id ≡ w
    → e.url ≡ url
    → find_by_url w url (rows ++ e ∷ []) ≡ some e
unfolding find_by_url
find_by_url-snoc w url [] e h same_w same_url = rw (same_w, same_url, eq_refl w, eq_refl url) refl
find_by_url-snoc w url (row ∷ rows) e h same_w same_url =
    elim (Bool-cases (row.workspace_id == w && row.url == url)) [
      | inl there ↦ let found : some row ≡ none = rw there at h in cc
      | inr other ↦
          let fresh : find_by_url w url rows ≡ none = rw other at h in
          rw other (find_by_url-snoc w url rows e fresh same_w same_url)
    ]

-- What a creation returned is found by its URL.
Creation-found :
    (limit : ℕ) (rows : List Endpoint) (e : Endpoint) (after : List Endpoint) (r : CreateResult)
    → Creation limit rows e after r
    → find_by_url e.workspace_id e.url after ≡ some (row_of r)
Creation-found limit rows e _ _ (reused existing there) = there
Creation-found limit rows e _ _ (inserted fresh new) =
    find_by_url-snoc e.workspace_id e.url rows (stored e) fresh refl refl

module _ (l : NetLibrary) where
  found_again :
      (faults : Faults) (d : String) (p : CreateParams) (new_id : String) (clock : ℕ)
      (rows : List Endpoint) (url : String) (row : Endpoint)
      → ((s : Statement) → faults s ≡ false)
      → normalize_url l p.url ≡ ok url
      → find_by_url (resolve p.workspace_id d) url rows ≡ some row
      → get_or_create l faults d p new_id clock rows
        ≡ (rows, ok (record { endpoint = row; created = false }))
  unfolding get_or_create
  found_again faults d p new_id clock rows url row up normal there =
      rw (normal, up ensure_table, up begin_create, up find_url, there) refl

  -- A creation that has returned an endpoint, made again with the statements working, returns the row of
  -- that endpoint as one that was not created, whatever its new identifier and time, and leaves
  -- the table as it is.
  pub get_or_create-get_or_create :
      (faults again : Faults) (d : String) (p : CreateParams) (id id' : String) (clock later : ℕ)
      (rows after : List Endpoint) (r : CreateResult)
      → get_or_create l faults d p id clock rows ≡ (after, ok r)
      → ((s : Statement) → again s ≡ false)
      → get_or_create l again d p id' later after
        ≡ (after, ok (record { endpoint = row_of r; created = false }))
  get_or_create-get_or_create faults again d p id id' clock later rows after r h up =
      let done : Answered l d p id clock rows after r =
        subst (CreateMeaning l d p id clock rows) h
          (get_or_create-CreateMeaning l faults d p id clock rows) in
      found_again again d p id' later after done.url (row_of r) up done.normal (
        Creation-found (limit_of p.limit) rows (new_endpoint d p id clock done.url) after r
          done.creation)
