-- ===== src/Endpoints/Table.antt =====
-- What one call does to the rows of the table of endpoints.
use Prim.Native.String.{String}
use goncho.Prelude.{
  ℕ, ◌<◌, ◌≡◌, refl, sym, ap, ◌∙◌, subst, arith, Bool, true, false, ◌||◌, Option, none, some, List,
  [], ◌∷◌, ◌++◌, ltb,
}
use goncho.Prelude.Result.{Result, ok, err, ok_chain, past_guard, ok-injective}
use goncho.Webhooks.Events.{resolve}
use goncho.Endpoints.{
  NetLibrary, CreateOutcome, committed, require, normalize_url, create_new, found_or_new,
  get_or_create,
}
use goncho.Endpoints.Rows.{
  Statement, ensure_table, begin_create, find_url, count_rows, insert_row, commit_create,
  EndpointError, limit_reached, Endpoint, CreateParams, CreateResult, Faults, run_sql, limit_of,
  or_clock, find_by_url, count, breaks_constraint, stored, insert_endpoint,
}

pub run_sql-ok :
    {A : Type 0} {a b : A} (faults : Faults) (s : Statement) → run_sql faults s a ≡ ok b → a ≡ b
run_sql-ok faults s h = let e = (past_guard (faults s) _ _ h).1 in cc

require-ok : (test : Bool) (e : EndpointError) {u : Unit {0}} → require test e ≡ ok u → test ≡ true
require-ok true e h = refl
require-ok false e h = cc

-- An endpoint that a creation with a limit adds to rows.
pub record IsNew (limit : ℕ) (rows : List Endpoint) (e : Endpoint) : Type 0 where
  pub below : count e.workspace_id rows < limit
  pub keeps_constraints : breaks_constraint e rows ≡ false

insert_endpoint-ok :
    (faults : Faults) (e : Endpoint) (rows : List Endpoint) {after : List Endpoint}
    → insert_endpoint faults e rows ≡ ok after
    → (breaks_constraint e rows ≡ false) × (after ≡ rows ++ stored e ∷ [])
insert_endpoint-ok faults e rows {after} h =
    let (tests, made) = past_guard (faults insert_row || breaks_constraint e rows) _ _ h in
    let same : rows ++ stored e ∷ [] ≡ after = cc in (ground arith, sym same)

below_limit : (n limit : ℕ) (m : ℕ) → m ≡ n → ltb n limit ≡ true → m < limit
below_limit n limit m e h = ground arith

create_new-ok :
    (faults : Faults) (limit : ℕ) (e : Endpoint) (rows : List Endpoint) {after : List Endpoint}
    {r : CreateResult}
    → create_new faults limit e rows ≡ ok (after, r)
    → IsNew limit rows e
      × (after ≡ rows ++ stored e ∷ [])
      × (r ≡ record { endpoint = e; created = true })
unfolding create_new
create_new-ok faults limit e rows {after} {r} h =
    let (n, counted, h₁) = ok_chain (run_sql faults count_rows (count e.workspace_id rows)) _ h in
    let (u, below, h₂) = ok_chain (require (ltb n limit) limit_reached) _ h₁ in
    let (mid, inserted, h₃) = ok_chain (insert_endpoint faults e rows) _ h₂ in
    let (kept, made) = insert_endpoint-ok faults e rows inserted in
    let e₁ : count e.workspace_id rows ≡ n = run_sql-ok faults count_rows counted in
    let e₂ : (mid, record { endpoint = e; created = true }) ≡ (after, r) =
      run_sql-ok faults commit_create h₃ in
    let less : ltb n limit ≡ true = require-ok (ltb n limit) limit_reached below in
    (
      record { below = below_limit n limit _ e₁ less; keeps_constraints = kept },
      sym (ap (λ x. x.0) e₂) ∙ made,
      sym (ap (λ x. x.1) e₂),
    )

-- What a creation that returns a result has done.
pub data Creation (limit : ℕ) (rows : List Endpoint) (e : Endpoint)
    : List Endpoint → CreateResult → Type 0 where
  reused :
      (existing : Endpoint)
      → find_by_url e.workspace_id e.url rows ≡ some existing
      → Creation limit rows e rows (record { endpoint = existing; created = false })
  inserted :
      find_by_url e.workspace_id e.url rows ≡ none
      → IsNew limit rows e
      → Creation limit rows e (rows ++ stored e ∷ []) (record { endpoint = e; created = true })

found_or_new-Creation :
    (faults : Faults) (limit : ℕ) (e : Endpoint) (rows : List Endpoint) (found : Option Endpoint)
    {after : List Endpoint} {r : CreateResult}
    → find_by_url e.workspace_id e.url rows ≡ found
    → found_or_new faults limit e rows found ≡ ok (after, r)
    → Creation limit rows e after r
found_or_new-Creation faults limit e rows (some existing) {after} {r} there h =
    subst (λ (x : List Endpoint × CreateResult). Creation limit rows e x.0 x.1) (ok-injective h)
      (reused existing there)
found_or_new-Creation faults limit e rows none there h =
    let (new, e₁, e₂) = create_new-ok faults limit e rows h in rw (e₁, e₂) (inserted there new)

abbrev pub new_endpoint : String → CreateParams → String → ℕ → String → Endpoint
new_endpoint default_workspace_id p new_id clock url = record {
  id = new_id;
  workspace_id = resolve p.workspace_id default_workspace_id;
  url = url;
  created_at = or_clock clock p.now;
}

module _ (l : NetLibrary) where
  -- A creation that returns a result has an accepted URL.
  pub record Answered (d : String) (p : CreateParams) (new_id : String) (clock : ℕ)
      (rows : List Endpoint) (after : List Endpoint) (r : CreateResult) : Type 0 where
    pub url : String
    pub normal : normalize_url l p.url ≡ ok url
    pub creation : Creation (limit_of p.limit) rows (new_endpoint d p new_id clock url) after r

  abbrev pub CreateMeaning :
      String → CreateParams → String → ℕ → List Endpoint → CreateOutcome → Type 0
  CreateMeaning d p new_id clock rows (after, err e) = after ≡ rows
  CreateMeaning d p new_id clock rows (after, ok r) = Answered d p new_id clock rows after r

  committed-CreateMeaning :
      (d : String) (p : CreateParams) (new_id : String) (clock : ℕ) (rows : List Endpoint)
      (result : Result EndpointError (List Endpoint × CreateResult))
      → ((after : List Endpoint) (r : CreateResult)
          → result ≡ ok (after, r)
          → Answered d p new_id clock rows after r)
      → CreateMeaning d p new_id clock rows (committed rows result)
  committed-CreateMeaning d p new_id clock rows (err e) h = refl
  committed-CreateMeaning d p new_id clock rows (ok (after, r)) h = h after r refl

  pub get_or_create-CreateMeaning :
      (faults : Faults) (d : String) (p : CreateParams) (new_id : String) (clock : ℕ)
      (rows : List Endpoint)
      → CreateMeaning d p new_id clock rows (get_or_create l faults d p new_id clock rows)
  unfolding get_or_create
  get_or_create-CreateMeaning faults d p new_id clock rows =
      committed-CreateMeaning d p new_id clock rows _ (λ after r h.
        let (url, normal, h₁) = ok_chain (normalize_url l p.url) _ h in
        let (u, tabled, h₂) = ok_chain (run_sql faults ensure_table tt) _ h₁ in
        let (v, began, h₃) = ok_chain (run_sql faults begin_create tt) _ h₂ in
        let w = resolve p.workspace_id d in
        let (found, read, h₄) = ok_chain (run_sql faults find_url (find_by_url w url rows)) _ h₃ in
        record {
          url = url;
          normal = normal;
          creation =
              found_or_new-Creation faults (limit_of p.limit) (new_endpoint d p new_id clock url)
                rows found (run_sql-ok faults find_url read) h₄;
        })
