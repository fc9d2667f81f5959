-- ===== src/Endpoints/Rows.antt =====
-- The table of the endpoints of internal/webhooks/endpoints, its constraints and its statements. Instants
-- are nanoseconds from 1970 on, those of a row in whole seconds.
use Prim.Native.String.{String}
use goncho.Prelude.{
  ℕ, suc, ◌-◌, ◌%◌, Bool, ◌&&◌, ◌||◌, Option, none, some, List, [], ◌∷◌, ◌++◌, ◌==◌, ltb, eqb,
  if◌then◌else◌, keep, any, length,
}
use goncho.Prelude.Int.{ℤ, pos_part}
use goncho.Prelude.Sort.{text_ltb, sort_by}
use goncho.Prelude.Result.{Result, ok, err}

pub data Statement : Type 0 where
  ensure_table begin_create find_url count_rows insert_row commit_create : Statement
  list_rows delete_row rows_affected : Statement

-- `sql_failed` is an error of the database, a broken constraint among them.
pub data EndpointError : Type 0 where
  workspace_required invalid_url limit_reached not_found : EndpointError
  sql_failed : Statement → EndpointError

pub record Endpoint : Type 0 where
  pub id : String
  pub workspace_id : String
  pub url : String
  pub created_at : ℕ

pub record CreateParams : Type 0 where
  pub workspace_id : String
  pub url : String
  pub limit : ℤ
  pub now : Option ℕ

pub record CreateResult : Type 0 where
  pub endpoint : Endpoint
  pub created : Bool

abbrev pub Faults : Type 0
Faults = Statement → Bool

abbrev pub run_sql : {A : Type 0} → Faults → Statement → A → Result EndpointError A
run_sql faults s a = if faults s then err (sql_failed s) else ok a

-- A limit that is not positive is the default one.
abbrev pub limit_of : ℤ → ℕ
limit_of z = if eqb (pos_part z) 0 then 10 else pos_part z

abbrev pub or_clock : ℕ → Option ℕ → ℕ
or_clock clock none = clock
or_clock clock (some t) = t

abbrev pub is_of : String → Endpoint → Bool
is_of workspace_id row = row.workspace_id == workspace_id

unfoldable pub find_by_url : String → String → List Endpoint → Option Endpoint
find_by_url workspace_id url [] = none
find_by_url workspace_id url (row ∷ rows) =
    let rest = find_by_url workspace_id url rows in
    if row.workspace_id == workspace_id && row.url == url then some row else rest

unfoldable pub count : String → List Endpoint → ℕ
count workspace_id rows = length (keep (is_of workspace_id) rows)

unfoldable pub char_length : String → ℕ
char_length String.[] = 0
char_length (String.◌∷◌ c s) = suc (char_length s)

-- PRIMARY KEY (id), UNIQUE(workspace_id, url) and CHECK(length(url) <= 2048)
unfoldable pub breaks_constraint : Endpoint → List Endpoint → Bool
unfolding char_length
breaks_constraint e rows =
    any (λ row. row.id == e.id || (row.workspace_id == e.workspace_id && row.url == e.url)) rows
    || ltb 2048 (char_length e.url)

-- A row has its time in seconds.
abbrev pub stored : Endpoint → Endpoint
stored e = record e { created_at = e.created_at - e.created_at % 1000000000 }

abbrev pub insert_endpoint :
    Faults → Endpoint → List Endpoint → Result EndpointError (List Endpoint)
insert_endpoint faults e rows =
    if faults insert_row || breaks_constraint e rows
    then err (sql_failed insert_row)
    else ok (rows ++ stored e ∷ [])

-- ORDER BY created_at ASC, id ASC
unfoldable pub comes_first : Endpoint → Endpoint → Bool
comes_first a b =
    ltb a.created_at b.created_at || (eqb a.created_at b.created_at && text_ltb a.id b.id)

unfoldable pub order_rows : List Endpoint → List Endpoint
unfolding sort_by comes_first
order_rows rows = sort_by comes_first rows
