-- ===== src/Endpoints.antt =====
-- internal/webhooks/endpoints/endpoints.go, with the policy of internal/webhooks/urlpolicy: the webhook
-- endpoints that are registered for a workspace. Instants are nanoseconds from 1970 on.
use Prim.Native.Nat.{Ordering}
use Prim.Native.String.{String, compare}
use Prim.Native.Char.{Char}
use goncho.Prelude.{
  ℕ, suc, ◌+◌, ◌-◌, ◌%◌, Bool, true, false, not, ◌&&◌, ◌||◌, Option, none, some, List, [], ◌∷◌,
  ◌++◌, ◌==◌, ltb, leb, eqb, if◌then◌else◌, keep, any, length,
}
use goncho.Prelude.Int.{ℤ, pos_part}
use goncho.Prelude.Text.{trim_space}
use goncho.Prelude.Result.{Result, ok, err, ◌>>=◌}
use goncho.Webhooks.Events.{resolve}
use goncho.Endpoints.Rows.{
  EndpointError, Endpoint, CreateParams, CreateResult, Faults, run_sql, limit_of, or_clock, is_of,
  find_by_url, count, breaks_constraint, insert_endpoint, order_rows, ensure_table, begin_create,
  find_url, count_rows, commit_create, list_rows, delete_row, rows_affected, workspace_required,
  invalid_url, limit_reached, not_found, sql_failed,
}
pub mod Rows
pub mod Table
pub mod Calls
pub mod Policy
pub mod Reuse
mod Examples

-- What the policy reads of a parsed URL; `text` is what prints it.
pub record ParsedUrl : Type 0 where
  pub scheme : String
  pub host : String
  pub hostname : String
  pub text : String

pub record Ip : Type 0 where
  pub is_private : Bool
  pub is_loopback : Bool
  pub is_link_local_unicast : Bool
  pub is_link_local_multicast : Bool
  pub is_unspecified : Bool

-- Go's `len`, url.Parse and net.ParseIP.
pub record NetLibrary : Type 0 where
  pub byte_length : String → ℕ
  pub parse_url : String → Option ParsedUrl
  pub parse_ip : String → Option Ip

abbrev pub CreateOutcome : Type 0
CreateOutcome = List Endpoint × Result EndpointError CreateResult

-- A transaction that does not commit leaves the rows as they were.
abbrev pub committed :
    List Endpoint → Result EndpointError (List Endpoint × CreateResult) → CreateOutcome
committed before (err e) = (before, err e)
committed before (ok (after, r)) = (after, ok r)

abbrev pub require : Bool → EndpointError → Result EndpointError (Unit {0})
require test e = if test then ok tt else err e

unfoldable pub list_endpoints :
    Faults → String → String → List Endpoint → Result EndpointError (List Endpoint)
unfolding resolve order_rows
list_endpoints faults default_workspace_id workspace_id rows =
    let resolved = resolve workspace_id default_workspace_id in
    require (not (resolved == "")) workspace_required >>= λ _.
    run_sql faults ensure_table tt >>= λ _.
    run_sql faults list_rows (order_rows (keep (is_of resolved) rows))

abbrev pub is_row : String → String → Endpoint → Bool
is_row workspace_id id row = row.workspace_id == workspace_id && row.id == id

-- `Delete`; its statement commits on its own, before the number of rows is asked for.
abbrev pub deleted :
    Faults → String → String → List Endpoint → List Endpoint × Result EndpointError (Unit {0})
deleted faults workspace_id id rows =
    if faults ensure_table
    then (rows, err (sql_failed ensure_table))
    else if faults delete_row
    then (rows, err (sql_failed delete_row))
    else (
      keep (λ row. not (is_row workspace_id id row)) rows,
      run_sql faults rows_affected (any (is_row workspace_id id) rows) >>= λ hit.
          require hit not_found,
    )

unfoldable pub delete_endpoint :
    Faults
    → String
    → String
    → String
    → List Endpoint
    → List Endpoint × Result EndpointError (Unit {0})
unfolding resolve
delete_endpoint faults default_workspace_id workspace_id endpoint_id rows =
    let resolved = resolve workspace_id default_workspace_id in
    let id = trim_space endpoint_id in
    if resolved == ""
    then (rows, err workspace_required)
    else if id == ""
    then (rows, err not_found)
    else deleted faults resolved id rows

-- The row that is not there yet.
unfoldable pub create_new :
    Faults → ℕ → Endpoint → List Endpoint → Result EndpointError (List Endpoint × CreateResult)
unfolding count breaks_constraint
create_new faults limit e rows = run_sql faults count_rows (count e.workspace_id rows) >>= λ n.
    require (ltb n limit) limit_reached >>= λ _. insert_endpoint faults e rows >>= λ after.
    run_sql faults commit_create (after, record { endpoint = e; created = true })

abbrev pub found_or_new :
    Faults
    → ℕ
    → Endpoint
    → List Endpoint
    → Option Endpoint
    → Result EndpointError (List Endpoint × CreateResult)
found_or_new faults limit e rows (some existing) =
    ok (rows, record { endpoint = existing; created = false })
found_or_new faults limit e rows none = create_new faults limit e rows

module _ (l : NetLibrary) where
  abbrev pub is_local : Ip → Bool
  is_local ip =
      ip.is_private
      || (ip.is_loopback
          || (ip.is_link_local_unicast || (ip.is_link_local_multicast || ip.is_unspecified)))

  abbrev pub private_ip : Option Ip → Bool
  private_ip none = false
  private_ip (some ip) = is_local ip

  unfoldable pub private_host : String → Bool
  private_host host = private_ip (l.parse_ip host)

  abbrev pub normalize_parsed : Option ParsedUrl → Result EndpointError String
  normalize_parsed none = err invalid_url
  normalize_parsed (some u) =
      if u.scheme == "" || u.host == ""
      then err invalid_url
      else if not (u.scheme == "http") && not (u.scheme == "https")
      then err invalid_url
      else if u.hostname == "" || private_host u.hostname
      then err invalid_url
      else ok u.text

  -- `NormalizeEndpoint` with the limit of 2048 bytes
  unfoldable pub normalize_url : String → Result EndpointError String
  unfolding private_host
  normalize_url raw =
      let trimmed = trim_space raw in
      if trimmed == "" || ltb 2048 (l.byte_length trimmed)
      then err invalid_url
      else normalize_parsed (l.parse_url trimmed)

  -- `new_id` is the random identifier, `clock` the time of the machine.
  unfoldable pub get_or_create :
      Faults → String → CreateParams → String → ℕ → List Endpoint → CreateOutcome
  unfolding resolve normalize_url find_by_url create_new
  get_or_create faults default_workspace_id p new_id clock rows =
      let resolved = resolve p.workspace_id default_workspace_id in
      committed rows (
        normalize_url p.url >>= λ url. run_sql faults ensure_table tt >>= λ _.
        run_sql faults begin_create tt >>= λ _.
        run_sql faults find_url (find_by_url resolved url rows) >>= λ found.
        found_or_new faults (limit_of p.limit)
          (record {
            id = new_id;
            workspace_id = resolved;
            url = url;
            created_at = or_clock clock p.now;
          })
          rows found)
