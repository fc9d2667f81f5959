-- ===== src/Actions/Store.antt =====
-- service/action_graph.go: the operations that change an action graph, on its three tables. The statements
-- of one operation are not in a transaction, so that those before a failure stay. Of the
-- receipts of signals, which a node that is returned lists, only the failure is looked at. Instants are seconds.
use Prim.Native.Nat.{Ordering}
use Prim.Native.String.{compare}
use goncho.Prelude.{
  ℕ, suc, String, Bool, true, false, not, ◌&&◌, ◌||◌, Option, none, some, List, [], ◌∷◌, ◌++◌, ◌==◌,
  if◌then◌else◌, keep, any, map, contains,
}
use goncho.Prelude.Text.{trim_space}
use goncho.Prelude.Result.{Result, ok, err, ◌>>=◌}
use goncho.Leases.Table.{ActionKey, LeaseResult, same_key}
use goncho.Leases.Params.{Service, normalize_scoped_action}
use goncho.Actions.{ActionNode, ActionSignal}
use goncho.Actions.Store.Texts.{unique_trimmed}
use goncho.Actions.Store.Tables.{
  ActionParams, ActionGraphQuery, ActionSignalParams, ActionRow, GraphDb, GraphError, Faults,
  or_scope_required, find_row, upsert_row, complete_rows, replace_action_dependencies,
  action_node_with_edges, get_action, upsert_node, complete_row, insert_signal, title_required,
  id_required, signal_required, no_rows, sql_failed,
}
pub mod Texts
pub mod Tables
pub mod Rows
pub mod Keys
pub mod Steps
pub mod Updates
pub mod Dependencies
mod Examples

-- The row that an upsert writes: a row that is there keeps its status and its time of creation.
abbrev pub upserted : ActionKey → String → ℕ → Option ActionRow → ActionRow
upserted k title now none = record {
  key = k;
  title = title;
  status = "pending";
  created_at = now;
  updated_at = now;
}
upserted k title now (some old) = record {
  key = k;
  title = title;
  status = old.status;
  created_at = old.created_at;
  updated_at = now;
}

abbrev pub with_node :
    Faults
    → ActionKey
    → GraphDb
    → Result GraphError (Unit {0})
    → GraphDb × Result GraphError ActionNode
with_node faults k db (err e) = (db, err e)
with_node faults k db (ok done) = (db, action_node_with_edges faults k db)

unfoldable pub upsert_at :
    Faults → ActionKey → String → List String → ℕ → GraphDb → GraphDb × Result GraphError ActionNode
unfolding upsert_row replace_action_dependencies action_node_with_edges
upsert_at faults k title deps now db =
    if faults get_action
    then (db, err (sql_failed get_action))
    else if faults upsert_node
    then (db, err (sql_failed upsert_node))
    else let (dependencies, replaced) = replace_action_dependencies faults k deps db.dependencies in
      with_node faults k
        (record db {
          rows = upsert_row (upserted k title now (find_row k db.rows)) db.rows;
          dependencies = dependencies;
        })
        replaced

abbrev pub upsert_normalized :
    Faults
    → ActionParams
    → ℕ
    → GraphDb
    → Result GraphError ActionKey
    → GraphDb × Result GraphError ActionNode
upsert_normalized faults p now db (err e) = (db, err e)
upsert_normalized faults p now db (ok k) =
    if trim_space p.title == ""
    then (db, err title_required)
    else upsert_at faults k (trim_space p.title) (unique_trimmed p.depends_on) now db

abbrev pub key_of : Service → String → String → String → String → Bool → Result GraphError ActionKey
key_of s workspace_id profile_id peer action_id require_action_id =
    or_scope_required
      (normalize_scoped_action s workspace_id profile_id peer action_id require_action_id)

unfoldable pub upsert_action :
    Service → Faults → ActionParams → ℕ → GraphDb → GraphDb × Result GraphError ActionNode
unfolding upsert_at unique_trimmed
upsert_action s faults p now db =
    upsert_normalized faults p now db (key_of s p.workspace_id p.profile_id p.peer p.action_id true)

abbrev pub complete_at :
    Faults → ℕ → GraphDb → Result GraphError ActionKey → GraphDb × Result GraphError ActionNode
complete_at faults now db (err e) = (db, err e)
complete_at faults now db (ok k) =
    let after = record db { rows = complete_rows k now db.rows } in
    if k.action_id == ""
    then (db, err id_required)
    else if faults complete_row
    then (db, err (sql_failed complete_row))
    else if not (any (λ row. same_key row.key k) db.rows)
    then (after, err no_rows)
    else (after, action_node_with_edges faults k after)

unfoldable pub complete_action :
    Service → Faults → ActionGraphQuery → ℕ → GraphDb → GraphDb × Result GraphError ActionNode
unfolding complete_rows action_node_with_edges
complete_action s faults q now db =
    complete_at faults now db (key_of s q.workspace_id q.profile_id q.peer q.action_id false)

abbrev pub signal_at :
    Faults
    → ActionSignalParams
    → ℕ
    → GraphDb
    → Result GraphError ActionKey
    → GraphDb × Result GraphError ActionSignal
signal_at faults p now db (err e) = (db, err e)
signal_at faults p now db (ok k) =
    let signal : ActionSignal = record {
      id = suc db.last_signal_id;
      key = k;
      signal = trim_space p.signal;
      message = trim_space p.message;
      actor = trim_space p.actor;
      created_at = now;
    } in
    if trim_space p.signal == ""
    then (db, err signal_required)
    else if faults get_action
    then (db, err (sql_failed get_action))
    else if faults insert_signal
    then (db, err (sql_failed insert_signal))
    else (
      record db { signals = db.signals ++ signal ∷ []; last_signal_id = suc db.last_signal_id },
      ok signal,
    )

-- The action is read, but it need not be there.
unfoldable pub signal_action :
    Service → Faults → ActionSignalParams → ℕ → GraphDb → GraphDb × Result GraphError ActionSignal
signal_action s faults p now db =
    signal_at faults p now db (key_of s p.workspace_id p.profile_id p.peer p.action_id true)
