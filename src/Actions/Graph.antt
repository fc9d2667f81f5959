-- ===== src/Actions/Graph.antt =====
-- service/action_graph.go: `ReadActionGraph`, the graph of a scope read from the three tables. Its
-- statements are not in a transaction; here nothing changes the tables between them.
use goncho.Prelude.{ℕ, suc, String, false, Option, List, [], ◌∷◌, if◌then◌else◌, keep, map}
use goncho.Prelude.Result.{Result, ok, err, ◌>>=◌}
use goncho.Leases.Table.{ActionKey, in_scope}
use goncho.Leases.Params.{Service}
use goncho.Actions.{ActionNode, sort_nodes, action_frontier, next_action}
use goncho.Actions.Store.{key_of}
use goncho.Actions.Store.Tables.{
  ActionGraphQuery, ActionRow, GraphDb, GraphError, Faults, run_sql, node_of, listed_dependencies,
  listed_signals, list_actions, list_node_dependencies, list_node_signals,
}
pub mod Reads
pub mod Sound
pub mod Contents
pub mod Answers
pub mod Next
pub mod Completed
pub mod Rounds
mod Examples

pub record ActionGraph : Type 0 where
  pub workspace_id : String
  pub profile_id : String
  pub peer : String
  pub nodes : List ActionNode
  pub frontier : List ActionNode
  pub next : Option ActionNode

-- A row as `listActionNodes` scans it.
abbrev pub bare_node : ActionRow → ActionNode
bare_node row = node_of row [] []

-- Every action of the workspace, the profile and the peer.
abbrev pub scope_of : ActionKey → ActionKey
scope_of k = record k { action_id = "" }

unfoldable pub list_action_nodes :
    Faults → ActionKey → GraphDb → Result GraphError (List ActionNode)
unfolding sort_nodes in_scope
list_action_nodes faults k db =
    run_sql faults list_actions
      (sort_nodes (map bare_node (keep (λ row. in_scope (scope_of k) row.key) db.rows)))

abbrev pub key_in : ActionKey → String → ActionKey
key_in k action_id = record k { action_id = action_id }

-- The loop of `ReadActionGraph` over the nodes, from the position given.
unfoldable pub with_edges :
    Faults → ActionKey → GraphDb → ℕ → List ActionNode → Result GraphError (List ActionNode)
unfolding listed_dependencies listed_signals
with_edges faults k db i [] = ok []
with_edges faults k db i (node ∷ nodes) =
    let at = key_in k node.action_id in
    let rest = with_edges faults k db (suc i) nodes in
    run_sql faults (list_node_dependencies i) (listed_dependencies at db.dependencies) >>= λ deps.
    run_sql faults (list_node_signals i) (listed_signals at db.signals) >>= λ signals.
    rest >>= λ later. ok (record node { depends_on = deps; signals = signals } ∷ later)

unfoldable pub graph_of : ActionKey → List ActionNode → ActionGraph
unfolding action_frontier next_action
graph_of k nodes = record {
  workspace_id = k.workspace_id;
  profile_id = k.profile_id;
  peer = k.peer;
  nodes = nodes;
  frontier = action_frontier nodes;
  next = next_action nodes;
}

unfoldable pub read_action_graph :
    Service → Faults → ActionGraphQuery → GraphDb → Result GraphError ActionGraph
unfolding list_action_nodes with_edges graph_of
read_action_graph s faults q db =
    key_of s q.workspace_id q.profile_id q.peer q.action_id false >>= λ k.
    list_action_nodes faults k db >>= λ nodes.
    with_edges faults k db 0 nodes >>= λ nodes. ok (graph_of k nodes)
