-- ===== src/Actions.antt =====
-- service/action_graph.go: the nodes of an action graph, and which of them can be worked on next. The
-- receipts of a signal are left out.
use Prim.Native.Nat.{Ordering}
use Prim.Native.String.{compare}
use goncho.Prelude.{
  ℕ, String, Bool, true, false, ◌&&◌, ◌||◌, Option, none, some, List, [], ◌∷◌, ◌==◌, ltb, eqb,
  if◌then◌else◌, keep, all,
}
use goncho.Prelude.Sort.{text_ltb, sort_by}
use goncho.Leases.Table.{ActionKey}
pub mod Frontier
pub mod Progress
pub mod Store
pub mod Graph
mod Examples

pub record ActionSignal : Type 0 where
  pub id : ℕ
  pub key : ActionKey
  pub signal : String
  pub message : String
  pub actor : String
  pub created_at : ℕ

pub record ActionNode : Type 0 where
  pub workspace_id : String
  pub profile_id : String
  pub peer : String
  pub action_id : String
  pub title : String
  pub status : String
  pub depends_on : List String
  pub signals : List ActionSignal
  pub created_at : ℕ
  pub updated_at : ℕ

-- The map `statusByID` at an id, once the loop has run over the nodes: a later node overwrites an
-- earlier one, and the last argument is what the map has before.
unfoldable pub status_from : String → List ActionNode → String → String
status_from id [] found = found
status_from id (node ∷ nodes) found =
    status_from id nodes (if node.action_id == id then node.status else found)

-- A missing key gives the zero value.
unfoldable pub status_by_id : List ActionNode → String → String
unfolding status_from
status_by_id nodes id = status_from id nodes ""

abbrev pub is_pending : ActionNode → Bool
is_pending node = node.status == "pending"

unfoldable pub is_ready : List ActionNode → ActionNode → Bool
unfolding status_by_id
is_ready nodes node =
    is_pending node && all (λ dep. status_by_id nodes dep == "done") node.depends_on

-- The order of `sort.Slice`: the time of creation, then the id.
unfoldable pub comes_first : ActionNode → ActionNode → Bool
comes_first a b =
    ltb a.created_at b.created_at
    || (eqb a.created_at b.created_at && text_ltb a.action_id b.action_id)

unfoldable pub sort_nodes : List ActionNode → List ActionNode
unfolding sort_by comes_first
sort_nodes nodes = sort_by comes_first nodes

-- The ids of the nodes of one graph are distinct, so that the sort has one result.
unfoldable pub action_frontier : List ActionNode → List ActionNode
unfolding is_ready sort_nodes
action_frontier nodes = sort_nodes (keep (is_ready nodes) nodes)

abbrev pub first_of : List ActionNode → Option ActionNode
first_of [] = none
first_of (node ∷ nodes) = some node

-- `NextAction` of `ReadActionGraph`: the first node of the frontier.
unfoldable pub next_action : List ActionNode → Option ActionNode
unfolding action_frontier
next_action nodes = first_of (action_frontier nodes)
