-- ===== src/Actions/Graph/Answers.antt =====
-- The graph that `ReadActionGraph` returns, against the rows of the tables.
use mathlib.Core.List.{Perm}
use goncho.Prelude.{
  ℕ, ◌≡◌, ◌⊎◌, refl, subst, ◌∙◌, arith, Bool, true, false, not, ◌&&◌, List, [], ◌∷◌, ◌==◌, map,
  keep, all, All, inl, inr, IsDistinct,
}
use goncho.Prelude.Sort.{sort_by, sort_on, map-sort_on, sort_by-Perm, all-sort_by}
use goncho.Prelude.Result.{ok, err}
use goncho.Leases.Table.{ActionKey, in_scope, same_key}
use goncho.Leases.Params.{Service}
use goncho.Actions.{
  ActionNode, ActionSignal, is_ready, comes_first, sort_nodes, action_frontier, first_of,
  next_action,
}
use goncho.Actions.Frontier.{
  ids, can_start, is_ready-can_start, IsOldestFirst, sort_nodes-IsOldestFirst,
}
use goncho.Actions.Store.{key_of}
use goncho.Actions.Store.Keys.{IsNormal, IsNormal-key_of}
use goncho.Actions.Store.Texts.{sort_texts}
use goncho.Actions.Store.Texts.Sorted.{IsAscending, sort_texts-IsAscending}
use goncho.Actions.Store.Tables.{
  ActionGraphQuery, ActionRow, Dependency, GraphDb, Faults, Statement, sql_failed,
  listed_dependencies, listed_signals, sort_signals,
}
use goncho.Actions.Store.Steps.{GraphCall, run}
use goncho.Actions.Graph.{ActionGraph, graph_of, read_action_graph}
use goncho.Actions.Graph.Reads.{read_action_graph-graph_of, node_at, is_in, graph_nodes}
use goncho.Actions.Graph.Sound.{IsSound, run-IsSound, empty-IsSound}
use goncho.Actions.Graph.Contents.{graph_nodes-IsSound}
use goncho.Actions.Graph.Next.{no_graph}

-- An action of the workspace, the profile and the peer of a key.
abbrev pub shares_scope : ActionKey → ActionRow → Bool
shares_scope k row =
    row.key.workspace_id == k.workspace_id
    && (row.key.profile_id == k.profile_id && row.key.peer == k.peer)

-- A node with the fields of a row, with the dependencies that are stored under its key, in order, and the
-- signals that are stored under its key.
pub record IsNodeOf (db : GraphDb) (row : ActionRow) (node : ActionNode) : Type 0 where
  pub workspace_id : node.workspace_id ≡ row.key.workspace_id
  pub profile_id : node.profile_id ≡ row.key.profile_id
  pub peer : node.peer ≡ row.key.peer
  pub action_id : node.action_id ≡ row.key.action_id
  pub title : node.title ≡ row.title
  pub status : node.status ≡ row.status
  pub created_at : node.created_at ≡ row.created_at
  pub updated_at : node.updated_at ≡ row.updated_at
  pub dependencies : Perm node.depends_on (
      map
        (λ (d : Dependency). d.depends_on)
        (keep (λ (d : Dependency). same_key d.key row.key) db.dependencies))
  pub in_order : IsAscending node.depends_on
  pub signals : Perm node.signals (keep (λ (a : ActionSignal). same_key a.key row.key) db.signals)

-- As many nodes as rows, each with its row at the same place.
abbrev pub AreNodesOf : GraphDb → List ActionRow → List ActionNode → Type 0
AreNodesOf db [] [] = Unit
AreNodesOf db [] (node ∷ nodes) = ⊥
AreNodesOf db (row ∷ rows) [] = ⊥
AreNodesOf db (row ∷ rows) (node ∷ nodes) = IsNodeOf db row node × AreNodesOf db rows nodes

-- The graph of the scope of a key: its nodes are those of the rows of the scope, in an order in which none
-- follows a younger one; the frontier is the pending nodes whose dependencies are all done, in such an
-- order too, and its first node is the next action.
pub record IsGraphOf (k : ActionKey) (db : GraphDb) (graph : ActionGraph) : Type 0 where
  pub workspace_id : graph.workspace_id ≡ k.workspace_id
  pub profile_id : graph.profile_id ≡ k.profile_id
  pub peer : graph.peer ≡ k.peer
  pub rows : List ActionRow
  pub are_rows : Perm rows (keep (shares_scope k) db.rows)
  pub are_nodes : AreNodesOf db rows graph.nodes
  pub in_order : IsOldestFirst graph.nodes
  pub frontier : Perm graph.frontier (keep (can_start graph.nodes) graph.nodes)
  pub frontier_in_order : IsOldestFirst graph.frontier
  pub next : graph.next ≡ first_of graph.frontier

keep_ext :
    {A : Type 0} (p q : A → Bool) → ((a : A) → p a ≡ q a) → (xs : List A) → keep p xs ≡ keep q xs
keep_ext p q same [] = refl
keep_ext p q same (x ∷ xs) = ground (arith, same x, keep_ext p q same xs)

all-keep : {A : Type 0} (p q : A → Bool) (xs : List A) → all p xs ≡ true → all p (keep q xs) ≡ true
all-keep p q [] h = refl
all-keep p q (x ∷ xs) h = ground (arith, h, all-keep p q xs)

is_in-shares_scope : (k : ActionKey) (row : ActionRow) → is_in k row ≡ shares_scope k row
unfolding in_scope
is_in-shares_scope k row = ground arith

-- A scope with a named action holds that action only.
in_scope-same_key : (k at : ActionKey) → (k.action_id == "") ≡ false → in_scope k at ≡ same_key at k
unfolding in_scope same_key
in_scope-same_key k at named = rw named refl

abbrev is_named : ActionRow → Bool
is_named row = not (row.key.action_id == "")

IsNormal-is_named :
    (s : Service) (rows : List ActionRow)
    → All (λ row. IsNormal s row.key) rows
    → all is_named rows ≡ true
IsNormal-is_named s [] normal = refl
IsNormal-is_named s (row ∷ rows) normal =
    ground (arith, (IsNormal-key_of s row.key normal.0).1, IsNormal-is_named s rows normal.1)

node_at-IsNodeOf :
    (db : GraphDb) (row : ActionRow)
    → (row.key.action_id == "") ≡ false
    → IsNodeOf db row (node_at db row)
unfolding listed_dependencies listed_signals sort_texts sort_signals
node_at-IsNodeOf db row named = record {
  workspace_id = refl;
  profile_id = refl;
  peer = refl;
  action_id = refl;
  title = refl;
  status = refl;
  created_at = refl;
  updated_at = refl;
  dependencies =
      subst
        (λ ds.
          Perm (listed_dependencies row.key db.dependencies)
            (map (λ (d : Dependency). d.depends_on) ds))
        (keep_ext (λ (d : Dependency). in_scope row.key d.key) (λ d. same_key d.key row.key)
          (λ d. in_scope-same_key row.key d.key named) db.dependencies)
        (sort_by-Perm _ _);
  in_order = sort_texts-IsAscending (
      map (λ (d : Dependency). d.depends_on)
        (keep (λ (d : Dependency). in_scope row.key d.key) db.dependencies));
  signals =
      subst (λ signals. Perm (listed_signals row.key db.signals) signals)
        (keep_ext (λ (a : ActionSignal). in_scope row.key a.key) (λ a. same_key a.key row.key)
          (λ a. in_scope-same_key row.key a.key named) db.signals)
        (sort_by-Perm _ _);
}

map-AreNodesOf :
    (db : GraphDb) (rows : List ActionRow)
    → all is_named rows ≡ true
    → AreNodesOf db rows (map (node_at db) rows)
map-AreNodesOf db [] named = tt
map-AreNodesOf db (row ∷ rows) named =
    (node_at-IsNodeOf db row (ground arith), map-AreNodesOf db rows (ground arith))

-- The rows of the scope in the order of their nodes.
abbrev sorted_rows : ActionKey → GraphDb → List ActionRow
sorted_rows k db = sort_on (node_at db) comes_first (keep (is_in k) db.rows)

graph_nodes-AreNodesOf :
    (k : ActionKey) (db : GraphDb)
    → all is_named db.rows ≡ true
    → AreNodesOf db (sorted_rows k db) (graph_nodes k db)
unfolding sort_nodes
graph_nodes-AreNodesOf k db named =
    subst (AreNodesOf db (sorted_rows k db))
      (map-sort_on (node_at db) comes_first (keep (is_in k) db.rows))
      (map-AreNodesOf db (sorted_rows k db) (
        all-sort_by _ is_named (keep (is_in k) db.rows)
        ∙ all-keep is_named (is_in k) db.rows named))

action_frontier-Perm :
    (nodes : List ActionNode)
    → IsDistinct (ids nodes)
    → Perm (action_frontier nodes) (keep (can_start nodes) nodes)
unfolding action_frontier sort_nodes
action_frontier-Perm nodes distinct =
    subst (Perm (sort_by comes_first (keep (is_ready nodes) nodes)))
      (keep_ext (is_ready nodes) (can_start nodes) (λ m. is_ready-can_start nodes m distinct) nodes)
      (sort_by-Perm comes_first (keep (is_ready nodes) nodes))

action_frontier-IsOldestFirst : (nodes : List ActionNode) → IsOldestFirst (action_frontier nodes)
unfolding action_frontier
action_frontier-IsOldestFirst nodes = sort_nodes-IsOldestFirst (keep (is_ready nodes) nodes)

graph_of-IsGraphOf :
    (s : Service) (k : ActionKey) (db : GraphDb)
    → IsSound s db.rows
    → IsGraphOf k db (graph_of k (graph_nodes k db))
unfolding graph_of next_action
graph_of-IsGraphOf s k db sound =
    let (distinct, known, ordered) = graph_nodes-IsSound s k db sound in
    record {
      workspace_id = refl;
      profile_id = refl;
      peer = refl;
      rows = sorted_rows k db;
      are_rows =
          subst (Perm (sorted_rows k db))
            (keep_ext (is_in k) (shares_scope k) (is_in-shares_scope k) db.rows)
            (sort_by-Perm _ (keep (is_in k) db.rows));
      are_nodes = graph_nodes-AreNodesOf k db (IsNormal-is_named s db.rows sound.normal);
      in_order = ordered;
      frontier = action_frontier-Perm (graph_nodes k db) distinct;
      frontier_in_order = action_frontier-IsOldestFirst (graph_nodes k db);
      next = refl;
    }

-- After every series of upserts, completions and signals on empty tables, whatever of them failed, a
-- query with a scope is answered with the graph of that scope, or one of the statements has failed,
-- whose error is returned. The graph has a node for each action of the scope and no other, none after one
-- that was created later, each with the fields of its row, the dependencies that are stored under its
-- key, in order, and the signals that are stored under its key, as many of each; its frontier is the pending
-- nodes all of whose dependencies are nodes that are done, and the first of them is the next action.
pub read_action_graph-IsGraphOf :
    (s : Service) (calls : List (GraphCall × Faults × ℕ)) (faults : Faults) (q : ActionGraphQuery)
    (k : ActionKey)
    → key_of s q.workspace_id q.profile_id q.peer q.action_id false ≡ ok k
    → let db = run s calls no_graph in
      ((graph : ActionGraph) × (read_action_graph s faults q db ≡ ok graph) × IsGraphOf k db graph)
      ⊎ ((statement : Statement) × (faults statement ≡ true)
          × (read_action_graph s faults q db ≡ err (sql_failed statement)))
read_action_graph-IsGraphOf s calls faults q k named =
    let db = run s calls no_graph in
    let sound = run-IsSound s calls no_graph (empty-IsSound s) in
    elim (read_action_graph-graph_of s faults q db k named) [
      | inl answered ↦
          inl (graph_of k (graph_nodes k db), answered, graph_of-IsGraphOf s k db sound)
      | inr failed ↦ inr failed
    ]
