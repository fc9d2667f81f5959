-- ===== src/Actions/Graph/Reads.antt =====
-- What `ReadActionGraph` returns.
use goncho.Prelude.{
  ℕ, suc, ◌≡◌, ◌⊎◌, refl, ap, ◌∙◌, arith, Bool, true, false, List, [], ◌∷◌, map, keep, Bool-cases,
  inl, inr, eq_iff,
}
use goncho.Prelude.Sort.{map-sort_by}
use goncho.Prelude.Result.{Result, ok, err, ◌>>=◌}
use goncho.Leases.Table.{ActionKey, in_scope}
use goncho.Leases.Params.{Service}
use goncho.Actions.{ActionNode, comes_first, sort_nodes}
use goncho.Actions.Store.{key_of}
use goncho.Actions.Store.Tables.{
  ActionGraphQuery, ActionRow, GraphDb, GraphError, Statement, sql_failed, Faults, run_sql, node_of,
  listed_dependencies, listed_signals, list_actions, list_node_dependencies, list_node_signals,
}
use goncho.Actions.Graph.{
  bare_node, scope_of, key_in, list_action_nodes, with_edges, graph_of, read_action_graph,
}

-- A row of the actions with its dependencies and its signals.
abbrev pub node_at : GraphDb → ActionRow → ActionNode
node_at db row =
    node_of row (listed_dependencies row.key db.dependencies) (listed_signals row.key db.signals)

abbrev pub is_in : ActionKey → ActionRow → Bool
is_in k row = in_scope (scope_of k) row.key

-- The nodes of the scope of a key, as they stand in the tables.
abbrev pub graph_nodes : ActionKey → GraphDb → List ActionNode
graph_nodes k db = sort_nodes (map (node_at db) (keep (is_in k) db.rows))

abbrev attach : ActionKey → GraphDb → ActionNode → ActionNode
attach k db node = record node {
  depends_on = listed_dependencies (key_in k node.action_id) db.dependencies;
  signals = listed_signals (key_in k node.action_id) db.signals;
}

-- It is what was asked for, or a statement has failed.
abbrev Answers : {A : Type 0} → Faults → Result GraphError A → A → Type 0
Answers faults result answer =
    (result ≡ ok answer)
    ⊎ ((statement : Statement) × (faults statement ≡ true) × (result ≡ err (sql_failed statement)))

run_sql-Answers :
    {A : Type 0} (faults : Faults) (statement : Statement) (a : A)
    → Answers faults (run_sql faults statement a) a
run_sql-Answers faults statement a = elim (Bool-cases (faults statement)) [
  | inl down ↦ inr (statement, down, rw down refl)
  | inr up ↦ inl (rw up refl)
]

Answers-bind :
    {A B : Type 0} (faults : Faults) (first : Result GraphError A) (next : A → Result GraphError B)
    (a : A) (b : B)
    → Answers faults first a
    → Answers faults (next a) b
    → Answers faults (first >>= next) b
Answers-bind faults first next a b (inr (statement, down, failed)) rest =
    inr (statement, down, ap (λ r. r >>= next) failed)
Answers-bind faults first next a b (inl done) (inl rest) = inl (ap (λ r. r >>= next) done ∙ rest)
Answers-bind faults first next a b (inl done) (inr (statement, down, failed)) =
    inr (statement, down, ap (λ r. r >>= next) done ∙ failed)

with_edges-Answers :
    (faults : Faults) (k : ActionKey) (db : GraphDb) (i : ℕ) (nodes : List ActionNode)
    → Answers faults (with_edges faults k db i nodes) (map (attach k db) nodes)
unfolding with_edges
with_edges-Answers faults k db i [] = inl refl
with_edges-Answers faults k db i (node ∷ nodes) =
    let at = key_in k node.action_id in
    Answers-bind faults _ _ (listed_dependencies at db.dependencies) _
      (run_sql-Answers faults (list_node_dependencies i) _)
      (Answers-bind faults _ _ (listed_signals at db.signals) _
        (run_sql-Answers faults (list_node_signals i) _)
        (Answers-bind faults _ _ (map (attach k db) nodes) _
          (with_edges-Answers faults k db (suc i) nodes) (inl refl)))

-- A row in the scope stands under the key of the scope with its own id.
pub is_in-key :
    (k : ActionKey) (row : ActionRow) → is_in k row ≡ true → key_in k row.key.action_id ≡ row.key
unfolding in_scope
is_in-key k row h = ground (
  arith,
  h,
  eq_iff row.key.workspace_id k.workspace_id,
  eq_iff row.key.profile_id k.profile_id,
  eq_iff row.key.peer k.peer,
)

attach-rows :
    (k : ActionKey) (db : GraphDb) (rows : List ActionRow)
    → map (attach k db) (map bare_node (keep (is_in k) rows))
      ≡ map (node_at db) (keep (is_in k) rows)
attach-rows k db [] = refl
attach-rows k db (row ∷ rows) = elim (Bool-cases (is_in k row)) [
  | inl here ↦
      let e = is_in-key k row here in
      rw here (
        ap
          (λ (at : ActionKey).
            node_of row (listed_dependencies at db.dependencies) (listed_signals at db.signals)
            ∷ map (attach k db) (map bare_node (keep (is_in k) rows)))
          e
        ∙ ap (λ rest. node_at db row ∷ rest) (attach-rows k db rows))
  | inr out ↦ rw out (attach-rows k db rows)
]

list_action_nodes-Answers :
    (faults : Faults) (k : ActionKey) (db : GraphDb)
    → Answers faults
        (list_action_nodes faults k db)
        (sort_nodes (map bare_node (keep (is_in k) db.rows)))
unfolding list_action_nodes
list_action_nodes-Answers faults k db = run_sql-Answers faults list_actions _

pub read_action_graph-graph_of :
    (s : Service) (faults : Faults) (q : ActionGraphQuery) (db : GraphDb) (k : ActionKey)
    → key_of s q.workspace_id q.profile_id q.peer q.action_id false ≡ ok k
    → (read_action_graph s faults q db ≡ ok (graph_of k (graph_nodes k db)))
      ⊎ ((statement : Statement) × (faults statement ≡ true)
          × (read_action_graph s faults q db ≡ err (sql_failed statement)))
unfolding read_action_graph sort_nodes
read_action_graph-graph_of s faults q db k named =
    let bare = sort_nodes (map bare_node (keep (is_in k) db.rows)) in
    let same : map (attach k db) bare ≡ graph_nodes k db =
      map-sort_by comes_first (attach k db) (λ a b. (unfold comes_first in refl))
        (map bare_node (keep (is_in k) db.rows))
      ∙ ap sort_nodes (attach-rows k db db.rows) in
    Answers-bind faults _ _ k _ (inl named) (
      Answers-bind faults _ _ bare _ (list_action_nodes-Answers faults k db) (
        Answers-bind faults _ _ (map (attach k db) bare) _ (with_edges-Answers faults k db 0 bare)
          (inl (ap (λ nodes. ok (graph_of k nodes)) same))))
