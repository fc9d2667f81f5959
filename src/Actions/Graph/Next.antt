-- ===== src/Actions/Graph/Next.antt =====
-- A graph that was read while work is left names the action to do next.
use goncho.Prelude.{
  ℕ, ◌≡◌, ap, sym, ◌∙◌, arith, String, Bool, true, false, not, ◌&&◌, ◌||◌, some, List, [], ◌==◌,
  any, all, inl, inr, ltb,
}
use goncho.Prelude.Result.{ok}
use goncho.Leases.Table.{ActionKey, in_scope}
use goncho.Leases.Params.{Service}
use goncho.Actions.{ActionNode, is_pending, next_action}
use goncho.Actions.Frontier.{has_status, can_start}
use goncho.Prelude.Quantifiers.{all_ext, any_ext}
use goncho.Actions.Progress.{is_older, depends_below, next_action-progress}
use goncho.Actions.Store.{key_of}
use goncho.Actions.Store.Tables.{
  ActionGraphQuery, ActionRow, Dependency, GraphDb, Faults, Statement, listed_dependencies,
}
use goncho.Actions.Store.Steps.{GraphCall, run}
use goncho.Actions.Graph.{ActionGraph, scope_of, graph_of, read_action_graph}
use goncho.Actions.Graph.Reads.{is_in, graph_nodes, read_action_graph-graph_of}
use goncho.Actions.Graph.Sound.{IsSound, run-IsSound, empty-IsSound}
use goncho.Actions.Graph.Contents.{all-graph_nodes, any-graph_nodes, graph_nodes-IsSound}

-- Tables without rows.
abbrev pub no_graph : GraphDb
no_graph = record { rows = []; dependencies = []; signals = []; last_signal_id = 0 }

abbrev pub NoFaults : Faults → Type 0
NoFaults faults = (statement : Statement) → faults statement ≡ false

-- An action of the scope that is pending.
abbrev pub is_open : ActionKey → ActionRow → Bool
is_open k row = is_in k row && row.status == "pending"

abbrev pub has_action : ActionKey → List ActionRow → String → Bool
has_action k rows id = any (λ row. is_in k row && row.key.action_id == id) rows

pub read_graph :
    (s : Service) (faults : Faults) (q : ActionGraphQuery) (db : GraphDb) (k : ActionKey)
    → NoFaults faults
    → key_of s q.workspace_id q.profile_id q.peer q.action_id false ≡ ok k
    → read_action_graph s faults q db ≡ ok (graph_of k (graph_nodes k db))
read_graph s faults q db k up named = elim (read_action_graph-graph_of s faults q db k named) [
  | inl answered ↦ answered
  | inr (statement, down, failed) ↦ let clash : true ≡ false = sym down ∙ up statement in cc
]

module _ (rank : String → ℕ) (k : ActionKey) where
  -- What the action of a key depends on passes the test and has a lower rank.
  abbrev pub key_below : (String → Bool) → List Dependency → ActionKey → Bool
  key_below has ds key =
      not (in_scope (scope_of k) key)
      || all (λ dep. has dep && ltb (rank dep) (rank key.action_id)) (listed_dependencies key ds)

  -- Each dependency of an action of the scope is an action of the scope, of a lower rank.
  abbrev pub IsRanked : GraphDb → Type 0
  IsRanked db = all (λ row. key_below (has_action k db.rows) db.dependencies row.key) db.rows ≡ true

  has_status-has_action :
      (db : GraphDb) (id : String)
      → has_status (λ status. true) id (graph_nodes k db) ≡ has_action k db.rows id
  has_status-has_action db id =
      any-graph_nodes (λ m. m.action_id == id && true) k db
      ∙ any_ext (λ row. is_in k row && (row.key.action_id == id && true))
          (λ row. is_in k row && row.key.action_id == id) db.rows (λ row. ground arith)

  pub IsRanked-depends_below :
      (db : GraphDb)
      → IsRanked db
      → all (depends_below rank (graph_nodes k db)) (graph_nodes k db) ≡ true
  IsRanked-depends_below db ranked =
      all-graph_nodes (depends_below rank (graph_nodes k db)) k db
      ∙ all_ext _ (λ row. key_below (has_action k db.rows) db.dependencies row.key) db.rows
          (λ row.
            ap (λ b. not (is_in k row) || b)
              (all_ext _
                (λ dep. has_action k db.rows dep && ltb (rank dep) (rank row.key.action_id))
                (listed_dependencies row.key db.dependencies)
                (λ dep.
                  ap (λ b. b && ltb (rank dep) (rank row.key.action_id))
                    (has_status-has_action db dep))))
      ∙ ranked

  pub graph_nodes-progress :
      (s : Service) (db : GraphDb)
      → IsSound s db.rows
      → IsRanked db
      → any (is_open k) db.rows ≡ true
      → (node : ActionNode) × (next_action (graph_nodes k db) ≡ some node)
        × (can_start (graph_nodes k db) node ≡ true)
        × (any (λ m. is_older node m && can_start (graph_nodes k db) m) (graph_nodes k db) ≡ false)
  graph_nodes-progress s db sound ranked pending =
      let (distinct, known, ordered) = graph_nodes-IsSound s k db sound in
      next_action-progress rank (graph_nodes k db) distinct known (IsRanked-depends_below db ranked)
        (any-graph_nodes is_pending k db ∙ pending)

  -- After every series of upserts, completions and signals on empty tables, whatever of them failed: when
  -- no statement of the read fails, each dependency of an action of the scope is an action of
  -- the scope of a lower rank, and an action of the scope is pending, the graph that is read has a
  -- next action, which is pending with all its dependencies done, such that no node
  -- of which the same holds was created earlier.
  pub read_action_graph-progress :
      (s : Service) (calls : List (GraphCall × Faults × ℕ)) (faults : Faults) (q : ActionGraphQuery)
      → NoFaults faults
      → key_of s q.workspace_id q.profile_id q.peer q.action_id false ≡ ok k
      → IsRanked (run s calls no_graph)
      → any (is_open k) (run s calls no_graph).rows ≡ true
      → (graph : ActionGraph) × (node : ActionNode) × (read_action_graph s faults q
            (run s calls no_graph)
          ≡ ok graph)
        × (graph.next ≡ some node)
        × (can_start graph.nodes node ≡ true)
        × (any (λ m. is_older node m && can_start graph.nodes m) graph.nodes ≡ false)
  unfolding graph_of
  read_action_graph-progress s calls faults q up named ranked pending =
      let db = run s calls no_graph in
      let found =
        graph_nodes-progress s db (run-IsSound s calls no_graph (empty-IsSound s)) ranked pending in
      (
        graph_of k (graph_nodes k db),
        found.0,
        read_graph s faults q db k up named,
        found.1,
        found.2,
        found.3,
      )
