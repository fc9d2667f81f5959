-- ===== src/Actions/Graph/Examples.antt =====
-- A graph of two actions, written, read and worked off.
use goncho.Prelude.{
  ℕ, zero, suc, String, contains, ◌≡◌, ◌⊎◌, refl, true, false, some, List, [], ◌∷◌, ◌&&◌, ◌==◌, any,
  all, if◌then◌else◌,
}
use goncho.Prelude.Text.{trim_space, is_space}
use goncho.Prelude.Result.{ok, err}
use goncho.Leases.Table.{ActionKey, same_key, in_scope}
use goncho.Leases.Params.{Service, normalize_scoped_action}
use goncho.Actions.{ActionNode}
use goncho.Actions.Frontier.{can_start, is_done}
use goncho.Actions.Progress.{is_older}
use goncho.Actions.Store.{key_of, upsert_action}
use goncho.Actions.Store.Tables.{
  ActionGraphQuery, ActionRow, GraphDb, Statement, sql_failed, Faults, list_node_signals,
}
use goncho.Actions.Store.Steps.{GraphCall, upserting, run}
use goncho.Actions.Graph.{ActionGraph, read_action_graph}
use goncho.Actions.Graph.Answers.{IsGraphOf, read_action_graph-IsGraphOf}
use goncho.Actions.Graph.Next.{no_graph, read_action_graph-progress}
use goncho.Actions.Graph.Completed.{open_count}
use goncho.Actions.Graph.Rounds.{work_rounds, work_rounds-finish}

abbrev solo : Service
solo = record { workspace_id = "main"; server_mode = "" }

abbrev up : Faults
up statement = false

-- The signals of the second node cannot be read.
abbrev no_signals : Faults
no_signals (list_node_signals (suc zero)) = true
no_signals statement = false

abbrev todo : String → List String → GraphCall
todo action_id depends_on = upserting (record {
  workspace_id = "";
  profile_id = "";
  peer = "ana";
  action_id = action_id;
  title = action_id;
  depends_on = depends_on;
})

-- "ship" waits for "test".
abbrev calls : List (GraphCall × Faults × ℕ)
calls = (todo "ship" ("test" ∷ []), up, 1) ∷ (todo "test" [], up, 2) ∷ []

abbrev everything : ActionGraphQuery
everything = record { workspace_id = ""; profile_id = ""; peer = " ana"; action_id = "" }

abbrev scope : ActionKey
scope = record { workspace_id = "main"; profile_id = ""; peer = "ana"; action_id = "" }

abbrev rank : String → ℕ
rank id = if id == "ship" then 1 else 0

abbrev row_of : String → ℕ → ActionRow
row_of action_id now = record {
  key = record scope { action_id = action_id };
  title = action_id;
  status = "pending";
  created_at = now;
  updated_at = now;
}

abbrev tables : GraphDb
tables = record {
  rows = row_of "ship" 1 ∷ row_of "test" 2 ∷ [];
  dependencies = record { key = record scope { action_id = "ship" }; depends_on = "test" } ∷ [];
  signals = [];
  last_signal_id = 0;
}

tables_written : run solo calls no_graph ≡ tables
unfolding upsert_action normalize_scoped_action trim_space is_space same_key in_scope contains
tables_written = refl

fails_on_signals :
    read_action_graph solo no_signals everything tables ≡ err (sql_failed (list_node_signals 1))
unfolding read_action_graph normalize_scoped_action trim_space is_space
fails_on_signals = refl

everything_in_scope : key_of solo "" "" " ana" "" false ≡ ok scope
unfolding normalize_scoped_action trim_space is_space
everything_in_scope = refl

read_action_graph-IsGraphOf_example :
    let db = run solo calls no_graph in
    ((graph : ActionGraph) × (read_action_graph solo up everything db ≡ ok graph)
      × IsGraphOf scope db graph)
    ⊎ ((statement : Statement) × (up statement ≡ true)
        × (read_action_graph solo up everything db ≡ err (sql_failed statement)))
read_action_graph-IsGraphOf_example =
    read_action_graph-IsGraphOf solo calls up everything scope everything_in_scope

read_action_graph-progress_example :
    (graph : ActionGraph) × (node : ActionNode) × (read_action_graph solo up everything
        (run solo calls no_graph)
      ≡ ok graph)
    × (graph.next ≡ some node)
    × (can_start graph.nodes node ≡ true)
    × (any (λ m. is_older node m && can_start graph.nodes m) graph.nodes ≡ false)
unfolding upsert_action normalize_scoped_action trim_space is_space same_key in_scope contains
read_action_graph-progress_example =
    read_action_graph-progress rank scope solo calls up everything (λ statement. refl)
      everything_in_scope refl refl

work_rounds-finish_example :
    (graph : ActionGraph) × (read_action_graph solo up everything (
        work_rounds solo up everything 9
          (open_count scope (run solo calls no_graph).rows)
          (run solo calls no_graph))
      ≡ ok graph)
    × (all (λ node. is_done node.status) graph.nodes ≡ true)
unfolding upsert_action normalize_scoped_action trim_space is_space same_key in_scope contains
work_rounds-finish_example =
    work_rounds-finish solo up everything 9 scope rank calls (λ statement. refl) everything_in_scope
      refl
