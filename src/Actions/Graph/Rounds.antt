-- ===== src/Actions/Graph/Rounds.antt =====
-- A caller that reads the graph and completes the action that it names, until there is none.
use goncho.Prelude.Quantifiers.{any-witness}
use goncho.Prelude.{
  ℕ, zero, suc, ◌≡◌, refl, ap, sym, ◌∙◌, arith, String, Bool, true, false, not, ◌&&◌, ◌||◌, Option,
  some, none, List, [], ◌∷◌, any, all, inl, inr, Bool-cases,
}
use goncho.Prelude.Result.{Result, ok, err}
use goncho.Leases.Table.{ActionKey, same_key}
use goncho.Leases.Params.{Service}
use goncho.Leases.Rows.{same_key_iff, same_key_refl}
use goncho.Actions.{ActionNode, action_frontier, next_action}
use goncho.Actions.Frontier.{can_start, is_done}
use goncho.Actions.Progress.{any-action_frontier}
use goncho.Actions.Store.{key_of, complete_at, complete_action}
use goncho.Actions.Store.Keys.{IsNormal, IsNormal-key_of}
use goncho.Actions.Store.Tables.{
  ActionGraphQuery, ActionRow, GraphDb, GraphError, Faults, complete_row, complete_rows,
}
use goncho.Actions.Store.Steps.{GraphCall, run}
use goncho.Actions.Graph.{ActionGraph, graph_of, read_action_graph}
use goncho.Actions.Graph.Reads.{is_in, node_at, graph_nodes}
use goncho.Actions.Graph.Sound.{
  is_known, IsSound, complete_rows-IsSound, run-IsSound, empty-IsSound,
}
use goncho.Actions.Graph.Contents.{any-graph_nodes, all-graph_nodes, graph_nodes-IsSound}
use goncho.Actions.Graph.Next.{
  no_graph, NoFaults, is_open, IsRanked, read_graph, graph_nodes-progress,
}
use goncho.Actions.Graph.Completed.{
  open_count, open_count-complete_rows, IsRanked-complete_rows, node_key, first_of-any,
}

abbrev about : ActionNode → ActionGraphQuery
about node = record {
  workspace_id = node.workspace_id;
  profile_id = node.profile_id;
  peer = node.peer;
  action_id = node.action_id;
}

module _ (s : Service) (faults : Faults) (q : ActionGraphQuery) (now : ℕ) where
  abbrev complete_next : Option ActionNode → GraphDb → GraphDb
  complete_next none db = db
  complete_next (some node) db = (complete_action s faults (about node) now db).0

  abbrev after_read : Result GraphError ActionGraph → GraphDb → GraphDb
  after_read (err e) db = db
  after_read (ok graph) db = complete_next graph.next db

  -- One round: read the graph, and complete the action that it names.
  unfoldable pub work : GraphDb → GraphDb
  unfolding read_action_graph complete_action
  work db = after_read (read_action_graph s faults q db) db

  unfoldable pub work_rounds : ℕ → GraphDb → GraphDb
  unfolding work
  work_rounds zero db = db
  work_rounds (suc n) db = work_rounds n (work db)

-- The next action stands in the tables as a pending one.
next_action-row :
    (s : Service) (k : ActionKey) (db : GraphDb) (node : ActionNode)
    → IsSound s db.rows
    → next_action (graph_nodes k db) ≡ some node
    → can_start (graph_nodes k db) node ≡ true
    → (at : ActionKey) × (node_key node ≡ at)
      × IsNormal s at
      × (any (λ row. same_key row.key at && is_open k row) db.rows ≡ true)
unfolding next_action
next_action-row s k db node sound next starts =
    let nodes = graph_nodes k db in
    let mine : ActionNode → Bool = λ m. same_key (node_key m) (node_key node) in
    let listed : any (λ m. mine m && can_start nodes m) nodes ≡ true =
      sym (any-action_frontier nodes mine (graph_nodes-IsSound s k db sound).0)
      ∙ first_of-any (action_frontier nodes) mine next (same_key_refl (node_key node)) in
    let row_test : ActionRow → Bool =
      λ row. is_in k row && (mine (node_at db row) && can_start nodes (node_at db row)) in
    let w =
      any-witness row_test db.rows
        (sym (any-graph_nodes (λ m. mine m && can_start nodes m) k db) ∙ listed) in
    let row = w.0 in
    (
      row.key,
      sym ((same_key_iff row.key (node_key node)).0 (ground (arith, w.1))),
      w.4 (λ (r : ActionRow). IsNormal s r.key) sound.normal,
      w.2 (λ r. same_key r.key row.key && is_open k r) (ground (arith, w.1, same_key_refl row.key)),
    )

complete_action-db :
    (s : Service) (faults : Faults) (node : ActionNode) (now : ℕ) (db : GraphDb) (at : ActionKey)
    → NoFaults faults
    → node_key node ≡ at
    → IsNormal s at
    → any (λ row. same_key row.key at) db.rows ≡ true
    → (complete_action s faults (about node) now db).0
      ≡ record db { rows = complete_rows at now db.rows }
unfolding complete_action
complete_action-db s faults node now db at up e normal hit =
    let (named, full) = IsNormal-key_of s at normal in
    ap
      (λ (x : ActionKey).
        (complete_at faults now db
          (key_of s x.workspace_id x.profile_id x.peer x.action_id false)).0)
      e
    ∙ ap (λ key. (complete_at faults now db key).0) named
    ∙ rw (full, up complete_row, hit) refl

hit_of_open :
    (k at : ActionKey) (rows : List ActionRow)
    → any (λ row. same_key row.key at && is_open k row) rows ≡ true
    → any (λ row. same_key row.key at) rows ≡ true
hit_of_open k at [] h = cc
hit_of_open k at (row ∷ rows) h = ground (arith, h, hit_of_open k at rows)

open_count-any :
    (k : ActionKey) (rows : List ActionRow) (n : ℕ)
    → open_count k rows ≡ suc n
    → any (is_open k) rows ≡ true
open_count-any k [] n h = ground (arith, h)
open_count-any k (row ∷ rows) n h = elim (Bool-cases (is_open k row)) [
  | inl here ↦ rw here refl
  | inr closed ↦ rw closed (open_count-any k rows n (rw closed at h))
]

closed_is_done :
    (k : ActionKey) (db : GraphDb) (rows : List ActionRow)
    → all is_known rows ≡ true
    → open_count k rows ≡ 0
    → all (λ row. not (is_in k row) || is_done row.status) rows ≡ true
closed_is_done k db [] known h = refl
closed_is_done k db (row ∷ rows) known h = elim (Bool-cases (is_open k row)) [
  | inl here ↦ let more : suc (open_count k rows) ≡ 0 = rw here at h in ground (arith, more)
  | inr closed ↦
      ground
        (arith, known, closed, closed_is_done k db rows (ground (arith, known)) (rw closed at h))
]

module _ (s : Service) (faults : Faults) (q : ActionGraphQuery) (now : ℕ) (k : ActionKey)
    (rank : String → ℕ) where
  -- A round with work left completes one action.
  work-complete_rows :
      (db : GraphDb)
      → NoFaults faults
      → key_of s q.workspace_id q.profile_id q.peer q.action_id false ≡ ok k
      → IsSound s db.rows
      → IsRanked rank k db
      → any (is_open k) db.rows ≡ true
      → (at : ActionKey) × (work s faults q now db
          ≡ record db { rows = complete_rows at now db.rows })
        × (any (λ row. same_key row.key at && is_open k row) db.rows ≡ true)
  unfolding work graph_of
  work-complete_rows db up named sound ranked pending =
      let (node, next, starts, oldest) = graph_nodes-progress rank k s db sound ranked pending in
      let (at, e, normal, open_row) = next_action-row s k db node sound next starts in
      (
        at,
        ap (λ r. after_read s faults q now r db) (read_graph s faults q db k up named)
            ∙ ap (λ o. complete_next s faults q now o db) next
            ∙ complete_action-db s faults node now db at up e normal
                (hit_of_open k at db.rows open_row),
        open_row,
      )

  work_rounds-done :
      (n : ℕ) (db : GraphDb)
      → NoFaults faults
      → key_of s q.workspace_id q.profile_id q.peer q.action_id false ≡ ok k
      → IsSound s db.rows
      → IsRanked rank k db
      → open_count k db.rows ≡ n
      → all (λ node. is_done node.status) (graph_nodes k (work_rounds s faults q now n db)) ≡ true
  unfolding work_rounds
  work_rounds-done zero db up named sound ranked count =
      all-graph_nodes (λ node. is_done node.status) k db
      ∙ closed_is_done k db db.rows sound.known count
  work_rounds-done (suc n) db up named sound ranked count =
      let (at, e, open_row) =
        work-complete_rows db up named sound ranked (open_count-any k db.rows n count) in
      let after : GraphDb = record db { rows = complete_rows at now db.rows } in
      ap (λ d. all (λ node. is_done node.status) (graph_nodes k (work_rounds s faults q now n d))) e
      ∙ work_rounds-done n after up named (complete_rows-IsSound s at now db.rows sound)
          (IsRanked-complete_rows rank k at now db ranked)
          (let less = open_count-complete_rows k at now db.rows sound.distinct open_row in
            omega (arith, less, count))

  -- After every series of upserts, completions and signals on empty tables, whatever of them failed: when
  -- no statement fails any more and each dependency of an action of the scope is an action of the scope of a
  -- lower rank, then after as many rounds as there are pending actions in the scope, each of which
  -- reads the graph and completes its next action, the graph that is read holds
  -- only actions that are done.
  pub work_rounds-finish :
      (calls : List (GraphCall × Faults × ℕ))
      → NoFaults faults
      → key_of s q.workspace_id q.profile_id q.peer q.action_id false ≡ ok k
      → IsRanked rank k (run s calls no_graph)
      → (graph : ActionGraph) × (read_action_graph s faults q (
            work_rounds s faults q now
              (open_count k (run s calls no_graph).rows)
              (run s calls no_graph))
          ≡ ok graph)
        × (all (λ node. is_done node.status) graph.nodes ≡ true)
  unfolding graph_of
  work_rounds-finish calls up named ranked =
      let db = run s calls no_graph in
      let n = open_count k db.rows in
      (
        graph_of k (graph_nodes k (work_rounds s faults q now n db)),
        read_graph s faults q (work_rounds s faults q now n db) k up named,
        work_rounds-done n db up named (run-IsSound s calls no_graph (empty-IsSound s)) ranked refl,
      )
