-- ===== src/Actions/Graph/Contents.antt =====
-- The nodes of a graph that was read, and the rows that they come from.
use goncho.Prelude.Quantifiers.{all-map-keep, any-map-keep}
use goncho.Prelude.{
  ◌≡◌, refl, ap, ◌∙◌, arith, String, Bool, true, false, not, ◌&&◌, ◌||◌, List, [], ◌∷◌, ◌==◌, map,
  keep, any, all, Bool-cases, inl, inr, eq_iff, contains, IsDistinct,
}
use goncho.Prelude.Sort.{insert_by, sort_by, all-sort_by, any-sort_by}
use goncho.Leases.Table.{ActionKey, in_scope, same_key}
use goncho.Leases.Params.{Service}
use goncho.Actions.{comes_first, ActionNode, sort_nodes}
use goncho.Actions.Frontier.{ids, IsOldestFirst, sort_nodes-IsOldestFirst}
use goncho.Actions.Progress.{has_known_status}
use goncho.Actions.Store.Tables.{ActionRow, GraphDb}
use goncho.Actions.Graph.Reads.{node_at, is_in, graph_nodes}
use goncho.Actions.Graph.Sound.{has_key, HasDistinctKeys, is_known, IsSound}

-- A test of all nodes is a test of all rows in the scope.
pub all-graph_nodes :
    (p : ActionNode → Bool) (k : ActionKey) (db : GraphDb)
    → all p (graph_nodes k db) ≡ all (λ row. not (is_in k row) || p (node_at db row)) db.rows
unfolding sort_nodes
all-graph_nodes p k db = all-sort_by comes_first p _ ∙ all-map-keep p (node_at db) (is_in k) db.rows

pub any-graph_nodes :
    (p : ActionNode → Bool) (k : ActionKey) (db : GraphDb)
    → any p (graph_nodes k db) ≡ any (λ row. is_in k row && p (node_at db row)) db.rows
unfolding sort_nodes
any-graph_nodes p k db = any-sort_by comes_first p _ ∙ any-map-keep p (node_at db) (is_in k) db.rows

contains-insert_by :
    (id : String) (n : ActionNode) (nodes : List ActionNode)
    → contains (ids (insert_by comes_first n nodes)) id
      ≡ (n.action_id == id || contains (ids nodes) id)
unfolding insert_by contains
contains-insert_by id n [] = refl
contains-insert_by id n (m ∷ ms) = ground (arith, contains-insert_by id n ms)

contains-sort_nodes :
    (id : String) (nodes : List ActionNode)
    → contains (ids (sort_nodes nodes)) id ≡ contains (ids nodes) id
unfolding sort_nodes sort_by contains
contains-sort_nodes id [] = refl
contains-sort_nodes id (n ∷ ns) =
    contains-insert_by id n (sort_nodes ns)
    ∙ ap (λ b. n.action_id == id || b) (contains-sort_nodes id ns)

insert_by-IsDistinct :
    (n : ActionNode) (nodes : List ActionNode)
    → contains (ids nodes) n.action_id ≡ false
    → IsDistinct (ids nodes)
    → IsDistinct (ids (insert_by comes_first n nodes))
unfolding insert_by contains
insert_by-IsDistinct n [] h d = (refl, tt)
insert_by-IsDistinct n (m ∷ ms) h d = ground (
  arith,
  h,
  insert_by-IsDistinct n ms,
  contains-insert_by m.action_id n ms,
  eq_iff m.action_id n.action_id,
  eq_iff n.action_id m.action_id,
)

sort_nodes-IsDistinct :
    (nodes : List ActionNode) → IsDistinct (ids nodes) → IsDistinct (ids (sort_nodes nodes))
unfolding sort_nodes sort_by
sort_nodes-IsDistinct [] d = tt
sort_nodes-IsDistinct (n ∷ ns) d =
    insert_by-IsDistinct n (sort_nodes ns) (contains-sort_nodes n.action_id ns ∙ d.0)
      (sort_nodes-IsDistinct ns d.1)

-- Two rows in one scope have one key when they have one id.
same_id :
    (k : ActionKey) (row other : ActionRow)
    → is_in k row ≡ true
    → is_in k other ≡ true
    → (other.key.action_id == row.key.action_id) ≡ same_key other.key row.key
unfolding in_scope same_key
same_id k row other here there = ground (
  arith,
  here,
  there,
  eq_iff row.key.workspace_id k.workspace_id,
  eq_iff row.key.profile_id k.profile_id,
  eq_iff row.key.peer k.peer,
  eq_iff other.key.workspace_id k.workspace_id,
  eq_iff other.key.profile_id k.profile_id,
  eq_iff other.key.peer k.peer,
  eq_iff other.key.workspace_id row.key.workspace_id,
  eq_iff other.key.profile_id row.key.profile_id,
  eq_iff other.key.peer row.key.peer,
)

absent :
    (k : ActionKey) (db : GraphDb) (row : ActionRow) (rows : List ActionRow)
    → is_in k row ≡ true
    → has_key row.key rows ≡ false
    → contains (ids (map (node_at db) (keep (is_in k) rows))) row.key.action_id ≡ false
unfolding contains
absent k db row [] here h = refl
absent k db row (other ∷ rows) here h = elim (Bool-cases (is_in k other)) [
  | inl there ↦
      rw there (ground (arith, h, same_id k row other here there, absent k db row rows here))
  | inr out ↦ rw out (absent k db row rows here (ground (arith, h)))
]

ids_in_scope-IsDistinct :
    (k : ActionKey) (db : GraphDb) (rows : List ActionRow)
    → HasDistinctKeys rows
    → IsDistinct (ids (map (node_at db) (keep (is_in k) rows)))
ids_in_scope-IsDistinct k db [] d = tt
ids_in_scope-IsDistinct k db (row ∷ rows) d = elim (Bool-cases (is_in k row)) [
  | inl here ↦ rw here (absent k db row rows here d.0, ids_in_scope-IsDistinct k db rows d.1)
  | inr out ↦ rw out (ids_in_scope-IsDistinct k db rows d.1)
]

in_scope_known :
    (k : ActionKey) (db : GraphDb) (rows : List ActionRow)
    → all is_known rows ≡ true
    → all (λ row. not (is_in k row) || has_known_status (node_at db row)) rows ≡ true
in_scope_known k db [] h = refl
in_scope_known k db (row ∷ rows) h = ground (arith, h, in_scope_known k db rows)

-- The nodes of sound rows have distinct ids, a known status each, and stand in the order of their creation.
pub graph_nodes-IsSound :
    (s : Service) (k : ActionKey) (db : GraphDb)
    → IsSound s db.rows
    → IsDistinct (ids (graph_nodes k db))
      × (all has_known_status (graph_nodes k db) ≡ true)
      × IsOldestFirst (graph_nodes k db)
graph_nodes-IsSound s k db sound = (
  sort_nodes-IsDistinct _ (ids_in_scope-IsDistinct k db db.rows sound.distinct),
  all-graph_nodes has_known_status k db ∙ in_scope_known k db db.rows sound.known,
  sort_nodes-IsOldestFirst (map (node_at db) (keep (is_in k) db.rows)),
)
