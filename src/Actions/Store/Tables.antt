-- ===== src/Actions/Store/Tables.antt =====
-- The three tables of an action graph, with the statements of service/action_graph.go on them. Instants
-- are seconds.
use goncho.Prelude.{
  ℕ, suc, String, Bool, not, ◌||◌, Option, none, some, List, [], ◌∷◌, ◌++◌, if◌then◌else◌, keep,
  ltb, eqb, ◌&&◌, map, contains,
}
use goncho.Prelude.Sort.{sort_by}
use goncho.Prelude.Result.{Result, ok, err, ◌>>=◌}
use goncho.Leases.Table.{ActionKey, LeaseResult, same_key, in_scope}
use goncho.Actions.{ActionNode, ActionSignal}
use goncho.Actions.Store.Texts.{sort_texts}

pub record ActionParams : Type 0 where
  pub workspace_id : String
  pub profile_id : String
  pub peer : String
  pub action_id : String
  pub title : String
  pub depends_on : List String

pub record ActionGraphQuery : Type 0 where
  pub workspace_id : String
  pub profile_id : String
  pub peer : String
  pub action_id : String

pub record ActionSignalParams : Type 0 where
  pub workspace_id : String
  pub profile_id : String
  pub peer : String
  pub action_id : String
  pub signal : String
  pub message : String
  pub actor : String

pub record ActionRow : Type 0 where
  pub key : ActionKey
  pub title : String
  pub status : String
  pub created_at : ℕ
  pub updated_at : ℕ

pub record Dependency : Type 0 where
  pub key : ActionKey
  pub depends_on : String

pub record GraphDb : Type 0 where
  pub rows : List ActionRow
  pub dependencies : List Dependency
  pub signals : List ActionSignal
  pub last_signal_id : ℕ

-- `insert_dependency i` is the insertion of the dependency at position i, and the last two are the
-- lists for the node at position i of a graph. The list of signals reads their receipts, too.
pub data Statement : Type 0 where
  get_action upsert_node clear_dependencies : Statement
  insert_dependency : ℕ → Statement
  reread_action list_dependencies list_signals complete_row insert_signal list_actions : Statement
  list_node_dependencies list_node_signals : ℕ → Statement

pub data GraphError : Type 0 where
  scope_required title_required id_required signal_required no_rows : GraphError
  sql_failed : Statement → GraphError

abbrev pub Faults : Type 0
Faults = Statement → Bool

abbrev pub run_sql : {A : Type 0} → Faults → Statement → A → Result GraphError A
run_sql faults s a = if faults s then err (sql_failed s) else ok a

abbrev pub or_scope_required : LeaseResult ActionKey → Result GraphError ActionKey
or_scope_required (err e) = err scope_required
or_scope_required (ok k) = ok k

unfoldable pub find_row : ActionKey → List ActionRow → Option ActionRow
find_row k [] = none
find_row k (row ∷ rows) =
    let rest = find_row k rows in if same_key row.key k then some row else rest

-- ON CONFLICT DO UPDATE SET: the row keeps its time of creation.
unfoldable pub upsert_row : ActionRow → List ActionRow → List ActionRow
upsert_row new [] = new ∷ []
upsert_row new (old ∷ rows) =
    let rest = upsert_row new rows in
    if same_key old.key new.key
    then record old { title = new.title; status = new.status; updated_at = new.updated_at } ∷ rows
    else old ∷ rest

abbrev pub complete_if : ActionKey → ℕ → ActionRow → ActionRow
complete_if k now row =
    if same_key row.key k then (record row { status = "done"; updated_at = now }) else row

unfoldable pub complete_rows : ActionKey → ℕ → List ActionRow → List ActionRow
complete_rows k now rows = map (complete_if k now) rows

abbrev pub dependencies_of : ActionKey → List Dependency → List String
dependencies_of k ds = map (λ (d : Dependency). d.depends_on) (keep (λ d. same_key d.key k) ds)

-- The insertions of `replaceActionDependencies`, from the position given.
unfoldable pub insert_dependencies :
    Faults
    → ActionKey
    → ℕ
    → List String
    → List Dependency
    → List Dependency × Result GraphError (Unit {0})
insert_dependencies faults k i [] ds = (ds, ok tt)
insert_dependencies faults k i (dep ∷ deps) ds =
    let rest =
      insert_dependencies faults k (suc i) deps (ds ++ record { key = k; depends_on = dep } ∷ []) in
    if faults (insert_dependency i) || contains (dependencies_of k ds) dep
    then (ds, err (sql_failed (insert_dependency i)))
    else rest

abbrev pub without_key : ActionKey → List Dependency → List Dependency
without_key k ds = keep (λ d. not (same_key d.key k)) ds

unfoldable pub replace_action_dependencies :
    Faults
    → ActionKey
    → List String
    → List Dependency
    → List Dependency × Result GraphError (Unit {0})
unfolding insert_dependencies
replace_action_dependencies faults k deps ds =
    if faults clear_dependencies
    then (ds, err (sql_failed clear_dependencies))
    else insert_dependencies faults k 0 deps (without_key k ds)

abbrev pub node_of : ActionRow → List String → List ActionSignal → ActionNode
node_of row deps signals = record {
  workspace_id = row.key.workspace_id;
  profile_id = row.key.profile_id;
  peer = row.key.peer;
  action_id = row.key.action_id;
  title = row.title;
  status = row.status;
  depends_on = deps;
  signals = signals;
  created_at = row.created_at;
  updated_at = row.updated_at;
}

abbrev expected_row : Option ActionRow → Result GraphError ActionRow
expected_row none = err no_rows
expected_row (some row) = ok row

-- `where` of `listActionDependencies` has no condition on the action when its id is blank.
unfoldable pub listed_dependencies : ActionKey → List Dependency → List String
unfolding sort_texts in_scope
listed_dependencies k ds =
    sort_texts (map (λ (d : Dependency). d.depends_on) (keep (λ d. in_scope k d.key) ds))

abbrev signal_comes_first : ActionSignal → ActionSignal → Bool
signal_comes_first a b =
    ltb a.created_at b.created_at || (eqb a.created_at b.created_at && ltb a.id b.id)

-- ORDER BY created_at ASC, id ASC
unfoldable pub sort_signals : List ActionSignal → List ActionSignal
unfolding sort_by
sort_signals signals = sort_by signal_comes_first signals

unfoldable pub listed_signals : ActionKey → List ActionSignal → List ActionSignal
unfolding sort_signals in_scope
listed_signals k signals = sort_signals (keep (λ a. in_scope k a.key) signals)

unfoldable pub action_node_with_edges : Faults → ActionKey → GraphDb → Result GraphError ActionNode
unfolding find_row listed_dependencies listed_signals
action_node_with_edges faults k db = run_sql faults reread_action (find_row k db.rows) >>= λ found.
    expected_row found >>= λ row.
    run_sql faults list_dependencies (listed_dependencies k db.dependencies) >>= λ deps.
    run_sql faults list_signals (listed_signals k db.signals) >>= λ signals.
    ok (node_of row deps signals)
