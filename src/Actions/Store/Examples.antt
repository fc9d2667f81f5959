-- ===== src/Actions/Store/Examples.antt =====
-- A graph of one action that depends on another.
use Prim.Native.String.{String}
use goncho.Prelude.{ℕ, contains, ◌≡◌, refl, true, false, [], ◌∷◌}
use goncho.Prelude.Text.{trim_space, is_space}
use goncho.Prelude.Result.{ok, err}
use goncho.Leases.Table.{ActionKey, same_key, in_scope}
use goncho.Leases.Params.{Service, normalize_scoped_action}
use goncho.Actions.{ActionNode}
use goncho.Actions.Store.{upsert_action, key_of}
use goncho.Actions.Store.Tables.{
  ActionParams, ActionGraphQuery, ActionRow, Dependency, GraphDb, insert_dependency, sql_failed,
  Faults, find_row, dependencies_of,
}
use goncho.Actions.Store.Texts.Members.{AreTrimmed}
use goncho.Actions.Store.Steps.{upserting, completing, run}
use goncho.Actions.Store.Updates.{FollowsAt, run-FollowsAt}
use goncho.Actions.Store.Dependencies.{upsert_action-dependencies_of}

abbrev solo : Service
solo = record { workspace_id = "main"; server_mode = "" }

abbrev up : Faults
up statement = false

-- The first insertion of a dependency fails.
abbrev no_insert : Faults
no_insert (insert_dependency i) = true
no_insert statement = false

abbrev ship : ActionParams
ship = record {
  workspace_id = "";
  profile_id = "";
  peer = "ana";
  action_id = "ship";
  title = "Ship it";
  depends_on = "test" ∷ " build " ∷ "test" ∷ [];
}

abbrev ship_key : ActionKey
ship_key = record { workspace_id = "main"; profile_id = ""; peer = "ana"; action_id = "ship" }

abbrev ship_row : String → ℕ → ActionRow
ship_row status updated_at = record {
  key = ship_key;
  title = "Ship it";
  status = status;
  created_at = 5;
  updated_at = updated_at;
}

abbrev on : String → Dependency
on action_id = record { key = ship_key; depends_on = action_id }

abbrev graph : GraphDb
graph = record {
  rows = ship_row "pending" 5 ∷ [];
  dependencies = on "build" ∷ [];
  signals = [];
  last_signal_id = 0;
}

abbrev ship_node : ActionNode
ship_node = record {
  workspace_id = "main";
  profile_id = "";
  peer = "ana";
  action_id = "ship";
  title = "Ship it";
  status = "pending";
  depends_on = "build" ∷ "test" ∷ [];
  signals = [];
  created_at = 5;
  updated_at = 9;
}

upsert_ship : (upsert_action solo up ship 9 graph).1 ≡ ok ship_node
unfolding upsert_action normalize_scoped_action trim_space is_space same_key in_scope find_row
    contains
upsert_ship = refl

-- After a failure in the middle the action has no dependencies.
upsert_loses_dependencies : upsert_action solo no_insert ship 9 graph ≡ (
  record graph { rows = ship_row "pending" 9 ∷ []; dependencies = [] },
  err (sql_failed (insert_dependency 0)),
)
unfolding upsert_action normalize_scoped_action trim_space is_space same_key in_scope find_row
    contains
upsert_loses_dependencies = refl

upsert_action-dependencies_of_example :
    (k : ActionKey) × (key_of solo "" "" "ana" "ship" true ≡ ok k)
    × AreTrimmed
        ("test" ∷ " build " ∷ "test" ∷ [])
        (dependencies_of k (upsert_action solo up ship 9 graph).0.dependencies)
    × ((at : ActionKey)
        → same_key k at ≡ false
        → dependencies_of at (upsert_action solo up ship 9 graph).0.dependencies
          ≡ dependencies_of at (on "build" ∷ []))
upsert_action-dependencies_of_example =
    upsert_action-dependencies_of solo up ship 9 graph upsert_ship

abbrev finish : ActionGraphQuery
finish = record { workspace_id = ""; profile_id = ""; peer = "ana"; action_id = "ship" }

run-FollowsAt_example :
    FollowsAt
      (ship_row "pending" 5)
      ship_key
      (run solo ((completing finish, up, 7) ∷ (upserting ship, no_insert, 9) ∷ []) graph).rows
unfolding find_row same_key
run-FollowsAt_example =
    run-FollowsAt solo ((completing finish, up, 7) ∷ (upserting ship, no_insert, 9) ∷ []) ship_key
      graph (ship_row "pending" 5) refl
