-- ===== src/Actions/Examples.antt =====
-- Runs on a concrete action graph.
use goncho.Prelude.{ℕ, ◌≡◌, refl, String, some, List, [], ◌∷◌}
use goncho.Actions.{ActionNode, next_action}

abbrev node : String → String → List String → ℕ → ActionNode
node id status depends_on created_at = record {
  workspace_id = "team";
  profile_id = "";
  peer = "ana";
  action_id = id;
  title = id;
  status = status;
  depends_on = depends_on;
  signals = [];
  created_at = created_at;
  updated_at = created_at;
}

-- "ship" waits for "test", and "test" for "build", which is done.
abbrev graph : List ActionNode
graph =
    node "ship" "pending" ("test" ∷ []) 1
    ∷ node "test" "pending" ("build" ∷ []) 3
    ∷ node "build" "done" [] 2
    ∷ node "notes" "pending" [] 4
    ∷ []

test_next : next_action graph ≡ some (node "test" "pending" ("build" ∷ []) 3)
unfolding next_action
test_next = refl
