-- ===== src/Actions/Frontier.antt =====
-- What the frontier of an action graph holds, and in which order.
use goncho.Prelude.Quantifiers.{any-keep, all_ext, any_ext}
use goncho.Prelude.{
  ◌≤◌, ◌≡◌, refl, ap, ◌∙◌, inl, inr, arith, String, Bool, true, false, ◌&&◌, List, [], ◌∷◌, ◌==◌,
  eq_iff, leb, keep, all, any, contains, Bool-cases, IsDistinct, if_cases,
}
use goncho.Prelude.Sort.{insert_by, sort_by, any-sort_by, all-insert_by}
use goncho.Actions.{
  ActionNode, status_from, status_by_id, is_pending, is_ready, comes_first, sort_nodes,
  action_frontier,
}

abbrev pub ids : List ActionNode → List String
ids [] = []
ids (node ∷ nodes) = node.action_id ∷ ids nodes

-- A node with the given id whose status passes the test.
abbrev pub has_status : (String → Bool) → String → List ActionNode → Bool
has_status q id nodes = any (λ m. m.action_id == id && q m.status) nodes

has_status-missing :
    (q : String → Bool) (id : String) (nodes : List ActionNode)
    → contains (ids nodes) id ≡ false
    → has_status q id nodes ≡ false
unfolding contains
has_status-missing q id [] h = refl
has_status-missing q id (node ∷ nodes) h =
    ground (arith, has_status-missing q id nodes, eq_iff node.action_id id)

status_from-missing :
    (id : String) (nodes : List ActionNode) (found : String)
    → contains (ids nodes) id ≡ false
    → status_from id nodes found ≡ found
unfolding contains status_from
status_from-missing id [] found h = refl
status_from-missing id (node ∷ nodes) found h = ground (arith, status_from-missing id nodes found)

has_status-status_from :
    (q : String → Bool) (id : String) (nodes : List ActionNode) (found : String)
    → IsDistinct (ids nodes)
    → has_status q id nodes ≡ (contains (ids nodes) id && q (status_from id nodes found))
unfolding contains status_from
has_status-status_from q id [] found d = refl
has_status-status_from q id (node ∷ nodes) found d = elim (Bool-cases (node.action_id == id)) [
  | inl same ↦
      let absent : contains (ids nodes) id ≡ false =
        ground (arith, d.0, same, eq_iff node.action_id id) in
      rw same (
        rw (has_status-missing q id nodes absent)
          (rw (status_from-missing id nodes node.status absent) (ground arith)))
  | inr other ↦ rw other (has_status-status_from q id nodes found d.1)
]

any-frontier :
    (p : ActionNode → Bool) (nodes : List ActionNode)
    → any p (action_frontier nodes) ≡ any (λ m. p m && is_ready nodes m) nodes
unfolding action_frontier sort_nodes
any-frontier p nodes =
    any-sort_by comes_first p (keep (is_ready nodes) nodes) ∙ any-keep p (is_ready nodes) nodes

abbrev pub is_done : String → Bool
is_done status = status == "done"

-- With distinct ids, the status that the map has for an id is the one of its node.
is_done-status_by_id :
    (nodes : List ActionNode) (id : String)
    → IsDistinct (ids nodes)
    → is_done (status_by_id nodes id) ≡ has_status is_done id nodes
unfolding status_by_id
is_done-status_by_id nodes id d = elim (Bool-cases (contains (ids nodes) id)) [
  | inl found ↦ rw (has_status-status_from is_done id nodes "" d) (rw found refl)
  | inr missing ↦
      rw (has_status-missing is_done id nodes missing)
        (rw (status_from-missing id nodes "" missing) refl)
]

-- Pending, and each dependency is a node that is done.
abbrev pub can_start : List ActionNode → ActionNode → Bool
can_start nodes node = is_pending node && all (λ dep. has_status is_done dep nodes) node.depends_on

pub is_ready-can_start :
    (nodes : List ActionNode) (node : ActionNode)
    → IsDistinct (ids nodes)
    → is_ready nodes node ≡ can_start nodes node
unfolding is_ready
is_ready-can_start nodes node d =
    ap (λ x. is_pending node && x)
      (all_ext (λ dep. is_done (status_by_id nodes dep)) (λ dep. has_status is_done dep nodes)
        node.depends_on (λ dep. is_done-status_by_id nodes dep d))

abbrev pub no_older : ActionNode → List ActionNode → Bool
no_older node nodes = all (λ m. leb node.created_at m.created_at) nodes

-- No node was created after one that follows it.
abbrev pub IsOldestFirst : List ActionNode → Type 0
IsOldestFirst [] = Unit
IsOldestFirst (node ∷ nodes) = (no_older node nodes ≡ true) × IsOldestFirst nodes

no_older_trans :
    (a b : ActionNode) (nodes : List ActionNode)
    → a.created_at ≤ b.created_at
    → no_older b nodes ≡ true
    → no_older a nodes ≡ true
no_older_trans a b [] le h = refl
no_older_trans a b (m ∷ ms) le h = ground (arith, no_older_trans a b ms le)

insert_by-IsOldestFirst :
    (n : ActionNode) (nodes : List ActionNode)
    → IsOldestFirst nodes
    → IsOldestFirst (insert_by comes_first n nodes)
unfolding insert_by comes_first
insert_by-IsOldestFirst n [] h = (refl, tt)
insert_by-IsOldestFirst n (m ∷ ms) h =
    if_cases IsOldestFirst (comes_first n m) _ _
      (λ first. (ground (arith, no_older_trans n m ms, h.0), h))
      (λ later. (
        all-insert_by comes_first (λ x. leb m.created_at x.created_at) n ms ∙ ground (arith, h.0),
        insert_by-IsOldestFirst n ms h.1,
      ))

pub sort_nodes-IsOldestFirst : (nodes : List ActionNode) → IsOldestFirst (sort_nodes nodes)
unfolding sort_nodes sort_by
sort_nodes-IsOldestFirst [] = tt
sort_nodes-IsOldestFirst (n ∷ ns) =
    insert_by-IsOldestFirst n (sort_nodes ns) (sort_nodes-IsOldestFirst ns)

-- When the ids of the nodes are distinct, the frontier holds exactly the pending nodes whose
-- dependencies are all nodes that are done, with no node before one that was created earlier.
pub action_frontier_lem :
    (nodes : List ActionNode) (p : ActionNode → Bool)
    → IsDistinct (ids nodes)
    → (any p (action_frontier nodes) ≡ any (λ m. p m && can_start nodes m) nodes)
      × IsOldestFirst (action_frontier nodes)
action_frontier_lem nodes p d = (
  any-frontier p nodes
      ∙ any_ext (λ m. p m && is_ready nodes m) (λ m. p m && can_start nodes m) nodes
          (λ m. ap (λ x. p m && x) (is_ready-can_start nodes m d)),
  (unfold action_frontier in sort_nodes-IsOldestFirst (keep (is_ready nodes) nodes)),
)
