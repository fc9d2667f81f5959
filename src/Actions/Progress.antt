-- ===== src/Actions/Progress.antt =====
-- An action graph whose work is not finished has a next action.
use goncho.Prelude.Quantifiers.{any-witness, all-fails, any_nothing}
use goncho.Prelude.{
  ℕ, zero, suc, ◌≤◌, ◌≡◌, refl, sym, ◌∙◌, inl, inr, arith, String, Bool, true, false, not, ◌&&◌,
  ◌||◌, some, List, [], ◌∷◌, ◌==◌, eq_iff, ltb, all, any, Bool-cases, IsDistinct,
}
use goncho.Actions.{ActionNode, is_pending, action_frontier, first_of, next_action}
use goncho.Actions.Frontier.{
  ids, has_status, is_done, can_start, no_older, IsOldestFirst, action_frontier_lem,
}

abbrev pub has_known_status : ActionNode → Bool
has_known_status node = is_pending node || is_done node.status

not_and_self : (b : Bool) → (not b && b) ≡ false
not_and_self true = refl
not_and_self false = refl

abbrev pub is_older : ActionNode → ActionNode → Bool
is_older node m = ltb m.created_at node.created_at

none_older :
    (node : ActionNode) (nodes : List ActionNode)
    → no_older node nodes ≡ true
    → any (is_older node) nodes ≡ false
none_older node [] h = refl
none_older node (m ∷ ms) h = ground (arith, none_older node ms)

first_of_lem :
    (nodes : List ActionNode) (q : ActionNode → Bool)
    → any (λ m. true) nodes ≡ true
    → any (λ m. not (q m)) nodes ≡ false
    → IsOldestFirst nodes
    → (node : ActionNode) × (first_of nodes ≡ some node)
      × (q node ≡ true)
      × (any (is_older node) nodes ≡ false)
first_of_lem [] q h k o = cc
first_of_lem (node ∷ nodes) q h k o =
    (node, refl, ground (arith, k), ground (arith, none_older node nodes o.0))

pub any-action_frontier :
    (nodes : List ActionNode) (p : ActionNode → Bool)
    → IsDistinct (ids nodes)
    → any p (action_frontier nodes) ≡ any (λ m. p m && can_start nodes m) nodes
any-action_frontier nodes p d = (action_frontier_lem nodes p d).0

module _ (rank : String → ℕ) where
  abbrev pub depends_below : List ActionNode → ActionNode → Bool
  depends_below nodes node =
      all (λ dep. has_status (λ s. true) dep nodes && ltb (rank dep) (rank node.action_id))
        node.depends_on

  abbrev is_pending_below : ℕ → ActionNode → Bool
  is_pending_below k node = is_pending node && ltb (rank node.action_id) k

  -- A node that cannot start waits for a pending one of lower rank.
  blocked :
      (nodes : List ActionNode) (node : ActionNode)
      → all has_known_status nodes ≡ true
      → depends_below nodes node ≡ true
      → is_pending node ≡ true
      → can_start nodes node ≡ false
      → any (is_pending_below (rank node.action_id)) nodes ≡ true
  blocked nodes node known below pending waits =
      let open_dep =
        any-witness (λ dep. not (has_status is_done dep nodes)) node.depends_on
          (all-fails (λ dep. has_status is_done dep nodes) node.depends_on
            (ground (arith, pending, waits))) in
      let dep = open_dep.0 in
      let lower =
        open_dep.3 (λ dep. has_status (λ s. true) dep nodes && ltb (rank dep) (rank node.action_id))
          below in
      let found = any-witness (λ m. m.action_id == dep && true) nodes (ground (arith, lower)) in
      let m = found.0 in
      let done_here : (x : ActionNode) → Bool = λ x. x.action_id == dep && is_done x.status in
      let undone : is_done m.status ≡ false = elim (Bool-cases (is_done m.status)) [
        | inl done ↦ ground (arith, open_dep.1, found.2 done_here (ground (arith, found.1, done)))
        | inr unfinished ↦ unfinished
      ] in
      found.2 (is_pending_below (rank node.action_id)) (
        ground
          (arith, undone, lower, found.1, found.3 has_known_status known, eq_iff m.action_id dep))

  pending_below_trans :
      (nodes : List ActionNode) (a b : ℕ)
      → a ≤ b
      → any (is_pending_below a) nodes ≡ true
      → any (is_pending_below b) nodes ≡ true
  pending_below_trans nodes a b le h =
      let w = any-witness (is_pending_below a) nodes h in
      w.2 (is_pending_below b) (ground (arith, w.1))

  startable :
      (nodes : List ActionNode) (k : ℕ)
      → all has_known_status nodes ≡ true
      → all (depends_below nodes) nodes ≡ true
      → any (is_pending_below k) nodes ≡ true
      → any (can_start nodes) nodes ≡ true
  startable nodes zero known below h =
      let w = any-witness (is_pending_below zero) nodes h in ground (arith, w.1)
  startable nodes (suc k) known below h =
      let w = any-witness (is_pending_below (suc k)) nodes h in
      elim (Bool-cases (can_start nodes w.0)) [
        | inl ready ↦ w.2 (can_start nodes) ready
        | inr waits ↦ startable nodes k known below (
            pending_below_trans nodes (rank w.0.action_id) k (ground (arith, w.1)) (
              blocked nodes w.0 known (w.3 (depends_below nodes) below) (ground (arith, w.1))
                waits))
      ]

  -- When the ids of the nodes are distinct, each node is pending or done, and each dependency of a node
  -- is a node of lower rank, so that there is no cycle, then as long as a node is pending there is a
  -- next action: a pending node whose dependencies are all done, such that no node of which the
  -- same holds was created earlier.
  pub next_action-progress :
      (nodes : List ActionNode)
      → IsDistinct (ids nodes)
      → all has_known_status nodes ≡ true
      → all (depends_below nodes) nodes ≡ true
      → any is_pending nodes ≡ true
      → (node : ActionNode) × (next_action nodes ≡ some node)
        × (can_start nodes node ≡ true)
        × (any (λ m. is_older node m && can_start nodes m) nodes ≡ false)
  unfolding next_action
  next_action-progress nodes d known below pending =
      let w = any-witness is_pending nodes pending in
      let starts : any (can_start nodes) nodes ≡ true =
        startable nodes (suc (rank w.0.action_id)) known below
          (w.2 (is_pending_below (suc (rank w.0.action_id))) (ground (arith, w.1))) in
      let first =
        first_of_lem (action_frontier nodes) (can_start nodes)
          (any-action_frontier nodes (λ m. true) d ∙ starts)
          (any-action_frontier nodes (λ m. not (can_start nodes m)) d
            ∙ any_nothing (λ m. not (can_start nodes m) && can_start nodes m) nodes
                (λ m. not_and_self (can_start nodes m)))
          (action_frontier_lem nodes (λ m. true) d).1 in
      (first.0, first.1, first.2, sym (any-action_frontier nodes (is_older first.0) d) ∙ first.3)
