-- ===== src/Actions/Graph/Completed.antt =====
-- What completing an action does to the graph of its scope.
use goncho.Prelude.{
  ℕ, suc, ◌≡◌, refl, ap, sym, ◌∙◌, arith, String, Bool, true, false, not, ◌&&◌, ◌||◌, some, List,
  [], ◌∷◌, ◌==◌, any, all, keep, length, inl, inr, ltb, Bool-cases,
}
use goncho.Leases.Table.{ActionKey, in_scope, same_key}
use goncho.Leases.Rows.{same_key_iff}
use goncho.Actions.{ActionNode, first_of}
use goncho.Prelude.Quantifiers.{all_ext}
use goncho.Actions.Store.Tables.{ActionRow, GraphDb, complete_rows}
use goncho.Actions.Graph.{scope_of}
use goncho.Actions.Graph.Reads.{is_in}
use goncho.Actions.Graph.Sound.{has_key, HasDistinctKeys}
use goncho.Actions.Graph.Next.{is_open, has_action, key_below, IsRanked}

abbrev pub open_count : ActionKey → List ActionRow → ℕ
open_count k rows = length (keep (is_open k) rows)

any-complete_rows :
    (f : ActionKey → Bool) (at : ActionKey) (now : ℕ) (rows : List ActionRow)
    → any (λ row. f row.key) (complete_rows at now rows) ≡ any (λ row. f row.key) rows
unfolding complete_rows
any-complete_rows f at now [] = refl
any-complete_rows f at now (row ∷ rows) = elim (Bool-cases (same_key row.key at)) [
  | inl same ↦ rw same (ap (λ b. f row.key || b) (any-complete_rows f at now rows))
  | inr other ↦ rw other (ap (λ b. f row.key || b) (any-complete_rows f at now rows))
]

all-complete_rows :
    (f : ActionKey → Bool) (at : ActionKey) (now : ℕ) (rows : List ActionRow)
    → all (λ row. f row.key) (complete_rows at now rows) ≡ all (λ row. f row.key) rows
unfolding complete_rows
all-complete_rows f at now [] = refl
all-complete_rows f at now (row ∷ rows) = elim (Bool-cases (same_key row.key at)) [
  | inl same ↦ rw same (ap (λ b. f row.key && b) (all-complete_rows f at now rows))
  | inr other ↦ rw other (ap (λ b. f row.key && b) (all-complete_rows f at now rows))
]

complete_rows-missing :
    (at : ActionKey) (now : ℕ) (rows : List ActionRow)
    → has_key at rows ≡ false
    → complete_rows at now rows ≡ rows
unfolding complete_rows
complete_rows-missing at now [] h = refl
complete_rows-missing at now (row ∷ rows) h =
    let other : same_key row.key at ≡ false = ground (arith, h) in
    rw other (ap (λ rest. row ∷ rest) (complete_rows-missing at now rows (ground (arith, h))))

missing_is_closed :
    (k at : ActionKey) (rows : List ActionRow)
    → has_key at rows ≡ false
    → any (λ row. same_key row.key at && is_open k row) rows ≡ false
missing_is_closed k at [] h = refl
missing_is_closed k at (row ∷ rows) h = ground (arith, h, missing_is_closed k at rows)

-- Completing an action that was pending leaves one less.
pub open_count-complete_rows :
    (k at : ActionKey) (now : ℕ) (rows : List ActionRow)
    → HasDistinctKeys rows
    → any (λ row. same_key row.key at && is_open k row) rows ≡ true
    → suc (open_count k (complete_rows at now rows)) ≡ open_count k rows
unfolding complete_rows
open_count-complete_rows k at now [] d h = cc
open_count-complete_rows k at now (row ∷ rows) d h = elim (Bool-cases (same_key row.key at)) [
  | inl same ↦
      let gone : has_key at rows ≡ false =
        ap (λ x. has_key x rows) (sym ((same_key_iff row.key at).0 same)) ∙ d.0 in
      let here : is_open k row ≡ true = ground (arith, h, same, missing_is_closed k at rows gone) in
      let inside : is_in k row ≡ true = ground (arith, here) in
      rw (same, here)
        (rw inside (ap (λ rest. suc (open_count k rest)) (complete_rows-missing at now rows gone)))
  | inr other ↦
      let rest = open_count-complete_rows k at now rows d.1 (ground (arith, h, other)) in
      rw other (elim (Bool-cases (is_open k row)) [
        | inl here ↦ rw here (ap suc rest)
        | inr closed ↦ rw closed rest
      ])
]

pub IsRanked-complete_rows :
    (rank : String → ℕ) (k at : ActionKey) (now : ℕ) (db : GraphDb)
    → IsRanked rank k db
    → IsRanked rank k (record db { rows = complete_rows at now db.rows })
IsRanked-complete_rows rank k at now db ranked =
    let after = complete_rows at now db.rows in
    all-complete_rows (key_below rank k (has_action k after) db.dependencies) at now db.rows
    ∙ all_ext _ (λ row. key_below rank k (has_action k db.rows) db.dependencies row.key) db.rows
        (λ row.
          ap (λ b. not (is_in k row) || b)
            (all_ext _ _ _ (λ dep.
              ap (λ b. b && ltb (rank dep) (rank row.key.action_id))
                (any-complete_rows (λ key. in_scope (scope_of k) key && key.action_id == dep) at now
                  db.rows))))
    ∙ ranked

abbrev pub node_key : ActionNode → ActionKey
node_key node = record {
  workspace_id = node.workspace_id;
  profile_id = node.profile_id;
  peer = node.peer;
  action_id = node.action_id;
}

pub first_of-any :
    (nodes : List ActionNode) (q : ActionNode → Bool) {node : ActionNode}
    → first_of nodes ≡ some node
    → q node ≡ true
    → any q nodes ≡ true
first_of-any [] q h e = cc
first_of-any (m ∷ ms) q {node} h e =
    let same : m ≡ node = (let both : some m ≡ some node = h in cc) in ground (arith, ap q same ∙ e)
