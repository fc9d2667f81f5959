-- ===== src/Leases/Rows.antt =====
-- The rows of the table of leases.
use goncho.Prelude.{
  ◌≡◌, ◌↔◌, refl, true, none, some, List, [], ◌∷◌, if◌then◌else◌, arith, eq_iff, eq_refl,
  Bool-cases, inl, inr,
}
use goncho.Leases.Table.{ActionKey, ActionLease, same_key, find_lease, put_lease, remove_lease}

pub same_key_refl : (k : ActionKey) → same_key k k ≡ true
unfolding same_key
same_key_refl k =
    rw (eq_refl k.workspace_id, eq_refl k.profile_id, eq_refl k.peer, eq_refl k.action_id)

pub same_key_iff : (a b : ActionKey) → (same_key a b ≡ true) ↔ (a ≡ b)
unfolding same_key
same_key_iff a b = (
  λ h. ground (
    arith,
    eq_iff a.workspace_id b.workspace_id,
    eq_iff a.profile_id b.profile_id,
    eq_iff a.peer b.peer,
    eq_iff a.action_id b.action_id,
  ),
  λ e. rw e (same_key_refl b),
)

-- Reading at `at` after a write and after a deletion.
pub find_lease-put_lease :
    (at : ActionKey) (l : ActionLease) (ls : List ActionLease)
    → find_lease at (put_lease l ls) ≡ (if same_key l.key at then some l else find_lease at ls)
unfolding find_lease put_lease
find_lease-put_lease at l [] = refl
find_lease-put_lease at l (m ∷ ms) = ground (
  arith,
  same_key_iff m.key at,
  same_key_iff l.key at,
  same_key_iff m.key l.key,
  find_lease-put_lease at l ms,
)

pub find_lease-remove_lease :
    (at k : ActionKey) (ls : List ActionLease)
    → find_lease at (remove_lease k ls) ≡ (if same_key k at then none else find_lease at ls)
unfolding find_lease remove_lease
find_lease-remove_lease at k [] = ground arith
find_lease-remove_lease at k (m ∷ ms) = ground (
  arith,
  same_key_iff m.key at,
  same_key_iff k at,
  same_key_iff m.key k,
  find_lease-remove_lease at k ms,
)

-- The row that is found has the key.
pub find_lease-key :
    (at : ActionKey) (ls : List ActionLease) (l : ActionLease)
    → find_lease at ls ≡ some l
    → l.key ≡ at
unfolding find_lease
find_lease-key at [] l h = cc
find_lease-key at (m ∷ ms) l h = elim (Bool-cases (same_key m.key at)) [
  | inl same ↦ ground (arith, same_key_iff m.key at)
  | inr other ↦ ground (arith, find_lease-key at ms l)
]
