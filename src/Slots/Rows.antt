-- ===== src/Slots/Rows.antt =====
-- The rows of the table of slots.
use goncho.Prelude.{
  ◌≡◌, ◌↔◌, refl, true, Option, none, some, List, [], ◌∷◌, if◌then◌else◌, arith, eq_iff, eq_refl,
  Bool-cases, inl, inr,
}
use goncho.Slots.Table.{SlotKey, MemorySlot, same_key, find_row, put_row, updated_row}

pub same_key_refl : (k : SlotKey) → same_key k k ≡ true
unfolding same_key
same_key_refl k =
    rw (
      eq_refl k.workspace_id,
      eq_refl k.profile_id,
      eq_refl k.peer,
      eq_refl k.scope,
      eq_refl k.name,
    )

pub same_key_iff : (a b : SlotKey) → (same_key a b ≡ true) ↔ (a ≡ b)
unfolding same_key
same_key_iff a b = (
  λ h. ground (
    arith,
    eq_iff a.workspace_id b.workspace_id,
    eq_iff a.profile_id b.profile_id,
    eq_iff a.peer b.peer,
    eq_iff a.scope b.scope,
    eq_iff a.name b.name,
  ),
  λ e. rw e (same_key_refl b),
)

-- What stands in the row of a slot after it is written over what stood there.
abbrev pub written : MemorySlot → Option MemorySlot → MemorySlot
written slot none = slot
written slot (some old) = updated_row old slot

-- Reading at `at` after a write.
pub find_row-put_row :
    (at : SlotKey) (slot : MemorySlot) (rows : List MemorySlot)
    → find_row at (put_row slot rows)
      ≡ (if same_key slot.key at then some (written slot (find_row at rows)) else find_row at rows)
unfolding find_row put_row
find_row-put_row at slot [] = refl
find_row-put_row at slot (old ∷ rows) = ground (
  arith,
  same_key_iff old.key at,
  same_key_iff slot.key at,
  same_key_iff old.key slot.key,
  find_row-put_row at slot rows,
)

-- The row that is found has the key.
pub find_row-key :
    (at : SlotKey) (rows : List MemorySlot) (slot : MemorySlot)
    → find_row at rows ≡ some slot
    → slot.key ≡ at
unfolding find_row
find_row-key at [] slot h = cc
find_row-key at (old ∷ rows) slot h = elim (Bool-cases (same_key old.key at)) [
  | inl same ↦ ground (arith, same_key_iff old.key at)
  | inr other ↦ ground (arith, find_row-key at rows slot)
]
