-- ===== src/Slots/Histories.antt =====
-- Series of changes of slots, each at its own time and with its own failing statements.
use Prim.Native.String.{String}
use goncho.Prelude.{ℕ, ◌≡◌, refl, ◌∙◌, Option, none, some, List, [], ◌∷◌}
use goncho.Prelude.Result.{Result}
use goncho.Leases.Params.{Service}
use goncho.Slots.{create_memory_slot, append_memory_slot, replace_memory_slot, delete_memory_slot}
use goncho.Slots.Table.{
  SlotKey, MemorySlot, SlotParams, SlotQuery, find_row, Store, Faults, Outcome,
}
use goncho.Slots.Calls.{Move, kept, created, recreated, advanced, saved-Move}
use goncho.Slots.Targets.{
  created_slot-Target, appended_slot-Target, replaced_slot-Target, deleted_slot-Target,
}

pub data Change : Type 0 where
  creating appending replacing : SlotParams → Change
  deleting : SlotQuery → Change

Move-created_at :
    (before after : Option MemorySlot) (old : MemorySlot)
    → Move before after
    → before ≡ some old
    → (slot : MemorySlot) × (after ≡ some slot) × (slot.created_at ≡ old.created_at)
Move-created_at before _ old kept e = (old, e, refl)
Move-created_at none (some slot) old (created r d) e = cc
Move-created_at (some row) (some slot) old (recreated was r d time) e = (slot, refl, cc)
Move-created_at (some row) (some slot) old (advanced was r time) e = (slot, refl, cc)

module _ (to_lower : String → String) {E : Type 0} (s : Service) where
  module _ {W : Type 0} (observe : String → MemorySlot → W → W × Option E) where
    abbrev pub perform : Change → Faults → ℕ → Store W → Outcome W E
    perform (creating p) faults now st = create_memory_slot to_lower observe s faults p now st
    perform (appending p) faults now st = append_memory_slot to_lower observe s faults p now st
    perform (replacing p) faults now st = replace_memory_slot to_lower observe s faults p now st
    perform (deleting q) faults now st = delete_memory_slot to_lower observe s faults q now st

    -- Whatever fails, a call leaves the row of every key as it is, inserts it at revision 1, revives
    -- a deleted one at revision 1 with its time of creation, or advances a live one by one revision
    -- with its time of creation.
    pub perform-Move :
        (change : Change) (faults : Faults) (now : ℕ) (at : SlotKey) (st : Store W)
        → Move (find_row at st.rows) (find_row at (perform change faults now st).0.rows)
    unfolding create_memory_slot append_memory_slot replace_memory_slot delete_memory_slot
    perform-Move (creating p) faults now at st =
        saved-Move observe faults "create" at st _
          (created_slot-Target to_lower s faults p now st.rows)
    perform-Move (appending p) faults now at st =
        saved-Move observe faults "append" at st _
          (appended_slot-Target to_lower s faults p now st.rows)
    perform-Move (replacing p) faults now at st =
        saved-Move observe faults "replace" at st _
          (replaced_slot-Target to_lower s faults p now st.rows)
    perform-Move (deleting q) faults now at st =
        saved-Move observe faults "delete" at st _
          (deleted_slot-Target to_lower s faults q now st.rows)

    -- Each call of a series has its own time and its own failing statements.
    abbrev pub run : List (Change × Faults × ℕ) → Store W → Store W
    run [] st = st
    run ((change, faults, now) ∷ rest) st = run rest (perform change faults now st).0

    -- Once a slot was created, its row stays through every series of calls, with its time of
    -- creation: a deletion keeps the row, and a new creation takes its place.
    pub run-created_at :
        (calls : List (Change × Faults × ℕ)) (at : SlotKey) (st : Store W) (old : MemorySlot)
        → find_row at st.rows ≡ some old
        → (slot : MemorySlot) × (find_row at (run calls st).rows ≡ some slot)
          × (slot.created_at ≡ old.created_at)
    run-created_at [] at st old there = (old, there, refl)
    run-created_at ((change, faults, now) ∷ rest) at st old there =
        let (mid, found, kept_time) =
          Move-created_at _ _ old (perform-Move change faults now at st) there in
        let (slot, last, time) =
          run-created_at rest at (perform change faults now st).0 mid found in
        (slot, last, time ∙ kept_time)
