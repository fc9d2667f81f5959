-- ===== src/Slots.antt =====
-- service/memory_slots.go: named values of a peer that are created, appended to, replaced and deleted,
-- with service/internal/scopekey and service/internal/memoryscope. Instants are seconds from 1970 on.
use Prim.Native.String.{String, ◌++◌ as str_append}
use goncho.Prelude.{
  ℕ, suc, Bool, true, false, not, ◌&&◌, ◌||◌, Option, none, some, List, [], ◌∷◌, ◌==◌, ltb,
  if◌then◌else◌,
}
use goncho.Prelude.Text.{trim_space}
use goncho.Prelude.Result.{Result, ok, err, ◌>>=◌}
use goncho.Leases.Params.{Service, workspace_of}
use goncho.Slots.Table.{
  get_memory_slot_row, expected, unoccupied, read_slot, saved, save_slot, SlotKey, MemorySlot,
  SlotParams, SlotQuery, SlotError, Store, Faults, blank_slot, is_known_scope, is_complete,
  default_kind, creation, appended, replaced, deletion, Outcome, named, slot_required,
  scope_required, value_required,
}
pub mod Table
pub mod Rows
pub mod Calls
pub mod Targets
pub mod Histories
mod Examples

module _ (to_lower : String → String) where
  -- memoryscope.Normalize
  unfoldable pub normalize_memory_scope : String → String → String
  normalize_memory_scope scope profile_id =
      let known = to_lower (trim_space scope) in
      if is_known_scope known
      then known
      else if trim_space profile_id == ""
      then "workspace"
      else "profile"

  -- The service's workspace takes the place of a blank one.
  unfoldable pub slot_key : Service → String → String → String → String → String → SlotKey
  unfolding normalize_memory_scope
  slot_key s workspace_id profile_id peer scope name = record {
    workspace_id = workspace_of s.workspace_id workspace_id;
    profile_id = trim_space profile_id;
    peer = trim_space peer;
    scope = normalize_memory_scope scope (trim_space profile_id);
    name = trim_space name;
  }

  abbrev pub params_key : Service → SlotParams → SlotKey
  params_key s p = slot_key s p.workspace_id p.profile_id p.peer p.scope p.name

  abbrev pub query_key : Service → SlotQuery → SlotKey
  query_key s q = slot_key s q.workspace_id q.profile_id q.peer q.scope q.name

  unfoldable pub normalize_memory_slot_params :
      {E : Type 0} → Service → SlotParams → Result (SlotError E) MemorySlot
  normalize_memory_slot_params s p =
      let k = params_key s p in
      if not (is_complete k) || (k.name == "" || trim_space p.value == "")
      then err slot_required
      else ok (record (blank_slot k) { kind = default_kind p.kind; value = trim_space p.value })

  -- The name may be blank; the operations on one slot refuse that.
  unfoldable pub normalize_memory_slot_query :
      {E : Type 0} → Service → SlotQuery → Result (SlotError E) SlotKey
  normalize_memory_slot_query s q =
      let k = query_key s q in if not (is_complete k) then err scope_required else ok k

  module _ {E : Type 0} where
    -- The slot that a creation writes.
    abbrev pub created_slot :
        Service → Faults → SlotParams → ℕ → List MemorySlot → Result (SlotError E) MemorySlot
    created_slot s faults p now rows = normalize_memory_slot_params s p >>= λ norm.
        get_memory_slot_row faults norm.key true rows >>= λ found.
        unoccupied norm.key found >>= λ old. ok (creation now norm old)

    abbrev pub appended_slot :
        Service → Faults → SlotParams → ℕ → List MemorySlot → Result (SlotError E) MemorySlot
    appended_slot s faults p now rows = normalize_memory_slot_params s p >>= λ norm.
        read_slot faults norm.key rows >>= λ slot.
        if trim_space norm.value == "" then err value_required else ok (appended now norm slot)

    abbrev pub replaced_slot :
        Service → Faults → SlotParams → ℕ → List MemorySlot → Result (SlotError E) MemorySlot
    replaced_slot s faults p now rows = normalize_memory_slot_params s p >>= λ norm.
        read_slot faults norm.key rows >>= λ slot. ok (replaced now norm slot)

    abbrev pub query_slot :
        Service → Faults → SlotQuery → List MemorySlot → Result (SlotError E) MemorySlot
    query_slot s faults q rows =
        normalize_memory_slot_query s q >>= λ k. named k >>= λ k'. read_slot faults k' rows

    unfoldable pub get_memory_slot :
        {W : Type 0} → Service → Faults → SlotQuery → Store W → Result (SlotError E) MemorySlot
    unfolding get_memory_slot_row normalize_memory_slot_query
    get_memory_slot s faults q st = query_slot s faults q st.rows

  module _ {W E : Type 0} (observe : String → MemorySlot → W → W × Option E) where
    unfoldable pub create_memory_slot : Service → Faults → SlotParams → ℕ → Store W → Outcome W E
    unfolding save_slot get_memory_slot_row normalize_memory_slot_params
    create_memory_slot s faults p now st =
        saved observe faults "create" st (created_slot s faults p now st.rows)

    unfoldable pub append_memory_slot : Service → Faults → SlotParams → ℕ → Store W → Outcome W E
    unfolding save_slot get_memory_slot_row normalize_memory_slot_params appended
    append_memory_slot s faults p now st =
        saved observe faults "append" st (appended_slot s faults p now st.rows)

    unfoldable pub replace_memory_slot : Service → Faults → SlotParams → ℕ → Store W → Outcome W E
    unfolding save_slot get_memory_slot_row normalize_memory_slot_params replaced
    replace_memory_slot s faults p now st =
        saved observe faults "replace" st (replaced_slot s faults p now st.rows)

    unfoldable pub delete_memory_slot : Service → Faults → SlotQuery → ℕ → Store W → Outcome W E
    unfolding save_slot get_memory_slot_row normalize_memory_slot_query deletion
    delete_memory_slot s faults q now st =
        saved observe faults "delete" st
          (query_slot s faults q st.rows >>= λ slot. ok (deletion now slot))
