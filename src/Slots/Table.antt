-- ===== src/Slots/Table.antt =====
-- The table of slots, with the statements of service/memory_slots.go on it and what an operation does
-- with the slot that it has read.
use Prim.Native.String.{String, ◌++◌ as str_append}
use goncho.Prelude.{
  ℕ, suc, Bool, true, false, not, ◌&&◌, ◌||◌, Option, none, some, List, [], ◌∷◌, ◌==◌, ltb,
  if◌then◌else◌,
}
use goncho.Prelude.Text.{trim_space}
use goncho.Prelude.Result.{Result, ok, err, ◌>>=◌}

-- The primary key.
pub record SlotKey : Type 0 where
  pub workspace_id : String
  pub profile_id : String
  pub peer : String
  pub scope : String
  pub name : String

pub record MemorySlot : Type 0 where
  pub key : SlotKey
  pub kind : String
  pub value : String
  pub revision : ℕ
  pub deleted : Bool
  pub created_at : ℕ
  pub updated_at : ℕ

pub record SlotParams : Type 0 where
  pub workspace_id : String
  pub profile_id : String
  pub peer : String
  pub scope : String
  pub name : String
  pub kind : String
  pub value : String

pub record SlotQuery : Type 0 where
  pub workspace_id : String
  pub profile_id : String
  pub peer : String
  pub scope : String
  pub name : String

pub data Statement : Type 0 where
  get_row upsert_row : Statement

-- `observe_failed` is an error of the observation log, after the slot was written.
pub data SlotError (E : Type 0) : Type 0 where
  slot_required scope_required name_required value_required : SlotError E
  conflict not_found : String → SlotError E
  sql_failed : Statement → SlotError E
  observe_failed : E → SlotError E

unfoldable pub same_key : SlotKey → SlotKey → Bool
same_key a b =
    a.workspace_id == b.workspace_id
    && (a.profile_id == b.profile_id
        && (a.peer == b.peer && (a.scope == b.scope && a.name == b.name)))

unfoldable pub find_row : SlotKey → List MemorySlot → Option MemorySlot
find_row k [] = none
find_row k (slot ∷ slots) =
    let rest = find_row k slots in if same_key slot.key k then some slot else rest

-- ON CONFLICT DO UPDATE SET: the row keeps its time of creation.
abbrev pub updated_row : MemorySlot → MemorySlot → MemorySlot
updated_row old slot = record old {
  kind = slot.kind;
  value = slot.value;
  revision = slot.revision;
  deleted = slot.deleted;
  updated_at = slot.updated_at;
}

unfoldable pub put_row : MemorySlot → List MemorySlot → List MemorySlot
put_row slot [] = slot ∷ []
put_row slot (old ∷ slots) =
    let rest = put_row slot slots in
    if same_key old.key slot.key then updated_row old slot ∷ slots else old ∷ rest

-- AND deleted = 0
abbrev pub unless_deleted : Option MemorySlot → Option MemorySlot
unless_deleted none = none
unless_deleted (some slot) = if slot.deleted then none else some slot

-- The table, and what the observation log acts on.
pub record Store (W : Type 0) : Type 0 where
  pub rows : List MemorySlot
  pub world : W

abbrev pub Faults : Type 0
Faults = Statement → Bool

abbrev pub blank_slot : SlotKey → MemorySlot
blank_slot k = record {
  key = k;
  kind = "";
  value = "";
  revision = 0;
  deleted = false;
  created_at = 0;
  updated_at = 0;
}

abbrev pub is_known_scope : String → Bool
is_known_scope scope =
    scope == "profile"
    || (scope == "workspace" || (scope == "shared" || (scope == "session" || scope == "global")))

abbrev pub is_complete : SlotKey → Bool
is_complete k = not (k.workspace_id == "") && not (k.peer == "")

-- What an operation does with the slot that it has read.
abbrev pub default_kind : String → String
default_kind kind = if trim_space kind == "" then "fact" else trim_space kind

-- A repeated creation takes the place of a deleted slot.
abbrev pub creation : ℕ → MemorySlot → Option MemorySlot → MemorySlot
creation now norm none = record norm { revision = 1; created_at = now; updated_at = now }
creation now norm (some old) = record norm {
  revision = 1;
  created_at = if ltb 0 old.created_at then old.created_at else now;
  updated_at = now;
}

abbrev pub with_kind : String → MemorySlot → MemorySlot
with_kind kind slot = if kind == "" then slot else (record slot { kind = kind })

abbrev revised : ℕ → MemorySlot → MemorySlot
revised now slot = record slot { revision = suc slot.revision; updated_at = now }

abbrev pub appended_value : String → String → String
appended_value old added =
    if trim_space old == "" then added else str_append old (str_append "\n" added)

unfoldable pub appended : ℕ → MemorySlot → MemorySlot → MemorySlot
appended now norm slot = revised now (
    with_kind norm.kind (record slot { value = appended_value slot.value (trim_space norm.value) }))

unfoldable pub replaced : ℕ → MemorySlot → MemorySlot → MemorySlot
replaced now norm slot = revised now (with_kind norm.kind (record slot { value = norm.value }))

unfoldable pub deletion : ℕ → MemorySlot → MemorySlot
deletion now slot = revised now (record slot { deleted = true })

abbrev pub observed : {E : Type 0} → MemorySlot → Option E → Result (SlotError E) MemorySlot
observed slot none = ok slot
observed slot (some e) = err (observe_failed e)

abbrev pub Outcome : Type 0 → Type 0 → Type 0
Outcome W E = Store W × Result (SlotError E) MemorySlot

abbrev pub named : {E : Type 0} → SlotKey → Result (SlotError E) SlotKey
named k = if k.name == "" then err name_required else ok k

module _ {E : Type 0} where
  abbrev pub run_sql : {A : Type 0} → Faults → Statement → A → Result (SlotError E) A
  run_sql faults s a = if faults s then err (sql_failed s) else ok a

  -- `getMemorySlotRow`; a missing row is no error.
  unfoldable pub get_memory_slot_row :
      Faults → SlotKey → Bool → List MemorySlot → Result (SlotError E) (Option MemorySlot)
  get_memory_slot_row faults k include_deleted rows =
      run_sql faults get_row
        (if include_deleted then find_row k rows else unless_deleted (find_row k rows))

  abbrev pub expected : SlotKey → Option MemorySlot → Result (SlotError E) MemorySlot
  expected k none = err (not_found k.name)
  expected k (some slot) = ok slot

  -- Of a creation: the slot in place must be deleted.
  abbrev pub unoccupied : SlotKey → Option MemorySlot → Result (SlotError E) (Option MemorySlot)
  unoccupied k none = ok none
  unoccupied k (some slot) = if slot.deleted then ok (some slot) else err (conflict k.name)

  abbrev pub read_slot : Faults → SlotKey → List MemorySlot → Result (SlotError E) MemorySlot
  read_slot faults k rows = get_memory_slot_row faults k false rows >>= λ found. expected k found

module _ {W E : Type 0} (observe : String → MemorySlot → W → W × Option E) where
  -- `upsertMemorySlotRow` and `auditMemorySlot`, which records the action by `observe`.
  unfoldable pub save_slot : Faults → String → MemorySlot → Store W → Outcome W E
  save_slot faults action slot st =
      if faults upsert_row
      then (st, err (sql_failed upsert_row))
      else let (world, failed) = observe action slot st.world in
        (record { rows = put_row slot st.rows; world = world }, observed slot failed)

  abbrev pub saved : Faults → String → Store W → Result (SlotError E) MemorySlot → Outcome W E
  saved faults action st (err e) = (st, err e)
  saved faults action st (ok slot) = save_slot faults action slot st
