-- ===== src/Slots/Examples.antt =====
-- One slot through its life, with an observation log that counts.
use Prim.Native.String.{String}
use goncho.Prelude.{ℕ, suc, ◌≡◌, refl, Bool, false, Option, none, some, [], ◌∷◌}
use goncho.Prelude.Text.{trim_space, is_space}
use goncho.Prelude.Result.{ok}
use goncho.Leases.Params.{Service, workspace_of}
use goncho.Slots.{slot_key, normalize_memory_scope, replace_memory_slot}
use goncho.Slots.Table.{
  SlotKey, MemorySlot, SlotParams, SlotQuery, find_row, Store, Faults, same_key, put_row,
}
use goncho.Slots.Calls.{Move}
use goncho.Slots.Histories.{Change, replacing, deleting, perform, perform-Move}

abbrev keep : String → String
keep t = t

abbrev count : String → MemorySlot → ℕ → ℕ × Option String
count action slot n = (suc n, none)

abbrev solo : Service
solo = record { workspace_id = "main"; server_mode = "" }

abbrev up : Faults
up statement = false

abbrev ask : String → String → SlotParams
ask kind value = record {
  workspace_id = "";
  profile_id = "";
  peer = " ana ";
  scope = "";
  name = "diet";
  kind = kind;
  value = value;
}

abbrev diet : SlotQuery
diet = record { workspace_id = ""; profile_id = ""; peer = "ana"; scope = ""; name = "diet" }

abbrev diet_key : SlotKey
diet_key = record {
  workspace_id = "main";
  profile_id = "";
  peer = "ana";
  scope = "workspace";
  name = "diet";
}

abbrev slot : String → String → ℕ → Bool → ℕ → MemorySlot
slot kind value revision deleted updated_at = record {
  key = diet_key;
  kind = kind;
  value = value;
  revision = revision;
  deleted = deleted;
  created_at = 5;
  updated_at = updated_at;
}

abbrev holding : MemorySlot → Store ℕ
holding old = record { rows = old ∷ []; world = 0 }

abbrev vegan : MemorySlot
vegan = slot "preference" "vegan" 1 false 5

abbrev update : Change
update = replacing (ask "" " vegetarian ")

abbrev forget : Change
forget = deleting diet

abbrev vegetarian : MemorySlot
vegetarian = slot "fact" "vegetarian" 2 false 9

-- The kind of the slot is lost where none is given.
replace_resets_kind :
    perform keep {E = String} solo count update up 9 (holding vegan)
    ≡ (record { rows = vegetarian ∷ []; world = 1 }, ok vegetarian)
unfolding replace_memory_slot normalize_memory_scope trim_space is_space slot_key workspace_of
    find_row same_key put_row
replace_resets_kind = refl

perform-Move_example : Move (some vegan) (some vegetarian)
unfolding replace_memory_slot normalize_memory_scope trim_space is_space slot_key workspace_of
    find_row same_key put_row
perform-Move_example =
    perform-Move keep {E = String} solo count update up 9 diet_key (holding vegan)
