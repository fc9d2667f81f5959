-- ===== src/Slots/Calls.antt =====
-- What one change of a slot does to the rows of the table.
use Prim.Native.String.{String}
use goncho.Prelude.{
  ℕ, suc, ◌≡◌, refl, sym, ap, ◌∙◌, subst, ◌<◌, arith, true, false, Option, none, some, List, ◌==◌,
  Bool-cases, inl, inr,
}
use goncho.Prelude.Result.{Result, ok, err, ok_chain, past_guard}
use goncho.Slots.Table.{
  run_sql, get_memory_slot_row, expected, unoccupied, read_slot, saved, save_slot, SlotKey,
  MemorySlot, SlotError, Statement, sql_failed, same_key, find_row, put_row, updated_row,
  unless_deleted, Store, Faults, upsert_row, get_row, creation, observed, is_complete,
}
use goncho.Slots.Rows.{written, find_row-put_row, find_row-key, same_key_iff}

-- How the row of a key may differ after a call.
pub data Move : Option MemorySlot → Option MemorySlot → Type 0 where
  kept : {row : Option MemorySlot} → Move row row
  created : {slot : MemorySlot} → slot.revision ≡ 1 → slot.deleted ≡ false → Move none (some slot)
  recreated :
      {old slot : MemorySlot}
      → old.deleted ≡ true
      → slot.revision ≡ 1
      → slot.deleted ≡ false
      → slot.created_at ≡ old.created_at
      → Move (some old) (some slot)
  advanced :
      {old slot : MemorySlot}
      → old.deleted ≡ false
      → slot.revision ≡ suc old.revision
      → slot.created_at ≡ old.created_at
      → Move (some old) (some slot)

-- What a call writes over what stands in the row: the slot that it is to write.
pub data Written (found : Option MemorySlot) (slot : MemorySlot) : Type 0 where
  fresh : found ≡ none → slot.revision ≡ 1 → slot.deleted ≡ false → Written found slot
  again :
      (old : MemorySlot)
      → found ≡ some old
      → old.deleted ≡ true
      → slot.revision ≡ 1
      → slot.deleted ≡ false
      → Written found slot
  next :
      (old : MemorySlot)
      → found ≡ some old
      → old.deleted ≡ false
      → slot.revision ≡ suc old.revision
      → Written found slot

updated_row-same :
    (old slot : MemorySlot)
    → old.key ≡ slot.key
    → old.created_at ≡ slot.created_at
    → updated_row old slot ≡ slot
updated_row-same old slot k t = rw (k, t) refl

abbrev pub IsNamed : SlotKey → Type 0
IsNamed k = (is_complete k ≡ true) × ((k.name == "") ≡ false)

-- Sqlite has the rows with the time at which they were inserted.
abbrev pub IsDated : List MemorySlot → Type 0
IsDated rows = (k : SlotKey) (slot : MemorySlot) → find_row k rows ≡ some slot → 0 < slot.created_at

-- The slot that a call is to write: where it stands afterwards, it stands as it is.
pub record Target (rows : List MemorySlot) (slot : MemorySlot) : Type 0 where
  pub name : IsNamed slot.key
  pub writes : Written (find_row slot.key rows) slot
  pub stays : IsDated rows → written slot (find_row slot.key rows) ≡ slot

-- The row of a creation: it is new, or takes the place of a deleted slot.
pub creation-Target :
    (now : ℕ) (norm : MemorySlot) (old : Option MemorySlot) (rows : List MemorySlot)
    → IsNamed norm.key
    → norm.deleted ≡ false
    → find_row norm.key rows ≡ old
    → ((slot : MemorySlot) → old ≡ some slot → slot.deleted ≡ true)
    → Target rows (creation now norm old)
creation-Target now norm none rows name live there gone = record {
  name = name;
  writes = fresh there refl live;
  stays = λ dated. rw there refl;
}
creation-Target now norm (some old) rows name live there gone = record {
  name = name;
  writes = again old there (gone old refl) refl live;
  stays = λ dated. rw there (
      updated_row-same old (creation now norm (some old)) (find_row-key norm.key rows old there)
        (let old_time = dated norm.key old there in ground arith));
}

Written-Move :
    (found : Option MemorySlot) (slot : MemorySlot)
    → Written found slot
    → Move found (some (written slot found))
Written-Move found slot (fresh e r d) =
    subst (λ f. Move f (some (written slot f))) (sym e) (created r d)
Written-Move found slot (again old e was r d) =
    subst (λ f. Move f (some (written slot f))) (sym e) (recreated was r d refl)
Written-Move found slot (next old e was r) =
    subst (λ f. Move f (some (written slot f))) (sym e) (advanced was r refl)

-- The target of a call is written over the row of its key.
put_row-Move :
    (at : SlotKey) (slot : MemorySlot) (rows : List MemorySlot)
    → Written (find_row slot.key rows) slot
    → Move (find_row at rows) (find_row at (put_row slot rows))
put_row-Move at slot rows w = elim (Bool-cases (same_key slot.key at)) [
  | inl same ↦
      let e : slot.key ≡ at = (same_key_iff slot.key at).0 same in
      subst (Move (find_row at rows)) (sym (find_row-put_row at slot rows)) (
        rw same
          (Written-Move (find_row at rows) slot (subst (λ k. Written (find_row k rows) slot) e w)))
  | inr other ↦ rw (find_row-put_row at slot rows, other) kept
]

unless_deleted-some :
    (found : Option MemorySlot) {slot : MemorySlot}
    → unless_deleted found ≡ some slot
    → (found ≡ some slot) × (slot.deleted ≡ false)
unless_deleted-some none h = cc
unless_deleted-some (some old) h = ground arith

module _ {E : Type 0} where
  pub run_sql-ok :
      {A : Type 0} {a b : A} (faults : Faults) (s : Statement)
      → run_sql {E = E} faults s a ≡ ok b
      → a ≡ b
  run_sql-ok faults s h = let e = (past_guard (faults s) _ _ h).1 in cc

  expected-ok :
      (k : SlotKey) (found : Option MemorySlot) {slot : MemorySlot}
      → expected {E = E} k found ≡ ok slot
      → found ≡ some slot
  expected-ok k none h = cc
  expected-ok k (some old) h = cc

  read_slot-ok :
      (faults : Faults) (k : SlotKey) (rows : List MemorySlot) {slot : MemorySlot}
      → read_slot {E = E} faults k rows ≡ ok slot
      → (find_row k rows ≡ some slot) × (slot.deleted ≡ false)
  unfolding get_memory_slot_row
  read_slot-ok faults k rows h =
      let (found, got, h₁) = ok_chain (get_memory_slot_row {E = E} faults k false rows) _ h in
      unless_deleted-some (find_row k rows) (run_sql-ok faults get_row got ∙ expected-ok k found h₁)

  -- A change of a live slot keeps its key and its time of creation.
  pub read_slot-Target :
      (faults : Faults) (k : SlotKey) (rows : List MemorySlot) {old slot : MemorySlot}
      → IsNamed k
      → read_slot {E = E} faults k rows ≡ ok old
      → slot.key ≡ old.key
      → slot.revision ≡ suc old.revision
      → slot.created_at ≡ old.created_at
      → Target rows slot
  read_slot-Target faults k rows {old} {slot} name h same grown time =
      let (there, live) = read_slot-ok faults k rows h in
      let e : slot.key ≡ k = same ∙ find_row-key k rows old there in
      let found : find_row slot.key rows ≡ some old = ap (λ at. find_row at rows) e ∙ there in
      record {
        name = subst IsNamed (sym e) name;
        writes = next old found live grown;
        stays = λ dated.
            subst (λ f. written slot f ≡ slot) (sym found)
              (updated_row-same old slot (sym same) (sym time));
      }

  pub unoccupied-ok :
      (k : SlotKey) (found : Option MemorySlot) {old : Option MemorySlot}
      → unoccupied {E = E} k found ≡ ok old
      → (found ≡ old) × ((slot : MemorySlot) → old ≡ some slot → slot.deleted ≡ true)
  unoccupied-ok k none h = (cc, λ slot e. cc)
  unoccupied-ok k (some row) h = (ground arith, λ slot e. ground arith)

  pub saved-Move :
      {W : Type 0} (observe : String → MemorySlot → W → W × Option E) (faults : Faults)
      (action : String) (at : SlotKey) (st : Store W) (target : Result (SlotError E) MemorySlot)
      → ((slot : MemorySlot) → target ≡ ok slot → Target st.rows slot)
      → Move (find_row at st.rows) (find_row at (saved observe faults action st target).0.rows)
  unfolding save_slot
  saved-Move observe faults action at st (err e) w = kept
  saved-Move observe faults action at st (ok slot) w = elim (Bool-cases (faults upsert_row)) [
    | inl down ↦ rw down kept
    | inr up ↦ rw up (put_row-Move at slot st.rows (w slot refl).writes)
  ]

  observed-ok :
      (written_slot : MemorySlot) (failed : Option E) {slot : MemorySlot}
      → observed written_slot failed ≡ ok slot
      → written_slot ≡ slot
  observed-ok written_slot none h = cc
  observed-ok written_slot (some e) h = cc

  -- A call that returns a slot has written it.
  pub saved-Target :
      {W : Type 0} (observe : String → MemorySlot → W → W × Option E) (faults : Faults)
      (action : String) (st : Store W) (target : Result (SlotError E) MemorySlot)
      {slot : MemorySlot}
      → ((slot : MemorySlot) → target ≡ ok slot → Target st.rows slot)
      → (saved observe faults action st target).1 ≡ ok slot
      → Target st.rows slot
        × ((saved observe faults action st target).0.rows ≡ put_row slot st.rows)
  unfolding save_slot
  saved-Target observe faults action st (err e) w h = cc
  saved-Target observe faults action st (ok written_slot) {slot} w h =
      elim (Bool-cases (faults upsert_row)) [
        | inl down ↦ let failed : err (sql_failed upsert_row) ≡ ok slot = rw down at h in cc
        | inr up ↦
            let answer = observe action written_slot st.world in
            let returned : observed written_slot answer.1 ≡ ok slot = rw up at h in
            let e : written_slot ≡ slot = observed-ok written_slot answer.1 returned in
            (w slot (ap ok e), rw (up, e) refl)
      ]
