-- ===== src/Slots/Targets.antt =====
-- The slot that each call of service/memory_slots.go is to write.
use Prim.Native.String.{String}
use goncho.Prelude.{
  ℕ, suc, ◌≡◌, refl, ap, ◌∙◌, subst, arith, Bool, true, false, not, ◌||◌, List, ◌==◌,
}
use goncho.Prelude.Text.{trim_space}
use goncho.Prelude.Result.{ok, ◌>>=◌, ok_chain, past_guard}
use goncho.Leases.Params.{Service}
use goncho.Slots.{
  normalize_memory_slot_params, normalize_memory_slot_query, created_slot, appended_slot,
  replaced_slot, query_slot, params_key, query_key,
}
use goncho.Slots.Table.{
  get_memory_slot_row, unoccupied, read_slot, SlotKey, MemorySlot, SlotParams, SlotQuery, Faults,
  creation, appended, replaced, deletion, named, get_row, with_kind, is_complete, blank_slot,
  default_kind, appended_value,
}
use goncho.Slots.Calls.{
  Target, IsNamed, creation-Target, run_sql-ok, read_slot-Target, unoccupied-ok,
}

with_kind-rest :
    (kind : String) (slot : MemorySlot)
    → ((with_kind kind slot).key ≡ slot.key)
      × ((with_kind kind slot).revision ≡ slot.revision)
      × ((with_kind kind slot).created_at ≡ slot.created_at)
with_kind-rest kind slot = ground arith

-- A key that passed the tests of a normalization.
IsNamed-tests :
    (k : SlotKey) (unvalued : Bool)
    → not (is_complete k) || (k.name == "" || unvalued) ≡ false
    → IsNamed k
IsNamed-tests k unvalued h = (ground arith, ground arith)

named-IsNamed :
    {E : Type 0} (k : SlotKey) {k' : SlotKey}
    → not (is_complete k) ≡ false
    → named {E = E} k ≡ ok k'
    → IsNamed k'
named-IsNamed k {k'} whole h =
    let (name, made) = past_guard (k.name == "") _ _ h in
    let e : k ≡ k' = cc in subst IsNamed e (IsNamed-tests k false (ground arith))

module _ (to_lower : String → String) {E : Type 0} (s : Service) where
  params-ok :
      (p : SlotParams) {norm : MemorySlot}
      → normalize_memory_slot_params to_lower {E = E} s p ≡ ok norm
      → IsNamed norm.key × (norm.deleted ≡ false)
  unfolding normalize_memory_slot_params
  params-ok p {norm} h =
      let k = params_key to_lower s p in
      let (tests, made) =
        past_guard (not (is_complete k) || (k.name == "" || trim_space p.value == "")) _ _ h in
      let e : record (blank_slot k) { kind = default_kind p.kind; value = trim_space p.value }
          ≡ norm =
        cc in
      subst (λ n. IsNamed n.key × (n.deleted ≡ false)) e (IsNamed-tests k _ tests, refl)

  module _ (faults : Faults) where
    pub created_slot-Target :
        (p : SlotParams) (now : ℕ) (rows : List MemorySlot) (slot : MemorySlot)
        → created_slot to_lower {E = E} s faults p now rows ≡ ok slot
        → Target rows slot
    unfolding get_memory_slot_row
    created_slot-Target p now rows slot h =
        let (norm, normal, h₁) = ok_chain (normalize_memory_slot_params to_lower {E = E} s p) _ h in
        let (found, got, h₂) =
          ok_chain (get_memory_slot_row {E = E} faults norm.key true rows) _ h₁ in
        let (old, free, h₃) = ok_chain (unoccupied {E = E} norm.key found) _ h₂ in
        let (same, gone) = unoccupied-ok norm.key found free in
        let (name, live) = params-ok p normal in
        let made : creation now norm old ≡ slot = cc in
        subst (Target rows) made
          (creation-Target now norm old rows name live (run_sql-ok faults get_row got ∙ same) gone)

    pub appended_slot-Target :
        (p : SlotParams) (now : ℕ) (rows : List MemorySlot) (slot : MemorySlot)
        → appended_slot to_lower {E = E} s faults p now rows ≡ ok slot
        → Target rows slot
    unfolding appended
    appended_slot-Target p now rows slot h =
        let (norm, normal, h₁) = ok_chain (normalize_memory_slot_params to_lower {E = E} s p) _ h in
        let (old, read, h₂) = ok_chain (read_slot {E = E} faults norm.key rows) _ h₁ in
        let (full, h₃) = past_guard (trim_space norm.value == "") _ _ h₂ in
        let made : appended now norm old ≡ slot = cc in
        let (key, revision, time) =
          with_kind-rest norm.kind
            (record old { value = appended_value old.value (trim_space norm.value) }) in
        subst (Target rows) made (
          read_slot-Target faults norm.key rows (params-ok p normal).0 read key (ap suc revision)
            time)

    pub replaced_slot-Target :
        (p : SlotParams) (now : ℕ) (rows : List MemorySlot) (slot : MemorySlot)
        → replaced_slot to_lower {E = E} s faults p now rows ≡ ok slot
        → Target rows slot
    unfolding replaced
    replaced_slot-Target p now rows slot h =
        let (norm, normal, h₁) = ok_chain (normalize_memory_slot_params to_lower {E = E} s p) _ h in
        let (old, read, h₂) = ok_chain (read_slot {E = E} faults norm.key rows) _ h₁ in
        let made : replaced now norm old ≡ slot = cc in
        let (key, revision, time) = with_kind-rest norm.kind (record old { value = norm.value }) in
        subst (Target rows) made (
          read_slot-Target faults norm.key rows (params-ok p normal).0 read key (ap suc revision)
            time)

    pub deleted_slot-Target :
        (q : SlotQuery) (now : ℕ) (rows : List MemorySlot) (slot : MemorySlot)
        → query_slot to_lower {E = E} s faults q rows >>= (λ old. ok (deletion now old)) ≡ ok slot
        → Target rows slot
    unfolding deletion normalize_memory_slot_query
    deleted_slot-Target q now rows slot h =
        let (old, found, h₁) = ok_chain (query_slot to_lower {E = E} s faults q rows) _ h in
        let (k, normal, h₂) = ok_chain (normalize_memory_slot_query to_lower {E = E} s q) _ found in
        let (k', titled, read) = ok_chain (named {E = E} k) _ h₂ in
        let (whole, kept_key) =
          past_guard (not (is_complete (query_key to_lower s q))) _ _ normal in
        let made : deletion now old ≡ slot = cc in
        let same : query_key to_lower s q ≡ k = cc in
        let name = named-IsNamed k (subst (λ j. not (is_complete j) ≡ false) same whole) titled in
        subst (Target rows) made (read_slot-Target faults k' rows name read refl refl refl)
