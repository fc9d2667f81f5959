-- ===== src/WriteQueue/Inflight.antt =====
-- Calls of `Cancel` that arrive while `Submit` waits for the store. `Submit` holds `mu`, `Cancel`
-- takes only `cancelMu`, so they can run between `takeCancelled` and `markConsumed`.
use goncho.Prelude.{
  ◌≡◌, refl, String, true, false, List, [], ◌∷◌, ◌==◌, eq_iff, arith, if◌then◌else◌, contains,
  contains-cons,
}
use goncho.WriteQueue.{
  MemoryWrite, WriteEvidence, WriteQueue, Seams, cancel, take_cancelled, mark_consumed, after_apply,
  submit, cancelled_evidence,
}

unfoldable cancel_all : List String → WriteQueue → WriteQueue
cancel_all [] q = q
cancel_all (id ∷ ids) q = cancel_all ids (cancel id q).0

module _ {W E : Type 0} (s : Seams W E) where
  -- `Submit`, with the given calls of `Cancel` between its start and the mark that it is consumed.
  unfoldable pub submit_during :
      MemoryWrite → List String → WriteQueue → W → WriteQueue × W × WriteEvidence E
  unfolding take_cancelled mark_consumed after_apply cancel_all
  submit_during w ids q world =
      let (q', taken) = take_cancelled w.id q in
      if taken
      then (q', world, cancelled_evidence)
      else let (world₁, failed) = s.store.apply w world in
        let (world₂, evidence) = after_apply s w failed world₁ in
        (mark_consumed w.id (cancel_all ids q'), world₂, evidence)

  submit_during-nil :
      (w : MemoryWrite) (q : WriteQueue) (world : W)
      → submit_during w [] q world ≡ submit s w q world
  unfolding submit_during submit
  submit_during-nil w q world = refl

  submit_during_queue :
      (w : MemoryWrite) (ids : List String) (q : WriteQueue) (world : W)
      → contains q.cancelled_ids w.id ≡ false
      → (submit_during w ids q world).0 ≡ mark_consumed w.id (cancel_all ids q)
  unfolding submit_during
  submit_during_queue w ids q world free = rw free

  later_cancelled :
      (w : MemoryWrite) (q : WriteQueue) (world : W)
      → contains q.cancelled_ids w.id ≡ true
      → ((submit s w q world).1 ≡ world) × ((submit s w q world).2 ≡ cancelled_evidence)
  unfolding submit
  later_cancelled w q world h = rw h (refl, refl)

  -- A `Cancel` of a fresh, nonempty id while the write of that id waits for the store returns true,
  -- though the write has begun and takes effect as if there had been no call: the external state and
  -- the evidence are those of an undisturbed `Submit`. Afterwards the id is consumed and still waits
  -- for its cancellation, so the next `Submit` of that id is dropped.
  pub submit_during-cancel :
      (w : MemoryWrite) (q : WriteQueue) (world later : W)
      → (w.id == "") ≡ false
      → contains q.cancelled_ids w.id ≡ false
      → contains q.consumed w.id ≡ false
      → let (q', world', evidence) = submit_during w (w.id ∷ []) q world in
        ((cancel w.id q).1 ≡ true)
        × (world' ≡ (submit s w q world).1)
        × (evidence ≡ (submit s w q world).2)
        × (contains q'.consumed w.id ≡ true)
        × (contains q'.cancelled_ids w.id ≡ true)
        × ((submit s w q' later).1 ≡ later)
        × ((submit s w q' later).2 ≡ cancelled_evidence)
  submit_during-cancel w q world later named free fresh =
      let accepted : (cancel w.id q).1 ≡ true = unfold cancel in ground arith in
      let q' = (submit_during w (w.id ∷ []) q world).0 in
      let e = submit_during_queue w (w.id ∷ []) q world free in
      let done : contains q'.consumed w.id ≡ true = rw e (
        unfold mark_consumed in
        ground
          (arith, contains-cons w.id (cancel_all (w.id ∷ []) q).consumed w.id, eq_iff w.id w.id)) in
      let waits : contains q'.cancelled_ids w.id ≡ true = rw e (
        unfold mark_consumed cancel_all cancel in
        ground (arith, contains-cons w.id q.cancelled_ids w.id, eq_iff w.id w.id)) in
      (
        accepted,
        (unfold submit_during submit in rw free),
        (unfold submit_during submit in rw free),
        done,
        waits,
        (later_cancelled w q' later waits).0,
        (later_cancelled w q' later waits).1,
      )
