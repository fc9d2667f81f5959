-- ===== src/WriteQueue/Cancel.antt =====
-- What `Cancel` promises while submissions run one after the other.
use goncho.Prelude.{
  ◌≡◌, ap, any, ◌||◌, String, Bool, true, false, List, [], ◌∷◌, ◌==◌, eq_iff, arith, if◌then◌else◌,
  contains, contains-cons, contains-without, Bool-cases, inl, inr,
}
use goncho.WriteQueue.{
  MemoryWrite, WriteQueue, Seams, cancel, take_cancelled, mark_consumed, submit, cancelled_evidence,
}

-- A call on the queue.
pub data Op : Type 0 where
  cancelling : String → Op
  submitting : MemoryWrite → Op

-- No id waits for a cancellation that has been consumed, and the empty id never waits.
pub record IsSeparate (q : WriteQueue) : Type 0 where
  pub apart : (id : String) → contains q.cancelled_ids id ≡ true → contains q.consumed id ≡ false
  pub named : contains q.cancelled_ids "" ≡ false

cancel-IsSeparate : (id : String) (q : WriteQueue) → IsSeparate q → IsSeparate (cancel id q).0
unfolding cancel
cancel-IsSeparate id q h = record {
  apart = λ j. ground (arith, h.apart j, contains-cons id q.cancelled_ids j, eq_iff id j);
  named = ground (arith, h.named, contains-cons id q.cancelled_ids "");
}

take_cancelled-IsSeparate :
    (id : String) (q : WriteQueue) → IsSeparate q → IsSeparate (take_cancelled id q).0
unfolding take_cancelled
take_cancelled-IsSeparate id q h = record {
  apart = λ j. ground (
    arith,
    h.apart j,
    contains-without id q.cancelled_ids j,
    contains-cons id q.consumed j,
    eq_iff id j,
  );
  named = ground (arith, h.named, contains-without id q.cancelled_ids "");
}

mark_consumed-IsSeparate :
    (id : String) (q : WriteQueue)
    → contains q.cancelled_ids id ≡ false
    → IsSeparate q
    → IsSeparate (mark_consumed id q)
unfolding mark_consumed
mark_consumed-IsSeparate id q free h = record {
  apart = λ j. ground (arith, h.apart j, contains-cons id q.consumed j, eq_iff id j);
  named = h.named;
}

abbrev submits : String → Op → Bool
submits id (cancelling _) = false
submits id (submitting w) = w.id == id

module _ {W E : Type 0} (s : Seams W E) where
  queue-submit :
      (w : MemoryWrite) (q : WriteQueue) (world : W)
      → (submit s w q world).0 ≡ (
          if contains q.cancelled_ids w.id then (take_cancelled w.id q).0 else mark_consumed w.id q)
  unfolding submit
  queue-submit w q world = elim (Bool-cases (contains q.cancelled_ids w.id)) [
    | inl e ↦ rw e
    | inr e ↦ rw e
  ]

  submit-IsSeparate :
      (w : MemoryWrite) (q : WriteQueue) (world : W)
      → IsSeparate q
      → IsSeparate (submit s w q world).0
  submit-IsSeparate w q world h =
      rw queue-submit (elim (Bool-cases (contains q.cancelled_ids w.id)) [
        | inl e ↦ rw e (take_cancelled-IsSeparate w.id q h)
        | inr e ↦ rw e (mark_consumed-IsSeparate w.id q e h)
      ])

  -- The calls, one after the other.
  pub run : List Op → WriteQueue → W → WriteQueue × W
  run [] q world = (q, world)
  run (cancelling id ∷ ops) q world = run ops (cancel id q).0 world
  run (submitting w ∷ ops) q world = run ops (submit s w q world).0 (submit s w q world).1

  -- Whatever is cancelled and submitted, one call after the other, no id is both waiting for its
  -- cancellation and consumed, and the empty id never waits.
  pub run-IsSeparate :
      (ops : List Op) (q : WriteQueue) (world : W) → IsSeparate q → IsSeparate (run ops q world).0
  unfolding run
  run-IsSeparate [] q world h = h
  run-IsSeparate (cancelling id ∷ ops) q world h =
      run-IsSeparate ops (cancel id q).0 world (cancel-IsSeparate id q h)
  run-IsSeparate (submitting w ∷ ops) q world h =
      run-IsSeparate ops (submit s w q world).0 (submit s w q world).1
        (submit-IsSeparate w q world h)

  cancelled-cancel :
      (id j : String) (q : WriteQueue)
      → contains q.cancelled_ids j ≡ true
      → contains (cancel id q).0.cancelled_ids j ≡ true
  unfolding cancel
  cancelled-cancel id j q h = ground (arith, contains-cons id q.cancelled_ids j)

  cancelled-submit :
      (w : MemoryWrite) (j : String) (q : WriteQueue) (world : W)
      → (w.id == j) ≡ false
      → contains q.cancelled_ids j ≡ true
      → contains (submit s w q world).0.cancelled_ids j ≡ true
  unfolding take_cancelled mark_consumed
  cancelled-submit w j q world ne h =
      rw queue-submit (ground (arith, contains-without w.id q.cancelled_ids j))

  -- A cancellation waits until its id is submitted.
  run-cancelled :
      (ops : List Op) (j : String) (q : WriteQueue) (world : W)
      → any (submits j) ops ≡ false
      → contains q.cancelled_ids j ≡ true
      → contains (run ops q world).0.cancelled_ids j ≡ true
  unfolding run
  run-cancelled [] j q world spared h = h
  run-cancelled (cancelling id ∷ ops) j q world spared h =
      run-cancelled ops j (cancel id q).0 world spared (cancelled-cancel id j q h)
  run-cancelled (submitting w ∷ ops) j q world spared h =
      run-cancelled ops j (submit s w q world).0 (submit s w q world).1 (ground arith)
        (cancelled-submit w j q world (ground arith) h)

  consumed-cancel :
      (id j : String) (q : WriteQueue)
      → contains q.consumed j ≡ true
      → contains (cancel id q).0.consumed j ≡ true
  unfolding cancel
  consumed-cancel id j q h = ground arith

  consumed-submit :
      (w : MemoryWrite) (j : String) (q : WriteQueue) (world : W)
      → contains (submit s w q world).0.consumed j ≡ (w.id == j || contains q.consumed j)
  unfolding take_cancelled mark_consumed
  consumed-submit w j q world = rw queue-submit (ground (arith, contains-cons w.id q.consumed j))

  run-consumed :
      (ops : List Op) (j : String) (q : WriteQueue) (world : W)
      → contains q.consumed j ≡ true
      → contains (run ops q world).0.consumed j ≡ true
  unfolding run
  run-consumed [] j q world h = h
  run-consumed (cancelling id ∷ ops) j q world h =
      run-consumed ops j (cancel id q).0 world (consumed-cancel id j q h)
  run-consumed (submitting w ∷ ops) j q world h =
      run-consumed ops j (submit s w q world).0 (submit s w q world).1
        (ground (arith, consumed-submit w j q world))

  cancel_taken :
      (id : String) (q : WriteQueue)
      → (cancel id q).1 ≡ true
      → contains (cancel id q).0.cancelled_ids id ≡ true
  unfolding cancel
  cancel_taken id q h = ground (arith, contains-cons id q.cancelled_ids id, eq_iff id id)

  cancel-consumed :
      (id : String) (q : WriteQueue) → contains q.consumed id ≡ true → (cancel id q).1 ≡ false
  unfolding cancel
  cancel-consumed id q h = ground arith

  submit-cancelled :
      (w : MemoryWrite) (q : WriteQueue) (world : W)
      → contains q.cancelled_ids w.id ≡ true
      → submit s w q world ≡ ((take_cancelled w.id q).0, world, cancelled_evidence)
  unfolding submit
  submit-cancelled w q world h = rw h

  -- Once a write has been submitted, with any outcome, `Cancel` returns false for its id, whatever
  -- is called in between.
  submit-cancel :
      (w : MemoryWrite) (ops : List Op) (q : WriteQueue) (world : W)
      → (cancel w.id (run ops (submit s w q world).0 (submit s w q world).1).0).1 ≡ false
  submit-cancel w ops q world =
      cancel-consumed w.id (run ops (submit s w q world).0 (submit s w q world).1).0 (
        run-consumed ops w.id (submit s w q world).0 (submit s w q world).1
          (ground (arith, consumed-submit w w.id q world, eq_iff w.id w.id)))

  -- If `Cancel` returned true for the id of a write, then, whatever else is called before that id is
  -- submitted, the submission leaves the store as it is and returns the evidence of a cancellation,
  -- and from then on, whatever is called, `Cancel` returns false for the id.
  pub cancel-submit :
      (w : MemoryWrite) (ops later : List Op) (q : WriteQueue) (world : W)
      → (cancel w.id q).1 ≡ true
      → any (submits w.id) ops ≡ false
      → let (q', world') = run ops (cancel w.id q).0 world in
        let (q'', world'', evidence) = submit s w q' world' in
        (world'' ≡ world')
        × (evidence ≡ cancelled_evidence)
        × ((cancel w.id (run later q'' world'').0).1 ≡ false)
  cancel-submit w ops later q world accepted spared =
      let q' = (run ops (cancel w.id q).0 world).0 in
      let world' = (run ops (cancel w.id q).0 world).1 in
      let waits =
        run-cancelled ops w.id (cancel w.id q).0 world spared (cancel_taken w.id q accepted) in
      let e = submit-cancelled w q' world' waits in
      (ap (λ r. r.1) e, ap (λ r. r.2) e, submit-cancel w later q' world')
