-- ===== src/WriteQueue/Examples.antt =====
-- Runs of the write queue on concrete data.
use goncho.Prelude.{◌≡◌, refl, String, true, false, none, some, List, [], ◌∷◌, ◌++◌, contains}
use goncho.Prelude.Result.{ok}
use goncho.WriteQueue.{
  MemoryWrite, RelationCandidate, MemoryStore, Seams, new_write_queue, cancel, mark_consumed,
  with_default_relation_evidence_ids, default_evidence, submit, cancelled_evidence,
}
use goncho.WriteQueue.Cancel.{
  Op, cancelling, submitting, IsSeparate, run, run-IsSeparate, cancel-submit,
}
use goncho.WriteQueue.Evidence.{IsBestEffort, submit-IsBestEffort}
use goncho.WriteQueue.Inflight.{submit_during, submit_during-cancel}

-- A store that keeps every write, and a detector that relates a write to each earlier one.
abbrev memory_store : MemoryStore (List MemoryWrite) String
memory_store = record { apply = λ w ws. (ws ++ w ∷ [], none); list = λ ws. (ws, ok ws) }

abbrev relate_all : String → List MemoryWrite → List RelationCandidate
relate_all id [] = []
relate_all id (m ∷ ms) =
    record { from = id; to = m.id; verb = "related"; note = ""; evidence_ids = [] }
    ∷ relate_all id ms

abbrev seams : Seams (List MemoryWrite) String
seams = record {
  store = memory_store;
  detector = some (record { detect = λ w prior ws. (ws, ok (relate_all w.id prior)) });
  relations = none;
}

abbrev write_a : MemoryWrite
write_a = record { id = "a"; content = "tea"; tags = [] }

abbrev write_b : MemoryWrite
write_b = record { id = "b"; content = "coffee"; tags = [] }

abbrev calls : List Op
calls = submitting write_b ∷ cancelling "c" ∷ []

second_relates :
    (submit seams write_b new_write_queue (write_a ∷ [])).2.candidates
    ≡ (record {
      from = "b";
      to = "a";
      verb = "related";
      note = "";
      evidence_ids = "memory:b" ∷ "memory:a" ∷ [];
    })
      ∷ []
unfolding submit new_write_queue contains with_default_relation_evidence_ids default_evidence
second_relates = refl

new_write_queue-IsSeparate : IsSeparate new_write_queue
unfolding new_write_queue contains
new_write_queue-IsSeparate = record { apart = λ id h. refl; named = refl }

run-IsSeparate_example : IsSeparate (run seams calls new_write_queue []).0
run-IsSeparate_example = run-IsSeparate seams calls new_write_queue [] new_write_queue-IsSeparate

cancel-submit_example :
    let (q', world') = run seams calls (cancel "a" new_write_queue).0 [] in
    let (q'', world'', evidence) = submit seams write_a q' world' in
    (world'' ≡ world')
    × (evidence ≡ cancelled_evidence)
    × ((cancel "a" (run seams calls q'' world'').0).1 ≡ false)
unfolding cancel new_write_queue contains
cancel-submit_example = cancel-submit seams write_a calls calls new_write_queue [] refl refl

submit-IsBestEffort_example :
    IsBestEffort (submit seams write_b new_write_queue (write_a ∷ [])).2
    × ((submit seams write_b new_write_queue (write_a ∷ [])).0 ≡ mark_consumed "b" new_write_queue)
unfolding new_write_queue contains
submit-IsBestEffort_example =
    submit-IsBestEffort seams write_b new_write_queue (write_a ∷ []) refl refl

submit_during-cancel_example :
    let (q', world', evidence) = submit_during seams write_a ("a" ∷ []) new_write_queue [] in
    ((cancel "a" new_write_queue).1 ≡ true)
    × (world' ≡ (submit seams write_a new_write_queue []).1)
    × (evidence ≡ (submit seams write_a new_write_queue []).2)
    × (contains q'.consumed "a" ≡ true)
    × (contains q'.cancelled_ids "a" ≡ true)
    × ((submit seams write_a q' []).1 ≡ [])
    × ((submit seams write_a q' []).2 ≡ cancelled_evidence)
unfolding new_write_queue contains
submit_during-cancel_example =
    submit_during-cancel seams write_a new_write_queue [] [] refl refl refl
