-- ===== src/WriteQueue.antt =====
-- writequeue/write_queue.go and writequeue/relations.go: memory writes serialised through one queue,
-- with cancellation before the start and relation detection after the write. The store, the detector
-- and the relation store are interfaces of the source; they act here on an external state `W` and
-- fail with an error of a type `E`. `ctx` is passed through to them and is part of `W`.
pub mod Cancel
pub mod Evidence
pub mod Inflight
mod Examples
use goncho.Prelude.{
  ◌≡◌, refl, String, Bool, true, false, not, ◌&&◌, Option, none, some, List, [], ◌∷◌, ◌++◌, map,
  ◌==◌, if◌then◌else◌, contains, without, keep,
}
use goncho.Prelude.Result.{Result, ok, err}
use Prim.Native.String.{◌++◌ as str_append}

pub record MemoryWrite : Type 0 where
  pub id : String
  pub content : String
  pub tags : List String

pub record RelationCandidate : Type 0 where
  pub from : String
  pub to : String
  pub verb : String
  pub note : String
  pub evidence_ids : List String

pub record MemoryStore (W E : Type 0) : Type 0 where
  pub apply : MemoryWrite → W → W × Option E
  pub list : W → W × Result E (List MemoryWrite)

pub record CandidateDetector (W E : Type 0) : Type 0 where
  pub detect : MemoryWrite → List MemoryWrite → W → W × Result E (List RelationCandidate)

pub record RelationStore (W E : Type 0) : Type 0 where
  pub save_pending : List RelationCandidate → W → W × Option E

-- The codes `goncho_write_complete`, `_cancelled`, `_failed` and `goncho_relation_detection_failed`.
pub data WriteCode : Type 0 where
  complete cancelled relation_failed write_failed : WriteCode

pub record WriteEvidence (E : Type 0) : Type 0 where
  pub code : WriteCode
  pub write_ok : Bool
  pub candidates : List RelationCandidate
  pub error : Option E

-- The sets of the queue, which `cancelMu` guards; a set is the list of its members.
pub record WriteQueue : Type 0 where
  pub cancelled_ids : List String
  pub consumed : List String

-- What `NewWriteQueue` is given; `none` is a nil interface.
pub record Seams (W E : Type 0) : Type 0 where
  pub store : MemoryStore W E
  pub detector : Option (CandidateDetector W E)
  pub relations : Option (RelationStore W E)

unfoldable pub new_write_queue : WriteQueue
new_write_queue = record { cancelled_ids = []; consumed = [] }

unfoldable pub cancel : String → WriteQueue → WriteQueue × Bool
cancel id q =
    if id == ""
    then (q, false)
    else if contains q.consumed id
    then (q, false)
    else if contains q.cancelled_ids id
    then (q, true)
    else (record q { cancelled_ids = id ∷ q.cancelled_ids }, true)

unfoldable pub take_cancelled : String → WriteQueue → WriteQueue × Bool
take_cancelled id q =
    if contains q.cancelled_ids id
    then (record q { cancelled_ids = without id q.cancelled_ids; consumed = id ∷ q.consumed }, true)
    else (q, false)

unfoldable pub mark_consumed : String → WriteQueue → WriteQueue
mark_consumed id q = record q { consumed = id ∷ q.consumed }

-- The loop over the ids, with the set `seen` and the slice `out`.
unfoldable pub relation_ids_from : List String → List String → List String → List String
relation_ids_from [] seen out = out
relation_ids_from (id ∷ ids) seen out =
    let evidence_id = str_append "memory:" id in
    let fresh = not (id == "") && not (contains seen evidence_id) in
    relation_ids_from ids (if fresh then evidence_id ∷ seen else seen)
      (if fresh then out ++ evidence_id ∷ [] else out)

unfoldable pub relation_memory_evidence_ids : List String → List String
unfolding relation_ids_from
relation_memory_evidence_ids ids = relation_ids_from ids [] []

abbrev pub is_empty {ℓ} : {A : Type ℓ} → List A → Bool
is_empty [] = true
is_empty (_ ∷ _) = false

-- The body of the loop of `withDefaultRelationEvidenceIDs`.
unfoldable pub default_evidence : RelationCandidate → RelationCandidate
unfolding relation_memory_evidence_ids
default_evidence c =
    if is_empty c.evidence_ids
    then record c { evidence_ids = relation_memory_evidence_ids (c.from ∷ c.to ∷ []) }
    else c

unfoldable pub with_default_relation_evidence_ids : List RelationCandidate → List RelationCandidate
with_default_relation_evidence_ids [] = []
with_default_relation_evidence_ids (c ∷ cs) =
    default_evidence c ∷ with_default_relation_evidence_ids cs

module _ {E : Type 0} where
  abbrev pub completed : List RelationCandidate → WriteEvidence E
  completed cs = record { code = complete; write_ok = true; candidates = cs; error = none }

  abbrev pub relation_failure : E → WriteEvidence E
  relation_failure e = record {
    code = relation_failed;
    write_ok = true;
    candidates = [];
    error = some e;
  }

  abbrev pub saved : List RelationCandidate → Option E → WriteEvidence E
  saved cs none = completed cs
  saved cs (some e) = relation_failure e

  abbrev pub cancelled_evidence : WriteEvidence E
  cancelled_evidence = record { code = cancelled; write_ok = false; candidates = []; error = none }

  abbrev write_failure : E → WriteEvidence E
  write_failure e = record {
    code = write_failed;
    write_ok = false;
    candidates = [];
    error = some e;
  }

module _ {W E : Type 0} where
  unfoldable pub prior_memories_excluding :
      MemoryStore W E → String → W → W × Result E (List MemoryWrite)
  prior_memories_excluding store id world =
      let (world', listed) = store.list world in
      (world', elim listed [ err e ↦ err e | ok all ↦ ok (keep (λ m. not (m.id == id)) all) ])

  -- Storing what was detected: the end of `Submit`.
  unfoldable pub save_candidates :
      Option (RelationStore W E) → List RelationCandidate → W → W × WriteEvidence E
  save_candidates none cs world = (world, completed cs)
  save_candidates (some relations) cs world =
      let (world', failed) = relations.save_pending cs world in (world', saved cs failed)

  unfoldable pub store_detected :
      Option (RelationStore W E) → Result E (List RelationCandidate) → W → W × WriteEvidence E
  unfolding save_candidates
  store_detected relations (err e) world = (world, relation_failure e)
  store_detected relations (ok []) world = (world, completed [])
  store_detected relations (ok (c ∷ cs)) world =
      save_candidates relations (with_default_relation_evidence_ids (c ∷ cs)) world

  unfoldable pub detect_with :
      Option (CandidateDetector W E)
      → Option (RelationStore W E)
      → MemoryWrite
      → List MemoryWrite
      → W
      → W × WriteEvidence E
  unfolding store_detected
  detect_with none relations w prior world = (world, completed [])
  detect_with (some d) relations w prior world =
      let (world', found) = d.detect w prior world in store_detected relations found world'

  -- The detector is asked only when the prior memories could be listed.
  unfoldable pub detect_among :
      Seams W E → MemoryWrite → Result E (List MemoryWrite) → W → W × WriteEvidence E
  unfolding detect_with
  detect_among s w (err e) world = (world, relation_failure e)
  detect_among s w (ok prior) world = detect_with s.detector s.relations w prior world

  -- `Submit` from the listing of the prior memories on: best effort, after a write that succeeded.
  unfoldable pub relate : Seams W E → MemoryWrite → W → W × WriteEvidence E
  unfolding prior_memories_excluding detect_among
  relate s w world =
      let (world', prior) = prior_memories_excluding s.store w.id world in
      detect_among s w prior world'

  -- `Submit` once the outcome of `store.Apply` is known.
  unfoldable pub after_apply : Seams W E → MemoryWrite → Option E → W → W × WriteEvidence E
  unfolding relate
  after_apply s w (some e) world = (world, write_failure e)
  after_apply s w none world = relate s w world

  -- One `Submit`, with nothing else running: the queue, the external state, the evidence.
  unfoldable pub submit :
      Seams W E → MemoryWrite → WriteQueue → W → WriteQueue × W × WriteEvidence E
  unfolding take_cancelled mark_consumed after_apply
  submit s w q world =
      let (q', taken) = take_cancelled w.id q in
      if taken
      then (q', world, cancelled_evidence)
      else let (world₁, failed) = s.store.apply w world in
        let (world₂, evidence) = after_apply s w failed world₁ in
        (mark_consumed w.id q', world₂, evidence)
