-- ===== src/WriteQueue/Evidence.antt =====
-- What the evidence of one `Submit` says: whether the write stands, and the relation candidates.
use goncho.Prelude.{
  ◌≡◌, any, all, ◌&&◌, ◌||◌, refl, String, Bool, true, false, not, Option, none, some, List, [],
  ◌∷◌, ◌++◌, ◌==◌, eq_iff, arith, contains, contains-cons, IsDistinct-snoc, contains-snoc,
  Bool-cases, Option-cases, ◌⊎◌, inl, inr, IsDistinct, ◌↔◌,
}
use goncho.Prelude.Result.{Result, ok, err}
use Prim.Native.String.{◌++◌ as str_append}
use goncho.WriteQueue.{
  MemoryWrite, RelationCandidate, RelationStore, CandidateDetector, WriteEvidence, WriteQueue,
  Seams, complete, relation_failed, mark_consumed, relation_ids_from, relation_memory_evidence_ids,
  is_empty, default_evidence, with_default_relation_evidence_ids, save_candidates, store_detected,
  detect_with, detect_among, saved, relate, completed, relation_failure, prior_memories_excluding,
  submit,
}

-- The id of the evidence for a memory.
abbrev memory_evidence : String → String
memory_evidence id = str_append "memory:" id

abbrev pub names : String → String → Bool
names x id = not (id == "") && memory_evidence id == x

-- `seen` holds what `out` holds.
abbrev SameMembers : List String → List String → Type 0
SameMembers seen out = (x : String) → contains seen x ≡ contains out x

relation_ids_from_lem :
    (ids seen out : List String)
    → SameMembers seen out
    → IsDistinct out
    → IsDistinct (relation_ids_from ids seen out)
      × ((x : String)
          → contains (relation_ids_from ids seen out) x ≡ (contains out x || any (names x) ids))
unfolding relation_ids_from
relation_ids_from_lem [] seen out same d = (d, λ x. ground arith)
relation_ids_from_lem (id ∷ ids) seen out same d =
    let e = memory_evidence id in
    elim (Bool-cases (not (id == "") && not (contains seen e))) [
      | inl fresh ↦
          let ih =
            relation_ids_from_lem ids (e ∷ seen) (out ++ e ∷ [])
              (λ x. ground (arith, same x, contains-cons e seen x, contains-snoc out e x))
              (IsDistinct-snoc out e (ground (arith, same e)) d) in
          rw fresh (ih.0, λ x. ground (arith, ih.1 x, contains-snoc out e x))
      | inr stale ↦
          let ih = relation_ids_from_lem ids seen out same d in
          rw stale (ih.0, λ x. ground (arith, ih.1 x, same e, eq_iff e x))
    ]

-- The default evidence of a candidate names each memory once: the list has no duplicate, and holds
-- exactly the ids `memory:<id>` of the nonempty ids that are given.
relation_memory_evidence_ids_lem :
    (ids : List String)
    → IsDistinct (relation_memory_evidence_ids ids)
      × ((x : String) → contains (relation_memory_evidence_ids ids) x ≡ any (names x) ids)
unfolding relation_memory_evidence_ids contains
relation_memory_evidence_ids_lem ids = relation_ids_from_lem ids [] [] (λ x. refl) tt

-- A candidate with evidence, or with no memory that could be its evidence.
abbrev is_supported : RelationCandidate → Bool
is_supported c = not (is_empty c.evidence_ids) || (c.from == "" && c.to == "")

default_evidence-supported : (c : RelationCandidate) → is_supported (default_evidence c) ≡ true
unfolding default_evidence contains
default_evidence-supported c = ground arith

with_default-supported :
    (cs : List RelationCandidate) → all is_supported (with_default_relation_evidence_ids cs) ≡ true
unfolding with_default_relation_evidence_ids
with_default-supported [] = refl
with_default-supported (c ∷ cs) =
    ground (arith, default_evidence-supported c, with_default-supported cs)

-- What the evidence may say of a write that stands.
pub record IsBestEffort {E : Type 0} (e : WriteEvidence E) : Type 0 where
  pub stands : e.write_ok ≡ true
  pub outcome :
      ((e.code ≡ complete) × (e.error ≡ none) × (all is_supported e.candidates ≡ true))
      ⊎ ((e.code ≡ relation_failed) × (e.candidates ≡ []) × ((x : E) × (e.error ≡ some x)))

completed-IsBestEffort :
    {E : Type 0} (cs : List RelationCandidate)
    → all is_supported cs ≡ true
    → IsBestEffort {E = E} (completed cs)
completed-IsBestEffort cs h = record { stands = refl; outcome = inl (refl, refl, h) }

relation_failure-IsBestEffort : {E : Type 0} (e : E) → IsBestEffort (relation_failure e)
relation_failure-IsBestEffort e = record { stands = refl; outcome = inr (refl, refl, (e, refl)) }

saved-IsBestEffort :
    {E : Type 0} (cs : List RelationCandidate) (failed : Option E)
    → all is_supported cs ≡ true
    → IsBestEffort (saved cs failed)
saved-IsBestEffort cs none h = completed-IsBestEffort cs h
saved-IsBestEffort cs (some e) h = relation_failure-IsBestEffort e

module _ {W E : Type 0} where
  save_candidates-IsBestEffort :
      (relations : Option (RelationStore W E)) (cs : List RelationCandidate) (world : W)
      → all is_supported cs ≡ true
      → IsBestEffort (save_candidates relations cs world).1
  unfolding save_candidates
  save_candidates-IsBestEffort none cs world h = completed-IsBestEffort cs h
  save_candidates-IsBestEffort (some r) cs world h =
      saved-IsBestEffort cs (r.save_pending cs world).1 h

  store_detected-IsBestEffort :
      (relations : Option (RelationStore W E)) (found : Result E (List RelationCandidate))
      (world : W)
      → IsBestEffort (store_detected relations found world).1
  unfolding store_detected
  store_detected-IsBestEffort relations (err e) world = relation_failure-IsBestEffort e
  store_detected-IsBestEffort relations (ok []) world = completed-IsBestEffort [] refl
  store_detected-IsBestEffort relations (ok (c ∷ cs)) world =
      save_candidates-IsBestEffort relations (with_default_relation_evidence_ids (c ∷ cs)) world
        (with_default-supported (c ∷ cs))

  detect_with-IsBestEffort :
      (detector : Option (CandidateDetector W E)) (relations : Option (RelationStore W E))
      (w : MemoryWrite) (prior : List MemoryWrite) (world : W)
      → IsBestEffort (detect_with detector relations w prior world).1
  unfolding detect_with
  detect_with-IsBestEffort none relations w prior world = completed-IsBestEffort [] refl
  detect_with-IsBestEffort (some d) relations w prior world =
      store_detected-IsBestEffort relations (d.detect w prior world).1 (d.detect w prior world).0

  detect_among-IsBestEffort :
      (s : Seams W E) (w : MemoryWrite) (prior : Result E (List MemoryWrite)) (world : W)
      → IsBestEffort (detect_among s w prior world).1
  unfolding detect_among
  detect_among-IsBestEffort s w (err e) world = relation_failure-IsBestEffort e
  detect_among-IsBestEffort s w (ok prior) world =
      detect_with-IsBestEffort s.detector s.relations w prior world

  -- When the write was not cancelled and the store accepted it, the write stands, whatever listing,
  -- detection and the relation store do: the id is consumed, and either the code is `complete`, with
  -- no error and with candidates that each have evidence (or name no memory), or the code is
  -- `relation_failed`, with an error and no candidates.
  pub submit-IsBestEffort :
      (s : Seams W E) (w : MemoryWrite) (q : WriteQueue) (world : W)
      → contains q.cancelled_ids w.id ≡ false
      → (s.store.apply w world).1 ≡ none
      → IsBestEffort (submit s w q world).2 × ((submit s w q world).0 ≡ mark_consumed w.id q)
  unfolding submit relate
  submit-IsBestEffort s w q world free applied = rw free (
      rw applied (
        detect_among-IsBestEffort s w
            (prior_memories_excluding s.store w.id (s.store.apply w world).0).1
            (prior_memories_excluding s.store w.id (s.store.apply w world).0).0,
        refl,
      ))

  write_ok_cause :
      (s : Seams W E) (w : MemoryWrite) (q : WriteQueue) (world : W)
      → (submit s w q world).2.write_ok ≡ true
      → (contains q.cancelled_ids w.id ≡ false) × ((s.store.apply w world).1 ≡ none)
  unfolding submit
  write_ok_cause s w q world h = elim (Bool-cases (contains q.cancelled_ids w.id)) [
    | inl e ↦ cc (rw e at h)
    | inr e ↦ (
      e,
      elim (Option-cases (s.store.apply w world).1) [
        | inl applied ↦ applied
        | inr (x, failed) ↦ cc (rw failed at (rw e at h))
      ],
    )
  ]

  -- The evidence says that the write stands exactly when it was not cancelled and the store accepted
  -- it.
  submit-write_ok :
      (s : Seams W E) (w : MemoryWrite) (q : WriteQueue) (world : W)
      → ((submit s w q world).2.write_ok ≡ true)
        ↔ ((contains q.cancelled_ids w.id ≡ false) × ((s.store.apply w world).1 ≡ none))
  submit-write_ok s w q world =
      (write_ok_cause s w q world, λ h. (submit-IsBestEffort s w q world h.0 h.1).0.stands)
