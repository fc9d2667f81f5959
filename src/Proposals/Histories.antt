-- ===== src/Proposals/Histories.antt =====
-- Series of submissions and reviews.
use Prim.Native.String.{String}
use goncho.Prelude.{
  ℕ, ◌≡◌, ◌⊎◌, refl, sym, ap, ◌∙◌, subst, arith, true, false, ◌||◌, Option, none, some, List, [],
  ◌∷◌, ◌++◌, ◌==◌, ◌≢◌, eq_iff, any, Bool-cases, inl, inr,
}
use goncho.Prelude.Text.{trim_space}
use goncho.Prelude.Result.{ok}
use goncho.Proposals.{
  Proposal, ProposalParams, ReviewParams, TextLibrary, ensure_table, insert_row, update_row, Faults,
  Table, or_clock, find_proposal, is_pending, update_if, update_pending, is_final, is_complete,
  review_proposal, approve_proposal, reject_proposal, submit_proposal, inserted, submit_marshalled,
  has_fields, or_no_evidence,
}
use goncho.Proposals.Rows.{
  IsKeyed, find_proposal-update_pending, update_pending-IsKeyed, find_proposal-snoc, snoc-IsKeyed,
  find_proposal-id,
}
use goncho.Proposals.Reviews.{
  IsReviewOf, change_of, change_of-IsReviewOf, some-injective, review_proposal-Decision,
}

-- What a call does to the rows, where `Ruling` says which reviews it may make.
data RowsStep (Ruling : ReviewParams → String → ℕ → Type 0) (before : List Proposal)
    : List Proposal → Type 0 where
  same_rows : RowsStep Ruling before before
  one_more :
      (new : Proposal)
      → any (λ old. old.proposal_id == new.proposal_id) before ≡ false
      → RowsStep Ruling before (before ++ new ∷ [])
  one_decided :
      (p : ReviewParams) (status : String) (clock : ℕ)
      → Ruling p status clock
      → is_complete p status ≡ true
      → RowsStep Ruling before
          (update_pending (trim_space p.proposal_id) (change_of p status clock) before)

-- A row that was decided by one of the reviews, under its id.
pub record DecidedBy (Ruling : ReviewParams → String → ℕ → Type 0) (id : String)
    (old row : Proposal) : Type 0 where
  pub p : ReviewParams
  pub status : String
  pub clock : ℕ
  pub is_ruled : Ruling p status clock
  pub names_id : trim_space p.proposal_id ≡ id
  pub decides : IsReviewOf p status clock old row

abbrev pub StandsAs :
    (ReviewParams → String → ℕ → Type 0) → Proposal → String → List Proposal → Type 0
StandsAs Ruling old id rows =
    (row : Proposal) × (find_proposal id rows ≡ some row)
    × ((row ≡ old) ⊎ DecidedBy Ruling id old row)

final_waits : (status : String) → is_final status ≡ true → (status == "pending") ≡ true → ⊥
final_waits status final waits =
    let pending = (eq_iff status "pending").0 waits in
    let impossible : is_final "pending" ≡ true = subst (λ s. is_final s ≡ true) pending final in cc

module _ {Ruling : ReviewParams → String → ℕ → Type 0} where
  inserted-RowsStep :
      (faults : Faults) (row : Proposal) (t : Table)
      → RowsStep Ruling t.rows (inserted faults row t).0.rows
  inserted-RowsStep faults row t =
      elim (Bool-cases
        (faults insert_row || any (λ old. old.proposal_id == row.proposal_id) t.rows)) [
          | inl refused ↦ rw refused same_rows
          | inr free ↦ rw free (one_more row (ground arith))
        ]

  review_proposal-RowsStep :
      (faults : Faults) (p : ReviewParams) (status : String) (clock : ℕ) (t : Table)
      → Ruling p status clock
      → RowsStep Ruling t.rows (review_proposal faults p status clock t).0.rows
  unfolding review_proposal
  review_proposal-RowsStep faults p status clock t ruled = elim (Bool-cases (faults ensure_table)) [
    | inl down ↦ rw down same_rows
    | inr up ↦ elim (Bool-cases (is_complete p status)) [
      | inr part ↦ rw (up, part) same_rows
      | inl whole ↦ elim (Bool-cases (faults update_row)) [
        | inl down ↦ rw (up, whole, down) same_rows
        | inr ready ↦ rw (up, whole, ready) (one_decided p status clock ruled whole)
      ]
    ]
  ]

  RowsStep-IsKeyed :
      (before after : List Proposal) → RowsStep Ruling before after → IsKeyed before → IsKeyed after
  RowsStep-IsKeyed before _ same_rows keyed = keyed
  RowsStep-IsKeyed before _ (one_more new free) keyed = snoc-IsKeyed before new free keyed
  RowsStep-IsKeyed before _ (one_decided p status clock ruled whole) keyed =
      update_pending-IsKeyed (trim_space p.proposal_id) (change_of p status clock) (λ r. refl)
        before keyed

  update_if-StandsAs :
      (p : ReviewParams) (status : String) (clock : ℕ) (id : String) (old : Proposal)
      → Ruling p status clock
      → is_complete p status ≡ true
      → old.proposal_id ≡ id
      → let row =
          update_if (is_pending (trim_space p.proposal_id)) (change_of p status clock) old in
        (row ≡ old) ⊎ DecidedBy Ruling id old row
  update_if-StandsAs p status clock id old ruled whole key =
      elim (Bool-cases (is_pending (trim_space p.proposal_id) old)) [
        | inr other ↦ rw other (inl refl)
        | inl waits ↦
            let named : (old.proposal_id == trim_space p.proposal_id) ≡ true = ground arith in
            rw waits (
              inr (record {
                p = p;
                status = status;
                clock = clock;
                is_ruled = ruled;
                names_id = sym ((eq_iff old.proposal_id (trim_space p.proposal_id)).0 named) ∙ key;
                decides = change_of-IsReviewOf p status clock old whole (ground arith);
              }))
      ]

  RowsStep-StandsAs :
      (before after : List Proposal)
      → RowsStep Ruling before after
      → (id : String) (old : Proposal) → find_proposal id before ≡ some old
      → StandsAs Ruling old id after
  RowsStep-StandsAs before _ same_rows id old there = (old, there, inl refl)
  RowsStep-StandsAs before _ (one_more new free) id old there =
      (old, find_proposal-snoc id before new there, inl refl)
  RowsStep-StandsAs before _ (one_decided p status clock ruled whole) id old there =
      let key = trim_space p.proposal_id in
      let change = change_of p status clock in
      (
        update_if (is_pending key) change old,
        find_proposal-update_pending key change (λ r. refl) id before ∙ rw there refl,
        update_if-StandsAs p status clock id old ruled whole (find_proposal-id id before old there),
      )

  -- A decided row is not decided again.
  decided_once :
      (id : String) (old row : Proposal)
      → is_final old.status ≡ true
      → DecidedBy Ruling id old row
      → ⊥
  decided_once id old row final again = final_waits old.status final again.decides.waited

pub data Call (J : Type 0) : Type 0 where
  submitting : ProposalParams J → ℕ → Call J
  approving rejecting : ReviewParams → ℕ → Call J

-- The reviews among the calls.
pub data IsRuled {J : Type 0} : List (Faults × Call J) → ReviewParams → String → ℕ → Type 0 where
  approval :
      (faults : Faults) (p : ReviewParams) (clock : ℕ) (calls : List (Faults × Call J))
      → IsRuled ((faults, approving p clock) ∷ calls) p "approved" clock
  rejection :
      (faults : Faults) (p : ReviewParams) (clock : ℕ) (calls : List (Faults × Call J))
      → IsRuled ((faults, rejecting p clock) ∷ calls) p "rejected" clock
  in_rest :
      (call : Faults × Call J) (calls : List (Faults × Call J)) (p : ReviewParams) (status : String)
      (clock : ℕ)
      → IsRuled calls p status clock
      → IsRuled (call ∷ calls) p status clock

module _ {J : Type 0} (l : TextLibrary J) where
  abbrev pub perform : Faults → Call J → Table → Table
  perform faults (submitting p clock) t = (submit_proposal l faults p clock t).0
  perform faults (approving p clock) t = (approve_proposal faults p clock t).0
  perform faults (rejecting p clock) t = (reject_proposal faults p clock t).0

  abbrev pub run : List (Faults × Call J) → Table → Table
  run [] t = t
  run ((faults, call) ∷ calls) t = run calls (perform faults call t)

  submit_marshalled-RowsStep :
      {Ruling : ReviewParams → String → ℕ → Type 0} (faults : Faults) (p : ProposalParams J)
      (at : ℕ) (text : Option String) (t : Table)
      → RowsStep Ruling t.rows (submit_marshalled l faults p at text t).0.rows
  submit_marshalled-RowsStep faults p at none t = same_rows
  submit_marshalled-RowsStep faults p at (some evidence) t = inserted-RowsStep faults _ t

  submit_proposal-RowsStep :
      {Ruling : ReviewParams → String → ℕ → Type 0} (faults : Faults) (p : ProposalParams J)
      (clock : ℕ) (t : Table)
      → RowsStep Ruling t.rows (submit_proposal l faults p clock t).0.rows
  unfolding submit_proposal
  submit_proposal-RowsStep faults p clock t = elim (Bool-cases (faults ensure_table)) [
    | inl down ↦ rw down same_rows
    | inr up ↦ elim (Bool-cases (has_fields l p)) [
      | inr part ↦ rw (up, part) same_rows
      | inl whole ↦
          rw (up, whole)
            (submit_marshalled-RowsStep faults p (or_clock clock p.created_at)
              (l.marshal (or_no_evidence l p.evidence)) t)
    ]
  ]

  perform-RowsStep :
      (faults : Faults) (call : Call J) (calls : List (Faults × Call J)) (t : Table)
      → RowsStep (IsRuled ((faults, call) ∷ calls)) t.rows (perform faults call t).rows
  unfolding approve_proposal reject_proposal
  perform-RowsStep faults (submitting p clock) calls t = submit_proposal-RowsStep faults p clock t
  perform-RowsStep faults (approving p clock) calls t =
      review_proposal-RowsStep faults p "approved" clock t (approval faults p clock calls)
  perform-RowsStep faults (rejecting p clock) calls t =
      review_proposal-RowsStep faults p "rejected" clock t (rejection faults p clock calls)

  run-IsKeyed :
      (calls : List (Faults × Call J)) (t : Table) → IsKeyed t.rows → IsKeyed (run calls t).rows
  run-IsKeyed [] t keyed = keyed
  run-IsKeyed ((faults, call) ∷ calls) t keyed =
      run-IsKeyed calls (perform faults call t)
        (RowsStep-IsKeyed t.rows _ (perform-RowsStep faults call calls t) keyed)

  -- What holds of the rest of a series holds of the series.
  in_rest-DecidedBy :
      (call : Faults × Call J) (calls : List (Faults × Call J)) (id : String) (old row : Proposal)
      → DecidedBy (IsRuled calls) id old row
      → DecidedBy (IsRuled (call ∷ calls)) id old row
  in_rest-DecidedBy call calls id old row d = record {
    p = d.p;
    status = d.status;
    clock = d.clock;
    is_ruled = in_rest call calls d.p d.status d.clock d.is_ruled;
    names_id = d.names_id;
    decides = d.decides;
  }

  joined :
      (call : Faults × Call J) (calls : List (Faults × Call J)) (id : String)
      (old mid row : Proposal)
      → (mid ≡ old) ⊎ DecidedBy (IsRuled (call ∷ calls)) id old mid
      → (row ≡ mid) ⊎ DecidedBy (IsRuled calls) id mid row
      → (row ≡ old) ⊎ DecidedBy (IsRuled (call ∷ calls)) id old row
  joined call calls id old mid row (inl same) (inl stays) = inl (stays ∙ same)
  joined call calls id old mid row (inl same) (inr d) = inr (
      in_rest-DecidedBy call calls id old row
        (subst (λ x. DecidedBy (IsRuled calls) id x row) same d))
  joined call calls id old mid row (inr d) (inl stays) =
      inr (subst (λ x. DecidedBy (IsRuled (call ∷ calls)) id old x) (sym stays) d)
  joined call calls id old mid row (inr d) (inr again) =
      absurd (decided_once id mid row d.decides.is_decided again)

  -- Through every series of submissions and reviews, whatever fails, a proposal stays in the table and
  -- is either as it was, or it was pending and one of the approvals and rejections of the series, for
  -- its id, has decided it: then it is "approved" or "rejected" as that call says, with the trimmed
  -- reviewer and the trimmed reason of that call, neither of them empty, with the time of that call or
  -- else of its clock, and all that was drafted is as it was.
  pub run-StandsAs :
      (calls : List (Faults × Call J)) (t : Table) (id : String) (old : Proposal)
      → find_proposal id t.rows ≡ some old
      → StandsAs (IsRuled calls) old id (run calls t).rows
  run-StandsAs [] t id old there = (old, there, inl refl)
  run-StandsAs ((faults, call) ∷ calls) t id old there =
      let (mid, found, first) =
        RowsStep-StandsAs t.rows _ (perform-RowsStep faults call calls t) id old there in
      let (row, last, rest) = run-StandsAs calls (perform faults call t) id mid found in
      (row, last, joined (faults, call) calls id old mid row first rest)

  -- A proposal is decided once: after a review that returned it, and any further calls, no review of it
  -- returns anything but an error.
  pub review_proposal-review_proposal :
      (faults again : Faults) (p p' : ReviewParams) (status status' : String) (clock later : ℕ)
      (calls : List (Faults × Call J)) (t : Table) {row : Proposal}
      → IsKeyed t.rows
      → (review_proposal faults p status clock t).1 ≡ ok row
      → trim_space p'.proposal_id ≡ trim_space p.proposal_id
      → (row' : Proposal)
      → (review_proposal again p' status' later
          (run calls (review_proposal faults p status clock t).0)).1
        ≢ ok row'
  review_proposal-review_proposal faults again p p' status status' clock later calls t {row} keyed h
        same row' h' =
      let first = review_proposal-Decision faults p status clock t keyed h in
      let mid = (review_proposal faults p status clock t).0 in
      let keyed' =
        RowsStep-IsKeyed {Ruling = λ r s c. Unit} t.rows mid.rows
          (review_proposal-RowsStep faults p status clock t tt) keyed in
      let second =
        review_proposal-Decision again p' status' later (run calls mid)
          (run-IsKeyed calls mid keyed') h' in
      let (stood, there, changed) =
        run-StandsAs calls mid (trim_space p.proposal_id) row first.stands in
      let e : some second.old ≡ some stood =
        sym second.found ∙ ap (λ id. find_proposal id (run calls mid).rows) same ∙ there in
      let one : second.old ≡ stood = some-injective e in
      let decided_row : is_final row.status ≡ true = first.decides.is_decided in
      elim changed [
        | inl stays ↦
            final_waits row.status decided_row
              (subst (λ r. (r.status == "pending") ≡ true) (one ∙ stays) second.decides.waited)
        | inr again' ↦ decided_once (trim_space p.proposal_id) row stood decided_row again'
      ]
