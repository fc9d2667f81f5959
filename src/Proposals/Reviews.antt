-- ===== src/Proposals/Reviews.antt =====
-- What one review does.
use Prim.Native.String.{String}
use goncho.Prelude.{
  ℕ, ◌≡◌, refl, sym, subst, ap, ◌∙◌, arith, Bool, true, false, Option, none, some, List, ◌==◌,
  eq_iff, any, Bool-cases, Option-cases, inl, inr,
}
use goncho.Prelude.Text.{trim_space}
use goncho.Prelude.Result.{ok, err, ok_chain, past_guard, ok-injective}
use goncho.Proposals.{
  Proposal, ReviewParams, Statement, ensure_table, update_row, rows_affected, read_row,
  ProposalError, not_pending, sql_failed, review_incomplete, Faults, Table, or_clock, run_sql,
  require, find_proposal, scanned, read_proposal, is_pending, reviewed, update_pending, is_final,
  is_complete, after_update, review_proposal,
}
use goncho.Proposals.Rows.{
  IsKeyed, find_proposal-update_pending, KeepsKey, any-is_pending, find_proposal-id,
}

-- What was drafted of a proposal is as it was.
pub record IsSameDraft (old row : Proposal) : Type 0 where
  pub id : row.id ≡ old.id
  pub proposal_id : row.proposal_id ≡ old.proposal_id
  pub workspace_id : row.workspace_id ≡ old.workspace_id
  pub skill_name : row.skill_name ≡ old.skill_name
  pub source_task : row.source_task ≡ old.source_task
  pub draft_body : row.draft_body ≡ old.draft_body
  pub evidence_json : row.evidence_json ≡ old.evidence_json
  pub created_by : row.created_by ≡ old.created_by
  pub created_at : row.created_at ≡ old.created_at

-- A row that waited, and what the parameters of a review made of it.
pub record IsReviewOf (p : ReviewParams) (status : String) (clock : ℕ) (old row : Proposal)
    : Type 0 where
  pub waited : (old.status == "pending") ≡ true
  pub is_decided : is_final row.status ≡ true
  pub has_status : row.status ≡ status
  pub has_reviewer : row.reviewed_by ≡ trim_space p.reviewed_by
  pub is_signed : (row.reviewed_by == "") ≡ false
  pub has_reason : row.review_reason ≡ trim_space p.review_reason
  pub is_reasoned : (row.review_reason == "") ≡ false
  pub is_dated : (at : ℕ) → p.reviewed_at ≡ some at → row.reviewed_at ≡ some at
  pub is_dated_now : p.reviewed_at ≡ none → row.reviewed_at ≡ some clock
  pub keeps_draft : IsSameDraft old row

-- The change a review makes.
abbrev pub change_of : ReviewParams → String → ℕ → Proposal → Proposal
change_of p status clock =
    reviewed status (trim_space p.reviewed_by) (or_clock clock p.reviewed_at)
      (trim_space p.review_reason)

pub change_of-IsReviewOf :
    (p : ReviewParams) (status : String) (clock : ℕ) (old : Proposal)
    → is_complete p status ≡ true
    → (old.status == "pending") ≡ true
    → IsReviewOf p status clock old (change_of p status clock old)
change_of-IsReviewOf p status clock old whole waits = record {
  waited = waits;
  is_decided = ground arith;
  has_status = refl;
  has_reviewer = refl;
  is_signed = ground arith;
  has_reason = refl;
  is_reasoned = ground arith;
  is_dated = λ at h. ap (λ t. some (or_clock clock t)) h;
  is_dated_now = λ h. ap (λ t. some (or_clock clock t)) h;
  keeps_draft = record {
    id = refl;
    proposal_id = refl;
    workspace_id = refl;
    skill_name = refl;
    source_task = refl;
    draft_body = refl;
    evidence_json = refl;
    created_by = refl;
    created_at = refl;
  };
}

run_sql-ok :
    {A : Type 0} {a b : A} (faults : Faults) (s : Statement) → run_sql faults s a ≡ ok b → a ≡ b
run_sql-ok faults s h = ok-injective (past_guard (faults s) _ _ h).1

require-ok : (test : Bool) (e : ProposalError) {u : Unit {0}} → require test e ≡ ok u → test ≡ true
require-ok true e h = refl
require-ok false e h = cc

scanned-ok : (found : Option Proposal) {row : Proposal} → scanned found ≡ ok row → found ≡ some row
scanned-ok none h = cc
scanned-ok (some old) h = cc

read_proposal-ok :
    (faults : Faults) (id : String) (rows : List Proposal) {row : Proposal}
    → read_proposal faults id rows ≡ ok row
    → find_proposal id rows ≡ some row
unfolding read_proposal
read_proposal-ok faults id rows h =
    let (found, read, h₁) = ok_chain (run_sql faults read_row (find_proposal id rows)) _ h in
    run_sql-ok faults read_row read ∙ scanned-ok found h₁

after_update-ok :
    (faults : Faults) (id : String) (hit : Bool) (rows : List Proposal) {row : Proposal}
    → after_update faults id hit rows ≡ ok row
    → (hit ≡ true) × (find_proposal id rows ≡ some row)
after_update-ok faults id hit rows h =
    let (affected, counted, h₁) = ok_chain (run_sql faults rows_affected hit) _ h in
    let (u, some_hit, h₂) = ok_chain (require affected (not_pending id)) _ h₁ in
    (
      run_sql-ok faults rows_affected counted ∙ require-ok affected (not_pending id) some_hit,
      read_proposal-ok faults id rows h₂,
    )

-- A review that has returned a proposal: what it has done to the rows.
pub record Decision (p : ReviewParams) (status : String) (clock : ℕ) (before after : List Proposal)
    (row : Proposal) : Type 0 where
  pub old : Proposal
  pub found : find_proposal (trim_space p.proposal_id) before ≡ some old
  pub decides : IsReviewOf p status clock old row
  pub stands : find_proposal (trim_space p.proposal_id) after ≡ some row
  pub keeps_others :
      (k : String)
      → (k == trim_space p.proposal_id) ≡ false
      → find_proposal k after ≡ find_proposal k before

-- The rows of the other keys do not wait under this key.
update_pending-others :
    (id : String) (change : Proposal → Proposal)
    → KeepsKey change
    → (rows : List Proposal) (k : String) → (k == id) ≡ false
    → find_proposal k (update_pending id change rows) ≡ find_proposal k rows
update_pending-others id change keeps rows k other =
    find_proposal-update_pending id change keeps k rows
    ∙ elim (Option-cases (find_proposal k rows)) [
      | inl missing ↦ rw missing refl
      | inr (row, there) ↦
          let key : row.proposal_id ≡ k = find_proposal-id k rows row there in
          let off : (row.proposal_id == id) ≡ false = ap (λ x. x == id) key ∙ other in
          rw (there, off) refl
    ]

pub some-injective : {a b : Proposal} → some a ≡ some b → a ≡ b
some-injective h = cc

update_pending-Decision :
    (p : ReviewParams) (status : String) (clock : ℕ) (rows : List Proposal) {row : Proposal}
    → IsKeyed rows
    → is_complete p status ≡ true
    → any (is_pending (trim_space p.proposal_id)) rows ≡ true
    → find_proposal
        (trim_space p.proposal_id)
        (update_pending (trim_space p.proposal_id) (change_of p status clock) rows)
      ≡ some row
    → Decision p status clock rows
        (update_pending (trim_space p.proposal_id) (change_of p status clock) rows)
        row
update_pending-Decision p status clock rows {row} keyed whole hit stands =
    let id = trim_space p.proposal_id in
    let change = change_of p status clock in
    let (old, there, waits) = any-is_pending id rows keyed hit in
    let key : (old.proposal_id == id) ≡ true =
      (eq_iff old.proposal_id id).1 (find_proposal-id id rows old there) in
    let e : some (change old) ≡ some row =
      sym (
        find_proposal-update_pending id change (λ r. refl) id rows
        ∙ rw there (rw (key, waits) refl))
      ∙ stands in
    record {
      old = old;
      found = there;
      decides =
          subst (λ r. IsReviewOf p status clock old r) (some-injective e)
            (change_of-IsReviewOf p status clock old whole waits);
      stands = stands;
      keeps_others = update_pending-others id change (λ r. refl) rows;
    }

-- If no two rows have the same proposal id, a review that returns a proposal has found it pending, under
-- the trimmed id of the parameters. The row it returns stands in the table; it has the status of the
-- review, which is "approved" or "rejected", the trimmed reviewer and the trimmed reason of the parameters,
-- neither of them empty, the time of the parameters or else that of the clock, and each field of the
-- draft as it was. The rows of all other proposals stay.
pub review_proposal-Decision :
    (faults : Faults) (p : ReviewParams) (status : String) (clock : ℕ) (t : Table) {row : Proposal}
    → IsKeyed t.rows
    → (review_proposal faults p status clock t).1 ≡ ok row
    → Decision p status clock t.rows (review_proposal faults p status clock t).0.rows row
unfolding review_proposal
review_proposal-Decision faults p status clock t {row} keyed h =
    elim (Bool-cases (faults ensure_table)) [
      | inl down ↦ let failed : err (sql_failed ensure_table) ≡ ok row = rw down at h in cc
      | inr up ↦ elim (Bool-cases (is_complete p status)) [
        | inr part ↦ let failed : err review_incomplete ≡ ok row = rw (up, part) at h in cc
        | inl whole ↦ elim (Bool-cases (faults update_row)) [
          | inl down ↦
              let failed : err (sql_failed update_row) ≡ ok row = rw (up, whole, down) at h in cc
          | inr ready ↦
              let id = trim_space p.proposal_id in
              let rows = update_pending id (change_of p status clock) t.rows in
              let (hit, stands) =
                after_update-ok faults id (any (is_pending id) t.rows) rows
                  (rw (up, whole, ready) at h) in
              rw (up, whole, ready)
                (update_pending-Decision p status clock t.rows keyed whole hit stands)
        ]
      ]
    ]
