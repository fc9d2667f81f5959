-- ===== src/Proposals.antt =====
-- internal/skillproposals/proposals.go: drafts of skills that wait for a review. Instants are nanoseconds
-- from 1970 on.
use Prim.Native.String.{String, ◌++◌ as str_append}
use goncho.Prelude.{
  ℕ, suc, Bool, true, false, not, ◌&&◌, ◌||◌, Option, none, some, List, [], ◌∷◌, ◌++◌, ◌==◌,
  if◌then◌else◌, any, map,
}
use goncho.Prelude.Text.{trim_space}
use goncho.Prelude.Result.{Result, ok, err, ◌>>=◌}
pub mod Rows
pub mod Reviews
pub mod Histories
mod Examples

pub record ProposalParams (J : Type 0) : Type 0 where
  pub workspace_id : String
  pub skill_name : String
  pub source_task : String
  pub draft_body : String
  pub created_by : String
  pub evidence : Option J
  pub created_at : Option ℕ

pub record ReviewParams : Type 0 where
  pub proposal_id : String
  pub reviewed_by : String
  pub review_reason : String
  pub reviewed_at : Option ℕ

pub record ProposalRef : Type 0 where
  pub proposal_id : String
  pub workspace_id : String
  pub skill_name : String
  pub status : String

pub record Proposal : Type 0 where
  pub id : ℕ
  pub proposal_id : String
  pub workspace_id : String
  pub skill_name : String
  pub source_task : String
  pub draft_body : String
  pub evidence_json : String
  pub status : String
  pub created_by : String
  pub reviewed_by : String
  pub reviewed_at : Option ℕ
  pub review_reason : String
  pub created_at : ℕ

pub data Statement : Type 0 where
  ensure_table insert_row update_row rows_affected read_row : Statement

-- `scan_failed` is the error of scanning where there is no row.
pub data ProposalError : Type 0 where
  fields_required id_required marshal_failed review_incomplete scan_failed : ProposalError
  not_pending : String → ProposalError
  sql_failed : Statement → ProposalError

abbrev pub Faults : Type 0
Faults = Statement → Bool

-- The table, and the number of the last row that was ever inserted.
pub record Table : Type 0 where
  pub rows : List Proposal
  pub last_id : ℕ

-- fmt.Sprintf("%d") and json.Marshal; `no_evidence` is the empty object.
pub record TextLibrary (J : Type 0) : Type 0 where
  pub decimal : ℕ → String
  pub marshal : J → Option String
  pub no_evidence : J

abbrev pub default_workspace_id : String
default_workspace_id = "gormes"

abbrev pub or_clock : ℕ → Option ℕ → ℕ
or_clock clock none = clock
or_clock clock (some t) = t

abbrev pub run_sql : {A : Type 0} → Faults → Statement → A → Result ProposalError A
run_sql faults s a = if faults s then err (sql_failed s) else ok a

abbrev pub require : Bool → ProposalError → Result ProposalError (Unit {0})
require test e = if test then ok tt else err e

unfoldable pub find_proposal : String → List Proposal → Option Proposal
find_proposal id [] = none
find_proposal id (row ∷ rows) =
    let rest = find_proposal id rows in if row.proposal_id == id then some row else rest

-- `getSkillLearningProposal`: the test for a missing row comes after the error was wrapped.
abbrev pub scanned : Option Proposal → Result ProposalError Proposal
scanned none = err scan_failed
scanned (some row) = ok row

unfoldable pub read_proposal : Faults → String → List Proposal → Result ProposalError Proposal
unfolding find_proposal
read_proposal faults id rows =
    run_sql faults read_row (find_proposal id rows) >>= λ found. scanned found

unfoldable pub get_proposal : Faults → String → Table → Result ProposalError Proposal
unfolding read_proposal
get_proposal faults proposal_id t =
    let id = trim_space proposal_id in
    run_sql faults ensure_table tt >>= λ _.
    require (not (id == "")) id_required >>= λ _. read_proposal faults id t.rows

abbrev pub is_pending : String → Proposal → Bool
is_pending id row = row.proposal_id == id && row.status == "pending"

abbrev pub reviewed : String → String → ℕ → String → Proposal → Proposal
reviewed status reviewed_by reviewed_at reason row = record row {
  status = status;
  reviewed_by = reviewed_by;
  reviewed_at = some reviewed_at;
  review_reason = reason;
}

abbrev pub update_if : (Proposal → Bool) → (Proposal → Proposal) → Proposal → Proposal
update_if test change row = if test row then change row else row

-- UPDATE ... WHERE proposal_id = ? AND status = 'pending'
unfoldable pub update_pending : String → (Proposal → Proposal) → List Proposal → List Proposal
update_pending id change rows = map (update_if (is_pending id) change) rows

abbrev pub is_final : String → Bool
is_final status = status == "approved" || status == "rejected"

-- What is checked of a review before its statement.
abbrev pub is_complete : ReviewParams → String → Bool
is_complete p status =
    not (trim_space p.proposal_id == "")
    && (not (trim_space p.reviewed_by == "")
        && (not (trim_space p.review_reason == "") && is_final status))

abbrev pub after_update : Faults → String → Bool → List Proposal → Result ProposalError Proposal
after_update faults id hit rows = run_sql faults rows_affected hit >>= λ affected.
    require affected (not_pending id) >>= λ _. read_proposal faults id rows

abbrev update_table :
    Faults → String → (Proposal → Proposal) → Table → Table × Result ProposalError Proposal
update_table faults id change t =
    if faults update_row
    then (t, err (sql_failed update_row))
    else let rows = update_pending id change t.rows in
      (record t { rows = rows }, after_update faults id (any (is_pending id) t.rows) rows)

-- The update commits on its own, before its rows are counted and read.
unfoldable pub review_proposal :
    Faults → ReviewParams → String → ℕ → Table → Table × Result ProposalError Proposal
unfolding update_pending read_proposal
review_proposal faults p status clock t =
    if faults ensure_table
    then (t, err (sql_failed ensure_table))
    else if not (is_complete p status)
    then (t, err review_incomplete)
    else update_table faults (trim_space p.proposal_id)
        (reviewed status (trim_space p.reviewed_by) (or_clock clock p.reviewed_at)
          (trim_space p.review_reason))
        t

unfoldable pub approve_proposal :
    Faults → ReviewParams → ℕ → Table → Table × Result ProposalError Proposal
approve_proposal faults p clock t = review_proposal faults p "approved" clock t

unfoldable pub reject_proposal :
    Faults → ReviewParams → ℕ → Table → Table × Result ProposalError Proposal
reject_proposal faults p clock t = review_proposal faults p "rejected" clock t

abbrev ref_of : Proposal → ProposalRef
ref_of row = record {
  proposal_id = row.proposal_id;
  workspace_id = row.workspace_id;
  skill_name = row.skill_name;
  status = row.status;
}

-- INSERT, with the UNIQUE constraint on proposal_id
abbrev pub inserted : Faults → Proposal → Table → Table × Result ProposalError ProposalRef
inserted faults row t =
    if faults insert_row || any (λ old. old.proposal_id == row.proposal_id) t.rows
    then (t, err (sql_failed insert_row))
    else (record { rows = t.rows ++ row ∷ []; last_id = suc t.last_id }, ok (ref_of row))

module _ {J : Type 0} (l : TextLibrary J) where
  abbrev pub or_no_evidence : Option J → J
  or_no_evidence none = l.no_evidence
  or_no_evidence (some e) = e

  abbrev pub or_default : String → String
  or_default workspace_id =
      let trimmed = trim_space workspace_id in
      if trimmed == "" then default_workspace_id else trimmed

  abbrev drafted : ProposalParams J → ℕ → ℕ → String → Proposal
  drafted p at id evidence = record {
    id = id;
    proposal_id = str_append "skill_prop_" (l.decimal at);
    workspace_id = or_default p.workspace_id;
    skill_name = trim_space p.skill_name;
    source_task = trim_space p.source_task;
    draft_body = trim_space p.draft_body;
    evidence_json = evidence;
    status = "pending";
    created_by = trim_space p.created_by;
    reviewed_by = "";
    reviewed_at = none;
    review_reason = "";
    created_at = at;
  }

  abbrev pub has_fields : ProposalParams J → Bool
  has_fields p =
      not (trim_space p.skill_name == "")
      && (not (trim_space p.source_task == "")
          && (not (trim_space p.draft_body == "") && not (trim_space p.created_by == "")))

  abbrev pub submit_marshalled :
      Faults
      → ProposalParams J
      → ℕ
      → Option String
      → Table
      → Table × Result ProposalError ProposalRef
  submit_marshalled faults p at none t = (t, err marshal_failed)
  submit_marshalled faults p at (some evidence) t =
      inserted faults (drafted p at (suc t.last_id) evidence) t

  unfoldable pub submit_proposal :
      Faults → ProposalParams J → ℕ → Table → Table × Result ProposalError ProposalRef
  submit_proposal faults p clock t =
      if faults ensure_table
      then (t, err (sql_failed ensure_table))
      else if not (has_fields p)
      then (t, err fields_required)
      else submit_marshalled faults p (or_clock clock p.created_at)
          (l.marshal (or_no_evidence p.evidence)) t
