-- ===== src/Proposals/Examples.antt =====
-- A draft that is submitted, approved, and then rejected in vain.
use Prim.Native.String.{String}
use goncho.Prelude.{◌≡◌, ◌≢◌, refl, false, none, some, [], ◌∷◌}
use goncho.Prelude.Text.{trim_space, is_space}
use goncho.Prelude.Result.{ok, err}
use goncho.Proposals.{
  Proposal, ProposalParams, ReviewParams, TextLibrary, Faults, Table, find_proposal, scan_failed,
  get_proposal, review_proposal, submit_proposal,
}
use goncho.Proposals.Rows.{IsKeyed}
use goncho.Proposals.Reviews.{Decision, review_proposal-Decision}
use goncho.Proposals.Histories.{
  approving, rejecting, IsRuled, StandsAs, run, run-StandsAs, review_proposal-review_proposal,
}

abbrev up : Faults
up statement = false

abbrev plain : TextLibrary String
plain = record { decimal = λ n. "7"; marshal = λ s. some s; no_evidence = "{}" }

abbrev draft : ProposalParams String
draft = record {
  workspace_id = "";
  skill_name = " deploy ";
  source_task = "release";
  draft_body = "steps";
  created_by = "ana";
  evidence = none;
  created_at = some 7;
}

abbrev waiting : Proposal
waiting = record {
  id = 1;
  proposal_id = "skill_prop_7";
  workspace_id = "gormes";
  skill_name = "deploy";
  source_task = "release";
  draft_body = "steps";
  evidence_json = "{}";
  status = "pending";
  created_by = "ana";
  reviewed_by = "";
  reviewed_at = none;
  review_reason = "";
  created_at = 7;
}

abbrev holding : Table
holding = record { rows = waiting ∷ []; last_id = 1 }

submit_waiting : (submit_proposal plain up draft 0 (record { rows = []; last_id = 0 })).0 ≡ holding
unfolding submit_proposal trim_space is_space
submit_waiting = refl

abbrev review : ReviewParams
review = record {
  proposal_id = "skill_prop_7";
  reviewed_by = "bob";
  review_reason = " works ";
  reviewed_at = some 9;
}

abbrev approved : Proposal
approved = record waiting {
  status = "approved";
  reviewed_by = "bob";
  reviewed_at = some 9;
  review_reason = "works";
}

review_approves : (review_proposal up review "approved" 0 holding).1 ≡ ok approved
unfolding review_proposal trim_space is_space
review_approves = refl

-- The error for a missing proposal is that of the scan.
missing_proposal : get_proposal up "skill_prop_8" holding ≡ err scan_failed
unfolding get_proposal trim_space is_space
missing_proposal = refl

waiting-IsKeyed : IsKeyed holding.rows
unfolding find_proposal
waiting-IsKeyed = (refl, tt)

review_proposal-Decision_example :
    Decision review "approved" 0 holding.rows
      (review_proposal up review "approved" 0 holding).0.rows
      approved
review_proposal-Decision_example =
    review_proposal-Decision up review "approved" 0 holding waiting-IsKeyed review_approves

run-StandsAs_example :
    StandsAs
      (IsRuled {J = String} ((up, approving review 0) ∷ (up, rejecting review 0) ∷ []))
      waiting
      "skill_prop_7"
      (run plain ((up, approving review 0) ∷ (up, rejecting review 0) ∷ []) holding).rows
unfolding find_proposal
run-StandsAs_example =
    run-StandsAs plain ((up, approving review 0) ∷ (up, rejecting review 0) ∷ []) holding
      "skill_prop_7" waiting refl

review_proposal-review_proposal_example :
    (review_proposal up review "rejected" 11
      (run plain [] (review_proposal up review "approved" 0 holding).0)).1
    ≢ ok approved
review_proposal-review_proposal_example =
    review_proposal-review_proposal plain up up review review "approved" "rejected" 0 11 [] holding
      waiting-IsKeyed review_approves refl approved
