-- ===== src/Dreams/Evidence.antt =====
-- internal/dreamscheduler/scheduler.go: intents, and the evidence and results made of them. Instants
-- are seconds from 1970 on, as numbers; `text_reason` keeps the number that a message prints.
use goncho.Prelude.{ℕ, String, if◌then◌else◌, ◌==◌}
use Prim.Native.String.{◌++◌ as str_append}

pub record Intent : Type 0 where
  pub id : ℕ
  pub workspace_id : String
  pub observer_peer_id : String
  pub observed_peer_id : String
  pub work_unit_key : String
  pub status : String
  pub new_conclusions : ℕ
  pub min_conclusions : ℕ
  pub last_conclusion_id : ℕ
  pub last_activity_at : ℕ
  pub idle_until : ℕ
  pub cooldown_until : ℕ

-- A message, or the message of the threshold with its number.
pub data Reason : Type 0 where
  said : String → Reason
  needs_conclusions : ℕ → Reason

pub record DreamStatusEvidence : Type 0 where
  pub code : String
  pub reason : Reason
  pub dream_id : ℕ
  pub workspace_id : String
  pub observer_peer_id : String
  pub observed_peer_id : String
  pub status : String
  pub work_unit_key : String
  pub new_conclusions : ℕ
  pub min_conclusions : ℕ
  pub last_conclusion_id : ℕ
  pub last_activity_at : ℕ
  pub idle_until : ℕ
  pub cooldown_until : ℕ

pub data Action : Type 0 where
  rejected reused created : Action

pub record DreamScheduleResult : Type 0 where
  pub action : Action
  pub id : ℕ
  pub status : String
  pub workspace_id : String
  pub observer_peer_id : String
  pub observed_peer_id : String
  pub work_unit_key : String
  pub new_conclusions : ℕ
  pub min_conclusions : ℕ
  pub last_conclusion_id : ℕ
  pub evidence : DreamStatusEvidence

-- Evidence with only a code, a reason and the three ids.
abbrev pub plain_evidence : String → String → String → String → String → DreamStatusEvidence
plain_evidence code reason workspace_id observer peer = record {
  code = code;
  reason = said reason;
  dream_id = 0;
  workspace_id = workspace_id;
  observer_peer_id = observer;
  observed_peer_id = peer;
  status = "";
  work_unit_key = "";
  new_conclusions = 0;
  min_conclusions = 0;
  last_conclusion_id = 0;
  last_activity_at = 0;
  idle_until = 0;
  cooldown_until = 0;
}

unfoldable pub disabled_evidence : String → String → String → DreamStatusEvidence
disabled_evidence =
    plain_evidence "dream_disabled" "dreaming is disabled; no background dream reasoning is active"

unfoldable pub unavailable_evidence : String → String → String → DreamStatusEvidence
unavailable_evidence =
    plain_evidence "dream_unavailable"
      "goncho_dreams scheduler table is unavailable; no background dream reasoning is active"

unfoldable intent_reason : String → Reason
intent_reason status =
    if status == "in_progress"
    then said "dream work intent is in progress"
    else if status == "pending"
    then said "dream work intent is pending local execution"
    else said (str_append "dream work intent is " status)

unfoldable evidence_from_intent : Intent → DreamStatusEvidence
unfolding intent_reason
evidence_from_intent i = record {
  code = str_append "dream_" i.status;
  reason = intent_reason i.status;
  dream_id = i.id;
  workspace_id = i.workspace_id;
  observer_peer_id = i.observer_peer_id;
  observed_peer_id = i.observed_peer_id;
  status = i.status;
  work_unit_key = i.work_unit_key;
  new_conclusions = i.new_conclusions;
  min_conclusions = i.min_conclusions;
  last_conclusion_id = i.last_conclusion_id;
  last_activity_at = i.last_activity_at;
  idle_until = i.idle_until;
  cooldown_until = i.cooldown_until;
}

unfoldable pub result_from_intent : Action → Intent → DreamScheduleResult
unfolding evidence_from_intent
result_from_intent action i = record {
  action = action;
  id = i.id;
  status = i.status;
  workspace_id = i.workspace_id;
  observer_peer_id = i.observer_peer_id;
  observed_peer_id = i.observed_peer_id;
  work_unit_key = i.work_unit_key;
  new_conclusions = i.new_conclusions;
  min_conclusions = i.min_conclusions;
  last_conclusion_id = i.last_conclusion_id;
  evidence = evidence_from_intent i;
}

unfoldable pub work_unit_key : String → String → String → String
work_unit_key workspace_id observer peer =
    str_append "dream:consolidation:"
      (str_append workspace_id (str_append ":" (str_append observer (str_append ":" peer))))
