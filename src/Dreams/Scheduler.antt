-- ===== src/Dreams/Scheduler.antt =====
-- internal/dreamscheduler/scheduler.go: `Schedule` and `CancelPendingForObserved`, on a database that
-- no one else writes to meanwhile. (With a nil database both return an error at once.)
use goncho.Prelude.{
  ℕ, String, Bool, true, false, not, Option, none, some, ◌==◌, ltb, if◌then◌else◌, keep, length,
}
use goncho.Prelude.Text.{trim_space}
use goncho.Prelude.Result.{Result, ok, err}
use goncho.Dreams.Evidence.{
  Intent, Reason, said, needs_conclusions, DreamStatusEvidence, rejected, reused, created,
  DreamScheduleResult, plain_evidence, disabled_evidence, unavailable_evidence, result_from_intent,
  work_unit_key,
}
use goncho.Dreams.Table.{
  Db, DbError, statement_failed, find_active, find_active_again, stale_dreams, coalesce, has_table,
  find_active_intent, insert_intent, is_pending_for, stale_row, update_rows,
}
use goncho.Dreams.Eligibility.{
  ScheduleConfig, DreamScheduleParams, DreamEligibility, Normal, normalize, read_eligibility,
}

pub data ScheduleError : Type 0 where
  context_done peer_required : ScheduleError
  db_error : DbError → ScheduleError

-- The evidence of a gate, with the counts that all three show.
abbrev gate_evidence : String → Reason → Normal → String → DreamEligibility → DreamStatusEvidence
gate_evidence code reason n peer e =
    record (plain_evidence code "" n.workspace_id n.observer_peer_id peer) {
      reason = reason;
      new_conclusions = e.new_conclusions;
      min_conclusions = n.min_conclusions;
      last_conclusion_id = e.max_conclusion_id;
    }

-- The first of the gates of an automatic request that is shut.
unfoldable pub shut_gate : Normal → String → ℕ → DreamEligibility → Option DreamStatusEvidence
shut_gate n peer now e =
    if ltb e.new_conclusions n.min_conclusions
    then some (gate_evidence "dream_threshold" (needs_conclusions n.min_conclusions) n peer e)
    else if ltb now e.cooldown_until
    then some
        (record (gate_evidence "dream_cooldown"
          (said "dream cooldown has not elapsed since the last completed dream") n peer e) {
            cooldown_until = e.cooldown_until;
          })
    else if ltb now e.idle_until
    then some
        (record (gate_evidence "dream_idle"
          (said "observed peer has not been idle for the configured dream idle timeout") n peer e) {
            last_activity_at = e.last_activity_at;
            idle_until = e.idle_until;
          })
    else none

abbrev base_result : Normal → String → DreamStatusEvidence → DreamScheduleResult
base_result n peer evidence = record {
  action = rejected;
  id = 0;
  status = "";
  workspace_id = n.workspace_id;
  observer_peer_id = n.observer_peer_id;
  observed_peer_id = peer;
  work_unit_key = "";
  new_conclusions = 0;
  min_conclusions = n.min_conclusions;
  last_conclusion_id = 0;
  evidence = evidence;
}

abbrev gate_result : Normal → String → DreamEligibility → DreamStatusEvidence → DreamScheduleResult
gate_result n peer e evidence = record (base_result n peer evidence) {
  new_conclusions = e.new_conclusions;
  last_conclusion_id = e.max_conclusion_id;
}

abbrev pub default_reason : String → Bool → String
default_reason raw manual =
    let reason = trim_space raw in
    if reason == "" then (if manual then "manual" else "eligible") else reason

abbrev pub pending_intent : Normal → String → DreamEligibility → Intent
pending_intent n peer e = record {
  id = 0;
  workspace_id = n.workspace_id;
  observer_peer_id = n.observer_peer_id;
  observed_peer_id = peer;
  work_unit_key = work_unit_key n.workspace_id n.observer_peer_id peer;
  status = "pending";
  new_conclusions = e.new_conclusions;
  min_conclusions = n.min_conclusions;
  last_conclusion_id = e.max_conclusion_id;
  last_activity_at = e.last_activity_at;
  idle_until = e.idle_until;
  cooldown_until = e.cooldown_until;
}

abbrev pub Outcome : Type 0
Outcome = Result ScheduleError DreamScheduleResult

-- A failed insertion looks for an active intent once more.
abbrev pub after_conflict : DbError → Result DbError (Option Intent) → Outcome
after_conflict x (err y) = err (db_error x)
after_conflict x (ok none) = err (db_error x)
after_conflict x (ok (some active)) = ok (result_from_intent reused active)

abbrev after_insert : Db → Normal → String → Intent → Result DbError ℕ → Outcome
after_insert db n peer intent (ok id) = ok (result_from_intent created (record intent { id = id }))
after_insert db n peer intent (err x) =
    after_conflict x
      (find_active_intent find_active_again db n.workspace_id n.observer_peer_id peer)

abbrev pub insert_outcome : Normal → String → Intent → Db × Result DbError ℕ → Db × Outcome
insert_outcome n peer intent (db, inserted) = (db, after_insert db n peer intent inserted)

unfoldable pub insert_pending :
    Normal → String → ℕ → DreamScheduleParams → DreamEligibility → Db → Db × Outcome
insert_pending n peer now params e db =
    let intent = pending_intent n peer e in
    insert_outcome n peer intent
      (insert_intent intent now params.manual (default_reason params.reason params.manual) db)

abbrev pub through_gate :
    Normal
    → String
    → ℕ
    → DreamScheduleParams
    → DreamEligibility
    → Db
    → Option DreamStatusEvidence
    → Db × Outcome
through_gate n peer now params e db (some evidence) = (db, ok (gate_result n peer e evidence))
through_gate n peer now params e db none = insert_pending n peer now params e db

unfoldable pub with_eligibility :
    Normal → String → ℕ → DreamScheduleParams → Db → Result DbError DreamEligibility → Db × Outcome
unfolding shut_gate
with_eligibility n peer now params db (err x) = (db, err (db_error x))
with_eligibility n peer now params db (ok e) =
    through_gate n peer now params e db (if params.manual then none else shut_gate n peer now e)

unfoldable pub with_active :
    Normal → String → ℕ → DreamScheduleParams → Db → Result DbError (Option Intent) → Db × Outcome
with_active n peer now params db (err x) = (db, err (db_error x))
with_active n peer now params db (ok (some active)) = (db, ok (result_from_intent reused active))
with_active n peer now params db (ok none) =
    with_eligibility n peer now params db (read_eligibility db n peer)

unfoldable pub with_table :
    Normal → String → ℕ → DreamScheduleParams → Db → Result DbError Bool → Db × Outcome
with_table n peer now params db (err x) = (db, err (db_error x))
with_table n peer now params db (ok false) =
    (db, ok (base_result n peer (unavailable_evidence n.workspace_id n.observer_peer_id peer)))
with_table n peer now params db (ok true) =
    with_active n peer now params db
      (find_active_intent find_active db n.workspace_id n.observer_peer_id peer)

-- `Schedule` on a database; `done` says that the context is, and `clock` is the time of the machine.
unfoldable pub schedule : Bool → ℕ → ScheduleConfig → DreamScheduleParams → Db → Db × Outcome
schedule done clock cfg params db =
    let n = normalize cfg in
    let peer = trim_space params.peer in
    let now = coalesce params.now clock in
    if done
    then (db, err context_done)
    else if peer == ""
    then (db, err peer_required)
    else if not cfg.dream_enabled
    then (db, ok (base_result n peer (disabled_evidence n.workspace_id n.observer_peer_id peer)))
    else with_table n peer now params db (has_table db)

abbrev pub stale_rows : String → String → ℕ → String → Db → Db × Result DbError ℕ
stale_rows workspace_id observed now reason db =
    let text = if trim_space reason == "" then "new_activity" else reason in
    let changed = record db {
      dreams = update_rows (is_pending_for workspace_id observed) (stale_row text now) db.dreams;
    } in
    if db.fails stale_dreams
    then (db, err (statement_failed stale_dreams))
    else (changed, ok (length (keep (is_pending_for workspace_id observed) db.dreams)))

abbrev pub cancel_with_table :
    String → String → ℕ → String → Db → Result DbError Bool → Db × Result DbError ℕ
cancel_with_table workspace_id observed now reason db (err x) = (db, err x)
cancel_with_table workspace_id observed now reason db (ok false) = (db, ok 0)
cancel_with_table workspace_id observed now reason db (ok true) =
    stale_rows workspace_id observed now reason db

unfoldable pub cancel_pending_for_observed :
    String → String → ℕ → String → Db → Db × Result DbError ℕ
cancel_pending_for_observed workspace_id observed now reason db =
    cancel_with_table workspace_id observed now reason db (has_table db)
