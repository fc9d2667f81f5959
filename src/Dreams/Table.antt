-- ===== src/Dreams/Table.antt =====
-- The tables goncho_dreams and goncho_conclusions, and the SQL of internal/dreamscheduler/scheduler.go
-- on them. Each statement may fail instead; the failures are a parameter of the database.
use goncho.Prelude.{
  ℕ, suc, ◌+◌, String, Bool, true, false, not, ◌&&◌, ◌||◌, Option, none, some, List, [], ◌∷◌, ◌++◌,
  ◌==◌, ltb, leb, eqb, if◌then◌else◌, keep,
}
use goncho.Prelude.Result.{Result, ok, err}
use goncho.Dreams.Evidence.{Intent}

pub record Dream : Type 0 where
  pub id : ℕ
  pub workspace_id : String
  pub observer_peer_id : String
  pub observed_peer_id : String
  pub dream_type : String
  pub status : String
  pub manual : Bool
  pub work_unit_key : String
  pub reason : String
  pub new_conclusions : ℕ
  pub min_conclusions : ℕ
  pub last_conclusion_id : ℕ
  pub scheduled_for : ℕ
  pub last_activity_at : ℕ
  pub cooldown_until : ℕ
  pub idle_until : ℕ
  pub completed_at : Option ℕ
  pub stale_at : Option ℕ
  pub created_at : ℕ
  pub updated_at : ℕ

pub record Conclusion : Type 0 where
  pub id : ℕ
  pub workspace_id : String
  pub observer_peer_id : String
  pub peer_id : String
  pub status : String
  pub created_at : ℕ

pub data Statement : Type 0 where
  table_exists find_active find_active_again latest_completed count_conclusions insert_dream
        stale_dreams :
      Statement

pub record Db : Type 0 where
  pub has_dreams : Bool
  pub conclusions : List Conclusion
  pub dreams : List Dream
  pub next_id : ℕ
  pub fails : Statement → Bool

pub data DbError : Type 0 where
  statement_failed : Statement → DbError

abbrev pub coalesce : Option ℕ → ℕ → ℕ
coalesce none d = d
coalesce (some n) d = n

-- The row for the given workspace, observer and observed peer.
abbrev pub is_for : String → String → String → Dream → Bool
is_for workspace_id observer peer d =
    d.workspace_id == workspace_id && (d.observer_peer_id == observer && d.observed_peer_id == peer)

-- status IN ('pending', 'in_progress')
abbrev pub is_active : Dream → Bool
is_active d = d.status == "pending" || d.status == "in_progress"

-- ORDER BY key DESC, id DESC: whether the first row comes before the second.
abbrev precedes : (Dream → ℕ) → Dream → Dream → Bool
precedes key a b = ltb (key b) (key a) || (eqb (key a) (key b) && leb b.id a.id)

abbrev better : (Dream → ℕ) → Dream → Option Dream → Dream
better key d none = d
better key d (some e) = if precedes key d e then d else e

-- ... LIMIT 1
unfoldable pub first_by : (Dream → ℕ) → List Dream → Option Dream
first_by key [] = none
first_by key (d ∷ ds) = some (better key d (first_by key ds))

abbrev pub intent_of : Dream → Intent
intent_of d = record {
  id = d.id;
  workspace_id = d.workspace_id;
  observer_peer_id = d.observer_peer_id;
  observed_peer_id = d.observed_peer_id;
  work_unit_key = d.work_unit_key;
  status = d.status;
  new_conclusions = d.new_conclusions;
  min_conclusions = d.min_conclusions;
  last_conclusion_id = d.last_conclusion_id;
  last_activity_at = d.last_activity_at;
  idle_until = d.idle_until;
  cooldown_until = d.cooldown_until;
}

abbrev pub run_statement : {A : Type 0} → Db → Statement → A → Result DbError A
run_statement db s a = if db.fails s then err (statement_failed s) else ok a

unfoldable pub has_table : Db → Result DbError Bool
has_table db = run_statement db table_exists db.has_dreams

abbrev pub active_rows : Db → String → String → String → List Dream
active_rows db workspace_id observer peer =
    keep (λ d. is_for workspace_id observer peer d && is_active d) db.dreams

abbrev pub map_option : {A B : Type 0} → (A → B) → Option A → Option B
map_option f none = none
map_option f (some a) = some (f a)

unfoldable pub find_active_intent :
    Statement → Db → String → String → String → Result DbError (Option Intent)
unfolding first_by
find_active_intent s db workspace_id observer peer = run_statement db s (
    map_option intent_of (first_by (λ d. d.updated_at) (active_rows db workspace_id observer peer)))

abbrev is_missing : Option ℕ → Bool
is_missing none = true
is_missing (some _) = false

-- The intent of a completed row: a missing cooldown is counted from the completion.
abbrev completed_intent : ℕ → Dream → Intent
completed_intent cooldown d =
    let since : ℕ = coalesce d.completed_at 0 in
    let counted : Bool = eqb d.cooldown_until 0 && not (is_missing d.completed_at) in
    record (intent_of d) { cooldown_until = if counted then since + cooldown else d.cooldown_until }

unfoldable pub latest_completed_intent :
    Db → String → String → String → ℕ → Result DbError (Option Intent)
unfolding first_by
latest_completed_intent db workspace_id observer peer cooldown = run_statement db latest_completed (
    map_option (completed_intent cooldown) (
      first_by (λ d. coalesce d.completed_at d.updated_at)
        (keep (λ d. is_for workspace_id observer peer d && d.status == "completed") db.dreams)))

-- COUNT(*), MAX(id), MAX(created_at) of the processed conclusions after the given one.
pub record Counted : Type 0 where
  pub count : ℕ
  pub max_id : Option ℕ
  pub max_created_at : Option ℕ

abbrev max_with : ℕ → Option ℕ → Option ℕ
max_with n none = some n
max_with n (some m) = some (if ltb m n then n else m)

unfoldable aggregate : List Conclusion → Counted
aggregate [] = record { count = 0; max_id = none; max_created_at = none }
aggregate (c ∷ cs) =
    let rest = aggregate cs in
    record {
      count = suc rest.count;
      max_id = max_with c.id rest.max_id;
      max_created_at = max_with c.created_at rest.max_created_at;
    }

unfoldable pub count_processed : Db → String → String → String → ℕ → Result DbError Counted
unfolding aggregate
count_processed db workspace_id observer peer after = run_statement db count_conclusions (
    aggregate (
      keep
        (λ c.
          c.workspace_id == workspace_id
          && (c.observer_peer_id == observer
              && (c.peer_id == peer && (c.status == "processed" && ltb after c.id))))
        db.conclusions))

abbrev pub new_row : ℕ → Intent → ℕ → Bool → String → Dream
new_row id i now manual reason = record {
  id = id;
  workspace_id = i.workspace_id;
  observer_peer_id = i.observer_peer_id;
  observed_peer_id = i.observed_peer_id;
  dream_type = "consolidation";
  status = "pending";
  manual = manual;
  work_unit_key = i.work_unit_key;
  reason = reason;
  new_conclusions = i.new_conclusions;
  min_conclusions = i.min_conclusions;
  last_conclusion_id = i.last_conclusion_id;
  scheduled_for = now;
  last_activity_at = i.last_activity_at;
  cooldown_until = i.cooldown_until;
  idle_until = i.idle_until;
  completed_at = none;
  stale_at = none;
  created_at = now;
  updated_at = now;
}

-- INSERT: the database gives the id.
unfoldable pub insert_intent : Intent → ℕ → Bool → String → Db → Db × Result DbError ℕ
insert_intent i now manual reason db =
    let added = record db {
      dreams = db.dreams ++ new_row db.next_id i now manual reason ∷ [];
      next_id = suc db.next_id;
    } in
    if db.fails insert_dream
    then (db, err (statement_failed insert_dream))
    else (added, ok db.next_id)

-- status = 'pending' for a workspace and an observed peer, whatever the observer
abbrev pub is_pending_for : String → String → Dream → Bool
is_pending_for workspace_id observed d =
    d.workspace_id == workspace_id && (d.observed_peer_id == observed && d.status == "pending")

abbrev pub stale_row : String → ℕ → Dream → Dream
stale_row reason now d = record d {
  status = "stale";
  reason = reason;
  stale_at = some now;
  updated_at = now;
}

-- UPDATE: every pending row for the observed peer becomes stale.
abbrev pub update_rows : (Dream → Bool) → (Dream → Dream) → List Dream → List Dream
update_rows test change [] = []
update_rows test change (d ∷ ds) = (if test d then change d else d) ∷ update_rows test change ds
