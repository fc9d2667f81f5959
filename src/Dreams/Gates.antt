-- ===== src/Dreams/Gates.antt =====
-- What one call of `Schedule` may do: nothing to the tables, or one new row behind open gates.
use goncho.Prelude.{
  ℕ, suc, ◌≤◌, ◌≡◌, ◌≢◌, ◌⊎◌, inl, inr, refl, String, Bool, true, false, not, Option, none, some,
  [], ◌∷◌, ◌++◌, ◌==◌, if◌then◌else◌, if_intro, arith,
}
use goncho.Prelude.Result.{Result, ok, err}
use goncho.Prelude.Text.{trim_space}
use goncho.Dreams.Evidence.{Intent, DreamStatusEvidence, Action, created, result_from_intent}
use goncho.Dreams.Table.{
  Dream, Db, DbError, insert_dream, find_active, find_active_again, coalesce, has_table,
  find_active_intent, insert_intent, new_row,
}
use goncho.Dreams.Eligibility.{
  ScheduleConfig, DreamScheduleParams, DreamEligibility, Normal, normalize, read_eligibility,
}
use goncho.Dreams.Scheduler.{
  shut_gate, default_reason, pending_intent, Outcome, after_conflict, insert_pending, through_gate,
  insert_outcome, with_eligibility, with_active, with_table, schedule,
}

abbrev pub action_of : Outcome → Option Action
action_of (err x) = none
action_of (ok r) = some r.action

-- The row that a call may add.
abbrev pub scheduled_row : Normal → String → ℕ → DreamScheduleParams → DreamEligibility → ℕ → Dream
scheduled_row n peer now params e id =
    new_row id (pending_intent n peer e) now params.manual
      (default_reason params.reason params.manual)

-- The gates of an automatic request; a manual one passes.
abbrev IsOpen : Bool → Normal → ℕ → DreamEligibility → Type 0
IsOpen true n now e = Unit
IsOpen false n now e =
    (n.min_conclusions ≤ e.new_conclusions) × (e.cooldown_until ≤ now) × (e.idle_until ≤ now)

-- A call that has added a row.
pub record Added (n : Normal) (peer : String) (now : ℕ) (params : DreamScheduleParams) (db : Db)
    (x : Db × Outcome) : Type 0 where
  pub eligibility : DreamEligibility
  pub read : read_eligibility db n peer ≡ ok eligibility
  pub is_open : IsOpen params.manual n now eligibility
  pub no_active : find_active_intent find_active db n.workspace_id n.observer_peer_id peer ≡ ok none
  pub row : x.0 ≡ record db {
    dreams = db.dreams ++ scheduled_row n peer now params eligibility db.next_id ∷ [];
    next_id = suc db.next_id;
  }
  pub result :
      x.1
      ≡ ok (
          result_from_intent created
            (record (pending_intent n peer eligibility) { id = db.next_id }))

-- What a call may do: leave the tables alone and not report a new intent, or add a row.
abbrev pub Change : Normal → String → ℕ → DreamScheduleParams → Db → Db × Outcome → Type 0
Change n peer now params db x =
    ((x.0 ≡ db) × (action_of x.1 ≢ some created)) ⊎ Added n peer now params db x

module _ (n : Normal) (peer : String) (now : ℕ) (params : DreamScheduleParams) (db : Db) where
  conflict_action :
      (x : DbError) (again : Result DbError (Option Intent))
      → action_of (after_conflict x again) ≢ some created
  unfolding result_from_intent
  conflict_action x (err y) h = cc
  conflict_action x (ok none) h = cc
  conflict_action x (ok (some active)) h = cc

  insert-Change :
      (e : DreamEligibility)
      → read_eligibility db n peer ≡ ok e
      → IsOpen params.manual n now e
      → find_active_intent find_active db n.workspace_id n.observer_peer_id peer ≡ ok none
      → Change n peer now params db (insert_pending n peer now params e db)
  unfolding insert_pending insert_intent
  insert-Change e read open_gates free =
      if_intro
        (λ x. Change n peer now params db (insert_outcome n peer (pending_intent n peer e) x))
        (db.fails insert_dream) _ _
        (inl (
          refl,
          conflict_action _
              (find_active_intent find_active_again db n.workspace_id n.observer_peer_id peer),
        ))
        (inr (record {
          eligibility = e;
          read = read;
          is_open = open_gates;
          no_active = free;
          row = refl;
          result = refl;
        }))

  gate-Change :
      (e : DreamEligibility) (gate : Option DreamStatusEvidence)
      → (gate ≡ none → IsOpen params.manual n now e)
      → read_eligibility db n peer ≡ ok e
      → find_active_intent find_active db n.workspace_id n.observer_peer_id peer ≡ ok none
      → Change n peer now params db (through_gate n peer now params e db gate)
  gate-Change e (some evidence) shut read free = inl (refl, λ h. cc)
  gate-Change e none shut read free = insert-Change e read (shut refl) free

  shut_gate-IsOpen :
      (manual : Bool) (e : DreamEligibility)
      → (if manual then none else shut_gate n peer now e) ≡ none
      → IsOpen manual n now e
  unfolding shut_gate
  shut_gate-IsOpen true e h = tt
  shut_gate-IsOpen false e h = (ground arith, ground arith, ground arith)

  eligibility-Change :
      (e : Result DbError DreamEligibility)
      → read_eligibility db n peer ≡ e
      → find_active_intent find_active db n.workspace_id n.observer_peer_id peer ≡ ok none
      → Change n peer now params db (with_eligibility n peer now params db e)
  unfolding with_eligibility
  eligibility-Change (err x) read free = inl (refl, λ h. cc)
  eligibility-Change (ok e) read free = gate-Change e _ (shut_gate-IsOpen params.manual e) read free

  active-Change :
      (active : Result DbError (Option Intent))
      → find_active_intent find_active db n.workspace_id n.observer_peer_id peer ≡ active
      → Change n peer now params db (with_active n peer now params db active)
  unfolding with_active result_from_intent
  active-Change (err x) found = inl (refl, λ h. cc)
  active-Change (ok (some active)) found = inl (refl, λ h. cc)
  active-Change (ok none) found = eligibility-Change (read_eligibility db n peer) refl found

  table-Change :
      (exists : Result DbError Bool)
      → Change n peer now params db (with_table n peer now params db exists)
  unfolding with_table
  table-Change (err x) = inl (refl, λ h. cc)
  table-Change (ok false) = inl (refl, λ h. cc)
  table-Change (ok true) = active-Change _ refl

pub schedule-Change :
    (done : Bool) (clock : ℕ) (cfg : ScheduleConfig) (params : DreamScheduleParams) (db : Db)
    → Change
        (normalize cfg)
        (trim_space params.peer)
        (coalesce params.now clock)
        params
        db
        (schedule done clock cfg params db)
unfolding schedule
schedule-Change done clock cfg params db =
    let n = normalize cfg in
    let peer = trim_space params.peer in
    let now = coalesce params.now clock in
    let P : Db × Outcome → Type 0 = Change n peer now params db in
    if_intro P done _ _ (inl (refl, λ h. cc)) (
      if_intro P (peer == "") _ _ (inl (refl, λ h. cc)) (
        if_intro P (not cfg.dream_enabled) _ _ (inl (refl, λ h. cc))
          (table-Change n peer now params db (has_table db))))
