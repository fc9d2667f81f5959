-- ===== src/Dreams/Dedupe.antt =====
-- One active intent at most for a workspace, an observer and an observed peer.
use goncho.Prelude.{
  ℕ, ◌≤◌, ◌≡◌, inl, inr, refl, subst, sym, ap, ◌∙◌, String, Bool, true, false, not, ◌&&◌, Option,
  none, some, List, [], ◌∷◌, ◌++◌, ◌==◌, keep-append, length-append, length, if_false,
  if◌then◌else◌, arith, eq_iff, eq_refl,
}
use goncho.Prelude.Result.{ok, err}
use goncho.Prelude.Text.{trim_space}
use goncho.Dreams.Evidence.{Intent, reused, created, result_from_intent}
use goncho.Dreams.Table.{
  Dream, Db, statement_failed, Statement, find_active, coalesce, map_option, has_table, is_for,
  is_active, first_by, active_rows, find_active_intent, intent_of, run_statement,
}
use goncho.Dreams.Eligibility.{ScheduleConfig, DreamScheduleParams, Normal, normalize}
use goncho.Dreams.Scheduler.{pending_intent, Outcome, with_table, with_active, schedule}
use goncho.Dreams.Gates.{Added, Change, action_of, scheduled_row, schedule-Change}

-- No two active rows are for the same workspace, observer and observed peer.
abbrev pub IsSingle : Db → Type 0
IsSingle db =
    (workspace_id observer peer : String) → length (active_rows db workspace_id observer peer) ≤ 1

first_by-none : (key : Dream → ℕ) (ds : List Dream) → first_by key ds ≡ none → ds ≡ []
unfolding first_by
first_by-none key [] h = refl
first_by-none key (d ∷ ds) h = cc

map_option-none : {A B : Type 0} (f : A → B) (o : Option A) → map_option f o ≡ none → o ≡ none
map_option-none f none h = refl
map_option-none f (some a) h = cc

if-ok :
    {E A : Type 0} (b : Bool) (x : E) (a c : A)
    → (if b then err x else ok a) ≡ ok c
    → (b ≡ false) × (a ≡ c)
if-ok true x a c h = cc
if-ok false x a c h = (refl, cc)

run_statement-ok :
    {A : Type 0} (db : Db) (s : Statement) (a b : A)
    → run_statement db s a ≡ ok b
    → (db.fails s ≡ false) × (a ≡ b)
run_statement-ok db s a b h = if-ok (db.fails s) (statement_failed s) a b h

find_active_intent-none :
    (s : Statement) (db : Db) (workspace_id observer peer : String)
    → find_active_intent s db workspace_id observer peer ≡ ok none
    → (db.fails s ≡ false) × (active_rows db workspace_id observer peer ≡ [])
unfolding find_active_intent
find_active_intent-none s db workspace_id observer peer h =
    let (good, e) = run_statement-ok db s _ none h in
    (good, first_by-none (λ d. d.updated_at) _ (map_option-none intent_of _ e))

module _ (db : Db) (row : Dream) (workspace_id observer peer : String) where
  -- The active rows once a row is added.
  active_rows-append :
      (after : Db)
      → after.dreams ≡ db.dreams ++ row ∷ []
      → active_rows after workspace_id observer peer
        ≡ active_rows db workspace_id observer peer
          ++ (if is_for workspace_id observer peer row && is_active row then row ∷ [] else [])
  active_rows-append after e =
      rw
        (
          e,
          keep-append (λ d. is_for workspace_id observer peer d && is_active d) db.dreams
              (row ∷ []),
        )
        refl

-- The key of a row that a call adds.
row_key :
    (n : Normal) (peer : String) (now : ℕ) (params : DreamScheduleParams) (db : Db)
    (x : Db × Outcome) (a : Added n peer now params db x) (w o p : String)
    → is_for w o p (scheduled_row n peer now params a.eligibility db.next_id) ≡ true
    → (n.workspace_id ≡ w) × ((n.observer_peer_id ≡ o) × (peer ≡ p))
row_key n peer now params db x a w o p h =
    ground (arith, eq_iff n.workspace_id w, eq_iff n.observer_peer_id o, eq_iff peer p)

one_more :
    {A : Type 0} (xs : List A) (b : Bool) (a : A)
    → length xs ≤ 1
    → (b ≡ true → xs ≡ [])
    → length (xs ++ (if b && true then a ∷ [] else [])) ≤ 1
one_more xs true a short free = rw (free refl) (omega arith)
one_more xs false a short free = rw (length-append xs []) (omega (arith, short))

Added-IsSingle :
    (n : Normal) (peer : String) (now : ℕ) (params : DreamScheduleParams) (db : Db)
    (x : Db × Outcome)
    → IsSingle db
    → Added n peer now params db x
    → IsSingle x.0
Added-IsSingle n peer now params db x single a w o p =
    let row = scheduled_row n peer now params a.eligibility db.next_id in
    rw (active_rows-append db row w o p x.0 (ap (λ d. d.dreams) a.row)) (
      one_more (active_rows db w o p) (is_for w o p row) row (single w o p) (λ same.
        let (same_workspace, (same_observer, same_peer)) =
          row_key n peer now params db x a w o p same in
        rw (sym same_workspace, sym same_observer, sym same_peer)
          (find_active_intent-none find_active db n.workspace_id n.observer_peer_id peer
            a.no_active).1))

Change-IsSingle :
    (n : Normal) (peer : String) (now : ℕ) (params : DreamScheduleParams) (db : Db)
    (x : Db × Outcome)
    → IsSingle db
    → Change n peer now params db x
    → IsSingle x.0
Change-IsSingle n peer now params db x single (inl (same, quiet)) = subst IsSingle (sym same) single
Change-IsSingle n peer now params db x single (inr a) =
    Added-IsSingle n peer now params db x single a

pub schedule-IsSingle :
    (done : Bool) (clock : ℕ) (cfg : ScheduleConfig) (params : DreamScheduleParams) (db : Db)
    → IsSingle db
    → IsSingle (schedule done clock cfg params db).0
schedule-IsSingle done clock cfg params db single =
    Change-IsSingle _ _ _ _ _ _ single (schedule-Change done clock cfg params db)

-- An enabled scheduler that finds an active intent for the peer.
reused_found :
    (clock : ℕ) (cfg : ScheduleConfig) (params : DreamScheduleParams) (db : Db) (i : Intent)
    → cfg.dream_enabled ≡ true
    → (trim_space params.peer == "") ≡ false
    → has_table db ≡ ok true
    → find_active_intent find_active db
        (normalize cfg).workspace_id
        (normalize cfg).observer_peer_id
        (trim_space params.peer)
      ≡ ok (some i)
    → schedule false clock cfg params db ≡ (db, ok (result_from_intent reused i))
unfolding schedule with_table with_active
reused_found clock cfg params db i enabled named ready found =
    let now = coalesce params.now clock in
    if_false (trim_space params.peer == "") _ _ named
    ∙ if_false (not cfg.dream_enabled) _ _ (ap not enabled)
    ∙ ap (with_table (normalize cfg) (trim_space params.peer) now params db) ready
    ∙ ap (with_active (normalize cfg) (trim_space params.peer) now params db) found

-- What a call does that follows one that has added a row.
found_after :
    (n : Normal) (peer : String) (now : ℕ) (params : DreamScheduleParams) (db : Db)
    (x : Db × Outcome) (a : Added n peer now params db x)
    → find_active_intent find_active x.0 n.workspace_id n.observer_peer_id peer
      ≡ ok (some (record (pending_intent n peer a.eligibility) { id = db.next_id }))
unfolding find_active_intent
found_after n peer now params db x a =
    let row = scheduled_row n peer now params a.eligibility db.next_id in
    let (good, free) =
      find_active_intent-none find_active db n.workspace_id n.observer_peer_id peer a.no_active in
    rw
      (
        active_rows-append db row n.workspace_id n.observer_peer_id peer x.0
            (ap (λ d. d.dreams) a.row),
        free,
        ap (λ d. d.fails) a.row,
        good,
        eq_refl n.workspace_id,
        eq_refl n.observer_peer_id,
        eq_refl peer,
      )
      refl

has_table-Added :
    (n : Normal) (peer : String) (now : ℕ) (params : DreamScheduleParams) (db : Db)
    (x : Db × Outcome)
    → Added n peer now params db x
    → has_table x.0 ≡ has_table db
unfolding has_table
has_table-Added n peer now params db x a = ap has_table a.row

-- What two calls in a row report: the first a new intent, the second the same one, with no change.
abbrev IsRepeated : Db × Outcome → Db × Outcome → Type 0
IsRepeated first second =
    (i : Intent) × (first.1 ≡ ok (result_from_intent created i))
    × (second ≡ (first.0, ok (result_from_intent reused i)))

-- When a request makes a new intent, an enabled scheduler with the same configuration answers the next request
-- for that peer, manual or not and at any time, with the same intent as reused, and
-- changes nothing.
schedule-schedule :
    (clock clock' : ℕ) (cfg : ScheduleConfig) (params params' : DreamScheduleParams) (db : Db)
    → cfg.dream_enabled ≡ true
    → (trim_space params.peer == "") ≡ false
    → has_table db ≡ ok true
    → trim_space params'.peer ≡ trim_space params.peer
    → action_of (schedule false clock cfg params db).1 ≡ some created
    → IsRepeated
        (schedule false clock cfg params db)
        (schedule false clock' cfg params' (schedule false clock cfg params db).0)
schedule-schedule clock clock' cfg params params' db enabled named ready same made =
    elim (schedule-Change false clock cfg params db) [
      | inl (unchanged, quiet) ↦ absurd (quiet made)
      | inr a ↦ (
        _,
        a.result,
        reused_found clock' cfg params' _ _ enabled (rw same named)
            (has_table-Added _ _ _ _ _ _ a ∙ ready) (rw same (found_after _ _ _ _ _ _ a)),
      )
    ]
