-- ===== src/Dreams/Cancellation.antt =====
-- `CancelPendingForObserved`, and the runs of both operations.
use goncho.Prelude.{
  if_cases, ℕ, ◌≤◌, ◌≡◌, ◌⊎◌, inl, inr, refl, String, Bool, true, false, not, ◌&&◌, List, [], ◌∷◌,
  ◌==◌, Bool-cases, keep, length, if◌then◌else◌, if_intro, arith, eq_iff,
}
use goncho.Prelude.Result.{Result, ok, err}
use goncho.Prelude.Text.{trim_space}
use goncho.Dreams.Table.{
  Statement, table_exists, Dream, Db, DbError, statement_failed, stale_dreams, has_table, is_for,
  is_active, update_rows, stale_row, is_pending_for,
}
use goncho.Dreams.Eligibility.{ScheduleConfig, DreamScheduleParams}
use goncho.Dreams.Scheduler.{schedule, stale_rows, cancel_with_table, cancel_pending_for_observed}
use goncho.Dreams.Dedupe.{IsSingle, schedule-IsSingle}

abbrev is_in_progress : Dream → Bool
is_in_progress d = d.status == "in_progress"

-- The statements of a cancellation succeed, on a table that is there.
abbrev is_effective : Db → Bool
is_effective db = db.has_dreams && (not (db.fails table_exists) && not (db.fails stale_dreams))

-- What the call does: nothing at all, or it makes every pending row for the peer stale.
abbrev IsCancelled : String → String → Db → Db × Result DbError ℕ → Type 0
IsCancelled workspace_id observed db x =
    ((is_effective db ≡ false)
      × (x.0 ≡ db)
      × ((x.1 ≡ ok 0) ⊎ ((s : Statement) × (db.fails s ≡ true) × (x.1 ≡ err (statement_failed s)))))
    ⊎ ((is_effective db ≡ true)
        × (keep (is_pending_for workspace_id observed) x.0.dreams ≡ [])
        × (x.1 ≡ ok (length (keep (is_pending_for workspace_id observed) db.dreams)))
        × (keep is_in_progress x.0.dreams ≡ keep is_in_progress db.dreams)
        × (length x.0.dreams ≡ length db.dreams))

module _ (test : Dream → Bool) (change : Dream → Dream) where
  keep-update_rows :
      ((d : Dream) → test (change d) ≡ false)
      → (ds : List Dream) → keep test (update_rows test change ds) ≡ []
  keep-update_rows off [] = refl
  keep-update_rows off (d ∷ ds) = elim (Bool-cases (test d)) [
    | inl hit ↦ rw (hit, off d) (keep-update_rows off ds)
    | inr miss ↦ rw (miss, miss) (keep-update_rows off ds)
  ]

  -- A test that no row passes, before or after its change.
  keep-update_rows_other :
      (other : Dream → Bool)
      → ((d : Dream) → test d ≡ true → (other d ≡ false) × (other (change d) ≡ false))
      → (ds : List Dream) → keep other (update_rows test change ds) ≡ keep other ds
  keep-update_rows_other other apart [] = refl
  keep-update_rows_other other apart (d ∷ ds) = elim (Bool-cases (test d)) [
    | inl hit ↦ rw (hit, (apart d hit).0, (apart d hit).1) (keep-update_rows_other other apart ds)
    | inr miss ↦ rw (miss, keep-update_rows_other other apart ds) refl
  ]

  length-update_rows : (ds : List Dream) → length (update_rows test change ds) ≡ length ds
  length-update_rows [] = refl
  length-update_rows (d ∷ ds) = omega (arith, length-update_rows ds)

  -- A test that no changed row passes.
  length-keep-update_rows :
      (other : Dream → Bool)
      → ((d : Dream) → other (change d) ≡ false)
      → (ds : List Dream)
      → length (keep other (update_rows test change ds)) ≤ length (keep other ds)
  length-keep-update_rows other off [] = omega arith
  length-keep-update_rows other off (d ∷ ds) = elim (Bool-cases (test d)) [
    | inl hit ↦ rw (hit, off d) (ground (arith, length-keep-update_rows other off ds))
    | inr miss ↦ rw miss (ground (arith, length-keep-update_rows other off ds))
  ]

last_of_three : (a b c : Bool) → (a && (b && c)) ≡ true → c ≡ true
last_of_three a b c h = ground arith

pending_apart : (status : String) → (status == "pending") ≡ true → (status == "in_progress") ≡ false
pending_apart status h = rw ((eq_iff status "pending").0 h) refl

module _ (workspace_id observed : String) (now : ℕ) (reason : String) (db : Db) where
  stale_rows-IsCancelled :
      db.has_dreams ≡ true
      → db.fails table_exists ≡ false
      → IsCancelled workspace_id observed db (stale_rows workspace_id observed now reason db)
  stale_rows-IsCancelled present asked =
      let text = if trim_space reason == "" then "new_activity" else reason in
      let test = is_pending_for workspace_id observed in
      if_cases (λ (x : Db × Result DbError ℕ). IsCancelled workspace_id observed db x)
        (db.fails stale_dreams) _ _
        (λ broken. inl (ground arith, refl, inr (stale_dreams, broken, refl)))
        (λ works. inr (
          ground arith,
          keep-update_rows test (stale_row text now) (λ d. ground arith) db.dreams,
          refl,
          keep-update_rows_other test (stale_row text now) is_in_progress
              (λ d pending. (
                pending_apart d.status (
                    last_of_three (d.workspace_id == workspace_id) (d.observed_peer_id == observed)
                      _ pending),
                refl,
              ))
              db.dreams,
          length-update_rows test (stale_row text now) db.dreams,
        ))

-- What the test for the table says of the database.
has_table-cases :
    (db : Db) (P : Result DbError Bool → Type 0)
    → (db.fails table_exists ≡ true → P (err (statement_failed table_exists)))
    → (db.fails table_exists ≡ false → db.has_dreams ≡ false → P (ok false))
    → (db.fails table_exists ≡ false → db.has_dreams ≡ true → P (ok true))
    → P (has_table db)
unfolding has_table
has_table-cases db P broken absent present = if_cases P (db.fails table_exists) _ _ broken (λ works.
    elim (Bool-cases db.has_dreams) [
      | inl there ↦ rw there (present works there)
      | inr gone ↦ rw gone (absent works gone)
    ])

-- When the table is missing or a statement of it fails, a cancellation for a workspace and an observed
-- peer changes nothing, and it counts 0 or returns the error of a failed statement. Otherwise it
-- leaves no pending row for them and counts those there were, keeps every row in progress as it is,
-- and deletes no row.
cancel_pending_for_observed-IsCancelled :
    (workspace_id observed : String) (now : ℕ) (reason : String) (db : Db)
    → IsCancelled workspace_id observed db
        (cancel_pending_for_observed workspace_id observed now reason db)
unfolding cancel_pending_for_observed
cancel_pending_for_observed-IsCancelled workspace_id observed now reason db =
    has_table-cases db
      (λ exists.
        IsCancelled workspace_id observed db
          (cancel_with_table workspace_id observed now reason db exists))
      (λ broken. inl (ground arith, refl, inr (table_exists, broken, refl)))
      (λ works gone. inl (ground arith, refl, inl refl))
      (λ works there. stale_rows-IsCancelled workspace_id observed now reason db there works)

-- A sequence of calls of both operations, between which it may change which statements fail.
pub data Run (start : Db) : Db → Type 0 where
  begin : Run start start
  disturbed :
      {db : Db} (fails : Statement → Bool) → Run start db → Run start (record db { fails = fails })
  scheduled :
      {db : Db} (done : Bool) (clock : ℕ) (cfg : ScheduleConfig) (params : DreamScheduleParams)
      → Run start db
      → Run start (schedule done clock cfg params db).0
  cancelled :
      {db : Db} (workspace_id observed : String) (now : ℕ) (reason : String)
      → Run start db
      → Run start (cancel_pending_for_observed workspace_id observed now reason db).0

stale-IsSingle :
    (workspace_id observed : String) (now : ℕ) (reason : String) (db : Db)
    → IsSingle db
    → IsSingle (stale_rows workspace_id observed now reason db).0
stale-IsSingle workspace_id observed now reason db single =
    if_intro (λ (x : Db × Result DbError ℕ). IsSingle x.0) (db.fails stale_dreams) _ _ single
      (λ w o p.
        let fewer =
          length-keep-update_rows (is_pending_for workspace_id observed)
            (stale_row (if trim_space reason == "" then "new_activity" else reason) now)
            (λ d. is_for w o p d && is_active d) (λ d. ground arith) db.dreams in
        omega (arith, fewer, single w o p))

table-IsSingle :
    (workspace_id observed : String) (now : ℕ) (reason : String) (db : Db)
    → IsSingle db
    → (exists : Result DbError Bool)
    → IsSingle (cancel_with_table workspace_id observed now reason db exists).0
table-IsSingle workspace_id observed now reason db single (err x) = single
table-IsSingle workspace_id observed now reason db single (ok false) = single
table-IsSingle workspace_id observed now reason db single (ok true) =
    stale-IsSingle workspace_id observed now reason db single

cancel-IsSingle :
    (workspace_id observed : String) (now : ℕ) (reason : String) (db : Db)
    → IsSingle db
    → IsSingle (cancel_pending_for_observed workspace_id observed now reason db).0
unfolding cancel_pending_for_observed
cancel-IsSingle workspace_id observed now reason db single =
    table-IsSingle workspace_id observed now reason db single (has_table db)

-- When at the start no two active rows are for the same workspace, observer and observed peer, then
-- the same holds after any sequence of calls of `Schedule` and `CancelPendingForObserved`, whichever
-- statements fail in each.
pub Run-IsSingle : (start db : Db) → IsSingle start → Run start db → IsSingle db
Run-IsSingle start db single begin = single
Run-IsSingle start _ single (disturbed fails run) = Run-IsSingle start _ single run
Run-IsSingle start _ single (scheduled done clock cfg params run) =
    schedule-IsSingle done clock cfg params _ (Run-IsSingle start _ single run)
Run-IsSingle start _ single (cancelled workspace_id observed now reason run) =
    cancel-IsSingle workspace_id observed now reason _ (Run-IsSingle start _ single run)
