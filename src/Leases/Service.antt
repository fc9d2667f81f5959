-- ===== src/Leases/Service.antt =====
-- service/action_leases.go with service/server_mode.go: the operations on leases. The source opens one
-- connection to its database, so that a transaction runs with no other beside it; when it
-- does not commit, the tables stay as they were.
use goncho.Prelude.{
  ℕ, suc, ◌+◌, ◌-◌, String, Bool, true, false, not, ◌&&◌, ◌||◌, Option, none, some, List, [], ◌∷◌,
  ◌++◌, ◌==◌, ltb, leb, if◌then◌else◌, keep, length, take,
}
use goncho.Prelude.Int.{ℤ, pos_part, not_positive, ltz, pos}
use goncho.Prelude.Text.{trim_space}
use goncho.Prelude.Result.{Result, ok, err, ◌>>=◌}
use goncho.Leases.Table.{
  ActionKey, ActionLease, Decision, acquired, held_by_other, renewed, expired, Reason, blank,
  missing_or_expired, lease_acquired, lease_renewed, lease_expired, held_by, AuditEvent, LeaseDb,
  Statement, begin, commit, delete_lease, LeaseError, not_distributed, scope_required,
  owner_required, ttl_not_positive, ttl_overflows, Faults, LeaseResult, run_sql, remove_lease,
  ensure_action_exists, get_action_lease, upsert_action_lease, audit_event,
  insert_action_lease_audit, in_scope, list_expired_action_leases,
}
use goncho.Leases.Params.{
  Service, LeaseParams, max_int64, workspace_of, normalize_scoped_action,
  normalize_action_lease_params, action_lease_expires_at, action_lease_acquired_at,
}
pub mod Transactions
pub mod Outcomes
pub mod Requests
pub mod Written
pub mod Expiry
pub mod Exclusion
pub mod Audit

pub record Granted : Type 0 where
  pub acquired : Bool
  pub decision : Decision
  pub lease : ActionLease
  pub reason : Reason
  pub audit_id : ℕ

pub record Expired : Type 0 where
  pub expired_count : ℕ
  pub events : List AuditEvent

-- `tx.Commit()`, with what the transaction has made.
abbrev committed : {A : Type 0} → Faults → LeaseDb × A → LeaseResult (LeaseDb × A)
committed faults x = run_sql faults commit x

-- A denied request or a missed renewal: one row of the audit, and the lease that is named.
unfoldable pub deny :
    Faults
    → ActionLease
    → String
    → Decision
    → Reason
    → ℕ
    → LeaseDb
    → LeaseResult (LeaseDb × Granted)
deny faults l actor decision reason now db =
    insert_action_lease_audit faults l actor decision reason now db >>= λ x. committed faults (
      x.0,
      record { acquired = false; decision = decision; lease = l; reason = reason; audit_id = x.1 },
    )

-- The lease is written, with one row of the audit.
unfoldable pub grant :
    Faults → ActionLease → Decision → Reason → ℕ → LeaseDb → LeaseResult (LeaseDb × Granted)
grant faults l decision reason now db = upsert_action_lease faults l db >>= λ written.
    insert_action_lease_audit faults l l.owner decision reason now written >>= λ x.
    committed faults (
      x.0,
      record { acquired = true; decision = decision; lease = l; reason = blank; audit_id = x.1 },
    )

abbrev pub new_lease : ActionKey → String → ℕ → ℕ → Option ActionLease → ActionLease
new_lease k owner now expires_at existing = record {
  key = k;
  owner = owner;
  acquired_at = action_lease_acquired_at now existing owner;
  renewed_at = now;
  expires_at = expires_at;
}

-- `AcquireActionLease` once the row of the action's lease is read.
unfoldable pub acquire_over :
    Faults
    → ActionKey
    → String
    → ℕ
    → ℕ
    → LeaseDb
    → Option ActionLease
    → LeaseResult (LeaseDb × Granted)
unfolding deny grant
acquire_over faults k owner now expires_at db none =
    grant faults (new_lease k owner now expires_at none) acquired lease_acquired now db
acquire_over faults k owner now expires_at db (some l) =
    if ltb now l.expires_at && not (l.owner == owner)
    then deny faults l owner held_by_other (held_by l.owner l.expires_at) now db
    else grant faults (new_lease k owner now expires_at (some l)) acquired lease_acquired now db

-- The beginning that acquiring and renewing share: the action and its lease, if there is one.
abbrev pub existing_lease : Faults → ActionKey → LeaseDb → LeaseResult (Option ActionLease)
existing_lease faults k db = run_sql faults begin tt >>= λ started.
    ensure_action_exists faults k db >>= λ there. get_action_lease faults k db

unfoldable pub acquire_in_tx :
    Faults → ActionKey → String → ℕ → ℕ → LeaseDb → LeaseResult (LeaseDb × Granted)
unfolding acquire_over
acquire_in_tx faults k owner now expires_at db =
    existing_lease faults k db >>= acquire_over faults k owner now expires_at db

-- The lease that a renewal names when there is none.
abbrev pub missing_lease : ActionKey → String → ActionLease
missing_lease k owner = record {
  key = k;
  owner = owner;
  acquired_at = 0;
  renewed_at = 0;
  expires_at = 0;
}

-- `RenewActionLease` once the row of the action's lease is read.
unfoldable pub renew_over :
    Faults
    → ActionKey
    → String
    → ℕ
    → ℤ
    → LeaseDb
    → Option ActionLease
    → LeaseResult (LeaseDb × Granted)
unfolding deny grant action_lease_expires_at
renew_over faults k owner now ttl db none =
    deny faults (missing_lease k owner) owner expired missing_or_expired now db
renew_over faults k owner now ttl db (some l) =
    if leb l.expires_at now
    then deny faults (missing_lease k owner) owner expired missing_or_expired now db
    else if not (l.owner == owner)
    then deny faults l owner held_by_other (held_by l.owner l.expires_at) now db
    else (action_lease_expires_at now ttl >>= λ expires_at.
        grant faults (record l { renewed_at = now; expires_at = expires_at }) renewed lease_renewed
          now db)

unfoldable pub renew_in_tx :
    Faults → ActionKey → String → ℕ → ℤ → LeaseDb → LeaseResult (LeaseDb × Granted)
unfolding renew_over
renew_in_tx faults k owner now ttl db =
    existing_lease faults k db >>= renew_over faults k owner now ttl db

-- An error leaves the tables as they were.
abbrev pub settled : {A : Type 0} → LeaseDb → LeaseResult (LeaseDb × A) → LeaseDb × LeaseResult A
settled db (err e) = (db, err e)
settled db (ok (after, a)) = (after, ok a)

-- The loop of `ExpireActionLeases`.
unfoldable pub expire_each :
    Faults
    → ℕ
    → List ActionLease
    → LeaseDb
    → List AuditEvent
    → LeaseResult (LeaseDb × List AuditEvent)
expire_each faults now [] db events = ok (db, events)
expire_each faults now (l ∷ ls) db events =
    run_sql faults delete_lease (record db { leases = remove_lease l.key db.leases }) >>= λ deleted.
    insert_action_lease_audit faults l l.owner expired lease_expired now deleted >>= λ x.
    expire_each faults now ls x.0
      (events ++ audit_event x.1 l l.owner expired lease_expired now ∷ [])

abbrev pub counted : LeaseDb × List AuditEvent → LeaseDb × Expired
counted (db, events) = (db, record { expired_count = length events; events = events })

unfoldable pub expire_in_tx : Faults → ActionKey → ℕ → LeaseDb → LeaseResult (LeaseDb × Expired)
unfolding expire_each
expire_in_tx faults query now db = run_sql faults begin tt >>= λ started.
    list_expired_action_leases faults query now db >>= λ leases.
    expire_each faults now leases db [] >>= λ x. committed faults (counted x)

abbrev pub acquire_named :
    Faults → LeaseParams → ℕ → LeaseDb → ActionKey × String → LeaseResult (LeaseDb × Granted)
acquire_named faults p now db (k, owner) = action_lease_expires_at now p.ttl >>= λ expires_at.
    acquire_in_tx faults k owner now expires_at db

abbrev pub renew_named :
    Faults → LeaseParams → ℕ → LeaseDb → ActionKey × String → LeaseResult (LeaseDb × Granted)
renew_named faults p now db (k, owner) = renew_in_tx faults k owner now p.ttl db

module _ (to_lower : String → String) where
  -- normalizeServerMode gives "team-enabled"
  unfoldable pub is_team_enabled : Service → Bool
  is_team_enabled s = trim_space (to_lower s.server_mode) == "team-enabled"

  abbrev pub require_distributed : Service → LeaseResult (Unit {0})
  require_distributed s = if is_team_enabled s then ok tt else err not_distributed

  -- The operations with their errors, before a transaction that fails is rolled back.
  abbrev pub acquire_request :
      Service → Faults → LeaseParams → ℕ → LeaseDb → LeaseResult (LeaseDb × Granted)
  acquire_request s faults p now db = require_distributed s >>= λ enabled.
      normalize_action_lease_params s p >>= acquire_named faults p now db

  abbrev pub renew_request :
      Service → Faults → LeaseParams → ℕ → LeaseDb → LeaseResult (LeaseDb × Granted)
  renew_request s faults p now db = require_distributed s >>= λ enabled.
      normalize_action_lease_params s p >>= renew_named faults p now db

  unfoldable pub acquire_action_lease :
      Service → Faults → LeaseParams → ℕ → LeaseDb → LeaseDb × LeaseResult Granted
  unfolding normalize_action_lease_params action_lease_expires_at acquire_in_tx
  acquire_action_lease s faults p now db = settled db (acquire_request s faults p now db)

  unfoldable pub renew_action_lease :
      Service → Faults → LeaseParams → ℕ → LeaseDb → LeaseDb × LeaseResult Granted
  unfolding normalize_action_lease_params renew_in_tx
  renew_action_lease s faults p now db = settled db (renew_request s faults p now db)

  abbrev pub expire_request :
      Service → Faults → ActionKey → ℕ → LeaseDb → LeaseResult (LeaseDb × Expired)
  expire_request s faults p now db = require_distributed s >>= λ enabled.
      normalize_scoped_action s p.workspace_id p.profile_id p.peer p.action_id false >>= λ query.
      expire_in_tx faults query now db

  -- The parameters have the fields of a key; an empty action id stands for all actions.
  unfoldable pub expire_action_leases :
      Service → Faults → ActionKey → ℕ → LeaseDb → LeaseDb × LeaseResult Expired
  unfolding normalize_scoped_action expire_in_tx
  expire_action_leases s faults p now db = settled db (expire_request s faults p now db)
