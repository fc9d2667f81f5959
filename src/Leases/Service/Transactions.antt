-- ===== src/Leases/Service/Transactions.antt =====
-- What a transaction that commits has done.
use goncho.Prelude.{
  ℕ, suc, ◌≡◌, refl, sym, String, Bool, true, false, Option, [], ◌∷◌, ◌++◌, if◌then◌else◌, arith,
}
use goncho.Prelude.Int.{ℤ}
use goncho.Prelude.Result.{ok, err, ◌>>=◌, ok_chain}
use goncho.Leases.Table.{
  ActionKey, ActionLease, Decision, Reason, blank, LeaseDb, Statement, begin, get_lease,
  upsert_lease, insert_audit, commit, LeaseError, sql_failed, Faults, LeaseResult, run_sql,
  find_lease, put_lease, ensure_action_exists, get_action_lease, upsert_action_lease, audit_event,
  insert_action_lease_audit,
}
use goncho.Leases.Service.{
  Granted, deny, grant, acquire_over, existing_lease, acquire_in_tx, renew_over, renew_in_tx,
  settled,
}

-- The outcome of a denial and of a grant that commit.
abbrev pub denied : LeaseDb → ActionLease → String → Decision → Reason → ℕ → LeaseDb × Granted
denied db l actor decision reason now = (
  record db {
    audit = db.audit ++ audit_event db.next_audit_id l actor decision reason now ∷ [];
    next_audit_id = suc db.next_audit_id;
  },
  record {
    acquired = false;
    decision = decision;
    lease = l;
    reason = reason;
    audit_id = db.next_audit_id;
  },
)

abbrev pub granted : LeaseDb → ActionLease → Decision → Reason → ℕ → LeaseDb × Granted
granted db l decision reason now = (
  record db {
    leases = put_lease l db.leases;
    audit = db.audit ++ audit_event db.next_audit_id l l.owner decision reason now ∷ [];
    next_audit_id = suc db.next_audit_id;
  },
  record {
    acquired = true;
    decision = decision;
    lease = l;
    reason = blank;
    audit_id = db.next_audit_id;
  },
)

if_ok :
    {A B : Type 0} (b : Bool) (e : LeaseError) (a : A) (f : A → LeaseResult B) (x : B)
    → ((if b then err e else ok a) >>= f) ≡ ok x
    → f a ≡ ok x
if_ok true e a f x h = cc
if_ok false e a f x h = h

pub run_sql-bind :
    {A B : Type 0} (faults : Faults) (s : Statement) (a : A) (f : A → LeaseResult B) (x : B)
    → (run_sql faults s a >>= f) ≡ ok x
    → f a ≡ ok x
run_sql-bind faults s a f x = if_ok (faults s) (sql_failed s) a f x

pub run_sql-eq-ok :
    {A : Type 0} (faults : Faults) (s : Statement) (a x : A) → run_sql faults s a ≡ ok x → x ≡ a
run_sql-eq-ok faults s a x h = ground arith

pub deny-eq-ok :
    (faults : Faults) (l : ActionLease) (actor : String) (decision : Decision) (reason : Reason)
    (now : ℕ) (db : LeaseDb) (x : LeaseDb × Granted)
    → deny faults l actor decision reason now db ≡ ok x
    → x ≡ denied db l actor decision reason now
unfolding deny insert_action_lease_audit
deny-eq-ok faults l actor decision reason now db x h =
    run_sql-eq-ok faults commit _ x (run_sql-bind faults insert_audit _ _ x h)

pub grant-eq-ok :
    (faults : Faults) (l : ActionLease) (decision : Decision) (reason : Reason) (now : ℕ)
    (db : LeaseDb) (x : LeaseDb × Granted)
    → grant faults l decision reason now db ≡ ok x
    → x ≡ granted db l decision reason now
unfolding grant upsert_action_lease insert_action_lease_audit
grant-eq-ok faults l decision reason now db x h =
    run_sql-eq-ok faults commit _ x
      (run_sql-bind faults insert_audit _ _ x (run_sql-bind faults upsert_lease _ _ x h))

-- A call that goes on from the action and its lease has found the action.
existing_lease-bind :
    {B : Type 0} (faults : Faults) (k : ActionKey) (db : LeaseDb)
    (f : Option ActionLease → LeaseResult B) (x : B)
    → (existing_lease faults k db >>= f) ≡ ok x
    → f (find_lease k db.leases) ≡ ok x
unfolding ensure_action_exists get_action_lease
existing_lease-bind faults k db f x h =
    let (lease, found, next) = ok_chain (existing_lease faults k db) f h in
    let (there, action_found, read) = ok_chain (ensure_action_exists faults k db) _ (
      run_sql-bind faults begin tt
        (λ started. ensure_action_exists faults k db >>= λ there. get_action_lease faults k db)
        lease found) in
    let same = run_sql-eq-ok faults get_lease (find_lease k db.leases) lease read in
    rw (sym same) next

pub acquire_in_tx-eq-ok :
    (faults : Faults) (k : ActionKey) (owner : String) (now expires_at : ℕ) (db : LeaseDb)
    (x : LeaseDb × Granted)
    → acquire_in_tx faults k owner now expires_at db ≡ ok x
    → acquire_over faults k owner now expires_at db (find_lease k db.leases) ≡ ok x
unfolding acquire_in_tx
acquire_in_tx-eq-ok faults k owner now expires_at db x =
    existing_lease-bind faults k db (acquire_over faults k owner now expires_at db) x

pub renew_in_tx-eq-ok :
    (faults : Faults) (k : ActionKey) (owner : String) (now : ℕ) (ttl : ℤ) (db : LeaseDb)
    (x : LeaseDb × Granted)
    → renew_in_tx faults k owner now ttl db ≡ ok x
    → renew_over faults k owner now ttl db (find_lease k db.leases) ≡ ok x
unfolding renew_in_tx
renew_in_tx-eq-ok faults k owner now ttl db x =
    existing_lease-bind faults k db (renew_over faults k owner now ttl db) x

pub settled_ind :
    {A : Type 0} (Q : LeaseDb × LeaseResult A → Type 0) (db : LeaseDb)
    (r : LeaseResult (LeaseDb × A))
    → ((e : LeaseError) → Q (db, err e))
    → ((x : LeaseDb × A) → r ≡ ok x → Q (x.0, ok x.1))
    → Q (settled db r)
settled_ind Q db (err e) failed done = failed e
settled_ind Q db (ok (after, a)) failed done = done (after, a) refl
