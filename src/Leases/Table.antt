-- ===== src/Leases/Table.antt =====
-- service/action_leases.go: the tables goncho_action_leases and goncho_action_lease_audit, and the SQL
-- on them. A statement may fail instead. Instants are nanoseconds from 1970 on.
use goncho.Prelude.{
  ◌||◌, eqb, ℕ, suc, String, Bool, true, false, not, ◌&&◌, Option, none, some, List, [], ◌∷◌, ◌++◌,
  ◌==◌, ltb, leb, if◌then◌else◌, keep, any,
}
use goncho.Prelude.Sort.{text_ltb, sort_by}
use goncho.Prelude.Result.{Result, ok, err}

-- The primary key of both tables' actions.
pub record ActionKey : Type 0 where
  pub workspace_id : String
  pub profile_id : String
  pub peer : String
  pub action_id : String

pub record ActionLease : Type 0 where
  pub key : ActionKey
  pub owner : String
  pub acquired_at : ℕ
  pub renewed_at : ℕ
  pub expires_at : ℕ

pub data Decision : Type 0 where
  acquired held_by_other renewed expired : Decision

-- The texts of the reasons; `blank` is the empty one.
pub data Reason : Type 0 where
  blank missing_or_expired lease_acquired lease_renewed lease_expired : Reason
  held_by : String → ℕ → Reason

pub record AuditEvent : Type 0 where
  pub id : ℕ
  pub key : ActionKey
  pub actor : String
  pub decision : Decision
  pub reason : Reason
  pub expires_at : ℕ
  pub created_at : ℕ

pub record LeaseDb : Type 0 where
  pub actions : List ActionKey
  pub leases : List ActionLease
  pub audit : List AuditEvent
  pub next_audit_id : ℕ

pub data Statement : Type 0 where
  begin check_action get_lease upsert_lease insert_audit commit list_expired delete_lease :
      Statement

pub data LeaseError : Type 0 where
  not_distributed scope_required owner_required ttl_not_positive ttl_overflows no_such_action :
      LeaseError
  sql_failed : Statement → LeaseError

-- Which statements fail.
abbrev pub Faults : Type 0
Faults = Statement → Bool

abbrev pub LeaseResult : Type 0 → Type 0
LeaseResult A = Result LeaseError A

abbrev pub run_sql : {A : Type 0} → Faults → Statement → A → LeaseResult A
run_sql faults s a = if faults s then err (sql_failed s) else ok a

unfoldable pub same_key : ActionKey → ActionKey → Bool
same_key a b =
    a.workspace_id == b.workspace_id
    && (a.profile_id == b.profile_id && (a.peer == b.peer && a.action_id == b.action_id))

-- The row with a key.
unfoldable pub find_lease : ActionKey → List ActionLease → Option ActionLease
find_lease k [] = none
find_lease k (l ∷ ls) = let rest = find_lease k ls in if same_key l.key k then some l else rest

-- INSERT ... ON CONFLICT DO UPDATE
unfoldable pub put_lease : ActionLease → List ActionLease → List ActionLease
put_lease l [] = l ∷ []
put_lease l (m ∷ ms) =
    let rest = put_lease l ms in if same_key m.key l.key then l ∷ ms else m ∷ rest

unfoldable pub remove_lease : ActionKey → List ActionLease → List ActionLease
remove_lease k ls = keep (λ l. not (same_key l.key k)) ls

-- The missing row is `sql.ErrNoRows`.
abbrev found_action : Bool → LeaseResult (Unit {0})
found_action true = ok tt
found_action false = err no_such_action

abbrev checked_action : LeaseResult Bool → LeaseResult (Unit {0})
checked_action (err e) = err e
checked_action (ok found) = found_action found

unfoldable pub ensure_action_exists : Faults → ActionKey → LeaseDb → LeaseResult (Unit {0})
unfolding same_key
ensure_action_exists faults k db =
    checked_action (run_sql faults check_action (any (λ a. same_key a k) db.actions))

unfoldable pub get_action_lease : Faults → ActionKey → LeaseDb → LeaseResult (Option ActionLease)
get_action_lease faults k db = run_sql faults get_lease (find_lease k db.leases)

unfoldable pub upsert_action_lease : Faults → ActionLease → LeaseDb → LeaseResult LeaseDb
upsert_action_lease faults l db =
    run_sql faults upsert_lease (record db { leases = put_lease l db.leases })

abbrev pub audit_event : ℕ → ActionLease → String → Decision → Reason → ℕ → AuditEvent
audit_event id l actor decision reason now = record {
  id = id;
  key = l.key;
  actor = actor;
  decision = decision;
  reason = reason;
  expires_at = l.expires_at;
  created_at = now;
}

-- The new state, and the id that the database gives.
unfoldable pub insert_action_lease_audit :
    Faults → ActionLease → String → Decision → Reason → ℕ → LeaseDb → LeaseResult (LeaseDb × ℕ)
insert_action_lease_audit faults l actor decision reason now db = run_sql faults insert_audit (
  record db {
    audit = db.audit ++ audit_event db.next_audit_id l actor decision reason now ∷ [];
    next_audit_id = suc db.next_audit_id;
  },
  db.next_audit_id,
)

-- `actionwhere.ScopedAction`: an empty action id stands for all actions.
unfoldable pub in_scope : ActionKey → ActionKey → Bool
in_scope query k =
    k.workspace_id == query.workspace_id
    && (k.profile_id == query.profile_id
        && (k.peer == query.peer
            && (if query.action_id == "" then true else k.action_id == query.action_id)))

abbrev pub is_expired : ActionKey → ℕ → ActionLease → Bool
is_expired query now l = in_scope query l.key && leb l.expires_at now

-- ORDER BY expires_at ASC, action_id ASC
unfoldable pub comes_before : ActionLease → ActionLease → Bool
comes_before a b =
    ltb a.expires_at b.expires_at
    || (eqb a.expires_at b.expires_at && text_ltb a.key.action_id b.key.action_id)

unfoldable pub order_by_expiry : List ActionLease → List ActionLease
unfolding sort_by comes_before
order_by_expiry ls = sort_by comes_before ls

unfoldable pub list_expired_action_leases :
    Faults → ActionKey → ℕ → LeaseDb → LeaseResult (List ActionLease)
unfolding in_scope order_by_expiry
list_expired_action_leases faults query now db =
    run_sql faults list_expired (order_by_expiry (keep (is_expired query now) db.leases))
