-- ===== src/Leases/Service/Expiry.antt =====
-- `ExpireActionLeases`: the leases of a scope that have ended are removed, each with a row of the audit.
use goncho.Prelude.{
  ℕ, suc, ◌≡◌, ◌⊎◌, ◌∙◌, inl, inr, refl, sym, String, Bool, false, Option, none, some, List, [],
  ◌∷◌, ◌++◌, if◌then◌else◌, arith, Bool-cases, ap, any, keep,
}
use goncho.Prelude.Sort.{any-sort_by, length-sort_by}
use goncho.Prelude.Result.{ok, err, ◌>>=◌, ok_chain}
use goncho.Leases.Table.{
  run_sql, ActionKey, ActionLease, LeaseDb, LeaseError, same_key, Faults, LeaseResult, find_lease,
  remove_lease, is_expired, comes_before, order_by_expiry, list_expired_action_leases, begin,
  commit, insert_audit, delete_lease, list_expired, AuditEvent, insert_action_lease_audit, expired,
  lease_expired, audit_event,
}
use goncho.Leases.Rows.{same_key_iff, find_lease-remove_lease}
use goncho.Leases.Params.{Service, normalize_scoped_action}
use goncho.Leases.Service.{
  Expired, expire_action_leases, expire_request, expire_in_tx, expire_each, counted,
  require_distributed,
}
use goncho.Leases.Service.Transactions.{run_sql-bind, run_sql-eq-ok, settled_ind}
use goncho.Prelude.{length}
use mathlib.Core.List.{append_assoc, append-nil}
use goncho.Leases.Service.Written.{IsTable, any-keep, keep-IsTable}

abbrev pub passes : (ActionLease → Bool) → Option ActionLease → Bool
passes p none = false
passes p (some l) = p l

-- In a table, a row with the key passes the test when the row that is found does.
any-keep-find_lease :
    (p : ActionLease → Bool) (k : ActionKey) (ms : List ActionLease)
    → IsTable ms
    → any (λ m. same_key m.key k) (keep p ms) ≡ passes p (find_lease k ms)
unfolding find_lease
any-keep-find_lease p k [] t = refl
any-keep-find_lease p k (m ∷ ms) t = elim (Bool-cases (same_key m.key k)) [
  | inl same ↦
      let absent = rw ((same_key_iff m.key k).0 same) at t.0 in
      rw same (ground (arith, any-keep (λ n. same_key n.key k) p ms absent))
  | inr other ↦ rw other (ground (arith, any-keep-find_lease p k ms t.1))
]

-- The table after the loop, and the rows of the audit.
abbrev removed : List ActionLease → List ActionLease → List ActionLease
removed [] ls = ls
removed (m ∷ ms) ls = removed ms (remove_lease m.key ls)

abbrev expiry_events : ℕ → ℕ → List ActionLease → List AuditEvent
expiry_events id now [] = []
expiry_events id now (m ∷ ms) =
    audit_event id m m.owner expired lease_expired now ∷ expiry_events (suc id) now ms

length-expiry_events :
    (id now : ℕ) (ms : List ActionLease) → length (expiry_events id now ms) ≡ length ms
length-expiry_events id now [] = refl
length-expiry_events id now (m ∷ ms) = ap suc (length-expiry_events (suc id) now ms)

find_lease-removed :
    (k : ActionKey) (ms ls : List ActionLease)
    → find_lease k (removed ms ls)
      ≡ (if any (λ m. same_key m.key k) ms then none else find_lease k ls)
find_lease-removed k [] ls = refl
find_lease-removed k (m ∷ ms) ls =
    ground
      (arith, find_lease-removed k ms (remove_lease m.key ls), find_lease-remove_lease k m.key ls)

removed-IsTable : (ms ls : List ActionLease) → IsTable ls → IsTable (removed ms ls)
unfolding remove_lease
removed-IsTable [] ls t = t
removed-IsTable (m ∷ ms) ls t = removed-IsTable ms (remove_lease m.key ls) (keep-IsTable _ ls t)

expire_each-eq-ok :
    (faults : Faults) (now : ℕ) (ms : List ActionLease) (db : LeaseDb) (events : List AuditEvent)
    (x : LeaseDb × List AuditEvent)
    → expire_each faults now ms db events ≡ ok x
    → (x.0.leases ≡ removed ms db.leases)
      × (x.0.audit ≡ db.audit ++ expiry_events db.next_audit_id now ms)
      × (x.1 ≡ events ++ expiry_events db.next_audit_id now ms)
unfolding expire_each insert_action_lease_audit
expire_each-eq-ok faults now [] db events x h =
    let same : x ≡ (db, events) = cc in
    (
      ap (λ y. y.0.leases) same,
      ap (λ y. y.0.audit) same ∙ sym (append-nil db.audit),
      ap (λ y. y.1) same ∙ sym (append-nil events),
    )
expire_each-eq-ok faults now (m ∷ ms) db events x h =
    let h₁ = run_sql-bind faults delete_lease _ _ x h in
    let h₂ = run_sql-bind faults insert_audit _ _ x h₁ in
    let (leases, audit, shown_events) = expire_each-eq-ok faults now ms _ _ x h₂ in
    let event = audit_event db.next_audit_id m m.owner expired lease_expired now in
    let later = expiry_events (suc db.next_audit_id) now ms in
    (
      leases,
      audit ∙ append_assoc db.audit (event ∷ []) later,
      shown_events ∙ append_assoc events (event ∷ []) later,
    )

-- A row unless it has expired.
abbrev pub unless_expired : ActionKey → ℕ → Option ActionLease → Option ActionLease
unless_expired query now none = none
unless_expired query now (some l) = if is_expired query now l then none else some l

unless_expired-passes :
    (query : ActionKey) (now : ℕ) (o : Option ActionLease)
    → (if passes (is_expired query now) o then none else o) ≡ unless_expired query now o
unless_expired-passes query now none = refl
unless_expired-passes query now (some l) = refl

-- What has happened when leases of a scope were removed: those that have ended, and only those.
abbrev Removed : ActionKey → ℕ → LeaseDb → LeaseDb × LeaseResult Expired → Type 0
Removed query now db y =
    (events : List AuditEvent) × (events
      ≡ expiry_events db.next_audit_id now
          (order_by_expiry (keep (is_expired query now) db.leases)))
    × (y.0.audit ≡ db.audit ++ events)
    × (y.1
        ≡ ok (record {
          expired_count = length (keep (is_expired query now) db.leases);
          events = events;
        }))
    × IsTable y.0.leases
    × ((k : ActionKey)
        → find_lease k y.0.leases ≡ unless_expired query now (find_lease k db.leases))

abbrev pub ExpireOutcome :
    Service → ActionKey → ℕ → LeaseDb → LeaseDb × LeaseResult Expired → Type 0
ExpireOutcome s p now db y =
    ((e : LeaseError) × (y ≡ (db, err e)))
    ⊎ ((query : ActionKey) × (normalize_scoped_action s p.workspace_id p.profile_id p.peer
            p.action_id false
          ≡ ok query)
        × Removed query now db y)

find_lease-expired :
    (query : ActionKey) (now : ℕ) (ls : List ActionLease) (k : ActionKey)
    → IsTable ls
    → find_lease k (removed (order_by_expiry (keep (is_expired query now) ls)) ls)
      ≡ unless_expired query now (find_lease k ls)
unfolding order_by_expiry
find_lease-expired query now ls k t =
    let rows = keep (is_expired query now) ls in
    find_lease-removed k (order_by_expiry rows) ls
    ∙ ap (λ b. if b then none else find_lease k ls)
        (any-sort_by comes_before (λ m. same_key m.key k) rows
          ∙ any-keep-find_lease (is_expired query now) k ls t)
    ∙ unless_expired-passes query now (find_lease k ls)

expire_in_tx-Removed :
    (faults : Faults) (query : ActionKey) (now : ℕ) (db : LeaseDb) (x : LeaseDb × Expired)
    → IsTable db.leases
    → expire_in_tx faults query now db ≡ ok x
    → Removed query now db (x.0, ok x.1)
unfolding expire_in_tx list_expired_action_leases
expire_in_tx-Removed faults query now db x t h =
    let rows = keep (is_expired query now) db.leases in
    let h₁ = run_sql-bind faults begin _ _ x h in
    let h₂ = run_sql-bind faults list_expired _ _ x h₁ in
    let (z, looped, h₃) =
      ok_chain (expire_each faults now (order_by_expiry rows) db [])
        (λ z. run_sql faults commit (counted z)) h₂ in
    let (leases, audit, events) =
      expire_each-eq-ok faults now (order_by_expiry rows) db [] z looped in
    let done = run_sql-eq-ok faults commit (counted z) x h₃ in
    let written = ap (λ (w : LeaseDb × Expired). w.0.leases) done ∙ leases in
    (
      expiry_events db.next_audit_id now (order_by_expiry rows),
      refl,
      ap (λ (w : LeaseDb × Expired). w.0.audit) done ∙ audit,
      rw (done, events)
          (ap
            (λ n. ok (record {
              expired_count = n;
              events = expiry_events db.next_audit_id now (order_by_expiry rows);
            }))
            (length-expiry_events db.next_audit_id now (order_by_expiry rows)
              ∙ length-sort_by comes_before rows)),
      rw written (removed-IsTable (order_by_expiry rows) db.leases t),
      λ k. rw written (find_lease-expired query now db.leases k t),
    )

-- On a table with one row for a key, an expiry either fails and leaves the tables as they were, or it
-- removes the leases of its scope that have ended, and no other, and adds a row to the audit for
-- each, in the order in which it lists them. It reports how many they are, and these rows.
pub expire_action_leases-ExpireOutcome :
    (to_lower : String → String) (s : Service) (faults : Faults) (p : ActionKey) (now : ℕ)
    (db : LeaseDb)
    → IsTable db.leases
    → ExpireOutcome s p now db (expire_action_leases to_lower s faults p now db)
unfolding expire_action_leases
expire_action_leases-ExpireOutcome to_lower s faults p now db t =
    settled_ind (ExpireOutcome s p now db) db (expire_request to_lower s faults p now db)
      (λ e. inl (e, refl))
      (λ x h.
        let (u, enabled, h₁) =
          ok_chain (require_distributed to_lower s)
            (λ enabled.
              normalize_scoped_action s p.workspace_id p.profile_id p.peer p.action_id false
              >>= λ query. expire_in_tx faults query now db)
            h in
        let (query, named, h₂) =
          ok_chain (normalize_scoped_action s p.workspace_id p.profile_id p.peer p.action_id false)
            (λ query. expire_in_tx faults query now db) h₁ in
        inr (query, named, expire_in_tx-Removed faults query now db x t h₂))
