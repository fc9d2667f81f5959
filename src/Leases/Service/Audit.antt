-- ===== src/Leases/Service/Audit.antt =====
-- The audit of the leases only grows.
use goncho.Prelude.{ℕ, ◌≡◌, ◌⊎◌, ◌∙◌, inl, inr, sym, String, List, [], ◌∷◌, ◌++◌, ap}
use goncho.Leases.Table.{ActionKey, LeaseDb, LeaseResult, AuditEvent}
use goncho.Leases.Params.{Service, LeaseParams}
use goncho.Leases.Service.{Granted, Expired}
use goncho.Leases.Service.Outcomes.{Denied, Acquired, Missed, Renewed}
use goncho.Leases.Service.Requests.{
  Outcome, acquire_action_lease-Outcome, renew_action_lease-Outcome,
}
use goncho.Leases.Service.Expiry.{ExpireOutcome, expire_action_leases-ExpireOutcome}
use mathlib.Core.List.{append_assoc, append-nil}
use goncho.Leases.Service.Written.{IsTable}
use goncho.Leases.Service.Exclusion.{
  Call, acquire, renew, expire, run_call, run_calls, run_call-IsTable,
}

-- The second audit has the rows of the first, and after them others.
abbrev pub Extends : List AuditEvent → List AuditEvent → Type 0
Extends earlier later = (events : List AuditEvent) × (later ≡ earlier ++ events)

Extends-refl : (events : List AuditEvent) → Extends events events
Extends-refl events = ([], sym (append-nil events))

Extends-trans : (a b c : List AuditEvent) → Extends a b → Extends b c → Extends a c
Extends-trans a b c (first, p) (next, q) =
    (first ++ next, q ∙ ap (λ rows. rows ++ next) p ∙ append_assoc a first next)

abbrev audit_of : {A : Type 0} → LeaseDb × LeaseResult A → List AuditEvent
audit_of y = y.0.audit

module _ (to_lower : String → String) (s : Service) (p : LeaseParams) (now : ℕ) (db : LeaseDb)
    (y : LeaseDb × LeaseResult Granted) where
  acquire-Extends :
      Outcome to_lower s p db y
        (λ k owner. Denied db k owner now p.ttl y ⊎ Acquired db k owner now p.ttl y)
      → Extends db.audit y.0.audit
  acquire-Extends (inl (e, failed)) = rw failed (Extends-refl db.audit)
  acquire-Extends (inr (team, k, asker, named, inl (m, found, live, other, done))) =
      (_, ap (λ x. audit_of x) done)
  acquire-Extends (inr (team, k, asker, named, inr (expires_at, fits, free, done))) =
      (_, ap (λ x. audit_of x) done)

  renew-Extends :
      Outcome to_lower s p db y (λ k owner.
        Missed db k owner now p.ttl y
        ⊎ (Denied db k owner now p.ttl y ⊎ Renewed db k owner now p.ttl y))
      → Extends db.audit y.0.audit
  renew-Extends (inl (e, failed)) = rw failed (Extends-refl db.audit)
  renew-Extends (inr (team, k, asker, named, inl (over, done))) = (_, ap (λ x. audit_of x) done)
  renew-Extends (inr (team, k, asker, named, inr (inl (m, found, live, other, done)))) =
      (_, ap (λ x. audit_of x) done)
  renew-Extends
        (inr (team, k, asker, named, inr (inr (m, expires_at, found, live, own, fits, done)))) =
      (_, ap (λ x. audit_of x) done)

expire-Extends :
    (s : Service) (p : ActionKey) (now : ℕ) (db : LeaseDb) (y : LeaseDb × LeaseResult Expired)
    → ExpireOutcome s p now db y
    → Extends db.audit y.0.audit
expire-Extends s p now db y (inl (e, failed)) = rw failed (Extends-refl db.audit)
expire-Extends s p now db y (inr (query, named, (events, listed, audit, result, table, rows))) =
    (events, audit)

module _ (to_lower : String → String) where
  run_call-Extends :
      (c : Call) (db : LeaseDb)
      → IsTable db.leases
      → Extends db.audit (run_call to_lower c db).audit
  unfolding run_call
  run_call-Extends (acquire s faults p now) db t =
      acquire-Extends to_lower s p now db _
        (acquire_action_lease-Outcome to_lower s faults p now db)
  run_call-Extends (renew s faults p now) db t =
      renew-Extends to_lower s p now db _ (renew_action_lease-Outcome to_lower s faults p now db)
  run_call-Extends (expire s faults p now) db t =
      expire-Extends s p now db _ (expire_action_leases-ExpireOutcome to_lower s faults p now db t)

-- Whatever leases are acquired, renewed and expired, on a table that has one row for a key at the start,
-- no row of the audit is changed or removed: new ones are added behind those there are.
pub run_calls-Extends :
    (to_lower : String → String) (cs : List Call) (db : LeaseDb)
    → IsTable db.leases
    → Extends db.audit (run_calls to_lower cs db).audit
unfolding run_calls
run_calls-Extends to_lower [] db t = Extends-refl db.audit
run_calls-Extends to_lower (c ∷ cs) db t =
    Extends-trans db.audit (run_call to_lower c db).audit _ (run_call-Extends to_lower c db t)
      (run_calls-Extends to_lower cs (run_call to_lower c db) (run_call-IsTable to_lower c db t))
