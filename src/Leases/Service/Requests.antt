-- ===== src/Leases/Service/Requests.antt =====
-- `AcquireActionLease` and `RenewActionLease` as a whole.
use goncho.Prelude.{ℕ, ◌≡◌, ◌⊎◌, inl, inr, refl, String, true, arith}
use goncho.Prelude.Result.{ok, err, ◌>>=◌, ok_chain}
use goncho.Leases.Table.{ActionKey, LeaseDb, LeaseError, Faults, LeaseResult, find_lease}
use goncho.Leases.Params.{
  Service, LeaseParams, action_lease_expires_at, normalize_action_lease_params,
}
use goncho.Leases.Service.{
  acquire_named, renew_named, acquire_request, renew_request, Granted, acquire_in_tx,
  require_distributed, acquire_action_lease, renew_action_lease, is_team_enabled,
}
use goncho.Leases.Service.Transactions.{acquire_in_tx-eq-ok, renew_in_tx-eq-ok, settled_ind}
use goncho.Leases.Service.Outcomes.{
  action_lease_expires_at-Fits, Denied, Acquired, Missed, Renewed, acquire_over-cases,
  renew_over-cases,
}

-- A call fails and changes nothing, or the parameters name a key and an owner of which P holds.
abbrev pub Outcome :
    (String → String)
    → Service
    → LeaseParams
    → LeaseDb
    → LeaseDb × LeaseResult Granted
    → (ActionKey → String → Type 0)
    → Type 0
Outcome to_lower s p db y P =
    ((e : LeaseError) × (y ≡ (db, err e)))
    ⊎ ((is_team_enabled to_lower s ≡ true)
        × (k : ActionKey) × (owner : String) × (normalize_action_lease_params s p ≡ ok (k, owner))
        × P k owner)

require_distributed-eq-ok :
    (to_lower : String → String) (s : Service) (u : Unit {0})
    → require_distributed to_lower s ≡ ok u
    → is_team_enabled to_lower s ≡ true
require_distributed-eq-ok to_lower s u h = ground arith

-- A request for a lease either fails and leaves the tables as they were, or the service is in team mode,
-- and the request commits: if the action has a live lease of another owner, it is denied, and the leases
-- stay as they are; otherwise the requested lease is written, which ends the given time to live
-- after now. In both cases one row is added to the audit.
pub acquire_action_lease-Outcome :
    (to_lower : String → String) (s : Service) (faults : Faults) (p : LeaseParams) (now : ℕ)
    (db : LeaseDb)
    → Outcome to_lower s p db (acquire_action_lease to_lower s faults p now db) (λ k owner.
      Denied db k owner now p.ttl (acquire_action_lease to_lower s faults p now db)
      ⊎ Acquired db k owner now p.ttl (acquire_action_lease to_lower s faults p now db))
unfolding acquire_action_lease
acquire_action_lease-Outcome to_lower s faults p now db =
    settled_ind
      (λ y.
        Outcome to_lower s p db y
          (λ k owner. Denied db k owner now p.ttl y ⊎ Acquired db k owner now p.ttl y))
      db (acquire_request to_lower s faults p now db) (λ e. inl (e, refl))
      (λ x h.
        let (u, enabled, h₁) =
          ok_chain (require_distributed to_lower s)
            (λ enabled. normalize_action_lease_params s p >>= acquire_named faults p now db) h in
        let (norm, named, h₂) =
          ok_chain (normalize_action_lease_params s p) (acquire_named faults p now db) h₁ in
        let (expires_at, ends, h₃) =
          ok_chain (action_lease_expires_at now p.ttl)
            (λ expires_at. acquire_in_tx faults norm.0 norm.1 now expires_at db) h₂ in
        inr (
          require_distributed-eq-ok to_lower s u enabled,
          norm.0,
          norm.1,
          named,
          acquire_over-cases db norm.0 norm.1 now p.ttl faults expires_at
              (find_lease norm.0 db.leases) x refl
              (action_lease_expires_at-Fits now p.ttl expires_at ends)
              (acquire_in_tx-eq-ok faults norm.0 norm.1 now expires_at db x h₃),
        ))

-- A renewal either fails and leaves the tables as they were, or the service is in team mode, and the
-- renewal commits: it is a miss if the action has no live lease, it is denied if the live lease is
-- another owner's, and otherwise the owner's lease is written with its new end. A miss and a
-- denial leave the leases as they are. In each case one row is added to the audit.
pub renew_action_lease-Outcome :
    (to_lower : String → String) (s : Service) (faults : Faults) (p : LeaseParams) (now : ℕ)
    (db : LeaseDb)
    → Outcome to_lower s p db (renew_action_lease to_lower s faults p now db) (λ k owner.
      Missed db k owner now p.ttl (renew_action_lease to_lower s faults p now db)
      ⊎ (Denied db k owner now p.ttl (renew_action_lease to_lower s faults p now db)
          ⊎ Renewed db k owner now p.ttl (renew_action_lease to_lower s faults p now db)))
unfolding renew_action_lease
renew_action_lease-Outcome to_lower s faults p now db =
    settled_ind
      (λ y. Outcome to_lower s p db y (λ k owner.
        Missed db k owner now p.ttl y
        ⊎ (Denied db k owner now p.ttl y ⊎ Renewed db k owner now p.ttl y)))
      db (renew_request to_lower s faults p now db) (λ e. inl (e, refl))
      (λ x h.
        let (u, enabled, h₁) =
          ok_chain (require_distributed to_lower s)
            (λ enabled. normalize_action_lease_params s p >>= renew_named faults p now db) h in
        let (norm, named, h₂) =
          ok_chain (normalize_action_lease_params s p) (renew_named faults p now db) h₁ in
        inr (
          require_distributed-eq-ok to_lower s u enabled,
          norm.0,
          norm.1,
          named,
          renew_over-cases db norm.0 norm.1 now p.ttl faults (find_lease norm.0 db.leases) x refl
              (renew_in_tx-eq-ok faults norm.0 norm.1 now p.ttl db x h₂),
        ))
