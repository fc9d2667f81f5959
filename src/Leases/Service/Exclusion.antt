-- ===== src/Leases/Service/Exclusion.antt =====
-- A live lease is its owner's alone, whatever the others do.
use goncho.Prelude.{
  ℕ, ◌<◌, ◌≡◌, ◌⊎◌, ◌∙◌, inl, inr, sym, String, Bool, true, false, ◌&&◌, some, List, [], ◌∷◌, ◌==◌,
  arith, Bool-cases, ap, lt→ltb,
}
use goncho.Prelude.Result.{ok, err}
use goncho.Leases.Table.{ActionKey, ActionLease, LeaseDb, same_key, Faults, LeaseResult, find_lease}
use goncho.Leases.Rows.{same_key_iff, find_lease-put_lease}
use goncho.Leases.Params.{Service, LeaseParams, normalize_action_lease_params}
use goncho.Leases.Service.{
  Granted, Expired, acquire_action_lease, renew_action_lease, expire_action_leases,
}
use goncho.Leases.Service.Outcomes.{is_foreign, Denied, Acquired, Missed, Renewed}
use goncho.Leases.Service.Requests.{
  Outcome, acquire_action_lease-Outcome, renew_action_lease-Outcome,
}
use goncho.Prelude.{All}
use goncho.Leases.Service.Expiry.{unless_expired, ExpireOutcome, expire_action_leases-ExpireOutcome}
use goncho.Leases.Service.Written.{
  IsTable, put_lease-IsTable, Written, Acquired-Written, Renewed-Written,
}

-- Whether the parameters of a request name the key and the owner of a lease.
abbrev names_lease : ActionLease → LeaseResult (ActionKey × String) → Bool
names_lease l (err e) = false
names_lease l (ok (k, owner)) = same_key k l.key && l.owner == owner

abbrev concerns : Service → LeaseParams → ActionLease → Bool
concerns s p l = names_lease l (normalize_action_lease_params s p)

-- A call of one of the three operations, and a series of them.
pub data Call : Type 0 where
  acquire renew : Service → Faults → LeaseParams → ℕ → Call
  expire : Service → Faults → ActionKey → ℕ → Call

module _ (to_lower : String → String) where
  unfoldable pub run_call : Call → LeaseDb → LeaseDb
  run_call (acquire s faults p now) db = (acquire_action_lease to_lower s faults p now db).0
  run_call (renew s faults p now) db = (renew_action_lease to_lower s faults p now db).0
  run_call (expire s faults p now) db = (expire_action_leases to_lower s faults p now db).0

  unfoldable pub run_calls : List Call → LeaseDb → LeaseDb
  unfolding run_call
  run_calls [] db = db
  run_calls (c ∷ cs) db = run_calls cs (run_call c db)

-- A call before the end of a lease that is no request for it by its owner.
abbrev IsHarmless : ActionLease → Call → Type 0
IsHarmless l (acquire s faults p now) = (now < l.expires_at) × (concerns s p l ≡ false)
IsHarmless l (renew s faults p now) = (now < l.expires_at) × (concerns s p l ≡ false)
IsHarmless l (expire s faults p now) = now < l.expires_at

module _ (l : ActionLease) (now : ℕ) (live : now < l.expires_at) where
  Written-find_lease :
      (s : Service) (p : LeaseParams) (db : LeaseDb) (y : LeaseDb × LeaseResult Granted)
      → find_lease l.key db.leases ≡ some l
      → concerns s p l ≡ false
      → Written s p now db y
      → find_lease l.key y.0.leases ≡ some l
  Written-find_lease s p db y found apart (inl same) = rw same found
  Written-find_lease s p db y found apart (inr (k, owner, w, named, key, free, written)) =
      rw (written, find_lease-put_lease l.key w db.leases, key)
        (elim (Bool-cases (same_key k l.key)) [
          | inl same ↦
              let here = (same_key_iff k l.key).0 same in
              let apart' = ap (names_lease l) (sym named) ∙ apart in
              let free' = rw (here, found) at free in ground (arith, lt→ltb now l.expires_at live)
          | inr other ↦ rw other found
        ])

  unless_expired-live : (query : ActionKey) → unless_expired query now (some l) ≡ some l
  unless_expired-live query = ground (arith, lt→ltb now l.expires_at live)

  expire-find_lease :
      (s : Service) (p : ActionKey) (db : LeaseDb) (y : LeaseDb × LeaseResult Expired)
      → find_lease l.key db.leases ≡ some l
      → ExpireOutcome s p now db y
      → find_lease l.key y.0.leases ≡ some l
  expire-find_lease s p db y found (inl (e, failed)) = rw failed found
  expire-find_lease s p db y found
        (inr (query, named, (events, shown, audit, result, table, rows))) =
      rows l.key ∙ ap (unless_expired query now) found ∙ unless_expired-live query

Written-IsTable :
    (s : Service) (p : LeaseParams) (now : ℕ) (db : LeaseDb) (y : LeaseDb × LeaseResult Granted)
    → IsTable db.leases
    → Written s p now db y
    → IsTable y.0.leases
Written-IsTable s p now db y t (inl same) = rw same t
Written-IsTable s p now db y t (inr (k, owner, w, named, key, free, written)) =
    rw written (put_lease-IsTable w db.leases t)

expire-IsTable :
    (s : Service) (p : ActionKey) (now : ℕ) (db : LeaseDb) (y : LeaseDb × LeaseResult Expired)
    → IsTable db.leases
    → ExpireOutcome s p now db y
    → IsTable y.0.leases
expire-IsTable s p now db y t (inl (e, failed)) = rw failed t
expire-IsTable s p now db y t (inr (query, named, (events, shown, audit, result, table, rows))) =
    table

module _ (to_lower : String → String) where
  acquire-Written :
      (s : Service) (faults : Faults) (p : LeaseParams) (now : ℕ) (db : LeaseDb)
      → Written s p now db (acquire_action_lease to_lower s faults p now db)
  acquire-Written s faults p now db =
      Acquired-Written to_lower s p now db _
        (acquire_action_lease-Outcome to_lower s faults p now db)

  renew-Written :
      (s : Service) (faults : Faults) (p : LeaseParams) (now : ℕ) (db : LeaseDb)
      → Written s p now db (renew_action_lease to_lower s faults p now db)
  renew-Written s faults p now db =
      Renewed-Written to_lower s p now db _ (renew_action_lease-Outcome to_lower s faults p now db)

  pub run_call-IsTable :
      (c : Call) (db : LeaseDb) → IsTable db.leases → IsTable (run_call to_lower c db).leases
  unfolding run_call
  run_call-IsTable (acquire s faults p now) db t =
      Written-IsTable s p now db (acquire_action_lease to_lower s faults p now db) t
        (acquire-Written s faults p now db)
  run_call-IsTable (renew s faults p now) db t =
      Written-IsTable s p now db (renew_action_lease to_lower s faults p now db) t
        (renew-Written s faults p now db)
  run_call-IsTable (expire s faults p now) db t =
      expire-IsTable s p now db (expire_action_leases to_lower s faults p now db) t
        (expire_action_leases-ExpireOutcome to_lower s faults p now db t)

  run_call-find_lease :
      (l : ActionLease) (c : Call) (db : LeaseDb)
      → IsHarmless l c
      → IsTable db.leases
      → find_lease l.key db.leases ≡ some l
      → find_lease l.key (run_call to_lower c db).leases ≡ some l
  unfolding run_call
  run_call-find_lease l (acquire s faults p now) db harmless t found =
      Written-find_lease l now harmless.0 s p db (acquire_action_lease to_lower s faults p now db)
        found harmless.1 (acquire-Written s faults p now db)
  run_call-find_lease l (renew s faults p now) db harmless t found =
      Written-find_lease l now harmless.0 s p db (renew_action_lease to_lower s faults p now db)
        found harmless.1 (renew-Written s faults p now db)
  run_call-find_lease l (expire s faults p now) db harmless t found =
      expire-find_lease l now harmless s p db (expire_action_leases to_lower s faults p now db)
        found (expire_action_leases-ExpireOutcome to_lower s faults p now db t)

  run_calls-IsTable :
      (cs : List Call) (db : LeaseDb)
      → IsTable db.leases
      → IsTable (run_calls to_lower cs db).leases
  unfolding run_calls
  run_calls-IsTable [] db t = t
  run_calls-IsTable (c ∷ cs) db t =
      run_calls-IsTable cs (run_call to_lower c db) (run_call-IsTable c db t)

  run_calls-find_lease :
      (l : ActionLease) (cs : List Call) (db : LeaseDb)
      → All (IsHarmless l) cs
      → IsTable db.leases
      → find_lease l.key db.leases ≡ some l
      → find_lease l.key (run_calls to_lower cs db).leases ≡ some l
  unfolding run_calls
  run_calls-find_lease l [] db harmless t found = found
  run_calls-find_lease l (c ∷ cs) db harmless t found =
      run_calls-find_lease l cs (run_call to_lower c db) harmless.1 (run_call-IsTable c db t)
        (run_call-find_lease l c db harmless.0 t found)

abbrev pub is_granted : LeaseResult Granted → Bool
is_granted (err e) = false
is_granted (ok g) = g.acquired

abbrev granted_result : LeaseDb × LeaseResult Granted → Bool
granted_result y = is_granted y.1

module _ (to_lower : String → String) (s : Service) (p : LeaseParams) (now : ℕ) (db : LeaseDb)
    (y : LeaseDb × LeaseResult Granted) (l : ActionLease) (owner : String)
    (found : find_lease l.key db.leases ≡ some l) (live : now < l.expires_at)
    (named : normalize_action_lease_params s p ≡ ok (l.key, owner))
    (other : (l.owner == owner) ≡ false) where
  abbrev finds_foreign : LeaseResult (ActionKey × String) → Bool
  finds_foreign (err e) = true
  finds_foreign (ok (k, asker)) = is_foreign now asker (find_lease k db.leases)

  -- The request finds the live lease of someone else.
  named_foreign :
      (k : ActionKey) (asker : String)
      → normalize_action_lease_params s p ≡ ok (k, asker)
      → is_foreign now asker (find_lease k db.leases) ≡ true
  named_foreign k asker named' =
      ap finds_foreign (sym named' ∙ named)
      ∙ ap (is_foreign now owner) found
      ∙ ground (arith, lt→ltb now l.expires_at live)

  acquire-Denied :
      Outcome to_lower s p db y
        (λ k owner. Denied db k owner now p.ttl y ⊎ Acquired db k owner now p.ttl y)
      → granted_result y ≡ false
  acquire-Denied (inl (e, failed)) = ap granted_result failed
  acquire-Denied (inr (team, k, asker, named', inl (m, found', live', other', done))) =
      ap granted_result done
  acquire-Denied (inr (team, k, asker, named', inr (expires_at, fits, free, done))) =
      cc (named_foreign k asker named')

  renew-Denied :
      Outcome to_lower s p db y (λ k owner.
        Missed db k owner now p.ttl y
        ⊎ (Denied db k owner now p.ttl y ⊎ Renewed db k owner now p.ttl y))
      → granted_result y ≡ false
  renew-Denied (inl (e, failed)) = ap granted_result failed
  renew-Denied (inr (team, k, asker, named', inl (over, done))) = ap granted_result done
  renew-Denied (inr (team, k, asker, named', inr (inl (m, found', live', other', done)))) =
      ap granted_result done
  renew-Denied
        (inr (team, k, asker, named', inr (inr (m, expires_at, found', live', own, fits, done)))) =
      let foreign = rw found' at (named_foreign k asker named') in
      let impossible : ⊥ = ground arith in absurd impossible

-- Take a table with one row for a key that holds a lease, and any series of calls before its end in which
-- its owner asks for no lease on the action. Then the table still holds the lease, unchanged,
-- and before its end a request or a renewal of the lease by another owner is not granted and leaves
-- it in place.
pub run_calls-IsExclusive :
    (to_lower : String → String) (start : LeaseDb) (l : ActionLease) (cs : List Call) (s : Service)
    (faults : Faults) (p : LeaseParams) (now : ℕ) (owner : String)
    → IsTable start.leases
    → find_lease l.key start.leases ≡ some l
    → All (IsHarmless l) cs
    → normalize_action_lease_params s p ≡ ok (l.key, owner)
    → (l.owner == owner) ≡ false
    → now < l.expires_at
    → (find_lease l.key (run_calls to_lower cs start).leases ≡ some l)
      × (is_granted (acquire_action_lease to_lower s faults p now (run_calls to_lower cs start)).1
          ≡ false)
      × (is_granted (renew_action_lease to_lower s faults p now (run_calls to_lower cs start)).1
          ≡ false)
      × (find_lease l.key
            (run_calls to_lower
              (acquire s faults p now ∷ renew s faults p now ∷ [])
              (run_calls to_lower cs start)).leases
          ≡ some l)
run_calls-IsExclusive to_lower start l cs s faults p now owner t found harmless named other live =
    let db = run_calls to_lower cs start in
    let kept = run_calls-find_lease to_lower l cs start harmless t found in
    let apart : concerns s p l ≡ false = rw (named, other) (ground arith) in
    (
      kept,
      acquire-Denied to_lower s p now db _ l owner kept live named other
          (acquire_action_lease-Outcome to_lower s faults p now db),
      renew-Denied to_lower s p now db _ l owner kept live named other
          (renew_action_lease-Outcome to_lower s faults p now db),
      run_calls-find_lease to_lower l (acquire s faults p now ∷ renew s faults p now ∷ []) db
          ((live, apart), ((live, apart), tt)) (run_calls-IsTable to_lower cs start t) kept,
    )
