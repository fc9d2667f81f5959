-- ===== src/Leases/Service/Outcomes.antt =====
-- What one request for a lease, and one renewal, does.
use goncho.Prelude.{
  ℕ, ◌+◌, ◌-◌, ◌≤◌, ◌<◌, ◌≡◌, ◌⊎◌, inl, inr, refl, String, Bool, true, false, not, ◌&&◌, Option,
  none, some, ◌==◌, ltb, leb, arith, Bool-cases, ap,
}
use goncho.Prelude.Int.{ℤ, pos_part, not_positive}
use goncho.Prelude.Result.{ok, err, ok_chain}
use goncho.Leases.Table.{
  ActionKey, ActionLease, acquired, held_by_other, renewed, expired, missing_or_expired,
  lease_acquired, lease_renewed, held_by, LeaseDb, ttl_not_positive, ttl_overflows, Faults,
  LeaseResult, find_lease,
}
use goncho.Leases.Params.{max_int64, action_lease_expires_at}
use goncho.Leases.Service.{Granted, new_lease, acquire_over, missing_lease, renew_over}
use goncho.Leases.Service.Transactions.{denied, granted, deny-eq-ok, grant-eq-ok}

-- Where a lease of the given time to live, counted from now, ends in the range of an `int64`.
abbrev Fits : ℕ → ℤ → ℕ → Type 0
Fits now ttl expires_at =
    (not_positive ttl ≡ false)
    × (expires_at ≡ now + pos_part ttl)
    × (now ≤ max_int64 - pos_part ttl)

-- The end of a lease is the given time to live after now, if that is positive and the end is an
-- `int64`. Otherwise there is an error.
pub action_lease_expires_at_lem :
    (now : ℕ) (ttl : ℤ)
    → pos_part ttl ≤ max_int64
    → ((not_positive ttl ≡ true) × (action_lease_expires_at now ttl ≡ err ttl_not_positive))
      ⊎ ((max_int64 < now + pos_part ttl) × (action_lease_expires_at now ttl ≡ err ttl_overflows))
      ⊎ ((now < now + pos_part ttl)
          × (now + pos_part ttl ≤ max_int64)
          × (action_lease_expires_at now ttl ≡ ok (now + pos_part ttl)))
unfolding action_lease_expires_at
action_lease_expires_at_lem now ttl fits = ground arith

pub action_lease_expires_at-Fits :
    (now : ℕ) (ttl : ℤ) (expires_at : ℕ)
    → action_lease_expires_at now ttl ≡ ok expires_at
    → Fits now ttl expires_at
unfolding action_lease_expires_at
action_lease_expires_at-Fits now ttl expires_at h = ground arith

abbrev pub shown : LeaseDb × Granted → LeaseDb × LeaseResult Granted
shown (db, g) = (db, ok g)

-- A live lease of someone else.
abbrev pub is_foreign : ℕ → String → Option ActionLease → Bool
is_foreign now owner none = false
is_foreign now owner (some l) = ltb now l.expires_at && not (l.owner == owner)

abbrev is_live : ℕ → Option ActionLease → Bool
is_live now none = false
is_live now (some l) = ltb now l.expires_at

module _ (db : LeaseDb) (k : ActionKey) (owner : String) (now : ℕ) (ttl : ℤ) where
  -- The request of an owner for a key that is denied, and the one that is granted.
  abbrev pub Denied : LeaseDb × LeaseResult Granted → Type 0
  Denied y =
      (l : ActionLease) × (find_lease k db.leases ≡ some l)
      × (now < l.expires_at)
      × ((l.owner == owner) ≡ false)
      × (y ≡ shown (denied db l owner held_by_other (held_by l.owner l.expires_at) now))

  abbrev pub Acquired : LeaseDb × LeaseResult Granted → Type 0
  Acquired y =
      (expires_at : ℕ) × Fits now ttl expires_at
      × (is_foreign now owner (find_lease k db.leases) ≡ false)
      × (y
          ≡ shown (
              granted db (new_lease k owner now expires_at (find_lease k db.leases)) acquired
                lease_acquired now))

  -- A renewal that finds no live lease, and one that extends the owner's.
  abbrev pub Missed : LeaseDb × LeaseResult Granted → Type 0
  Missed y =
      (is_live now (find_lease k db.leases) ≡ false)
      × (y ≡ shown (denied db (missing_lease k owner) owner expired missing_or_expired now))

  abbrev pub Renewed : LeaseDb × LeaseResult Granted → Type 0
  Renewed y =
      (l : ActionLease) × (expires_at : ℕ) × (find_lease k db.leases ≡ some l)
      × (now < l.expires_at)
      × ((l.owner == owner) ≡ true)
      × Fits now ttl expires_at
      × (y
          ≡ shown (
              granted db (record l { renewed_at = now; expires_at = expires_at }) renewed
                lease_renewed now))

  pub acquire_over-cases :
      (faults : Faults) (expires_at : ℕ) (existing : Option ActionLease) (x : LeaseDb × Granted)
      → find_lease k db.leases ≡ existing
      → Fits now ttl expires_at
      → acquire_over faults k owner now expires_at db existing ≡ ok x
      → Denied (shown x) ⊎ Acquired (shown x)
  unfolding acquire_over
  acquire_over-cases faults expires_at none x found fits h = inr (
    expires_at,
    fits,
    rw found refl,
    rw found (ap shown (grant-eq-ok faults _ acquired lease_acquired now db x h)),
  )
  acquire_over-cases faults expires_at (some l) x found fits h =
      elim (Bool-cases (ltb now l.expires_at && not (l.owner == owner))) [
        | inl foreign ↦ inl (
          l,
          found,
          ground arith,
          ground arith,
          ap shown (deny-eq-ok faults l owner held_by_other _ now db x (rw foreign at h)),
        )
        | inr free ↦ inr (
          expires_at,
          fits,
          rw (found, free) refl,
          rw found
              (ap shown (grant-eq-ok faults _ acquired lease_acquired now db x (rw free at h))),
        )
      ]

  pub renew_over-cases :
      (faults : Faults) (existing : Option ActionLease) (x : LeaseDb × Granted)
      → find_lease k db.leases ≡ existing
      → renew_over faults k owner now ttl db existing ≡ ok x
      → Missed (shown x) ⊎ (Denied (shown x) ⊎ Renewed (shown x))
  unfolding renew_over
  renew_over-cases faults none x found h =
      inl
        (rw found refl, ap shown (deny-eq-ok faults _ owner expired missing_or_expired now db x h))
  renew_over-cases faults (some l) x found h = elim (Bool-cases (leb l.expires_at now)) [
    | inl over ↦ inl (
      rw found (ground arith),
      ap shown (deny-eq-ok faults _ owner expired missing_or_expired now db x (rw over at h)),
    )
    | inr live ↦ elim (Bool-cases (l.owner == owner)) [
      | inl own ↦
          let (expires_at, ends, written) =
            ok_chain (action_lease_expires_at now ttl) _ (rw (live, own) at h) in
          inr (
            inr (
              l,
              expires_at,
              found,
              ground arith,
              own,
              action_lease_expires_at-Fits now ttl expires_at ends,
              ap shown (grant-eq-ok faults _ renewed lease_renewed now db x written),
            ))
      | inr other ↦ inr (
          inl (
            l,
            found,
            ground arith,
            other,
            ap shown (deny-eq-ok faults l owner held_by_other _ now db x (rw (live, other) at h)),
          ))
    ]
  ]
