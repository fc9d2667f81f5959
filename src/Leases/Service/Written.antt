-- ===== src/Leases/Service/Written.antt =====
-- What a request writes into the table of leases, which keeps one row for a key.
use goncho.Prelude.{
  ℕ, ◌≡◌, ◌⊎◌, inl, inr, refl, String, Bool, false, ◌||◌, List, [], ◌∷◌, arith, Bool-cases, ap, any,
  keep,
}
use goncho.Prelude.Result.{ok}
use goncho.Leases.Table.{
  ActionKey, ActionLease, LeaseDb, same_key, LeaseResult, find_lease, put_lease,
}
use goncho.Leases.Rows.{same_key_iff, find_lease-key}
use goncho.Leases.Params.{Service, LeaseParams, normalize_action_lease_params}
use goncho.Leases.Service.{Granted}
use goncho.Leases.Service.Outcomes.{is_foreign, Denied, Acquired, Missed, Renewed}
use goncho.Leases.Service.Requests.{Outcome}

-- The primary key: no two rows have the same.
abbrev pub IsTable : List ActionLease → Type 0
IsTable [] = Unit
IsTable (l ∷ ls) = (any (λ m. same_key m.key l.key) ls ≡ false) × IsTable ls

any-put_lease :
    (k : ActionKey) (l : ActionLease) (ls : List ActionLease)
    → any (λ m. same_key m.key k) (put_lease l ls)
      ≡ (same_key l.key k || any (λ m. same_key m.key k) ls)
unfolding put_lease
any-put_lease k l [] = refl
any-put_lease k l (m ∷ ms) = ground (
  arith,
  any-put_lease k l ms,
  same_key_iff m.key l.key,
  same_key_iff m.key k,
  same_key_iff l.key k,
)

pub put_lease-IsTable :
    (l : ActionLease) (ls : List ActionLease) → IsTable ls → IsTable (put_lease l ls)
unfolding put_lease
put_lease-IsTable l [] t = (refl, tt)
put_lease-IsTable l (m ∷ ms) t = elim (Bool-cases (same_key m.key l.key)) [
  | inl same ↦ ground (arith, same_key_iff m.key l.key)
  | inr other ↦ ground (
    arith,
    put_lease-IsTable l ms t.1,
    any-put_lease m.key l ms,
    same_key_iff l.key m.key,
    same_key_iff m.key l.key,
  )
]

pub any-keep :
    (p q : ActionLease → Bool) (ls : List ActionLease)
    → any p ls ≡ false
    → any p (keep q ls) ≡ false
any-keep p q [] h = refl
any-keep p q (l ∷ ls) h = ground (arith, any-keep p q ls)

pub keep-IsTable :
    (q : ActionLease → Bool) (ls : List ActionLease) → IsTable ls → IsTable (keep q ls)
keep-IsTable q [] t = tt
keep-IsTable q (l ∷ ls) t =
    ground (arith, keep-IsTable q ls t.1, any-keep (λ m. same_key m.key l.key) q ls t.0)

-- What the call has written into the table of leases.
abbrev pub Written : Service → LeaseParams → ℕ → LeaseDb → LeaseDb × LeaseResult Granted → Type 0
Written s p now db y =
    (y.0.leases ≡ db.leases)
    ⊎ ((k : ActionKey) × (owner : String) × (l : ActionLease) × (normalize_action_lease_params s p
          ≡ ok (k, owner))
        × (l.key ≡ k)
        × (is_foreign now owner (find_lease k db.leases) ≡ false)
        × (y.0.leases ≡ put_lease l db.leases))

pub Acquired-Written :
    (to_lower : String → String) (s : Service) (p : LeaseParams) (now : ℕ) (db : LeaseDb)
    (y : LeaseDb × LeaseResult Granted)
    → Outcome to_lower s p db y
        (λ k owner. Denied db k owner now p.ttl y ⊎ Acquired db k owner now p.ttl y)
    → Written s p now db y
Acquired-Written to_lower s p now db y (inl (e, failed)) = inl (ap (λ x. x.0.leases) failed)
Acquired-Written to_lower s p now db y
      (inr (team, k, owner, named, inl (l, found, live, other, done))) =
    inl (ap (λ x. x.0.leases) done)
Acquired-Written to_lower s p now db y
      (inr (team, k, owner, named, inr (expires_at, fits, free, done))) =
    inr (k, owner, _, named, refl, free, ap (λ x. x.0.leases) done)

pub Renewed-Written :
    (to_lower : String → String) (s : Service) (p : LeaseParams) (now : ℕ) (db : LeaseDb)
    (y : LeaseDb × LeaseResult Granted)
    → Outcome to_lower s p db y (λ k owner.
      Missed db k owner now p.ttl y
      ⊎ (Denied db k owner now p.ttl y ⊎ Renewed db k owner now p.ttl y))
    → Written s p now db y
Renewed-Written to_lower s p now db y (inl (e, failed)) = inl (ap (λ x. x.0.leases) failed)
Renewed-Written to_lower s p now db y (inr (team, k, owner, named, inl (over, done))) =
    inl (ap (λ x. x.0.leases) done)
Renewed-Written to_lower s p now db y
      (inr (team, k, owner, named, inr (inl (l, found, live, other, done)))) =
    inl (ap (λ x. x.0.leases) done)
Renewed-Written to_lower s p now db y
      (inr (team, k, owner, named, inr (inr (l, expires_at, found, live, own, fits, done)))) =
    inr (
      k,
      owner,
      _,
      named,
      find_lease-key k db.leases l found,
      rw found (ground arith),
      ap (λ x. x.0.leases) done,
    )
