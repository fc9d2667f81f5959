-- ===== src/Leases/Examples.antt =====
-- Concrete leases.
use goncho.Prelude.{◌≡◌, ◌⊎◌, refl, arith, String, false, some, [], ◌∷◌}
use goncho.Prelude.Int.{pos}
use goncho.Prelude.Text.{trim_space, is_space}
use goncho.Leases.Table.{ActionKey, ActionLease, LeaseDb, Faults, same_key, find_lease}
use goncho.Leases.Params.{Service, LeaseParams, normalize_action_lease_params, workspace_of}
use goncho.Leases.Service.{acquire_action_lease, renew_action_lease, expire_action_leases}
use goncho.Leases.Service.Outcomes.{Denied, Acquired, Missed, Renewed}
use goncho.Leases.Service.Requests.{
  Outcome, acquire_action_lease-Outcome, renew_action_lease-Outcome,
}
use goncho.Leases.Service.Expiry.{ExpireOutcome, expire_action_leases-ExpireOutcome}
use goncho.Leases.Service.Exclusion.{
  acquire, renew, expire, run_calls, is_granted, run_calls-IsExclusive,
}
use goncho.Leases.Service.Audit.{Extends, run_calls-Extends}

abbrev same_case : String → String
same_case s = s

abbrev no_faults : Faults
no_faults s = false

abbrev team : Service
team = record { workspace_id = "main"; server_mode = "team-enabled" }

abbrev deploy : ActionKey
deploy = record { workspace_id = "main"; profile_id = ""; peer = "ana"; action_id = "deploy" }

abbrev ask : String → LeaseParams
ask owner = record {
  workspace_id = "";
  profile_id = "";
  peer = " ana ";
  action_id = "deploy";
  owner = owner;
  ttl = pos 100;
}

abbrev held : ActionLease
held = record {
  key = deploy;
  owner = "agent:a";
  acquired_at = 10;
  renewed_at = 10;
  expires_at = 110;
}

abbrev start : LeaseDb
start = record { actions = deploy ∷ []; leases = []; audit = []; next_audit_id = 1 }

abbrev with_lease : LeaseDb
with_lease = record start { leases = held ∷ [] }

run_calls-IsExclusive_example :
    (find_lease deploy
        (run_calls same_case
          (renew team no_faults (ask "agent:b") 40 ∷ expire team no_faults deploy 50 ∷ [])
          with_lease).leases
      ≡ some held)
    × (is_granted
          (acquire_action_lease same_case team no_faults (ask "agent:b") 60 (
            run_calls same_case
              (renew team no_faults (ask "agent:b") 40 ∷ expire team no_faults deploy 50 ∷ [])
              with_lease)).1
        ≡ false)
    × (is_granted
          (renew_action_lease same_case team no_faults (ask "agent:b") 60 (
            run_calls same_case
              (renew team no_faults (ask "agent:b") 40 ∷ expire team no_faults deploy 50 ∷ [])
              with_lease)).1
        ≡ false)
    × (find_lease deploy
          (run_calls same_case
            (acquire team no_faults (ask "agent:b") 60
              ∷ renew team no_faults (ask "agent:b") 60
              ∷ [])
            (run_calls same_case
              (renew team no_faults (ask "agent:b") 40 ∷ expire team no_faults deploy 50 ∷ [])
              with_lease)).leases
        ≡ some held)
unfolding normalize_action_lease_params workspace_of trim_space is_space find_lease same_key
run_calls-IsExclusive_example =
    run_calls-IsExclusive same_case with_lease held
      (renew team no_faults (ask "agent:b") 40 ∷ expire team no_faults deploy 50 ∷ []) team
      no_faults (ask "agent:b") 60 "agent:b" (refl, tt) refl
      ((omega arith, refl), (omega arith, tt)) refl refl (omega arith)

acquire_action_lease-Outcome_example :
    Outcome same_case team
      (ask "agent:b")
      with_lease
      (acquire_action_lease same_case team no_faults (ask "agent:b") 60 with_lease)
      (λ k owner.
        Denied with_lease k owner 60
          (pos 100)
          (acquire_action_lease same_case team no_faults (ask "agent:b") 60 with_lease)
        ⊎ Acquired with_lease k owner 60
            (pos 100)
            (acquire_action_lease same_case team no_faults (ask "agent:b") 60 with_lease))
acquire_action_lease-Outcome_example =
    acquire_action_lease-Outcome same_case team no_faults (ask "agent:b") 60 with_lease

renew_action_lease-Outcome_example :
    Outcome same_case team
      (ask "agent:a")
      with_lease
      (renew_action_lease same_case team no_faults (ask "agent:a") 60 with_lease)
      (λ k owner.
        Missed with_lease k owner 60
          (pos 100)
          (renew_action_lease same_case team no_faults (ask "agent:a") 60 with_lease)
        ⊎ (Denied with_lease k owner 60
              (pos 100)
              (renew_action_lease same_case team no_faults (ask "agent:a") 60 with_lease)
            ⊎ Renewed with_lease k owner 60
                (pos 100)
                (renew_action_lease same_case team no_faults (ask "agent:a") 60 with_lease)))
renew_action_lease-Outcome_example =
    renew_action_lease-Outcome same_case team no_faults (ask "agent:a") 60 with_lease

expire_action_leases-ExpireOutcome_example :
    ExpireOutcome team deploy 110 with_lease
      (expire_action_leases same_case team no_faults deploy 110 with_lease)
expire_action_leases-ExpireOutcome_example =
    expire_action_leases-ExpireOutcome same_case team no_faults deploy 110 with_lease (refl, tt)

run_calls-Extends_example :
    Extends []
      (run_calls same_case
        (acquire team no_faults (ask "agent:a") 10 ∷ acquire team no_faults (ask "agent:b") 20 ∷ [])
        start).audit
run_calls-Extends_example =
    run_calls-Extends same_case
      (acquire team no_faults (ask "agent:a") 10 ∷ acquire team no_faults (ask "agent:b") 20 ∷ [])
      start tt
