-- ===== src/Leases/Params.antt =====
-- service/action_leases.go with service/action_scope.go, service/internal/actionscope and
-- service/internal/scopekey: the parameters of the operations on leases, normalized, and the times
-- of a lease.
use goncho.Prelude.{
  ℕ, ◌+◌, ◌-◌, String, Bool, true, not, ◌&&◌, ◌||◌, Option, none, some, ◌==◌, ltb, if◌then◌else◌,
}
use goncho.Prelude.Int.{ℤ, pos_part, not_positive}
use goncho.Prelude.Text.{trim_space}
use goncho.Prelude.Result.{ok, err, ◌>>=◌}
use goncho.Leases.Table.{
  ActionKey, ActionLease, scope_required, owner_required, ttl_not_positive, ttl_overflows,
  LeaseResult,
}

-- What the operations read of the service.
pub record Service : Type 0 where
  pub workspace_id : String
  pub server_mode : String

pub record LeaseParams : Type 0 where
  pub workspace_id : String
  pub profile_id : String
  pub peer : String
  pub action_id : String
  pub owner : String
  pub ttl : ℤ

abbrev pub max_int64 : ℕ
max_int64 = 9223372036854775807

-- scopekey.Workspace, with no wildcard
unfoldable pub workspace_of : String → String → String
workspace_of default_workspace requested =
    let trimmed = trim_space requested in
    if trimmed == "" then trim_space default_workspace else trimmed

abbrev is_complete : ActionKey → Bool
is_complete k = not (k.workspace_id == "") && not (k.peer == "")

unfoldable pub normalize_scoped_action :
    Service → String → String → String → String → Bool → LeaseResult ActionKey
unfolding workspace_of
normalize_scoped_action s workspace_id profile_id peer action_id require_action_id =
    let k : ActionKey = record {
      workspace_id = workspace_of s.workspace_id workspace_id;
      profile_id = trim_space profile_id;
      peer = trim_space peer;
      action_id = trim_space action_id;
    } in
    if not (is_complete k) || (require_action_id && k.action_id == "")
    then err scope_required
    else ok k

abbrev with_owner : String → ℤ → ActionKey → LeaseResult (ActionKey × String)
with_owner owner ttl k =
    if owner == ""
    then err owner_required
    else if not_positive ttl
    then err ttl_not_positive
    else ok (k, owner)

unfoldable pub normalize_action_lease_params :
    Service → LeaseParams → LeaseResult (ActionKey × String)
unfolding normalize_scoped_action
normalize_action_lease_params s p =
    normalize_scoped_action s p.workspace_id p.profile_id p.peer p.action_id true
    >>= with_owner (trim_space p.owner) p.ttl

unfoldable pub action_lease_expires_at : ℕ → ℤ → LeaseResult ℕ
action_lease_expires_at now ttl =
    if not_positive ttl
    then err ttl_not_positive
    else if ltb (max_int64 - pos_part ttl) now
    then err ttl_overflows
    else ok (now + pos_part ttl)

-- Whether a lease is a live one of the given owner.
abbrev is_own_live : ℕ → String → ActionLease → Bool
is_own_live now owner l = l.owner == owner && (ltb now l.expires_at && ltb 0 l.acquired_at)

unfoldable pub action_lease_acquired_at : ℕ → Option ActionLease → String → ℕ
action_lease_acquired_at now none owner = now
action_lease_acquired_at now (some l) owner = if is_own_live now owner l then l.acquired_at else now
