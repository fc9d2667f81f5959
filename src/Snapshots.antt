-- ===== src/Snapshots.antt =====
-- service/snapshots.go: the comparison of two snapshots of what is remembered. A map of entries is
-- a list with one entry for a key, whose order stands for the order in which Go ranges over it.
use Prim.Native.Nat.{Ordering}
use Prim.Native.String.{String, compare}
use goncho.Prelude.{
  Bool, true, false, not, ◌&&◌, ◌||◌, Option, none, some, List, [], ◌∷◌, ◌==◌, if◌then◌else◌, keep,
}
use goncho.Prelude.Sort.{text_ltb, sort_by}
pub mod Entries
pub mod Difference
mod Examples

pub record SnapshotGitMetadata : Type 0 where
  pub branch : String
  pub worktree : String
  pub commit : String

pub record SnapshotEntry : Type 0 where
  pub kind : String
  pub key : String
  pub checksum : String
  pub metadata : List (String × String)

pub record SnapshotManifest : Type 0 where
  pub snapshot_id : String
  pub git : SnapshotGitMetadata
  pub entries : List SnapshotEntry

-- The one warning there is has the code `stale_branch` and the two branches.
pub record SnapshotWarning : Type 0 where
  pub code : String
  pub old_branch : String
  pub new_branch : String

pub record SnapshotDiff : Type 0 where
  pub from_snapshot_id : String
  pub to_snapshot_id : String
  pub added : List SnapshotEntry
  pub removed : List SnapshotEntry
  pub changed : List SnapshotEntry
  pub git_changed : Bool
  pub warnings : List SnapshotWarning

unfoldable pub find_entry : String → List SnapshotEntry → Option SnapshotEntry
find_entry k [] = none
find_entry k (e ∷ es) = let rest = find_entry k es in if e.key == k then some e else rest

-- `fromByKey[entry.Key] = entry`
unfoldable pub put_entry : SnapshotEntry → List SnapshotEntry → List SnapshotEntry
put_entry e [] = e ∷ []
put_entry e (old ∷ es) =
    let rest = put_entry e es in if old.key == e.key then e ∷ es else old ∷ rest

-- The loop that fills a map, from what the map has.
unfoldable pub fill_by_key : List SnapshotEntry → List SnapshotEntry → List SnapshotEntry
fill_by_key [] filled = filled
fill_by_key (e ∷ es) filled = fill_by_key es (put_entry e filled)

abbrev pub by_key : List SnapshotEntry → List SnapshotEntry
by_key es = fill_by_key es []

-- The tests of the two loops, on what the other map has at the key.
abbrev pub is_missing : Option SnapshotEntry → Bool
is_missing none = true
is_missing (some e) = false

abbrev pub differs : SnapshotEntry → Option SnapshotEntry → Bool
differs entry none = false
differs entry (some old) = not (old.checksum == entry.checksum)

-- The order of `sortSnapshotEntries`.
unfoldable pub comes_before : SnapshotEntry → SnapshotEntry → Bool
comes_before a b = if not (a.kind == b.kind) then text_ltb a.kind b.kind else text_ltb a.key b.key

unfoldable pub sort_snapshot_entries : List SnapshotEntry → List SnapshotEntry
unfolding sort_by comes_before
sort_snapshot_entries es = sort_by comes_before es

abbrev git_differs : SnapshotGitMetadata → SnapshotGitMetadata → Bool
git_differs a b =
    not (a.branch == b.branch) || (not (a.worktree == b.worktree) || not (a.commit == b.commit))

abbrev branch_warnings : String → String → List SnapshotWarning
branch_warnings old new =
    if not (old == "") && (not (new == "") && not (old == new))
    then record { code = "stale_branch"; old_branch = old; new_branch = new } ∷ []
    else []

unfoldable pub diff_snapshot_manifests : SnapshotManifest → SnapshotManifest → SnapshotDiff
unfolding find_entry fill_by_key put_entry sort_snapshot_entries
diff_snapshot_manifests from to =
    let from_by_key = by_key from.entries in
    let to_by_key = by_key to.entries in
    record {
      from_snapshot_id = from.snapshot_id;
      to_snapshot_id = to.snapshot_id;
      added =
          sort_snapshot_entries (keep (λ e. is_missing (find_entry e.key from_by_key)) to_by_key);
      removed =
          sort_snapshot_entries (keep (λ e. is_missing (find_entry e.key to_by_key)) from_by_key);
      changed =
          sort_snapshot_entries (keep (λ e. differs e (find_entry e.key from_by_key)) to_by_key);
      git_changed = git_differs from.git to.git;
      warnings = branch_warnings from.git.branch to.git.branch;
    }
