-- ===== src/Snapshots/Examples.antt =====
-- Two snapshots: one entry is new, one is gone, one has another checksum.
use Prim.Native.String.{String}
use goncho.Prelude.{◌≡◌, refl, false, some, List, [], ◌∷◌}
use goncho.Snapshots.{SnapshotEntry, SnapshotManifest, find_entry, diff_snapshot_manifests}
use goncho.Snapshots.Difference.{checksum_of, patched, diff_snapshot_manifests-patched}

abbrev entry : String → String → SnapshotEntry
entry key checksum = record { kind = "slot"; key = key; checksum = checksum; metadata = [] }

abbrev of_entries : String → List SnapshotEntry → SnapshotManifest
of_entries id entries = record {
  snapshot_id = id;
  git = record { branch = "main"; worktree = ""; commit = "" };
  entries = entries;
}

abbrev before : SnapshotManifest
before = of_entries "snap:1" (entry "a" "1" ∷ entry "b" "1" ∷ entry "c" "1" ∷ [])

abbrev after : SnapshotManifest
after = of_entries "snap:2" (entry "d" "1" ∷ entry "b" "2" ∷ entry "c" "1" ∷ [])

three_differences : diff_snapshot_manifests before after ≡ record {
  from_snapshot_id = "snap:1";
  to_snapshot_id = "snap:2";
  added = entry "d" "1" ∷ [];
  removed = entry "a" "1" ∷ [];
  changed = entry "b" "2" ∷ [];
  git_changed = false;
  warnings = [];
}
unfolding diff_snapshot_manifests
three_differences = refl

diff_snapshot_manifests-patched_example :
    checksum_of (
      patched
        (find_entry "b" (diff_snapshot_manifests before after).removed)
        (find_entry "b" (diff_snapshot_manifests before after).added)
        (find_entry "b" (diff_snapshot_manifests before after).changed)
        (some (entry "b" "1")))
    ≡ some "2"
diff_snapshot_manifests-patched_example = diff_snapshot_manifests-patched before after "b"
