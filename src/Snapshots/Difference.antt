-- ===== src/Snapshots/Difference.antt =====
-- What the difference of two snapshots says of each key.
use Prim.Native.String.{String}
use goncho.Prelude.{
  ◌≡◌, ◌↔◌, refl, sym, ap, ◌∙◌, arith, Bool, Option, none, some, List, [], ◌∷◌, ◌==◌, eq_iff,
  eq_refl, if◌then◌else◌, keep, Bool-cases, Option-cases, inl, inr,
}
use goncho.Snapshots.{
  SnapshotEntry, SnapshotManifest, SnapshotDiff, find_entry, by_key, is_missing, differs,
  sort_snapshot_entries, diff_snapshot_manifests,
}
use goncho.Snapshots.Entries.{
  last_entry, by_key-IsKeyed, find_entry-by_key, passing, find_entry-key, find_entry-keep,
  keep-IsKeyed, find_entry-sort,
}

-- A test that reads the other map at the entry's own key.
find_entry-part :
    (k : String) (es others : List SnapshotEntry)
    (test : SnapshotEntry → Option SnapshotEntry → Bool)
    → find_entry k
        (sort_snapshot_entries (keep (λ e. test e (find_entry e.key (by_key others))) (by_key es)))
      ≡ passing (λ e. test e (last_entry k others)) (last_entry k es)
find_entry-part k es others test =
    let p = λ (e : SnapshotEntry). test e (find_entry e.key (by_key others)) in
    let keyed = by_key-IsKeyed es in
    find_entry-sort k (keep p (by_key es)) (keep-IsKeyed p (by_key es) keyed)
    ∙ find_entry-keep k p (by_key es) keyed
    ∙ elim (Option-cases (find_entry k (by_key es))) [
      | inl e ↦ rw (e, sym (find_entry-by_key k es)) (rw e refl)
      | inr (m, e) ↦
          rw
            (
              sym (find_entry-by_key k es),
              e,
              find_entry-key k (by_key es) m e,
              find_entry-by_key k others,
            )
            refl
    ]

-- The entries of one key, as the difference of them is meant.
abbrev unless_in : Option SnapshotEntry → Option SnapshotEntry → Option SnapshotEntry
unless_in none entry = entry
unless_in (some other) entry = none

abbrev changed_to : Option SnapshotEntry → Option SnapshotEntry → Option SnapshotEntry
changed_to (some old) (some new) = if old.checksum == new.checksum then none else some new
changed_to _ _ = none

passing-missing :
    (other entry : Option SnapshotEntry)
    → passing (λ _. is_missing other) entry ≡ unless_in other entry
passing-missing none none = refl
passing-missing none (some e) = refl
passing-missing (some o) none = refl
passing-missing (some o) (some e) = refl

passing-differs :
    (old new : Option SnapshotEntry) → passing (λ e. differs e old) new ≡ changed_to old new
passing-differs none none = refl
passing-differs none (some e) = refl
passing-differs (some o) none = refl
passing-differs (some o) (some e) = ground arith

-- For every key: the difference has it as added with the entry of the newer snapshot if only that
-- has the key, as removed with the entry of the older one if only that has it, and as changed with
-- the newer entry if both have it with two checksums; of several entries with one key the last counts.
diff_snapshot_manifests-find_entry :
    (from to : SnapshotManifest) (k : String)
    → (find_entry k (diff_snapshot_manifests from to).added
        ≡ unless_in (last_entry k from.entries) (last_entry k to.entries))
      × (find_entry k (diff_snapshot_manifests from to).removed
          ≡ unless_in (last_entry k to.entries) (last_entry k from.entries))
      × (find_entry k (diff_snapshot_manifests from to).changed
          ≡ changed_to (last_entry k from.entries) (last_entry k to.entries))
unfolding diff_snapshot_manifests
diff_snapshot_manifests-find_entry from to k = (
  find_entry-part k to.entries from.entries (λ e other. is_missing other) ∙ passing-missing _ _,
  find_entry-part k from.entries to.entries (λ e other. is_missing other) ∙ passing-missing _ _,
  find_entry-part k to.entries from.entries differs
      ∙ passing-differs (last_entry k from.entries) (last_entry k to.entries),
)

abbrev pub checksum_of : Option SnapshotEntry → Option String
checksum_of none = none
checksum_of (some e) = some e.checksum

-- What stands at a key after a difference: nothing if it was removed, the entry that was added or
-- that it was changed to, else what stood there.
abbrev pub patched :
    Option SnapshotEntry
    → Option SnapshotEntry
    → Option SnapshotEntry
    → Option SnapshotEntry
    → Option SnapshotEntry
patched (some e) added changed old = none
patched none (some e) changed old = some e
patched none none (some e) old = some e
patched none none none old = old

patched-checksum :
    (old new : Option SnapshotEntry)
    → checksum_of (patched (unless_in new old) (unless_in old new) (changed_to old new) old)
      ≡ checksum_of new
patched-checksum none none = refl
patched-checksum none (some e) = refl
patched-checksum (some o) none = refl
patched-checksum (some o) (some e) = elim (Bool-cases (o.checksum == e.checksum)) [
  | inl same ↦ rw same (ap some ((eq_iff o.checksum e.checksum).0 same))
  | inr other ↦ rw other refl
]

-- The difference leads from the older snapshot to the newer one: made to the older one, it gives at
-- every key the checksum that the newer one has there, or no entry where that has none.
pub diff_snapshot_manifests-patched :
    (from to : SnapshotManifest) (k : String)
    → checksum_of (
        patched
          (find_entry k (diff_snapshot_manifests from to).removed)
          (find_entry k (diff_snapshot_manifests from to).added)
          (find_entry k (diff_snapshot_manifests from to).changed)
          (last_entry k from.entries))
      ≡ checksum_of (last_entry k to.entries)
diff_snapshot_manifests-patched from to k =
    let (added, removed, changed) = diff_snapshot_manifests-find_entry from to k in
    rw (added, removed, changed)
      (patched-checksum (last_entry k from.entries) (last_entry k to.entries))

-- Is there anything in the lists of a difference?
abbrev HasNoEntries : SnapshotDiff → Type 0
HasNoEntries d = (d.added ≡ []) × (d.removed ≡ []) × (d.changed ≡ [])

nothing_found : (es : List SnapshotEntry) → ((k : String) → find_entry k es ≡ none) → es ≡ []
unfolding find_entry
nothing_found [] h = refl
nothing_found (e ∷ es) h =
    let found : (if e.key == e.key then some e else find_entry e.key es) ≡ none = h e.key in
    let first : some e ≡ none = rw (eq_refl e.key) at found in cc

same_checksum-nothing :
    (old new : Option SnapshotEntry)
    → checksum_of old ≡ checksum_of new
    → (unless_in old new ≡ none) × (unless_in new old ≡ none) × (changed_to old new ≡ none)
same_checksum-nothing none none h = (refl, refl, refl)
same_checksum-nothing none (some e) h = cc
same_checksum-nothing (some o) none h = cc
same_checksum-nothing (some o) (some e) h =
    (refl, refl, ground (arith, eq_iff o.checksum e.checksum))

-- The difference has no entries if and only if the two snapshots have the same keys with the same
-- checksums.
diff_snapshot_manifests-HasNoEntries :
    (from to : SnapshotManifest)
    → HasNoEntries (diff_snapshot_manifests from to) ↔ (
        (k : String)
        → checksum_of (last_entry k from.entries) ≡ checksum_of (last_entry k to.entries))
unfolding find_entry
diff_snapshot_manifests-HasNoEntries from to = (
  λ h k.
      let (added, removed, changed) = h in
      let leads = diff_snapshot_manifests-patched from to k in
      rw (added, removed, changed) at leads,
  λ same. (
    nothing_found _ (λ k.
        (diff_snapshot_manifests-find_entry from to k).0
        ∙ (same_checksum-nothing (last_entry k from.entries) (last_entry k to.entries) (same k)).0),
    nothing_found _ (λ k.
        (diff_snapshot_manifests-find_entry from to k).1
        ∙ (same_checksum-nothing (last_entry k from.entries) (last_entry k to.entries) (same k)).1),
    nothing_found _ (λ k.
        (diff_snapshot_manifests-find_entry from to k).2
        ∙ (same_checksum-nothing (last_entry k from.entries) (last_entry k to.entries) (same k)).2),
  ),
)
