-- ===== src/Snapshots/Entries.antt =====
-- Lists of entries with one entry for a key: what is found in them.
use Prim.Native.String.{String}
use goncho.Prelude.{
  ◌≡◌, refl, sym, ◌∙◌, arith, Bool, Option, none, some, List, [], ◌∷◌, ◌==◌, eq_iff, if◌then◌else◌,
  keep, Bool-cases, inl, inr,
}
use goncho.Prelude.Sort.{insert_by, sort_by}
use goncho.Snapshots.{
  SnapshotEntry, find_entry, put_entry, fill_by_key, by_key, comes_before, sort_snapshot_entries,
}

-- The entry that the source's map has at a key: the last one.
abbrev last_from : String → List SnapshotEntry → Option SnapshotEntry → Option SnapshotEntry
last_from k [] found = found
last_from k (e ∷ es) found = last_from k es (if e.key == k then some e else found)

abbrev pub last_entry : String → List SnapshotEntry → Option SnapshotEntry
last_entry k es = last_from k es none

abbrev pub IsKeyed : List SnapshotEntry → Type 0
IsKeyed [] = Unit {0}
IsKeyed (e ∷ es) = (find_entry e.key es ≡ none) × IsKeyed es

find_entry-put_entry :
    (k : String) (e : SnapshotEntry) (es : List SnapshotEntry)
    → find_entry k (put_entry e es) ≡ (if e.key == k then some e else find_entry k es)
unfolding find_entry put_entry
find_entry-put_entry k e [] = refl
find_entry-put_entry k e (old ∷ es) =
    ground
      (arith, eq_iff old.key k, eq_iff e.key k, eq_iff old.key e.key, find_entry-put_entry k e es)

put_entry-IsKeyed :
    (e : SnapshotEntry) (es : List SnapshotEntry) → IsKeyed es → IsKeyed (put_entry e es)
unfolding put_entry find_entry
put_entry-IsKeyed e [] keyed = (refl, tt)
put_entry-IsKeyed e (old ∷ es) (fresh, keyed) = elim (Bool-cases (old.key == e.key)) [
  | inl same ↦
      let k : old.key ≡ e.key = (eq_iff old.key e.key).0 same in rw same (rw (sym k) fresh, keyed)
  | inr other ↦ rw other (
    find_entry-put_entry old.key e es ∙ ground (arith, eq_iff old.key e.key, eq_iff e.key old.key),
    put_entry-IsKeyed e es keyed,
  )
]

fill_by_key-IsKeyed :
    (es filled : List SnapshotEntry) → IsKeyed filled → IsKeyed (fill_by_key es filled)
unfolding fill_by_key
fill_by_key-IsKeyed [] filled keyed = keyed
fill_by_key-IsKeyed (e ∷ es) filled keyed =
    fill_by_key-IsKeyed es (put_entry e filled) (put_entry-IsKeyed e filled keyed)

pub by_key-IsKeyed : (es : List SnapshotEntry) → IsKeyed (by_key es)
by_key-IsKeyed es = fill_by_key-IsKeyed es [] tt

find_entry-fill_by_key :
    (k : String) (es filled : List SnapshotEntry)
    → find_entry k (fill_by_key es filled) ≡ last_from k es (find_entry k filled)
unfolding fill_by_key
find_entry-fill_by_key k [] filled = refl
find_entry-fill_by_key k (e ∷ es) filled =
    rw (find_entry-fill_by_key k es (put_entry e filled), find_entry-put_entry k e filled) refl

pub find_entry-by_key :
    (k : String) (es : List SnapshotEntry) → find_entry k (by_key es) ≡ last_entry k es
unfolding find_entry
find_entry-by_key k es = find_entry-fill_by_key k es []

-- What passes a test.
abbrev pub passing : (SnapshotEntry → Bool) → Option SnapshotEntry → Option SnapshotEntry
passing p none = none
passing p (some e) = if p e then some e else none

pub find_entry-key :
    (k : String) (es : List SnapshotEntry) (e : SnapshotEntry)
    → find_entry k es ≡ some e
    → e.key ≡ k
unfolding find_entry
find_entry-key k [] e h = cc
find_entry-key k (m ∷ es) e h = elim (Bool-cases (m.key == k)) [
  | inl same ↦ ground (arith, eq_iff m.key k)
  | inr other ↦ ground (arith, find_entry-key k es e)
]

pub find_entry-keep :
    (k : String) (p : SnapshotEntry → Bool) (es : List SnapshotEntry)
    → IsKeyed es
    → find_entry k (keep p es) ≡ passing p (find_entry k es)
unfolding find_entry
find_entry-keep k p [] keyed = refl
find_entry-keep k p (m ∷ es) (fresh, keyed) =
    let rest = find_entry-keep k p es keyed in
    elim (Bool-cases (m.key == k)) [
      | inl same ↦
          let missing : find_entry k es ≡ none = rw (sym ((eq_iff m.key k).0 same)) fresh in
          elim (Bool-cases (p m)) [
            | inl passes ↦ rw (passes, same, passes) refl
            | inr fails ↦ rw (fails, same) (rest ∙ rw (missing, fails) refl)
          ]
      | inr other ↦ elim (Bool-cases (p m)) [
        | inl passes ↦ rw (passes, other) rest
        | inr fails ↦ rw (fails, other) rest
      ]
    ]

pub keep-IsKeyed :
    (p : SnapshotEntry → Bool) (es : List SnapshotEntry) → IsKeyed es → IsKeyed (keep p es)
unfolding find_entry
keep-IsKeyed p [] keyed = tt
keep-IsKeyed p (m ∷ es) (fresh, keyed) = elim (Bool-cases (p m)) [
  | inl passes ↦
      rw passes (find_entry-keep m.key p es keyed ∙ rw fresh refl, keep-IsKeyed p es keyed)
  | inr fails ↦ rw fails (keep-IsKeyed p es keyed)
]

find_entry-insert_by :
    (k : String) (e : SnapshotEntry) (es : List SnapshotEntry)
    → find_entry e.key es ≡ none
    → find_entry k (insert_by comes_before e es) ≡ (if e.key == k then some e else find_entry k es)
unfolding find_entry insert_by
find_entry-insert_by k e [] fresh = refl
find_entry-insert_by k e (m ∷ ms) fresh =
    ground (arith, eq_iff m.key k, eq_iff e.key k, eq_iff m.key e.key, find_entry-insert_by k e ms)

pub find_entry-sort :
    (k : String) (es : List SnapshotEntry)
    → IsKeyed es
    → find_entry k (sort_snapshot_entries es) ≡ find_entry k es
unfolding find_entry sort_snapshot_entries sort_by
find_entry-sort k [] keyed = refl
find_entry-sort k (e ∷ es) (fresh, keyed) =
    find_entry-insert_by k e (sort_snapshot_entries es) (find_entry-sort e.key es keyed ∙ fresh)
    ∙ rw (find_entry-sort k es keyed) refl
