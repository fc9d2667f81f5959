-- ===== src/Proposals/Rows.antt =====
-- The rows of the table of proposals.
use Prim.Native.String.{String}
use goncho.Prelude.{
  ◌≡◌, refl, sym, ap, ◌∙◌, arith, Bool, true, false, Option, none, some, List, [], ◌∷◌, ◌++◌, ◌==◌,
  eq_iff, if◌then◌else◌, any, map, Bool-cases, inl, inr,
}
use goncho.Proposals.{Proposal, find_proposal, is_pending, update_if, update_pending}

-- No two rows have one proposal_id.
abbrev pub IsKeyed : List Proposal → Type 0
IsKeyed [] = Unit {0}
IsKeyed (row ∷ rows) = (find_proposal row.proposal_id rows ≡ none) × IsKeyed rows

-- A change that leaves the key alone.
abbrev pub KeepsKey : (Proposal → Proposal) → Type 0
KeepsKey change = (row : Proposal) → (change row).proposal_id ≡ row.proposal_id

abbrev updated : (Proposal → Proposal) → Option Proposal → Option Proposal
updated change none = none
updated change (some row) = some (change row)

update_if-KeepsKey :
    (test : Proposal → Bool) (change : Proposal → Proposal)
    → KeepsKey change
    → KeepsKey (update_if test change)
update_if-KeepsKey test change k row = let same = k row in ground arith

find_proposal-map :
    (change : Proposal → Proposal)
    → KeepsKey change
    → (id : String) (rows : List Proposal)
    → find_proposal id (map change rows) ≡ updated change (find_proposal id rows)
unfolding find_proposal
find_proposal-map change k id [] = refl
find_proposal-map change k id (row ∷ rows) =
    let rest = find_proposal-map change k id rows in
    elim (Bool-cases (row.proposal_id == id)) [
      | inl same ↦
          let e : ((change row).proposal_id == id) ≡ true = ap (λ x. x == id) (k row) ∙ same in
          rw (e, same) refl
      | inr other ↦
          let e : ((change row).proposal_id == id) ≡ false = ap (λ x. x == id) (k row) ∙ other in
          rw (e, other) rest
    ]

pub find_proposal-update_pending :
    (id : String) (change : Proposal → Proposal)
    → KeepsKey change
    → (at : String) (rows : List Proposal)
    → find_proposal at (update_pending id change rows)
      ≡ updated (update_if (is_pending id) change) (find_proposal at rows)
unfolding update_pending
find_proposal-update_pending id change k =
    find_proposal-map (update_if (is_pending id) change)
      (update_if-KeepsKey (is_pending id) change k)

map-IsKeyed :
    (change : Proposal → Proposal)
    → KeepsKey change
    → (rows : List Proposal) → IsKeyed rows
    → IsKeyed (map change rows)
map-IsKeyed change k [] keyed = tt
map-IsKeyed change k (row ∷ rows) (fresh, keyed) = (
  rw (find_proposal-map change k (change row).proposal_id rows, k row, fresh) refl,
  map-IsKeyed change k rows keyed,
)

pub update_pending-IsKeyed :
    (id : String) (change : Proposal → Proposal)
    → KeepsKey change
    → (rows : List Proposal) → IsKeyed rows
    → IsKeyed (update_pending id change rows)
unfolding update_pending
update_pending-IsKeyed id change k =
    map-IsKeyed (update_if (is_pending id) change) (update_if-KeepsKey (is_pending id) change k)

abbrev or_new : String → Proposal → Option Proposal → Option Proposal
or_new id new (some row) = some row
or_new id new none = if new.proposal_id == id then some new else none

find_proposal-append :
    (id : String) (rows : List Proposal) (new : Proposal)
    → find_proposal id (rows ++ new ∷ []) ≡ or_new id new (find_proposal id rows)
unfolding find_proposal
find_proposal-append id [] new = refl
find_proposal-append id (old ∷ rows) new = elim (Bool-cases (old.proposal_id == id)) [
  | inl same ↦ rw same refl
  | inr other ↦ rw other (find_proposal-append id rows new)
]

pub find_proposal-snoc :
    (id : String) (rows : List Proposal) (new : Proposal) {row : Proposal}
    → find_proposal id rows ≡ some row
    → find_proposal id (rows ++ new ∷ []) ≡ some row
find_proposal-snoc id rows new h = find_proposal-append id rows new ∙ rw h refl

-- A key that no row has.
pub snoc-IsKeyed :
    (rows : List Proposal) (new : Proposal)
    → any (λ old. old.proposal_id == new.proposal_id) rows ≡ false
    → IsKeyed rows
    → IsKeyed (rows ++ new ∷ [])
unfolding find_proposal
snoc-IsKeyed [] new free keyed = (refl, tt)
snoc-IsKeyed (row ∷ rows) new free (fresh, keyed) = (
  find_proposal-append row.proposal_id rows new
      ∙ rw fresh ground
          (arith, eq_iff row.proposal_id new.proposal_id, eq_iff new.proposal_id row.proposal_id),
  snoc-IsKeyed rows new (ground arith) keyed,
)

missing-any :
    (id : String) (rows : List Proposal)
    → find_proposal id rows ≡ none
    → any (is_pending id) rows ≡ false
unfolding find_proposal
missing-any id [] h = refl
missing-any id (row ∷ rows) h = ground (arith, missing-any id rows)

-- The row that an update of pending rows finds.
pub any-is_pending :
    (id : String) (rows : List Proposal)
    → IsKeyed rows
    → any (is_pending id) rows ≡ true
    → (old : Proposal) × (find_proposal id rows ≡ some old) × ((old.status == "pending") ≡ true)
unfolding find_proposal
any-is_pending id [] keyed h = cc
any-is_pending id (row ∷ rows) (fresh, keyed) h = elim (Bool-cases (row.proposal_id == id)) [
  | inl same ↦
      let none_left : any (is_pending id) rows ≡ false =
        missing-any id rows (rw (sym ((eq_iff row.proposal_id id).0 same)) fresh) in
      (row, rw same refl, ground arith)
  | inr other ↦
      let (old, there, waits) = any-is_pending id rows keyed (ground arith) in
      (old, rw other there, waits)
]

pub find_proposal-id :
    (id : String) (rows : List Proposal) (row : Proposal)
    → find_proposal id rows ≡ some row
    → row.proposal_id ≡ id
unfolding find_proposal
find_proposal-id id [] row h = cc
find_proposal-id id (old ∷ rows) row h = elim (Bool-cases (old.proposal_id == id)) [
  | inl same ↦ ground (arith, eq_iff old.proposal_id id)
  | inr other ↦ ground (arith, find_proposal-id id rows row)
]
