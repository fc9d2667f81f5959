-- ===== src/Actions/Store/Dependencies.antt =====
-- What an upsert leaves of the dependencies.
use Prim.Native.String.{String}
use mathlib.Core.List.{append-nil, append_assoc, map-append}
use goncho.Prelude.{
  ℕ, suc, ◌≡◌, refl, sym, subst, ap, ◌∙◌, arith, Bool, true, false, ◌||◌, List, [], ◌∷◌, ◌++◌, ◌==◌,
  if◌then◌else◌, map, keep, keep-append, contains, Bool-cases, inl, inr,
}
use goncho.Prelude.Text.{trim_space}
use goncho.Prelude.Result.{Result, ok, err}
use goncho.Leases.Table.{ActionKey, same_key}
use goncho.Leases.Params.{Service}
use goncho.Leases.Rows.{same_key_iff}
use goncho.Actions.{ActionNode}
use goncho.Actions.Store.{with_node, upsert_at, upsert_normalized, upsert_action, key_of}
use goncho.Actions.Store.Tables.{
  ActionParams, Dependency, GraphDb, get_action, upsert_node, clear_dependencies, insert_dependency,
  GraphError, title_required, Faults, sql_failed, dependencies_of, insert_dependencies, without_key,
  replace_action_dependencies,
}
use goncho.Actions.Store.Texts.{unique_trimmed}
use goncho.Actions.Store.Texts.Members.{AreTrimmed, unique_trimmed-AreTrimmed}

dependencies_of-append :
    (k : ActionKey) (xs ys : List Dependency)
    → dependencies_of k (xs ++ ys) ≡ dependencies_of k xs ++ dependencies_of k ys
dependencies_of-append k xs ys =
    ap (map (λ (d : Dependency). d.depends_on)) (keep-append (λ d. same_key d.key k) xs ys)
    ∙ map-append _ (keep (λ d. same_key d.key k) xs) (keep (λ d. same_key d.key k) ys)

dependencies_of-without_key :
    (k at : ActionKey) (ds : List Dependency)
    → dependencies_of at (without_key k ds) ≡ (if same_key k at then [] else dependencies_of at ds)
dependencies_of-without_key k at [] = ground arith
dependencies_of-without_key k at (d ∷ ds) = elim (Bool-cases (same_key d.key k)) [
  | inl same ↦
      let e : d.key ≡ k = (same_key_iff d.key k).0 same in
      rw same (
        dependencies_of-without_key k at ds ∙ elim (Bool-cases (same_key k at)) [
          | inl here ↦ rw here refl
          | inr other ↦
              let off : same_key d.key at ≡ false = ap (λ x. same_key x at) e ∙ other in
              rw (other, off) refl
        ])
  | inr differs ↦ rw differs (elim (Bool-cases (same_key d.key at)) [
    | inl here ↦
        let off : same_key k at ≡ false =
          ground (arith, same_key_iff k at, same_key_iff d.key k, same_key_iff d.key at) in
        rw (here, off)
          (ap (λ rest. d.depends_on ∷ rest) (dependencies_of-without_key k at ds ∙ rw off refl))
    | inr other ↦ rw other (dependencies_of-without_key k at ds)
  ])
]

-- The dependencies of a key after one more, and those that are to follow.
dependencies_of-more :
    (k at : ActionKey) (dep : String) (deps : List String) (ds : List Dependency) (mine : Bool)
    → same_key k at ≡ mine
    → dependencies_of at (ds ++ record { key = k; depends_on = dep } ∷ [])
        ++ (if mine then deps else [])
      ≡ dependencies_of at ds ++ (if mine then dep ∷ deps else [])
dependencies_of-more k at dep deps ds true here =
    ap (λ x. x ++ deps)
      (dependencies_of-append at ds (record { key = k; depends_on = dep } ∷ []) ∙ rw here refl)
    ∙ append_assoc (dependencies_of at ds) (dep ∷ []) deps
dependencies_of-more k at dep deps ds false other =
    ap (λ x. x ++ [])
      (dependencies_of-append at ds (record { key = k; depends_on = dep } ∷ [])
        ∙ rw other (append-nil (dependencies_of at ds)))

insert_dependencies-ok :
    (faults : Faults) (k at : ActionKey) (i : ℕ) (deps : List String) (ds : List Dependency)
    {u : Unit {0}}
    → (insert_dependencies faults k i deps ds).1 ≡ ok u
    → dependencies_of at (insert_dependencies faults k i deps ds).0
      ≡ dependencies_of at ds ++ (if same_key k at then deps else [])
unfolding insert_dependencies
insert_dependencies-ok faults k at i [] ds h = elim (Bool-cases (same_key k at)) [
  | inl here ↦ rw here (sym (append-nil (dependencies_of at ds)))
  | inr other ↦ rw other (sym (append-nil (dependencies_of at ds)))
]
insert_dependencies-ok faults k at i (dep ∷ deps) ds {u} h =
    let refused = faults (insert_dependency i) || contains (dependencies_of k ds) dep in
    elim (Bool-cases refused) [
      | inl down ↦ let failed : err (sql_failed (insert_dependency i)) ≡ ok u = rw down at h in cc
      | inr ready ↦
          let added : List Dependency = ds ++ record { key = k; depends_on = dep } ∷ [] in
          rw ready (
            insert_dependencies-ok faults k at (suc i) deps added (rw ready at h)
            ∙ dependencies_of-more k at dep deps ds (same_key k at) refl)
    ]

replace_action_dependencies-ok :
    (faults : Faults) (k at : ActionKey) (deps : List String) (ds : List Dependency) {u : Unit {0}}
    → (replace_action_dependencies faults k deps ds).1 ≡ ok u
    → dependencies_of at (replace_action_dependencies faults k deps ds).0
      ≡ (if same_key k at then deps else dependencies_of at ds)
unfolding replace_action_dependencies
replace_action_dependencies-ok faults k at deps ds {u} h =
    elim (Bool-cases (faults clear_dependencies)) [
      | inl down ↦ let failed : err (sql_failed clear_dependencies) ≡ ok u = rw down at h in cc
      | inr up ↦ rw up (
          insert_dependencies-ok faults k at 0 deps (without_key k ds) (rw up at h)
          ∙ ap (λ x. x ++ (if same_key k at then deps else []))
              (dependencies_of-without_key k at ds)
          ∙ elim (Bool-cases (same_key k at)) [
            | inl here ↦ rw here refl
            | inr other ↦ rw other (append-nil (dependencies_of at ds))
          ])
    ]

with_node-ok :
    (faults : Faults) (k : ActionKey) (db : GraphDb) (r : Result GraphError (Unit {0}))
    {node : ActionNode}
    → (with_node faults k db r).1 ≡ ok node
    → ((with_node faults k db r).0 ≡ db) × (r ≡ ok tt)
with_node-ok faults k db (err e) h = cc
with_node-ok faults k db (ok tt) h = (refl, refl)

upsert_at-ok :
    (faults : Faults) (k : ActionKey) (title : String) (deps : List String) (now : ℕ) (db : GraphDb)
    {node : ActionNode}
    → (upsert_at faults k title deps now db).1 ≡ ok node
    → (at : ActionKey)
    → dependencies_of at (upsert_at faults k title deps now db).0.dependencies
      ≡ (if same_key k at then deps else dependencies_of at db.dependencies)
unfolding upsert_at
upsert_at-ok faults k title deps now db {node} h at = elim (Bool-cases (faults get_action)) [
  | inl down ↦ let failed : err (sql_failed get_action) ≡ ok node = rw down at h in cc
  | inr up ↦ elim (Bool-cases (faults upsert_node)) [
    | inl down ↦ let failed : err (sql_failed upsert_node) ≡ ok node = rw (up, down) at h in cc
    | inr ready ↦
        let replaced = replace_action_dependencies faults k deps db.dependencies in
        let (same, done) = with_node-ok faults k _ replaced.1 (rw (up, ready) at h) in
        rw (up, ready)
          (ap (λ (d : GraphDb). dependencies_of at d.dependencies) same
            ∙ replace_action_dependencies-ok faults k at deps db.dependencies done)
  ]
]

upsert_normalized-ok :
    (faults : Faults) (p : ActionParams) (now : ℕ) (db : GraphDb)
    (key : Result GraphError ActionKey) {node : ActionNode}
    → (upsert_normalized faults p now db key).1 ≡ ok node
    → (k : ActionKey) × (key ≡ ok k)
      × ((at : ActionKey)
          → dependencies_of at (upsert_normalized faults p now db key).0.dependencies ≡ (
              if same_key k at
              then unique_trimmed p.depends_on
              else dependencies_of at db.dependencies))
upsert_normalized-ok faults p now db (err e) h = cc
upsert_normalized-ok faults p now db (ok k) {node} h = (
  k,
  refl,
  λ at. elim (Bool-cases (trim_space p.title == "")) [
    | inl blank ↦ let failed : err title_required ≡ ok node = rw blank at h in cc
    | inr full ↦ rw full (
        upsert_at-ok faults k (trim_space p.title) (unique_trimmed p.depends_on) now db
          (rw full at h) at)
  ],
)

-- After an upsert that returned the action, the dependencies of its key are the texts of the request that
-- are not blank, trimmed, each once and none before the one in front of it, and those of all
-- other keys are as they were.
pub upsert_action-dependencies_of :
    (s : Service) (faults : Faults) (p : ActionParams) (now : ℕ) (db : GraphDb) {node : ActionNode}
    → (upsert_action s faults p now db).1 ≡ ok node
    → (k : ActionKey) × (key_of s p.workspace_id p.profile_id p.peer p.action_id true ≡ ok k)
      × AreTrimmed p.depends_on (dependencies_of k (upsert_action s faults p now db).0.dependencies)
      × ((at : ActionKey)
          → same_key k at ≡ false
          → dependencies_of at (upsert_action s faults p now db).0.dependencies
            ≡ dependencies_of at db.dependencies)
unfolding upsert_action
upsert_action-dependencies_of s faults p now db h =
    let (k, named, listed) =
      upsert_normalized-ok faults p now db
        (key_of s p.workspace_id p.profile_id p.peer p.action_id true) h in
    (
      k,
      named,
      subst (λ texts. AreTrimmed p.depends_on texts)
          (sym (listed k ∙ rw ((same_key_iff k k).1 refl) refl))
          (unique_trimmed-AreTrimmed p.depends_on),
      λ at other. listed at ∙ rw other refl,
    )
