-- ===== src/Actions/Store/Keys.antt =====
-- The keys that the parameters of a call are normalized to.
use goncho.Prelude.{
  ◌≡◌, refl, ◌∙◌, sym, ap, subst, arith, String, Bool, true, false, not, ◌&&◌, ◌||◌, ◌==◌,
  Bool-cases, inl, inr, if◌then◌else◌,
}
use goncho.Prelude.Text.{trim_space, trim_space_idem}
use goncho.Prelude.Result.{Result, ok, err, ok-injective}
use goncho.Leases.Table.{ActionKey}
use goncho.Leases.Params.{Service, workspace_of, normalize_scoped_action}
use goncho.Actions.Store.{key_of}
use goncho.Actions.Store.Tables.{GraphError, scope_required}

-- Asking for the key finds the key itself, and it names an action.
abbrev pub IsNormal : Service → ActionKey → Type 0
IsNormal s k = key_of s k.workspace_id k.profile_id k.peer k.action_id true ≡ ok k

workspace_of_idem :
    (default requested : String)
    → workspace_of default (workspace_of default requested) ≡ workspace_of default requested
unfolding workspace_of
workspace_of_idem default requested = elim (Bool-cases (trim_space requested == "")) [
  | inl blank ↦
      rw (blank, trim_space_idem default)
        (elim (Bool-cases (trim_space default == "")) [
          | inl empty ↦ rw empty refl
          | inr full ↦ rw full refl
        ])
  | inr named ↦ rw named (rw (trim_space_idem requested, named) refl)
]

abbrev normal_key : Service → String → String → String → String → ActionKey
normal_key s workspace_id profile_id peer action_id = record {
  workspace_id = workspace_of s.workspace_id workspace_id;
  profile_id = trim_space profile_id;
  peer = trim_space peer;
  action_id = trim_space action_id;
}

-- A key that is refused for lack of a workspace, a peer or, where one is asked for, an action.
abbrev is_refused : Bool → ActionKey → Bool
is_refused require_action_id k =
    not (not (k.workspace_id == "") && not (k.peer == ""))
    || (require_action_id && k.action_id == "")

abbrev accepted : Bool → ActionKey → Result GraphError ActionKey
accepted require_action_id k = if is_refused require_action_id k then err scope_required else ok k

key_of-unfold :
    (s : Service) (workspace_id profile_id peer action_id : String) (require_action_id : Bool)
    → key_of s workspace_id profile_id peer action_id require_action_id
      ≡ accepted require_action_id (normal_key s workspace_id profile_id peer action_id)
unfolding normalize_scoped_action
key_of-unfold s workspace_id profile_id peer action_id require_action_id =
    let k = normal_key s workspace_id profile_id peer action_id in
    elim (Bool-cases (is_refused require_action_id k)) [
      | inl refused ↦ rw refused refl
      | inr fine ↦ rw fine refl
    ]

key_of-ok :
    (s : Service) (workspace_id profile_id peer action_id : String) (require_action_id : Bool)
    {k : ActionKey}
    → key_of s workspace_id profile_id peer action_id require_action_id ≡ ok k
    → (is_refused require_action_id k ≡ false)
      × (normal_key s workspace_id profile_id peer action_id ≡ k)
key_of-ok s workspace_id profile_id peer action_id require_action_id {k} h =
    let n = normal_key s workspace_id profile_id peer action_id in
    let unfolded =
      sym (key_of-unfold s workspace_id profile_id peer action_id require_action_id) ∙ h in
    elim (Bool-cases (is_refused require_action_id n)) [
      | inl refused ↦ let failed : err scope_required ≡ ok k = rw refused at unfolded in cc
      | inr fine ↦
          let same : n ≡ k = ok-injective (rw fine at unfolded) in
          (ap (is_refused require_action_id) (sym same) ∙ fine, same)
    ]

normal_key_idem :
    (s : Service) (workspace_id profile_id peer action_id : String) (k : ActionKey)
    → normal_key s workspace_id profile_id peer action_id ≡ k
    → normal_key s k.workspace_id k.profile_id k.peer k.action_id ≡ k
normal_key_idem s workspace_id profile_id peer action_id k h =
    subst (λ (j : ActionKey). normal_key s j.workspace_id j.profile_id j.peer j.action_id ≡ j) h
      (rw
        (
          workspace_of_idem s.workspace_id workspace_id,
          trim_space_idem profile_id,
          trim_space_idem peer,
          trim_space_idem action_id,
        )
        refl)

pub key_of-IsNormal :
    (s : Service) (workspace_id profile_id peer action_id : String) (k : ActionKey)
    → key_of s workspace_id profile_id peer action_id true ≡ ok k
    → IsNormal s k
key_of-IsNormal s workspace_id profile_id peer action_id k h =
    let (fine, same) = key_of-ok s workspace_id profile_id peer action_id true h in
    key_of-unfold s k.workspace_id k.profile_id k.peer k.action_id true
    ∙ ap (accepted true) (normal_key_idem s workspace_id profile_id peer action_id k same)
    ∙ rw fine refl

-- Its own fields, the action named, make a call about the key.
pub IsNormal-key_of :
    (s : Service) (k : ActionKey)
    → IsNormal s k
    → (key_of s k.workspace_id k.profile_id k.peer k.action_id false ≡ ok k)
      × (k.action_id == "" ≡ false)
IsNormal-key_of s k h =
    let (fine, same) = key_of-ok s k.workspace_id k.profile_id k.peer k.action_id true h in
    let open_scope : is_refused false k ≡ false = ground (arith, fine) in
    (
      key_of-unfold s k.workspace_id k.profile_id k.peer k.action_id false
          ∙ ap (accepted false) same
          ∙ rw open_scope refl,
      ground (arith, fine),
    )
