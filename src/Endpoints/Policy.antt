-- ===== src/Endpoints/Policy.antt =====
-- The URLs that are registered.
use Prim.Native.String.{String}
use goncho.Prelude.{
  ◌≡◌, ◌⊎◌, refl, ap, sym, ◌∙◌, arith, Bool, false, not, ◌&&◌, ◌||◌, Option, none, some, List, [],
  ◌∷◌, ◌++◌, ◌==◌, eq_iff, ltb, keep, All, Bool-cases, inl, inr,
}
use goncho.Prelude.Text.{trim_space}
use goncho.Prelude.Result.{ok, past_guard, ok-injective}
use goncho.Endpoints.{
  NetLibrary, ParsedUrl, Ip, is_local, private_ip, private_host, normalize_parsed, normalize_url,
  is_row,
}
use goncho.Endpoints.Rows.{Endpoint, Faults, stored}
use goncho.Endpoints.Calls.{Call, Step, unchanged, added, removed, perform, run, perform-Step}

-- An address that is in none of the local ranges.
pub record IsPublic (ip : Ip) : Type 0 where
  pub is_shared : ip.is_private ≡ false
  pub is_elsewhere : ip.is_loopback ≡ false
  pub is_routed : ip.is_link_local_unicast ≡ false
  pub is_routed_multicast : ip.is_link_local_multicast ≡ false
  pub is_specified : ip.is_unspecified ≡ false

private_host-IsPublic :
    (l : NetLibrary) (host : String) (ip : Ip)
    → private_host l host ≡ false
    → l.parse_ip host ≡ some ip
    → IsPublic ip
unfolding private_host
private_host-IsPublic l host ip public e =
    let outside : is_local l ip ≡ false = ap (private_ip l) (sym e) ∙ public in
    record {
      is_shared = ground arith;
      is_elsewhere = ground arith;
      is_routed = ground arith;
      is_routed_multicast = ground arith;
      is_specified = ground arith;
    }

module _ (l : NetLibrary) where
  -- A URL that was parsed as one of http or https; its host, if it is an address, is in no local range.
  pub record IsAllowed (url : String) : Type 0 where
    pub raw : String
    pub parsed : ParsedUrl
    pub parses : l.parse_url raw ≡ some parsed
    pub prints : parsed.text ≡ url
    pub is_http : (parsed.scheme ≡ "http") ⊎ (parsed.scheme ≡ "https")
    pub has_host : (parsed.hostname == "") ≡ false
    pub is_public : (ip : Ip) → l.parse_ip parsed.hostname ≡ some ip → IsPublic ip

  http_test :
      (scheme : String)
      → not (scheme == "http") && not (scheme == "https") ≡ false
      → (scheme ≡ "http") ⊎ (scheme ≡ "https")
  http_test scheme h = elim (Bool-cases (scheme == "http")) [
    | inl same ↦ inl ((eq_iff scheme "http").0 same)
    | inr other ↦ inr ((eq_iff scheme "https").0 (ground arith))
  ]

  normalize_parsed-IsAllowed :
      (raw : String) (found : Option ParsedUrl) (url : String)
      → l.parse_url raw ≡ found
      → normalize_parsed l found ≡ ok url
      → IsAllowed url
  normalize_parsed-IsAllowed raw none url e h = cc
  normalize_parsed-IsAllowed raw (some u) url e h =
      let (whole, h₁) = past_guard (u.scheme == "" || u.host == "") _ _ h in
      let (http, h₂) = past_guard (not (u.scheme == "http") && not (u.scheme == "https")) _ _ h₁ in
      let (public, h₃) = past_guard (u.hostname == "" || private_host l u.hostname) _ _ h₂ in
      record {
        raw = raw;
        parsed = u;
        parses = e;
        prints = ok-injective h₃;
        is_http = http_test u.scheme http;
        has_host = ground arith;
        is_public = λ ip. private_host-IsPublic l u.hostname ip (ground arith);
      }

  normalize_url-IsAllowed : (raw url : String) → normalize_url l raw ≡ ok url → IsAllowed url
  unfolding normalize_url
  normalize_url-IsAllowed raw url h =
      let trimmed = trim_space raw in
      let (short, h₁) = past_guard (trimmed == "" || ltb 2048 (l.byte_length trimmed)) _ _ h in
      normalize_parsed-IsAllowed trimmed (l.parse_url trimmed) url refl h₁

  abbrev pub AreAllowed : List Endpoint → Type 0
  AreAllowed rows = All (λ (row : Endpoint). IsAllowed row.url) rows

  snoc-AreAllowed :
      (rows : List Endpoint) (e : Endpoint)
      → AreAllowed rows
      → IsAllowed e.url
      → AreAllowed (rows ++ e ∷ [])
  snoc-AreAllowed [] e all one = (one, tt)
  snoc-AreAllowed (row ∷ rows) e (first, all) one = (first, snoc-AreAllowed rows e all one)

  keep-AreAllowed :
      (p : Endpoint → Bool) (rows : List Endpoint) → AreAllowed rows → AreAllowed (keep p rows)
  keep-AreAllowed p [] all = tt
  keep-AreAllowed p (row ∷ rows) (first, all) = elim (Bool-cases (p row)) [
    | inl stays ↦ rw stays (first, keep-AreAllowed p rows all)
    | inr goes ↦ rw goes (keep-AreAllowed p rows all)
  ]

  Step-AreAllowed :
      (call : Call) (rows after : List Endpoint)
      → AreAllowed rows
      → Step l call rows after
      → AreAllowed after
  Step-AreAllowed call rows _ all unchanged = all
  Step-AreAllowed call rows _ all (added e raw normal new) =
      snoc-AreAllowed rows (stored e) all (normalize_url-IsAllowed raw e.url normal)
  Step-AreAllowed call rows _ all (removed workspace_id id) =
      keep-AreAllowed (λ row. not (is_row workspace_id id row)) rows all

  -- From rows whose URLs are such, none among them, and through every series of creations and
  -- deletions, whatever fails, each registered URL is one that was parsed with the scheme http or https
  -- and a nonempty host which, if it is written as an address, is no private, loopback, link-local
  -- (unicast or multicast) or unspecified one.
  pub run-AreAllowed :
      (d : String) (calls : List (Faults × Call)) (rows : List Endpoint)
      → AreAllowed rows
      → AreAllowed (run l d calls rows)
  run-AreAllowed d [] rows all = all
  run-AreAllowed d ((faults, call) ∷ calls) rows all =
      run-AreAllowed d calls (perform l d faults call rows)
        (Step-AreAllowed call rows _ all (perform-Step l d faults call rows))
