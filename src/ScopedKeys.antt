-- ===== src/ScopedKeys.antt =====
-- internal/scopedkey/scopedkey.go: keys that grant access to a workspace, a peer or a session, signed
-- as JWT tokens. Instants are nanoseconds from 1970 on; `none` is the zero time.
use Prim.Native.Char.{Char, code}
use Prim.Native.String.{String, ◌++◌ as str_append}
use goncho.Prelude.{
  ℕ, Bool, true, false, not, ◌&&◌, Option, none, some, List, [], ◌∷◌, ◌==◌, eqb, leb, if◌then◌else◌,
}
use goncho.Prelude.Text.{trim_space}
use goncho.Prelude.Result.{Result, ok, err, ◌>>=◌}
pub mod Tokens
pub mod Keys
mod Examples

-- The error `invalid` is also that of a payload that is not decoded.
pub data KeyError : Type 0 where
  auth_disabled admin_required scope_required secret_missing invalid expired : KeyError

pub record Params : Type 0 where
  pub workspace_id : String
  pub peer_id : String
  pub session_id : String
  pub expires_at : Option ℕ
  pub auth_enabled : Bool
  pub admin : Bool
  pub secret : String
  pub now : Option ℕ

pub record Claims : Type 0 where
  pub timestamp : String
  pub expires_at : String
  pub admin : Option Bool
  pub workspace_id : String
  pub peer_id : String
  pub session_id : String

pub record Created : Type 0 where
  pub key : String
  pub claims : Claims

-- What the source calls in Go's library: base64.RawURLEncoding, encoding/json on the header and on
-- claims, HMAC with SHA-256 (the key first), and times in the format RFC 3339.
pub record Library : Type 0 where
  pub encode : String → String
  pub decode : String → Option String
  pub header : String
  pub marshal : Claims → String
  pub unmarshal : String → Option Claims
  pub hmac : String → String → String
  pub format : ℕ → String
  pub parse : String → Option ℕ

abbrev pub dotted : String → String → String
dotted a b = str_append a (str_append "." b)

abbrev pub is_dot : Char → Bool
is_dot c = eqb (code c) 46

abbrev pub push_first : Char → List String → List String
push_first c [] = (String.◌∷◌ c String.[]) ∷ []
push_first c (part ∷ parts) = (String.◌∷◌ c part) ∷ parts

-- strings.Split(token, ".")
unfoldable pub split : String → List String
split String.[] = String.[] ∷ []
split (String.◌∷◌ c s) =
    let parts = split s in if is_dot c then String.[] ∷ parts else push_first c parts

abbrev pub or_clock : ℕ → Option ℕ → ℕ
or_clock clock none = clock
or_clock clock (some t) = t

abbrev pub has_scope : Params → Bool
has_scope p = not (
    trim_space p.workspace_id == ""
    && (trim_space p.peer_id == "" && trim_space p.session_id == ""))

abbrev pub with_key : Claims → String → Created
with_key claims key = record { key = key; claims = claims }

unfoldable pub is_expired : ℕ → ℕ → Bool
is_expired exp now = leb exp now

abbrev parsed_expiration : ℕ → Option ℕ → Result KeyError (Unit {0})
parsed_expiration now none = err invalid
parsed_expiration now (some exp) = if is_expired exp now then err expired else ok tt

abbrev pub or_invalid : {A : Type 0} → Option A → Result KeyError A
or_invalid none = err invalid
or_invalid (some a) = ok a

module _ (l : Library) where
  open l use {encode, decode, header, marshal, unmarshal, hmac, format, parse}

  abbrev pub expiry_text : Option ℕ → String
  expiry_text none = ""
  expiry_text (some t) = format t

  unfoldable pub signature : String → String → String
  signature unsigned secret = encode (hmac secret unsigned)

  unfoldable pub sign : Claims → String → Result KeyError String
  unfolding signature
  sign claims secret =
      let unsigned = dotted (encode header) (encode (marshal claims)) in
      if trim_space secret == ""
      then err secret_missing
      else ok (dotted unsigned (signature unsigned secret))

  abbrev pub claims_of : ℕ → Params → Claims
  claims_of clock p = record {
    timestamp = format (or_clock clock p.now);
    expires_at = expiry_text p.expires_at;
    admin = none;
    workspace_id = trim_space p.workspace_id;
    peer_id = trim_space p.peer_id;
    session_id = trim_space p.session_id;
  }

  -- `clock` is the time of the machine.
  unfoldable pub create : ℕ → Params → Result KeyError Created
  unfolding sign
  create clock p =
      if not p.auth_enabled
      then err auth_disabled
      else if not p.admin
      then err admin_required
      else if not (has_scope p)
      then err scope_required
      else (sign (claims_of clock p) p.secret >>= λ key. ok (with_key (claims_of clock p) key))

  unfoldable pub verify_expiration : String → ℕ → Result KeyError (Unit {0})
  unfolding is_expired
  verify_expiration raw now = if raw == "" then ok tt else parsed_expiration now (parse raw)

  -- `Verify` on the three parts of a token.
  unfoldable pub verify_parts : String → String → String → String → ℕ → Result KeyError Claims
  unfolding signature verify_expiration
  verify_parts head payload signed secret now =
      if trim_space secret == ""
      then err secret_missing
      else if not (signed == signature (dotted head payload) secret)
      then err invalid
      else (or_invalid (decode payload) >>= λ text. or_invalid (unmarshal text) >>= λ claims.
          verify_expiration claims.expires_at now >>= λ _. ok claims)

  abbrev pub verify_split : List String → String → ℕ → Result KeyError Claims
  verify_split (head ∷ payload ∷ signed ∷ []) secret now =
      verify_parts head payload signed secret now
  verify_split _ secret now = err invalid

  unfoldable pub verify : ℕ → String → String → Option ℕ → Result KeyError Claims
  unfolding verify_parts
  verify clock token secret now = verify_split (split token) secret (or_clock clock now)
