-- ===== src/ScopedKeys/Examples.antt =====
-- Concrete keys, with a small library in place of Go's.
use Prim.Native.String.{String, ◌++◌ as str_append}
use goncho.Prelude.{ℕ, ◌≡◌, refl, subst, true, false, none, some, ◌==◌, if◌then◌else◌, eqb}
use goncho.Prelude.Text.{trim_space, is_space}
use goncho.Prelude.Result.{ok, err}
use goncho.ScopedKeys.{
  expired, invalid, Params, Claims, Created, Library, dotted, split, signature, create, verify,
}
use goncho.ScopedKeys.Keys.{
  to_second, Inverts, has_ended, IsCurrent, verify-create, verify-IsCurrent,
}

abbrev the_claims : Claims
the_claims = record {
  timestamp = "T7";
  expires_at = "T9";
  admin = none;
  workspace_id = "team";
  peer_id = "";
  session_id = "";
}

-- It knows one payload, and the times 7 and 9 seconds.
abbrev small : Library
small = record {
  encode = λ s. s;
  decode = λ s. some s;
  header = "HS256";
  marshal = λ c. str_append c.workspace_id "-key";
  unmarshal = λ s. if s == "team-key" then some the_claims else none;
  hmac = λ secret text. str_append "by-" secret;
  format = λ t. if eqb t 7000000000 then "T7" else "T9";
  parse = λ s. if s == "T9" then some 9000000000 else none;
}

abbrev request : Params
request = record {
  workspace_id = " team ";
  peer_id = "";
  session_id = "";
  expires_at = some 9000000123;
  auth_enabled = true;
  admin = true;
  secret = "k";
  now = some 7000000000;
}

abbrev token : String
token = "HS256.team-key.by-k"

abbrev made : Created
made = record { key = token; claims = the_claims }

request-create : create small 0 request ≡ ok made
unfolding create trim_space is_space
request-create = refl

small-Inverts : Inverts small 0 request
unfolding trim_space is_space
small-Inverts = record {
  header_dotless = refl;
  payload_dotless = refl;
  signature_dotless = unfold signature in refl;
  decoded = refl;
  unmarshalled = refl;
  format_full = λ t e.
      let same : 9000000123 ≡ t = cc in subst (λ (u : ℕ). (small.format u == "") ≡ false) same refl;
  parsed = λ t e.
      let same : 9000000123 ≡ t = cc in
      subst (λ (u : ℕ). small.parse (small.format u) ≡ some (to_second u)) same refl;
}

verify-create_example :
    verify small 0 token "k" (some 8000000000)
    ≡ (if has_ended small (some 9000000123) 8000000000 then err expired else ok the_claims)
verify-create_example =
    verify-create small 0 request {r = made} request-create small-Inverts 0 (some 8000000000)

test_late : verify small 0 token "k" (some 9000000000) ≡ err expired
unfolding verify trim_space is_space split
test_late = refl

test_forged : verify small 0 "HS256.team-all.by-me" "k" (some 8000000000) ≡ err invalid
unfolding verify trim_space is_space split
test_forged = refl

token-verify : verify small 0 token "k" (some 8000000000) ≡ ok the_claims
unfolding verify trim_space is_space split
token-verify = refl

verify-IsCurrent_example :
    (head payload text : String) × (token
      ≡ dotted head (dotted payload (signature small (dotted head payload) "k")))
    × (small.decode payload ≡ some text)
    × (small.unmarshal text ≡ some the_claims)
    × IsCurrent small "T9" 8000000000
verify-IsCurrent_example =
    verify-IsCurrent small 0 token "k" (some 8000000000) {c = the_claims} token-verify
