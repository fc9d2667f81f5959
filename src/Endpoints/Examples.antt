-- ===== src/Endpoints/Examples.antt =====
-- Two endpoints of a workspace whose limit is two.
use Prim.Native.String.{String}
use goncho.Prelude.{◌≡◌, refl, arith, true, false, none, some, List, [], ◌∷◌, ◌==◌, if◌then◌else◌}
use goncho.Prelude.Int.{pos}
use goncho.Prelude.Text.{trim_space, is_space}
use goncho.Prelude.Result.{ok, err}
use goncho.Endpoints.{NetLibrary, ParsedUrl, Ip, get_or_create}
use goncho.Endpoints.Rows.{
  Endpoint, EndpointError, CreateParams, CreateResult, Faults, count, char_length,
  breaks_constraint, stored,
}
use goncho.Endpoints.Calls.{Call, creating, deleting, run, HasAtMost, run-HasAtMost}
use goncho.Endpoints.Policy.{AreAllowed, run-AreAllowed}
use goncho.Endpoints.Reuse.{get_or_create-get_or_create}

abbrev loopback : Ip
loopback = record {
  is_private = false;
  is_loopback = true;
  is_link_local_unicast = false;
  is_link_local_multicast = false;
  is_unspecified = false;
}

abbrev parsed : String → String → ParsedUrl
parsed host text = record { scheme = "https"; host = host; hostname = host; text = text }

-- It knows two URLs.
abbrev net : NetLibrary
net = record {
  byte_length = char_length;
  parse_url = λ s.
      if s == "https://a/h"
      then some (parsed "a" s)
      else if s == "https://127.0.0.1/h"
      then some (parsed "127.0.0.1" s)
      else none;
  parse_ip = λ s. if s == "127.0.0.1" then some loopback else none;
}

abbrev up : Faults
up statement = false

abbrev ask : String → CreateParams
ask url = record { workspace_id = ""; url = url; limit = pos 2; now = some 5000000007 }

abbrev hook : Endpoint
hook = record { id = "we_1"; workspace_id = "main"; url = "https://a/h"; created_at = 5000000007 }

abbrev made : CreateResult
made = record { endpoint = hook; created = true }

first_created :
    get_or_create net up "main" (ask " https://a/h ") "we_1" 0 [] ≡ (stored hook ∷ [], ok made)
unfolding get_or_create trim_space is_space char_length breaks_constraint
first_created = refl

loopback_refused :
    get_or_create net up "main" (ask "https://127.0.0.1/h") "we_1" 0 []
    ≡ ([], err EndpointError.invalid_url)
unfolding get_or_create trim_space is_space char_length
loopback_refused = refl

get_or_create-get_or_create_example :
    get_or_create net up "main" (ask " https://a/h ") "we_2" 9 (stored hook ∷ [])
    ≡ (stored hook ∷ [], ok (record { endpoint = stored hook; created = false }))
get_or_create-get_or_create_example =
    get_or_create-get_or_create net up up "main" (ask " https://a/h ") "we_1" "we_2" 0 9 []
      (stored hook ∷ []) made first_created (λ s. refl)

abbrev calls : List (Faults × Call)
calls =
    (up, creating (ask " https://a/h ") "we_1" 0)
    ∷ (up, creating (ask "https://127.0.0.1/h") "we_2" 0)
    ∷ (up, deleting "main" "we_3")
    ∷ []

run-HasAtMost_example : HasAtMost 2 (run net "main" calls [])
unfolding count
run-HasAtMost_example =
    run-HasAtMost net "main" 2 calls [] (ground arith, (ground arith, (ground arith, tt)))
      (λ w. ground arith)

run-AreAllowed_example : AreAllowed net (run net "main" calls [])
run-AreAllowed_example = run-AreAllowed net "main" calls [] tt
