-- ===== src/Breaker/Registry.antt =====
-- service/provider_resilience.go: the breakers of the providers by name, and the diagnostics made of
-- them. A service may have no registry. A call without a breaker has no timeout.
use Prim.Native.String.{◌++◌ as str_append}
use goncho.Prelude.{
  ℕ, String, Bool, true, not, Option, none, some, List, [], ◌∷◌, ◌==◌, map, if◌then◌else◌,
}
use goncho.Prelude.Int.{ℤ, pos, not_positive}
use goncho.Prelude.Text.{trim_space}
use goncho.Prelude.Dict.{Dict, insert, lookup}
use goncho.Prelude.Sort.{text_ltb, sort_by}
use goncho.Breaker.{
  Breaker, BreakerConfig, Health, ProviderStatus, healthy, degraded, disabled, closed,
  failure_threshold, cooldown_of, new_breaker, health, CallError, failed, execute,
}

pub record ResilienceConfig : Type 0 where
  pub failure_threshold : ℤ
  pub cooldown : ℤ
  pub timeout : ℤ
  pub max_payload_bytes : ℤ

pub record Registry : Type 0 where
  pub config : ResilienceConfig
  pub breakers : Dict Breaker

-- 5 seconds
unfoldable pub normalize_config : ResilienceConfig → ResilienceConfig
unfolding failure_threshold cooldown_of
normalize_config c = record {
  failure_threshold = pos (failure_threshold c.failure_threshold);
  cooldown = pos (cooldown_of c.cooldown);
  timeout = if not_positive c.timeout then pos 5000000000 else c.timeout;
  max_payload_bytes = c.max_payload_bytes;
}

abbrev pub embedding_config : ResilienceConfig → BreakerConfig
embedding_config c = record {
  name = "embedding";
  kind = "embedding";
  failure_threshold = c.failure_threshold;
  cooldown = c.cooldown;
  timeout = c.timeout;
  max_payload_bytes = c.max_payload_bytes;
}

-- With a vector store, the embedding has a breaker.
unfoldable pub new_registry : ResilienceConfig → Bool → Registry
unfolding normalize_config new_breaker
new_registry c has_vector_store =
    let config = normalize_config c in
    record {
      config = config;
      breakers =
          if has_vector_store
          then ("embedding", new_breaker (embedding_config config)) ∷ []
          else [];
    }

unfoldable pub find_breaker : Registry → String → Option Breaker
unfolding lookup
find_breaker r name = lookup (trim_space name) r.breakers

unfoldable pub max_payload_bytes_of : Option Registry → String → ℤ
unfolding find_breaker
max_payload_bytes_of none name = pos 0
max_payload_bytes_of (some r) name = elim (find_breaker r name) [
  | none ↦ r.config.max_payload_bytes
  | some b ↦ b.max_payload_bytes
]

abbrev pub health_of : Dict Breaker → String → Health
health_of breakers kind = elim (lookup kind breakers) [
  | some b ↦ health b
  | none ↦ record {
    name = kind;
    kind = kind;
    status = disabled;
    circuit_state = closed;
    optional = true;
    last_error = "";
    failure_count = 0;
    retry_after = none;
    timeout = pos 0;
    max_payload_bytes = pos 0;
  }
]

-- The order of `sort.SliceStable`: a provider stays before the others of its name.
abbrev comes_first : Health → Health → Bool
comes_first a b = not (text_ltb b.name a.name)

unfoldable pub default_diagnostics : Dict Breaker → List Health
unfolding health lookup sort_by
default_diagnostics breakers =
    sort_by comes_first
      (map (health_of breakers) ("extraction" ∷ "embedding" ∷ "reranking" ∷ "summarization" ∷ []))

unfoldable pub diagnostics : Option Registry → List Health
unfolding default_diagnostics
diagnostics none = default_diagnostics []
diagnostics (some r) = default_diagnostics r.breakers

-- The loop of `ByName`; `none` stands for the zero value, which a missing name gives.
unfoldable find_health : String → List Health → Option Health
find_health name [] = none
find_health name (h ∷ hs) =
    let rest = find_health name hs in if h.name == name then some h else rest

unfoldable pub by_name : List Health → String → Option Health
unfolding find_health
by_name hs name = find_health (trim_space name) hs

abbrev warning_of : Health → ProviderStatus → List String → List String
warning_of h healthy rest = rest
warning_of h disabled rest = str_append "provider " (str_append h.name " disabled") ∷ rest
warning_of h degraded rest =
    str_append "provider " (
      str_append h.name
        (str_append " degraded" (if h.last_error == "" then "" else str_append ": " h.last_error)))
    ∷ rest

unfoldable pub provider_warnings : List Health → List String
provider_warnings [] = []
provider_warnings (h ∷ hs) = warning_of h h.status (provider_warnings hs)

module _ {W E : Type 0} (message : E → String) where
  -- A call without a breaker: its error is the provider's.
  abbrev pub unguarded : Option Registry → W × Option E → Option Registry × W × Option (CallError E)
  unguarded r (world, none) = (r, world, none)
  unguarded r (world, some e) = (r, world, some (failed e))

  abbrev written_back :
      Registry
      → String
      → Breaker × W × Option (CallError E)
      → Option Registry × W × Option (CallError E)
  written_back r key (b, world, answer) =
      (some (record r { breakers = insert key b r.breakers }), world, answer)

  abbrev pub execute_with :
      Registry
      → String
      → Option Breaker
      → ℕ
      → ℕ
      → (ℤ → W → W × Option E)
      → W
      → Option Registry × W × Option (CallError E)
  execute_with r name none now after provider world = unguarded (some r) (provider (pos 0) world)
  execute_with r name (some b) now after provider world =
      written_back r (trim_space name) (execute message b now after provider world)

  -- The breaker is a pointer in the map: what the call does to it is seen there.
  unfoldable pub registry_execute :
      Option Registry
      → String
      → ℕ
      → ℕ
      → (ℤ → W → W × Option E)
      → W
      → Option Registry × W × Option (CallError E)
  unfolding find_breaker execute insert
  registry_execute none name now after provider world = unguarded none (provider (pos 0) world)
  registry_execute (some r) name now after provider world =
      execute_with r name (find_breaker r name) now after provider world
