-- ===== src/Examples/Platform.antt =====
-- The production guard (internal/aforo/production_guard.go) on a local target and a driver's endpoint.
use mathlib.Core.List.Perm
use aforo_nextgen_loadgen.Base.{
  ◌≡◌, ◌↔◌, refl, Bool, false, String, Option, none, some, List, [], ◌∷◌, is_key, find, put,
  if◌then◌else◌,
}
use aforo_nextgen_loadgen.Platform.Guard.{
  Destination, Target, UrlLibrary, ProdHost, guard_production,
}
use aforo_nextgen_loadgen.Platform.Guard.Refusal.{IsAllowed, guard_production-IsAllowed}

abbrev urls : UrlLibrary
urls = record {
  parse = λ t.
      if is_key t "http://localhost:8081"
      then some ("localhost:8081", "localhost")
      else if is_key t "//usage-ingestor.aforo.ai.:443"
      then some ("usage-ingestor.aforo.ai.:443", "usage-ingestor.aforo.ai.")
      else some ("", "");
  has_scheme = λ t. is_key t "http://localhost:8081";
  with_slashes =
      λ t. if is_key t "usage-ingestor.aforo.ai.:443" then "//usage-ingestor.aforo.ai.:443" else t;
  trim_space = λ t. t;
  to_lower = λ t. t;
  trim_dots = λ t. if is_key t "usage-ingestor.aforo.ai." then "usage-ingestor.aforo.ai" else t;
  has_suffix = λ t end. is_key t "usage-ingestor.aforo.ai";
}

abbrev local : Target
local = record { name = "local"; urls = ("usage-ingestor", "http://localhost:8081") ∷ [] }

abbrev from_env : List Destination
from_env = record { source = "ai_agent_rest"; url = "usage-ingestor.aforo.ai.:443" } ∷ []

abbrev guard : List (List Destination) → Bool → String → Option (String × List ProdHost)
guard registered allow_flag env =
    guard_production urls (λ s. s) (λ h. h) env (λ s. s) registered local allow_flag

local_runs : guard [] false "" ≡ none
unfolding guard_production find put
local_runs = refl

-- A driver's endpoint in production, with a dot behind its name, is refused and named.
endpoint_refused :
    guard (from_env ∷ []) false "true"
    ≡ some (
      "refusing to send traffic to production",
      record { host = "usage-ingestor.aforo.ai"; sources = "ai_agent_rest" ∷ [] } ∷ [],
    )
unfolding guard_production find put
endpoint_refused = refl

phrase_runs : guard (from_env ∷ []) false "i-understand-this-writes-to-production" ≡ none
unfolding guard_production find put
phrase_runs = refl

guard_production-IsAllowed_example :
    (guard_production urls (λ s. s) (λ h. h) "true" (λ s. s) (from_env ∷ []) local false ≡ none)
    ↔ IsAllowed urls "true" (λ s. s) (from_env ∷ []) local false
guard_production-IsAllowed_example =
    guard_production-IsAllowed urls "true" (λ s. s) (from_env ∷ []) local false (λ s. s) (λ h. h)
      (λ hs. Perm.refl hs)
