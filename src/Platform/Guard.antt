-- ===== src/Platform/Guard.antt =====
-- internal/aforo/production_guard.go: what may send traffic to production. A command that is refused
-- gets the hosts and where each comes from, which the error's text names.
use aforo_nextgen_loadgen.Base.{
  ℕ, Bool, true, false, not, ◌&&◌, ◌||◌, String, Option, none, some, List, [], ◌∷◌, ◌++◌, map, find,
  put, is_key, if◌then◌else◌,
}
pub mod Refusal

pub record Destination : Type 0 where
  pub source : String
  pub url : String

pub record Target : Type 0 where
  pub name : String
  pub urls : List (String × String)

-- Go's libraries: url.Parse, as the host and the hostname of a text that it takes, and the texts that
-- the guard asks about.
pub record UrlLibrary : Type 0 where
  pub parse : String → Option (String × String)
  pub has_scheme : String → Bool
  pub with_slashes : String → String
  pub trim_space : String → String
  pub to_lower : String → String
  pub trim_dots : String → String
  pub has_suffix : String → String → Bool

-- `sources` are the sets of DestinationSource.
pub record ProdHost : Type 0 where
  pub host : String
  pub sources : List String

-- DestinationSource as it is registered: `none` is a nil function, which is left out.
unfoldable pub register_destination_source :
    List (List Destination) → Option (List Destination) → List (List Destination)
register_destination_source registered none = registered
register_destination_source registered (some src) = registered ++ src ∷ []

unfoldable pub registered_destinations : List (List Destination) → List Destination
registered_destinations [] = []
registered_destinations (src ∷ rest) = src ++ registered_destinations rest

-- `label` is "target " + svc.
unfoldable pub target_destinations : (String → String) → List (String × String) → List Destination
target_destinations label [] = []
target_destinations label ((svc, raw) ∷ rest) =
    record { source = label svc; url = raw } ∷ target_destinations label rest

unfoldable pub effective_destinations :
    (String → String) → List (List Destination) → Target → List Destination
unfolding target_destinations registered_destinations
effective_destinations label registered t =
    target_destinations label t.urls ++ registered_destinations registered

unfoldable pub insert_source : String → List String → List String
insert_source s [] = s ∷ []
insert_source s (t ∷ rest) =
    let later = insert_source s rest in if is_key t s then t ∷ rest else t ∷ later

unfoldable pub refuse : String → Bool → List ProdHost → Option (String × List ProdHost)
refuse env allow_flag [] = none
refuse env allow_flag (h ∷ hosts) =
    if allow_flag || is_key env "i-understand-this-writes-to-production"
    then none
    else some ("refusing to send traffic to production", h ∷ hosts)

module _ (lib : UrlLibrary) where
  -- The hostname, where the text parses to a host.
  unfoldable pub host_of : Option (String × String) → Option String
  host_of none = none
  host_of (some (host, hostname)) = if is_key host "" then none else some hostname

  unfoldable pub normalize_host : String → String
  unfolding host_of
  normalize_host given =
      let raw = lib.trim_space given in
      let again : Option String =
        if lib.has_scheme raw then none else host_of (lib.parse (lib.with_slashes raw)) in
      let found : Option String = elim (host_of (lib.parse raw)) [
        | none ↦ again
        | some h ↦ some h
      ] in
      if is_key raw ""
      then ""
      else elim found [ none ↦ "" | some hostname ↦ lib.trim_dots (lib.to_lower hostname) ]

  unfoldable pub is_production_host : String → Bool
  is_production_host host =
      let h = lib.trim_dots (lib.to_lower (lib.trim_space host)) in
      if is_key h "" then false else is_key h "aforo.ai" || lib.has_suffix h ".aforo.ai"

  unfoldable pub add_source :
      String → String → List (String × List String) → List (String × List String)
  unfolding insert_source
  add_source host source by_source = elim (find host by_source) [
    | none ↦ put host (source ∷ []) by_source
    | some sources ↦ put host (insert_source source sources) by_source
  ]

  -- The map from each production host to the sources that name it.
  unfoldable pub by_host :
      List Destination → List (String × List String) → List (String × List String)
  unfolding normalize_host is_production_host add_source
  by_host [] hosts = hosts
  by_host (d ∷ rest) hosts =
      let host = normalize_host d.url in
      by_host rest (if is_production_host host then add_source host d.source hosts else hosts)

  module _ (sort_sources : List String → List String)
      (sort_hosts : List ProdHost → List ProdHost) where
    unfoldable pub production_hosts : List Destination → List ProdHost
    unfolding by_host
    production_hosts dests = sort_hosts (
        map (λ (e : String × List String). record { host = e.0; sources = sort_sources e.1 })
          (by_host dests []))

    -- `none` is the nil error. `env` is the value of AFORO_LOADGEN_ALLOW_PRODUCTION.
    unfoldable pub guard_production_destinations :
        String → List Destination → Bool → Option (String × List ProdHost)
    unfolding production_hosts refuse
    guard_production_destinations env dests allow_flag =
        refuse env allow_flag (production_hosts dests)

    unfoldable pub guard_production :
        String
        → (String → String)
        → List (List Destination)
        → Target
        → Bool
        → Option (String × List ProdHost)
    unfolding guard_production_destinations effective_destinations
    guard_production env label registered t allow_flag =
        guard_production_destinations env (effective_destinations label registered t) allow_flag
