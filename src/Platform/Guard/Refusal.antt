-- ===== src/Platform/Guard/Refusal.antt =====
-- What the guard refuses (internal/aforo/production_guard.go).
use mathlib.Core.List.{Perm}
use mathlib.Core.List.Perm
use aforo_nextgen_loadgen.Base.{
  ◌≡◌, ◌≢◌, ◌↔◌, ◌⊎◌, inl, inr, refl, subst, sym, ◌∙◌, Bool, true, false, ◌||◌, String, none, List,
  [], ◌∷◌, map, All, arith, find, put, is_key, Bool-cases, Option-cases,
}
use aforo_nextgen_loadgen.Platform.Guard.{
  Destination, Target, UrlLibrary, ProdHost, normalize_host, is_production_host, insert_source,
  add_source, by_host, production_hosts, refuse, guard_production_destinations, guard_production,
  effective_destinations,
}

refuse-none :
    (env : String) (allow_flag : Bool) (hosts : List ProdHost)
    → (refuse env allow_flag hosts ≡ none) ↔ (
        (hosts ≡ []) ⊎ ((allow_flag || is_key env "i-understand-this-writes-to-production") ≡ true))
unfolding refuse
refuse-none env allow_flag [] = (λ e. inl refl, λ h. refl)
refuse-none env allow_flag (h ∷ hosts) = ground arith

module _ (lib : UrlLibrary) where
  abbrev pub IsHarmless : Destination → Type 0
  IsHarmless d = is_production_host lib (normalize_host lib d.url) ≡ false

  map_nil : {A B : Type 0} (f : A → B) (xs : List A) → map f xs ≡ [] → xs ≡ []
  map_nil f [] e = refl
  map_nil f (x ∷ xs) e = absurd cc

  put_cons : {V : Type 0} (k : String) (v : V) (m : List (String × V)) → put k v m ≢ []
  unfolding put
  put_cons k v [] e = cc
  put_cons k v ((j, w) ∷ m) e = elim (Bool-cases (is_key j k)) [
    | inl same ↦ let replaced : put k v ((j, w) ∷ m) ≡ (k, v) ∷ m = rw same refl in absurd cc
    | inr other ↦
        let goes_on : put k v ((j, w) ∷ m) ≡ (j, w) ∷ put k v m = rw other refl in absurd cc
  ]

  add_source_cons :
      (host source : String) (m : List (String × List String)) → add_source lib host source m ≢ []
  unfolding add_source
  add_source_cons host source m e = elim (Option-cases (find host m)) [
    | inl new ↦
        let added : add_source lib host source m ≡ put host (source ∷ []) m =
          rw (new, add_source) refl in
        put_cons host (source ∷ []) m (sym added ∙ e)
    | inr (ss, known) ↦
        let added : add_source lib host source m ≡ put host (insert_source source ss) m =
          rw (known, add_source) refl in
        put_cons host (insert_source source ss) m (sym added ∙ e)
  ]

  by_host_cons :
      (ds : List Destination) (m : List (String × List String)) → m ≢ [] → by_host lib ds m ≢ []
  unfolding by_host
  by_host_cons [] m h = h
  by_host_cons (d ∷ ds) m h =
      elim (Bool-cases (is_production_host lib (normalize_host lib d.url))) [
        | inl prod ↦
            rw (prod, by_host)
              (by_host_cons ds _ (add_source_cons (normalize_host lib d.url) d.source m))
        | inr other ↦ rw (other, by_host) (by_host_cons ds m h)
      ]

  by_host_nil : (ds : List Destination) → (by_host lib ds [] ≡ []) ↔ All IsHarmless ds
  unfolding by_host
  by_host_nil [] = (λ e. tt, λ h. refl)
  by_host_nil (d ∷ ds) = elim (Bool-cases (is_production_host lib (normalize_host lib d.url))) [
    | inl prod ↦
        let host = normalize_host lib d.url in
        let kept : by_host lib (d ∷ ds) [] ≡ by_host lib ds (add_source lib host d.source []) =
          rw (prod, by_host) refl in
        (
          λ e. absurd (by_host_cons ds _ (add_source_cons host d.source []) (sym kept ∙ e)),
          λ h. absurd cc,
        )
    | inr other ↦
        let skipped : by_host lib (d ∷ ds) [] ≡ by_host lib ds [] = rw (other, by_host) refl in
        (λ e. (other, (by_host_nil ds).0 (sym skipped ∙ e)), λ h. skipped ∙ (by_host_nil ds).1 h.1)
  ]

  module _ (env : String) (label : String → String) (registered : List (List Destination))
      (t : Target) (allow_flag : Bool) where
    -- A run may go on: none of its destinations is in production, or someone took the responsibility.
    abbrev pub IsAllowed : Type 0
    IsAllowed =
        All IsHarmless (effective_destinations label registered t)
        ⊎ ((allow_flag || is_key env "i-understand-this-writes-to-production") ≡ true)

    module _ (sort_sources : List String → List String) (sort_hosts : List ProdHost → List ProdHost)
        (sort_hosts_permutes : (hs : List ProdHost) → Perm (sort_hosts hs) hs) where
      production_hosts_nil :
          (ds : List Destination)
          → (production_hosts lib sort_sources sort_hosts ds ≡ []) ↔ (by_host lib ds [] ≡ [])
      unfolding production_hosts
      production_hosts_nil ds =
          let as_host : String × List String → ProdHost =
            λ e. record { host = e.0; sources = sort_sources e.1 } in
          let sorted = sort_hosts_permutes (map as_host (by_host lib ds [])) in
          (
            λ e. map_nil as_host (by_host lib ds []) (
                Perm.eq-nil
                  (Perm.symm (subst (λ l. Perm l (map as_host (by_host lib ds []))) e sorted))),
            λ e. Perm.eq-nil (
                subst (λ l. Perm (sort_hosts (map as_host (by_host lib ds []))) (map as_host l)) e
                  sorted),
          )

      -- The guard lets a run go on exactly if no URL that it may send to is on a production host, or
      -- the flag is set, or the variable holds the phrase. It is assumed that the sort of the hosts
      -- permutes them.
      pub guard_production-IsAllowed :
          (guard_production lib sort_sources sort_hosts env label registered t allow_flag ≡ none)
          ↔ IsAllowed
      unfolding guard_production guard_production_destinations
      guard_production-IsAllowed =
          let ds = effective_destinations label registered t in
          let quiet = by_host_nil ds in
          let listed = production_hosts_nil ds in
          let decided =
            refuse-none env allow_flag (production_hosts lib sort_sources sort_hosts ds) in
          (
            λ e. elim (decided.0 e) [
              | inl none_found ↦ inl (quiet.0 (listed.0 none_found))
              | inr said ↦ inr said
            ],
            λ ok. decided.1 (elim ok [
              | inl harmless ↦ inl (listed.1 (quiet.1 harmless))
              | inr said ↦ inr said
            ]),
          )
