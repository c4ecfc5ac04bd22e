-- ===== src/Scenario/Checks.antt =====
-- The checks of what a scenario sends and asserts: the sections of internal/scenario/validator.go from
-- checkSchemaVersion to checkLifecycle, checkAssertions and checkCrossField, and Migrate of migration.go.
use aforo_nextgen_loadgen.Base.{
  ℤ, pos, lez, ltz, eqz, Bool, true, false, not, ◌&&◌, ◌||◌, String, Option, none, some, List, [],
  ◌∷◌, ◌++◌, is_key,
}
use aforo_nextgen_loadgen.Base.Floats.{Floats}
use aforo_nextgen_loadgen.Scenario.Rates.{TenantArchetype}
use aforo_nextgen_loadgen.Scenario.Sections.{
  ProductMix, IngestionPaths, RestBatch, PayloadVariation, NegativePaths, LifecycleProfile,
  Assertions, Scenario,
}
use aforo_nextgen_loadgen.Scenario.Names.{is_one_of}
use aforo_nextgen_loadgen.Scenario.Report.{
  Rule, required, unknown_kind, not_in_unit, not_positive, negative, bad_name, bad_version,
  above_cap, sum_not_one, leakage_allowed, needs_stale_states, Violation, Library, report_if,
  check_entries, is_off_unit, weights_approx_one,
}

abbrev pub current_schema_version : ℤ
current_schema_version = pos 2

-- Migrate, on the version: the version that it leaves, and its error.
unfoldable pub migrate : ℤ → ℤ × Option Rule
migrate v = elim (eqz v (pos 0)) [
  | true ↦ (v, some required)
  | false ↦ elim (ltz current_schema_version v) [
    | true ↦ (v, some bad_version)
    | false ↦ elim (ltz v (pos 1)) [
      | true ↦ (v, some bad_version)
      | false ↦ elim (eqz v (pos 1)) [ true ↦ (current_schema_version, none) | false ↦ (v, none) ]
    ]
  ]
]

unfoldable pub check_schema_version : ℤ → List Violation
check_schema_version v = elim (migrate v).1 [
  | none ↦ []
  | some rule ↦ report_if true ("schema_version" ∷ []) rule
]

module _ (fl : Floats) (lib : Library fl.Float) where
  unfoldable pub check_identity : String → List Violation
  check_identity name = elim (is_key name "") [
    | true ↦ report_if true ("name" ∷ []) required
    | false ↦ report_if (not (lib.is_kebab_case name)) ("name" ∷ []) bad_name
  ]

  unfoldable pub check_traffic : Scenario fl.Float → List Violation
  check_traffic s =
      report_if (lez s.target_tps (pos 0)) ("target_tps" ∷ []) not_positive
      ++ report_if (lez s.duration (pos 0)) ("duration" ∷ []) not_positive
      ++ report_if (ltz s.seed (pos 0)) ("seed" ∷ []) negative
      ++ report_if (not (is_one_of ("constant" ∷ "sine_24h" ∷ "bursty" ∷ []) s.time_pattern))
          ("time_pattern" ∷ []) unknown_kind

  -- The fields of a section that must be in [0, 1], by their labels.
  unfoldable pub check_unit : String → String → fl.Float → List Violation
  check_unit section label w = report_if (is_off_unit fl w) (section ∷ label ∷ []) not_in_unit

  unfoldable pub product_mix_sum : ProductMix fl.Float → fl.Float
  product_mix_sum p = fl.add (fl.add (fl.add p.api p.ai_agent) p.mcp_server) p.agentic_api

  unfoldable pub check_product_mix : ProductMix fl.Float → List Violation
  check_product_mix p = elim (fl.eq (product_mix_sum p) (fl.of_int 0)) [
    | true ↦ []
    | false ↦
        report_if (not (weights_approx_one fl (product_mix_sum p))) ("product_mix" ∷ []) sum_not_one
        ++ check_entries (check_unit "product_mix") (
            ("API", p.api)
            ∷ ("AI_AGENT", p.ai_agent)
            ∷ ("MCP_SERVER", p.mcp_server)
            ∷ ("AGENTIC_API", p.agentic_api)
            ∷ [])
  ]

  unfoldable pub sum_of : fl.Float → List fl.Float → fl.Float
  sum_of total [] = total
  sum_of total (w ∷ rest) = sum_of (fl.add total w) rest

  unfoldable pub ingestion_paths_sum : IngestionPaths fl.Float → fl.Float
  ingestion_paths_sum p = sum_of p.rest_direct (
      p.sdk_node ∷ p.sdk_python ∷ p.sdk_java ∷ p.sdk_go ∷ p.gateway_kong ∷ p.gateway_apigee
      ∷ p.gateway_aws ∷ p.gateway_azure ∷ p.gateway_mulesoft ∷ p.gateway_apisix ∷ p.gateway_tyk
      ∷ p.gateway_gravitee ∷ p.gateway_envoy ∷ p.webhook_receiver ∷ p.csv_upload ∷ p.mcp_json_rpc
      ∷ p.ai_agent_rest ∷ p.ai_agent_wire ∷ p.rest_batch ∷ [])

  unfoldable pub check_rest_batch : RestBatch → List Violation
  check_rest_batch b =
      report_if (ltz b.size (pos 0) || ltz (pos 1000) b.size) ("rest_batch" ∷ "size" ∷ []) above_cap
      ++ report_if (ltz b.max_wait (pos 0)) ("rest_batch" ∷ "max_wait" ∷ []) negative

  unfoldable pub check_ingestion_paths : RestBatch → IngestionPaths fl.Float → List Violation
  check_ingestion_paths b p =
      check_rest_batch b
      ++ report_if
          (not (fl.eq (ingestion_paths_sum p) (fl.of_int 0))
            && not (weights_approx_one fl (ingestion_paths_sum p)))
          ("ingestion_paths" ∷ []) sum_not_one

  unfoldable pub payload_variation_sum : PayloadVariation fl.Float → fl.Float
  payload_variation_sum p = fl.add (fl.add p.small_pct p.medium_pct) p.large_pct

  unfoldable pub check_payload_variation : PayloadVariation fl.Float → List Violation
  check_payload_variation p =
      check_entries (check_unit "payload_variation") (
        ("small_pct", p.small_pct) ∷ ("medium_pct", p.medium_pct) ∷ ("large_pct", p.large_pct) ∷ [])
      ++ report_if (not (weights_approx_one fl (payload_variation_sum p)))
          ("payload_variation" ∷ []) sum_not_one

  unfoldable pub check_negative_paths : NegativePaths fl.Float → List Violation
  check_negative_paths n = check_entries (check_unit "negative_paths") (
      ("late_events_pct", n.late_events_pct)
      ∷ ("future_events_pct", n.future_events_pct)
      ∷ ("malformed_pct", n.malformed_pct)
      ∷ ("wrong_auth_pct", n.wrong_auth_pct)
      ∷ ("stale_keys_pct", n.stale_keys_pct)
      ∷ ("oversize_pct", n.oversize_pct)
      ∷ [])

  unfoldable pub check_lifecycle : LifecycleProfile fl.Float → List Violation
  check_lifecycle l = elim l.enabled [
    | false ↦ []
    | true ↦ check_entries (check_unit "lifecycle") (
        ("upgrades_per_hour_pct", l.upgrades_per_hour_pct)
        ∷ ("downgrades_per_hour_pct", l.downgrades_per_hour_pct)
        ∷ ("pause_resume_per_hour_pct", l.pause_resume_per_hour_pct)
        ∷ ("trial_conversion_per_hour_pct", l.trial_conversion_per_hour_pct)
        ∷ ("trial_cancel_per_hour_pct", l.trial_cancel_per_hour_pct)
        ∷ ("migrate_per_hour_pct", l.migrate_per_hour_pct)
        ∷ ("retry_payment_per_hour_pct", l.retry_payment_per_hour_pct)
        ∷ [])
  ]

  unfoldable pub check_assertions : Assertions fl.Float → List Violation
  check_assertions a =
      let leakage = "assertions" ∷ "cross_tenant_leakage_max" ∷ [] in
      report_if (ltz a.events_lost_max (pos 0)) ("assertions" ∷ "events_lost_max" ∷ []) negative
      ++ check_unit "assertions" "invoice_revenue_drift_pct_max" a.invoice_revenue_drift_pct_max
      ++ report_if (ltz a.p99_latency_ms_max (pos 0)) ("assertions" ∷ "p99_latency_ms_max" ∷ [])
          negative
      ++ check_unit "assertions" "per_tenant_p99_fairness_max_stddev_pct"
          a.per_tenant_p99_fairness_max_stddev_pct
      ++ check_unit "assertions" "redis_cache_hit_ratio_min" a.redis_cache_hit_ratio_min
      ++ report_if (ltz a.cross_tenant_leakage_max (pos 0)) leakage negative
      ++ report_if (ltz (pos 0) a.cross_tenant_leakage_max) leakage leakage_allowed

  unfoldable pub has_stale_state : List (String × fl.Float) → Bool
  has_stale_state [] = false
  has_stale_state ((state, w) ∷ mix) =
      fl.lt (fl.of_int 0) w && (is_key state "CANCELLED" || is_key state "EXPIRED")
      || has_stale_state mix

  unfoldable pub any_archetype_has_stale_states : List (TenantArchetype fl.Float) → Bool
  any_archetype_has_stale_states [] = false
  any_archetype_has_stale_states (a ∷ rest) =
      has_stale_state a.subscription_state_mix || any_archetype_has_stale_states rest

  unfoldable pub check_cross_field : Scenario fl.Float → List Violation
  check_cross_field s =
      report_if
        (fl.lt (fl.of_int 0) s.negative_paths.stale_keys_pct
          && not (any_archetype_has_stale_states s.tenants.archetypes))
        ("negative_paths" ∷ "stale_keys_pct" ∷ []) needs_stale_states
