-- ===== src/Scenario/Sections.antt =====
-- The sections of a scenario (internal/scenario/types.go). The kinds that the source gives a named string
-- type are texts. A duration is in nanoseconds.
use aforo_nextgen_loadgen.Base.{ℤ, Bool, String, List}
use aforo_nextgen_loadgen.Scenario.Rates.{TenantArchetype}

pub record Tenants (F : Type 0) : Type 0 where
  pub count : ℤ
  pub distribution : String
  pub archetypes : List (TenantArchetype F)

pub record ProductMix (F : Type 0) : Type 0 where
  pub api : F
  pub ai_agent : F
  pub mcp_server : F
  pub agentic_api : F

pub record IngestionPaths (F : Type 0) : Type 0 where
  pub rest_direct : F
  pub sdk_node : F
  pub sdk_python : F
  pub sdk_java : F
  pub sdk_go : F
  pub gateway_kong : F
  pub gateway_apigee : F
  pub gateway_aws : F
  pub gateway_azure : F
  pub gateway_mulesoft : F
  pub gateway_apisix : F
  pub gateway_tyk : F
  pub gateway_gravitee : F
  pub gateway_envoy : F
  pub webhook_receiver : F
  pub csv_upload : F
  pub mcp_json_rpc : F
  pub ai_agent_rest : F
  pub ai_agent_wire : F
  pub rest_batch : F

pub record RestBatch : Type 0 where
  pub size : ℤ
  pub max_wait : ℤ

pub record PayloadVariation (F : Type 0) : Type 0 where
  pub small_pct : F
  pub medium_pct : F
  pub large_pct : F

pub record NegativePaths (F : Type 0) : Type 0 where
  pub late_events_pct : F
  pub future_events_pct : F
  pub malformed_pct : F
  pub wrong_auth_pct : F
  pub stale_keys_pct : F
  pub oversize_pct : F

pub record LifecycleProfile (F : Type 0) : Type 0 where
  pub enabled : Bool
  pub upgrades_per_hour_pct : F
  pub downgrades_per_hour_pct : F
  pub pause_resume_per_hour_pct : F
  pub trial_conversion_per_hour_pct : F
  pub trial_cancel_per_hour_pct : F
  pub migrate_per_hour_pct : F
  pub retry_payment_per_hour_pct : F

pub record Payments (F : Type 0) : Type 0 where
  pub enabled : Bool
  pub stripe_mode : String
  pub success_pct : F
  pub decline_pct : F
  pub insufficient_funds_pct : F
  pub dunning_max_attempts : ℤ
  pub dunning_retry_interval_seconds : ℤ
  pub idempotency_prefix : String

pub record Tax (F : Type 0) : Type 0 where
  pub engine : String
  pub jurisdictions : List (String × F)
  pub jurisdiction_by_currency : List (String × String)
  pub default_jurisdiction : String
  pub tolerance_usd : F

pub record Erp (F : Type 0) : Type 0 where
  pub enabled : Bool
  pub providers_per_tenant_mix : List (String × F)
  pub sync_sla_seconds : ℤ
  pub multi_erp_enabled : Bool
  pub max_retries : ℤ
  pub verify_external_ids : Bool

pub record CreditNotes (F : Type 0) : Type 0 where
  pub enabled : Bool
  pub refund_pct : F
  pub partial_pct : F
  pub partial_amount_pct : F
  pub apply_to_invoice_pct : F
  pub reason : String

pub record Wallet : Type 0 where
  pub hold_expiry_audit : Bool
  pub hold_ttl_seconds : ℤ
  pub balance_audit_enabled : Bool

pub record Fx (F : Type 0) : Type 0 where
  pub enabled : Bool
  pub pinned_rates : List (String × F)
  pub applied_at : String

-- A value of a params map, of Go's type any; `whole` is an int or an int64, `other` any further type.
pub data Param (F : Type 0) : Type 0 where
  text : String → Param F
  whole : ℤ → Param F
  number : F → Param F
  null other : Param F

pub record ChaosEvent (F : Type 0) : Type 0 where
  pub at : ℤ
  pub kind : String
  pub duration : ℤ
  pub notes : String
  pub params : List (String × Param F)

pub record Chaos (F : Type 0) : Type 0 where
  pub enabled : Bool
  pub events : List (ChaosEvent F)

pub record Assertions (F : Type 0) : Type 0 where
  pub events_lost_max : ℤ
  pub invoice_revenue_drift_pct_max : F
  pub p99_latency_ms_max : ℤ
  pub per_tenant_p99_fairness_max_stddev_pct : F
  pub redis_cache_hit_ratio_min : F
  pub cross_tenant_leakage_max : ℤ
  pub per_archetype_billing_match : Bool
  pub stale_key_zero_false_positives : Bool

-- Without the description and the metadata, which no code here reads.
pub record Scenario (F : Type 0) : Type 0 where
  pub schema_version : ℤ
  pub name : String
  pub target_tps : ℤ
  pub duration : ℤ
  pub seed : ℤ
  pub tenants : Tenants F
  pub time_pattern : String
  pub product_mix : ProductMix F
  pub ingestion_paths : IngestionPaths F
  pub rest_batch : RestBatch
  pub payload_variation : PayloadVariation F
  pub outcome_mix : List (String × F)
  pub outcome_mix_by_product : List (String × List (String × F))
  pub negative_paths : NegativePaths F
  pub lifecycle : LifecycleProfile F
  pub payments : Payments F
  pub tax : Tax F
  pub erp : Erp F
  pub credit_notes : CreditNotes F
  pub wallet : Wallet
  pub fx : Fx F
  pub chaos : Chaos F
  pub assertions : Assertions F
