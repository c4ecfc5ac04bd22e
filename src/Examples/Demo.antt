-- ===== src/Examples/Demo.antt =====
-- A scenario of two archetypes, in whole numbers in place of float64.

use aforo_nextgen_loadgen.Base.{pos, ℕ, zero, suc, true, false, String, none, List, [], ◌∷◌}
use aforo_nextgen_loadgen.Lifecycle.Wire.{Strings}
use aforo_nextgen_loadgen.Scenario.Rates.{
  TierBand, StaircaseBand, RateConfig, RateCardSpec, TenantArchetype,
}
use aforo_nextgen_loadgen.Scenario.Sections.{Scenario}
use aforo_nextgen_loadgen.Scenario.Report.{Library}

abbrev pub plain_strings : Strings
plain_strings = record {
  to_upper = λ s. s;
  trim_space = λ s. s;
  replace_newlines = λ s. s;
  byte_len = λ s. 0;
  byte_prefix = λ s n. s;
  join = λ s t. s;
}

abbrev pub seg : ℕ → String
seg zero = "[0]"
seg (suc n) = "[n]"

-- The weights, the mixes and the bands are in order as they stand.
abbrev pub in_order : Library ℕ
in_order = record {
  index_seg = seg;
  is_kebab_case = λ s. true;
  strings = plain_strings;
  bytes = λ s. 85 ∷ 83 ∷ 68 ∷ [];
  sort_weights = λ ws. ws;
  sort_mixes = λ ms. ms;
  sort_order = λ bs. bs;
}

abbrev pub no_rate : RateConfig ℕ
no_rate = record {
  flat_fee_usd = 0;
  per_unit_rate_usd = 0;
  percentage_rate = 0;
  charge_base_per_event_usd = 0;
  min_fee_usd = 0;
  included_free_units = pos 0;
  block_size_units = pos 0;
  graduated_tiers = [];
  volume_tiers = [];
  wallet_initial_balance_usd = 0;
  trial_days = pos 0;
  outcome_weights = [];
  staircase_bands = [];
}

abbrev pub steps : List (StaircaseBand ℕ)
steps =
    record { from_units = pos 1; to_units = pos 5; price_usd = 9 }
    ∷ record { from_units = pos 6; to_units = pos 0; price_usd = 15 }
    ∷ []

abbrev pub tiers : List (TierBand ℕ)
tiers =
    record { up_to_units = pos 1000; unit_price_usd = 3; flat_fee_usd = 0 }
    ∷ record { up_to_units = pos 0; unit_price_usd = 2; flat_fee_usd = 0 }
    ∷ []

abbrev pub card : String → String → RateConfig ℕ → ℕ → RateCardSpec ℕ
card name model rc share = record {
  name = name;
  pricing_model = model;
  billing_mode = "POSTPAID";
  rate_config = rc;
  metric_configs = none;
  dimension_pricing = none;
  product_filter = [];
  offerings = [];
  customer_share = share;
}

abbrev pub archetype : String → ℕ → RateConfig ℕ → List (RateCardSpec ℕ) → TenantArchetype ℕ
archetype name weight rc cards = record {
  name = name;
  weight = weight;
  pricing_model = "PER_UNIT";
  billing_mode = "POSTPAID";
  product_types = "API" ∷ [];
  customer_count = pos 2;
  currency_mix = [];
  subscription_state_mix = [];
  discount_mix = [];
  rate_config = rc;
  products_per_type = pos 1;
  metric_configs = none;
  dimension_pricing = none;
  rate_cards = cards;
}

abbrev pub unit_rate : RateConfig ℕ
unit_rate = record no_rate { per_unit_rate_usd = 2 }

abbrev pub demo_archetypes : List (TenantArchetype ℕ)
demo_archetypes =
    archetype "small" 1 unit_rate (
      card "steps" "STAIRCASE" (record no_rate { staircase_bands = steps }) 1
      ∷ card "tiers" "GRADUATED" (record no_rate { graduated_tiers = tiers }) 0
      ∷ [])
    ∷ archetype "large" 0 unit_rate (card "default" "PER_UNIT" unit_rate 1 ∷ [])
    ∷ []

abbrev pub demo : Scenario ℕ
demo = record {
  schema_version = pos 2;
  name = "demo";
  target_tps = pos 10;
  duration = pos 60;
  seed = pos 1;
  tenants = record { count = pos 3; distribution = "uniform"; archetypes = demo_archetypes };
  time_pattern = "constant";
  product_mix = record { api = 0; ai_agent = 0; mcp_server = 0; agentic_api = 0 };
  ingestion_paths = record {
    rest_direct = 1;
    sdk_node = 0;
    sdk_python = 0;
    sdk_java = 0;
    sdk_go = 0;
    gateway_kong = 0;
    gateway_apigee = 0;
    gateway_aws = 0;
    gateway_azure = 0;
    gateway_mulesoft = 0;
    gateway_apisix = 0;
    gateway_tyk = 0;
    gateway_gravitee = 0;
    gateway_envoy = 0;
    webhook_receiver = 0;
    csv_upload = 0;
    mcp_json_rpc = 0;
    ai_agent_rest = 0;
    ai_agent_wire = 0;
    rest_batch = 0;
  };
  rest_batch = record { size = pos 0; max_wait = pos 0 };
  payload_variation = record { small_pct = 1; medium_pct = 0; large_pct = 0 };
  outcome_mix = [];
  outcome_mix_by_product = [];
  negative_paths = record {
    late_events_pct = 0;
    future_events_pct = 0;
    malformed_pct = 0;
    wrong_auth_pct = 0;
    stale_keys_pct = 0;
    oversize_pct = 0;
  };
  lifecycle = record {
    enabled = false;
    upgrades_per_hour_pct = 0;
    downgrades_per_hour_pct = 0;
    pause_resume_per_hour_pct = 0;
    trial_conversion_per_hour_pct = 0;
    trial_cancel_per_hour_pct = 0;
    migrate_per_hour_pct = 0;
    retry_payment_per_hour_pct = 0;
  };
  payments = record {
    enabled = false;
    stripe_mode = "";
    success_pct = 0;
    decline_pct = 0;
    insufficient_funds_pct = 0;
    dunning_max_attempts = pos 0;
    dunning_retry_interval_seconds = pos 0;
    idempotency_prefix = "";
  };
  tax = record {
    engine = "mock";
    jurisdictions = [];
    jurisdiction_by_currency = [];
    default_jurisdiction = "";
    tolerance_usd = 0;
  };
  erp = record {
    enabled = false;
    providers_per_tenant_mix = [];
    sync_sla_seconds = pos 0;
    multi_erp_enabled = false;
    max_retries = pos 0;
    verify_external_ids = false;
  };
  credit_notes = record {
    enabled = false;
    refund_pct = 0;
    partial_pct = 0;
    partial_amount_pct = 0;
    apply_to_invoice_pct = 0;
    reason = "";
  };
  wallet = record {
    hold_expiry_audit = false;
    hold_ttl_seconds = pos 60;
    balance_audit_enabled = false;
  };
  fx = record { enabled = false; pinned_rates = []; applied_at = "bill_run_time" };
  chaos = record { enabled = false; events = [] };
  assertions = record {
    events_lost_max = pos 0;
    invoice_revenue_drift_pct_max = 0;
    p99_latency_ms_max = pos 0;
    per_tenant_p99_fairness_max_stddev_pct = 0;
    redis_cache_hit_ratio_min = 0;
    cross_tenant_leakage_max = pos 0;
    per_archetype_billing_match = true;
    stale_key_zero_false_positives = true;
  };
}
