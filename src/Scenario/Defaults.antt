-- ===== src/Scenario/Defaults.antt =====
-- The defaults of a scenario: internal/scenario/defaults.go.
use aforo_nextgen_loadgen.Base.{
  ℤ, pos, lez, eqz, ℕ, suc, ◌+◌, Bool, true, false, not, ◌&&◌, ◌||◌, String, Option, none, some,
  List, [], ◌∷◌, map, length, is_key, if◌then◌else◌,
}
use aforo_nextgen_loadgen.Base.Floats.{Floats}
use aforo_nextgen_loadgen.Scenario.Bands.{is_empty}
use aforo_nextgen_loadgen.Scenario.Rates.{RateConfig, MetricOverride, RateCardSpec, TenantArchetype}
use aforo_nextgen_loadgen.Scenario.Sections.{
  Tenants, PayloadVariation, Payments, Tax, Erp, CreditNotes, Wallet, Fx, Assertions, Scenario,
}
pub mod Repairs
pub mod Cards
pub mod Idempotence

-- if t == "" { t = d }
unfoldable pub text_or : String → String → String
text_or t d = if is_key t "" then d else t

-- if n <= 0 { n = d }
unfoldable pub positive_or : ℤ → ℤ → ℤ
positive_or n d = if lez n (pos 0) then d else n

-- if m == nil { m = d }
unfoldable pub map_or : {A : Type 0} → Option A → Option A → Option A
map_or none d = d
map_or (some m) d = some m

-- `card_name j` is the text of fmt.Sprintf("card-%d", j).
module _ (fl : Floats) (card_name : ℕ → String) where
  -- x == 0
  abbrev pub is_zero : fl.Float → Bool
  is_zero x = fl.eq x (fl.of_int 0)

  -- if x <= 0 { x = d }
  unfoldable pub above_zero_or : fl.Float → fl.Float → fl.Float
  above_zero_or x d = if fl.le x (fl.of_int 0) then d else x

  unfoldable pub is_zero_rate_config : RateConfig fl.Float → Bool
  is_zero_rate_config rc =
      is_zero rc.flat_fee_usd
      && is_zero rc.per_unit_rate_usd
      && is_zero rc.percentage_rate
      && is_zero rc.charge_base_per_event_usd
      && is_zero rc.min_fee_usd
      && eqz rc.included_free_units (pos 0)
      && eqz rc.block_size_units (pos 0)
      && is_empty rc.graduated_tiers
      && is_empty rc.volume_tiers
      && is_zero rc.wallet_initial_balance_usd
      && eqz rc.trial_days (pos 0)
      && is_empty rc.outcome_weights
      && is_empty rc.staircase_bands

  unfoldable pub rate_or : RateConfig fl.Float → RateConfig fl.Float → RateConfig fl.Float
  rate_or rc d = if is_zero_rate_config rc then d else rc

  -- The card of an archetype that has none.
  unfoldable pub default_card : TenantArchetype fl.Float → RateCardSpec fl.Float
  default_card a = record {
    name = "default";
    pricing_model = a.pricing_model;
    billing_mode = a.billing_mode;
    rate_config = a.rate_config;
    metric_configs = a.metric_configs;
    dimension_pricing = a.dimension_pricing;
    product_filter = [];
    offerings = [];
    customer_share = fl.of_int 1;
  }

  -- What card `j` takes from its archetype.
  unfoldable pub inherit :
      TenantArchetype fl.Float → ℕ → RateCardSpec fl.Float → RateCardSpec fl.Float
  inherit a j rc = record rc {
    name = text_or rc.name (card_name (j + 1));
    pricing_model = text_or rc.pricing_model a.pricing_model;
    billing_mode = text_or rc.billing_mode a.billing_mode;
    rate_config = rate_or rc.rate_config a.rate_config;
    metric_configs = map_or rc.metric_configs a.metric_configs;
    dimension_pricing = map_or rc.dimension_pricing a.dimension_pricing;
  }

  unfoldable pub inherit_all :
      TenantArchetype fl.Float → ℕ → List (RateCardSpec fl.Float) → List (RateCardSpec fl.Float)
  inherit_all a j [] = []
  inherit_all a j (rc ∷ rest) = inherit a j rc ∷ inherit_all a (suc j) rest

  unfoldable pub any_shares_set : List (RateCardSpec fl.Float) → Bool
  any_shares_set [] = false
  any_shares_set (rc ∷ rest) = fl.lt (fl.of_int 0) rc.customer_share || any_shares_set rest

  unfoldable pub set_shares : fl.Float → List (RateCardSpec fl.Float) → List (RateCardSpec fl.Float)
  set_shares share [] = []
  set_shares share (rc ∷ rest) = record rc { customer_share = share } ∷ set_shares share rest

  -- Equal shares, if no card has one.
  unfoldable pub share_out : List (RateCardSpec fl.Float) → List (RateCardSpec fl.Float)
  share_out cards =
      if not (any_shares_set cards)
      then set_shares (fl.quot (fl.of_int 1) (fl.of_int (length cards))) cards
      else cards

  unfoldable pub fill_cards :
      TenantArchetype fl.Float → List (RateCardSpec fl.Float) → List (RateCardSpec fl.Float)
  fill_cards a [] = default_card a ∷ []
  fill_cards a (rc ∷ rest) = share_out (inherit_all a 0 (rc ∷ rest))

  -- The bodies of the two loops on the archetypes.
  unfoldable pub fill_archetype : TenantArchetype fl.Float → TenantArchetype fl.Float
  fill_archetype a = record a {
    products_per_type = (if eqz a.products_per_type (pos 0) then pos 1 else a.products_per_type);
    rate_cards = fill_cards a a.rate_cards;
  }

  unfoldable pub fill_tenants : Tenants fl.Float → Tenants fl.Float
  fill_tenants t = record t {
    distribution = text_or t.distribution "uniform";
    archetypes = map fill_archetype t.archetypes;
  }

  unfoldable pub fill_payload : PayloadVariation fl.Float → PayloadVariation fl.Float
  fill_payload p =
      if is_zero p.small_pct && is_zero p.medium_pct && is_zero p.large_pct
      then record {
        small_pct = fl.quot (fl.of_int 7) (fl.of_int 10);
        medium_pct = fl.quot (fl.of_int 25) (fl.of_int 100);
        large_pct = fl.quot (fl.of_int 5) (fl.of_int 100);
      }
      else p

  unfoldable pub fill_payments : Payments fl.Float → Payments fl.Float
  fill_payments p =
      if p.enabled
      then record p {
        stripe_mode = text_or p.stripe_mode "test";
        dunning_max_attempts = positive_or p.dunning_max_attempts (pos 3);
        dunning_retry_interval_seconds = positive_or p.dunning_retry_interval_seconds (pos 60);
        idempotency_prefix = text_or p.idempotency_prefix "aforo-loadgen";
      }
      else p

  unfoldable pub fill_tax : Tax fl.Float → Tax fl.Float
  fill_tax t = record t {
    engine = text_or t.engine "mock";
    tolerance_usd = above_zero_or t.tolerance_usd (fl.quot (fl.of_int 1) (fl.of_int 100));
  }

  unfoldable pub fill_erp : Erp fl.Float → Erp fl.Float
  fill_erp e =
      if e.enabled
      then record e { max_retries = positive_or e.max_retries (pos 3); verify_external_ids = true }
      else e

  unfoldable pub fill_credit_notes : CreditNotes fl.Float → CreditNotes fl.Float
  fill_credit_notes c =
      if c.enabled
      then record c {
        partial_amount_pct =
            above_zero_or c.partial_amount_pct (fl.quot (fl.of_int 1) (fl.of_int 2));
        apply_to_invoice_pct = above_zero_or c.apply_to_invoice_pct (fl.of_int 1);
        reason = text_or c.reason "PRORATION";
      }
      else c

  unfoldable pub fill_wallet : Wallet → Wallet
  fill_wallet w = record w { hold_ttl_seconds = positive_or w.hold_ttl_seconds (pos 60) }

  unfoldable pub fill_fx : Fx fl.Float → Fx fl.Float
  fill_fx f = record f { applied_at = text_or f.applied_at "bill_run_time" }

  unfoldable pub assertions_touched : Assertions fl.Float → Bool
  assertions_touched a =
      not (eqz a.events_lost_max (pos 0))
      || not (is_zero a.invoice_revenue_drift_pct_max)
      || not (eqz a.p99_latency_ms_max (pos 0))
      || not (is_zero a.per_tenant_p99_fairness_max_stddev_pct)
      || not (is_zero a.redis_cache_hit_ratio_min)
      || not (eqz a.cross_tenant_leakage_max (pos 0))

  unfoldable pub fill_assertions : Assertions fl.Float → Assertions fl.Float
  fill_assertions a =
      if not (assertions_touched a)
      then record a {
        cross_tenant_leakage_max = pos 0;
        per_archetype_billing_match = true;
        stale_key_zero_false_positives = true;
      }
      else a

  unfoldable pub apply_defaults : Scenario fl.Float → Scenario fl.Float
  apply_defaults s = record s {
    tenants = fill_tenants s.tenants;
    time_pattern = text_or s.time_pattern "constant";
    payload_variation = fill_payload s.payload_variation;
    tax = fill_tax s.tax;
    payments = fill_payments s.payments;
    erp = fill_erp s.erp;
    credit_notes = fill_credit_notes s.credit_notes;
    wallet = fill_wallet s.wallet;
    fx = fill_fx s.fx;
    assertions = fill_assertions s.assertions;
  }
