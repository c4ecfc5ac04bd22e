-- ===== src/Scenario/Names.antt =====
-- The names that a scenario may use (internal/scenario/types.go and validator.go).
use aforo_nextgen_loadgen.Base.{
  ℕ, Bool, false, ◌||◌, ◌&&◌, String, List, [], ◌∷◌, is_key, ltb, ◌==◌,
}
use aforo_nextgen_loadgen.Lifecycle.Wire.{Strings, normal}

unfoldable pub is_one_of : List String → String → Bool
is_one_of [] m = false
is_one_of (x ∷ xs) m = is_key m x || is_one_of xs m

abbrev pub all_pricing_models : List String
all_pricing_models =
    "PER_UNIT" ∷ "FLAT_RATE" ∷ "PERCENTAGE" ∷ "INCLUDED_QUOTA" ∷ "GRADUATED" ∷ "VOLUME_TIERED"
    ∷ "STAIRCASE" ∷ "OUTCOME_BASED" ∷ []

abbrev pub all_billing_modes : List String
all_billing_modes = "POSTPAID" ∷ "PREPAID" ∷ "HYBRID" ∷ []

abbrev pub all_product_types : List String
all_product_types = "API" ∷ "AI_AGENT" ∷ "MCP_SERVER" ∷ "AGENTIC_API" ∷ []

abbrev pub all_subscription_states : List String
all_subscription_states =
    "CREATED" ∷ "TRIALING" ∷ "ACTIVE" ∷ "PAST_DUE" ∷ "PAUSED" ∷ "EXPIRING_SOON" ∷ "EXPIRED"
    ∷ "CANCELLED" ∷ "SUSPENDED" ∷ []

abbrev pub execution_statuses : List String
execution_statuses =
    "SUCCESS" ∷ "PARTIAL" ∷ "TIMEOUT" ∷ "ERROR" ∷ "VALIDATION_FAILED" ∷ "FAILED" ∷ "FAILURE"
    ∷ "CANCELLED" ∷ "PENDING" ∷ "BLOCKED" ∷ "HITL_REQUIRED" ∷ []

abbrev pub supported_chaos_types : List String
supported_chaos_types = "kafka_kill" ∷ "redis_flush" ∷ "ch_slowdown" ∷ "net_partition" ∷ []

unfoldable pub is_valid_pricing_model : String → Bool
unfolding is_one_of
is_valid_pricing_model m = is_one_of all_pricing_models m

unfoldable pub is_valid_billing_mode : String → Bool
unfolding is_one_of
is_valid_billing_mode m = is_one_of all_billing_modes m

unfoldable pub is_valid_product_type : String → Bool
unfolding is_one_of
is_valid_product_type t = is_one_of all_product_types t

unfoldable pub is_valid_subscription_state : String → Bool
unfolding is_one_of
is_valid_subscription_state s = is_one_of all_subscription_states s

-- IsExecutionStatus, with NormalizeExecutionStatus, which is `normal`.
unfoldable pub is_execution_status : Strings → String → Bool
unfolding is_one_of
is_execution_status lib s = is_one_of execution_statuses (normal lib s)

unfoldable pub is_known_erp_provider : String → Bool
unfolding is_one_of
is_known_erp_provider k = is_one_of ("quickbooks" ∷ "xero" ∷ "netsuite" ∷ "custom_webhook" ∷ []) k

unfoldable pub is_supported_chaos_type : String → Bool
unfolding is_one_of
is_supported_chaos_type t = is_one_of supported_chaos_types t

-- 65 to 90 are the upper-case letters.
abbrev pub is_upper : ℕ → Bool
is_upper c = ltb 64 c && ltb c 91

-- On the bytes of the key: 45 is '-' and 62 is '>'.
unfoldable pub is_valid_fx_pair : List ℕ → Bool
is_valid_fx_pair (a ∷ b ∷ c ∷ d ∷ e ∷ f ∷ g ∷ h ∷ []) =
    d == 45
    && e == 62
    && is_upper a
    && is_upper f
    && is_upper b
    && is_upper g
    && is_upper c
    && is_upper h
is_valid_fx_pair _ = false
