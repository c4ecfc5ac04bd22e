-- ===== src/Scenario/Services.antt =====
-- The checks of the services that a scenario uses: checkPayments, checkTax, checkERP, checkCreditNotes,
-- checkWallet, checkFX and checkChaos of internal/scenario/validator.go.
use aforo_nextgen_loadgen.Base.{
  ℤ, pos, neg, lez, ltz, ℕ, Bool, true, false, not, ◌&&◌, String, none, some, List, [], ◌∷◌, ◌++◌,
  is_key, find, if◌then◌else◌,
}
use aforo_nextgen_loadgen.Base.Floats.{Floats}
use aforo_nextgen_loadgen.Scenario.Bands.{is_empty}
use aforo_nextgen_loadgen.Scenario.Models.{is_not_above_zero}
use aforo_nextgen_loadgen.Scenario.Sections.{
  Payments, Tax, Erp, CreditNotes, Wallet, Fx, Param, text, whole, number, null, other, ChaosEvent,
  Chaos,
}
use aforo_nextgen_loadgen.Scenario.Names.{
  is_one_of, is_known_erp_provider, is_supported_chaos_type, is_valid_fx_pair,
}
use aforo_nextgen_loadgen.Scenario.Report.{
  required, unknown_kind, not_positive, negative, not_in_unit, is_off_unit, sum_not_one,
  sum_above_one, not_a_pair, unknown_jurisdiction, missing_param, Violation, Library, report_if,
  check_each, check_entries, weights_approx_one,
}
use aforo_nextgen_loadgen.Scenario.Checks.{check_unit}
use aforo_nextgen_loadgen.Scenario.Weights.{check_weight_map}

module _ (fl : Floats) (lib : Library fl.Float) where
  unfoldable pub check_stripe_mode : String → List Violation
  check_stripe_mode mode = elim (is_key mode "") [
    | true ↦ report_if true ("payments" ∷ "stripe_mode" ∷ []) required
    | false ↦
        report_if (not (is_one_of ("test" ∷ "live" ∷ []) mode)) ("payments" ∷ "stripe_mode" ∷ [])
          unknown_kind
  ]

  unfoldable pub check_payments : Payments fl.Float → List Violation
  check_payments p =
      let sum = fl.add (fl.add p.success_pct p.decline_pct) p.insufficient_funds_pct in
      elim p.enabled [
        | false ↦ []
        | true ↦
            check_stripe_mode p.stripe_mode
            ++ check_entries (check_unit fl lib "payments") (
                ("success_pct", p.success_pct)
                ∷ ("decline_pct", p.decline_pct)
                ∷ ("insufficient_funds_pct", p.insufficient_funds_pct)
                ∷ [])
            ++ report_if (fl.lt (fl.of_int 0) sum && not (weights_approx_one fl sum))
                ("payments" ∷ []) sum_not_one
            ++ report_if (ltz p.dunning_max_attempts (pos 0))
                ("payments" ∷ "dunning_max_attempts" ∷ []) negative
            ++ report_if (ltz p.dunning_retry_interval_seconds (pos 0))
                ("payments" ∷ "dunning_retry_interval_seconds" ∷ []) negative
      ]

  -- Whether a table of jurisdictions that is not empty lacks one.
  unfoldable pub is_unknown_jurisdiction : List (String × fl.Float) → String → Bool
  is_unknown_jurisdiction table jur = elim table [
    | [] ↦ false
    | e ∷ rest ↦ elim (find jur (e ∷ rest)) [ none ↦ true | some rate ↦ false ]
  ]

  unfoldable pub check_currency : List (String × fl.Float) → String → String → List Violation
  check_currency table currency jur =
      let at = "tax" ∷ "jurisdiction_by_currency" ∷ currency ∷ [] in
      report_if (is_key currency "") ("tax" ∷ "jurisdiction_by_currency" ∷ []) required
      ++ elim (is_key jur "") [
        | true ↦ report_if true at required
        | false ↦ report_if (is_unknown_jurisdiction table jur) at unknown_jurisdiction
      ]

  unfoldable pub check_jurisdiction : String → fl.Float → List Violation
  check_jurisdiction jur rate =
      report_if (is_off_unit fl rate) ("tax" ∷ "jurisdictions" ∷ jur ∷ []) not_in_unit

  unfoldable pub check_tax : Tax fl.Float → List Violation
  check_tax t =
      report_if (not (is_one_of ("mock" ∷ "avalara" ∷ "vertex" ∷ []) t.engine))
        ("tax" ∷ "engine" ∷ []) unknown_kind
      ++ check_entries check_jurisdiction t.jurisdictions
      ++ check_entries (check_currency t.jurisdictions) t.jurisdiction_by_currency
      ++ report_if
          (not (is_key t.default_jurisdiction "")
            && is_unknown_jurisdiction t.jurisdictions t.default_jurisdiction)
          ("tax" ∷ "default_jurisdiction" ∷ []) unknown_jurisdiction
      ++ report_if (fl.lt t.tolerance_usd (fl.of_int 0)) ("tax" ∷ "tolerance_usd" ∷ []) negative

  unfoldable pub check_provider : String → fl.Float → List Violation
  check_provider k w =
      report_if (not (is_known_erp_provider k)) ("erp" ∷ "providers_per_tenant_mix" ∷ k ∷ [])
        unknown_kind

  unfoldable pub check_erp : Erp fl.Float → List Violation
  check_erp e = elim e.enabled [
    | false ↦ []
    | true ↦
        report_if (lez e.sync_sla_seconds (pos 0)) ("erp" ∷ "sync_sla_seconds" ∷ []) not_positive
        ++ check_weight_map fl lib ("erp" ∷ "providers_per_tenant_mix" ∷ [])
            e.providers_per_tenant_mix true
        ++ check_entries check_provider e.providers_per_tenant_mix
        ++ report_if (ltz e.max_retries (pos 0)) ("erp" ∷ "max_retries" ∷ []) negative
  ]

  -- 1001 / 1000 is 1.0 + weightTolerance.
  unfoldable pub check_credit_notes : CreditNotes fl.Float → List Violation
  check_credit_notes c = elim c.enabled [
    | false ↦ []
    | true ↦
        check_unit fl lib "credit_notes" "refund_pct" c.refund_pct
        ++ check_unit fl lib "credit_notes" "partial_pct" c.partial_pct
        ++ report_if
            (fl.lt (fl.quot (fl.of_int 1001) (fl.of_int 1000)) (fl.add c.refund_pct c.partial_pct))
            ("credit_notes" ∷ []) sum_above_one
        ++ check_unit fl lib "credit_notes" "partial_amount_pct" c.partial_amount_pct
        ++ check_unit fl lib "credit_notes" "apply_to_invoice_pct" c.apply_to_invoice_pct
  ]

  unfoldable pub check_wallet : Wallet → List Violation
  check_wallet w =
      report_if (ltz w.hold_ttl_seconds (pos 0)) ("wallet" ∷ "hold_ttl_seconds" ∷ []) negative

  unfoldable pub check_pinned_rate : String → fl.Float → List Violation
  check_pinned_rate pair rate =
      report_if (is_not_above_zero fl lib rate) ("fx" ∷ "pinned_rates" ∷ pair ∷ []) not_positive
      ++ report_if (not (is_valid_fx_pair (lib.bytes pair))) ("fx" ∷ "pinned_rates" ∷ pair ∷ [])
          not_a_pair

  unfoldable pub check_fx : Fx fl.Float → List Violation
  check_fx f = elim (not f.enabled && is_empty f.pinned_rates) [
    | true ↦ []
    | false ↦
        check_entries check_pinned_rate f.pinned_rates
        ++ report_if
            (not (is_one_of ("" ∷ "bill_run_time" ∷ "event_ingest_time" ∷ []) f.applied_at))
            ("fx" ∷ "applied_at" ∷ []) unknown_kind
  ]

  unfoldable pub required_params : String → List String
  required_params kind =
      if is_key kind "kafka_kill"
      then "instance_id" ∷ []
      else if is_key kind "redis_flush"
      then "bastion_instance_id" ∷ "cache_endpoint" ∷ []
      else if is_key kind "ch_slowdown"
      then "instance_id" ∷ []
      else if is_key kind "net_partition"
      then "source_instance_id" ∷ "dest_ip" ∷ []
      else []

  unfoldable pub has_non_empty_param : List (String × Param fl.Float) → String → Bool
  has_non_empty_param params key = elim (find key params) [
    | none ↦ false
    | some v ↦ elim v [
      | text t ↦ not (is_key t "")
      | null ↦ false
      | whole n ↦ true
      | number x ↦ true
      | other ↦ true
    ]
  ]

  -- int(x) of a float drops what is after the point.
  unfoldable pub to_int : Param fl.Float → ℤ
  to_int (whole n) = n
  to_int (number x) =
      if fl.lt x (fl.of_int 0) then neg (fl.to_int (fl.sub (fl.of_int 0) x)) else pos (fl.to_int x)
  to_int _ = pos 0

  unfoldable pub check_param :
      List String → List (String × Param fl.Float) → ℕ → String → List Violation
  check_param at params j key =
      report_if (not (has_non_empty_param params key)) (at ++ "params" ∷ key ∷ []) missing_param

  unfoldable pub check_latency : List String → ChaosEvent fl.Float → List Violation
  check_latency at e = elim (find "latency_ms" e.params) [
    | none ↦ []
    | some raw ↦
        report_if (is_key e.kind "ch_slowdown" && lez (to_int raw) (pos 0))
          (at ++ "params" ∷ "latency_ms" ∷ []) not_positive
  ]

  unfoldable pub check_chaos_params : List String → ChaosEvent fl.Float → List Violation
  check_chaos_params at e =
      check_each (check_param at e.params) 0 (required_params e.kind) ++ check_latency at e

  unfoldable pub check_chaos_kind : List String → ChaosEvent fl.Float → List Violation
  check_chaos_kind at e = elim (is_key e.kind "") [
    | true ↦ report_if true (at ++ "type" ∷ []) required
    | false ↦ elim (is_supported_chaos_type e.kind) [
      | false ↦ report_if true (at ++ "type" ∷ []) unknown_kind
      | true ↦ check_chaos_params at e
    ]
  ]

  unfoldable pub check_chaos_event : ℕ → ChaosEvent fl.Float → List Violation
  check_chaos_event i e =
      let base = "chaos" ∷ "events" ∷ lib.index_seg i ∷ [] in
      report_if (ltz e.at (pos 0)) (base ++ "at" ∷ []) negative
      ++ report_if (ltz e.duration (pos 0)) (base ++ "duration" ∷ []) negative
      ++ check_chaos_kind base e

  unfoldable pub check_chaos : Chaos fl.Float → List Violation
  check_chaos c = elim c.enabled [
    | false ↦ []
    | true ↦ elim c.events [
      | [] ↦ report_if true ("chaos" ∷ "events" ∷ []) required
      | e ∷ rest ↦ check_each check_chaos_event 0 (e ∷ rest)
    ]
  ]
