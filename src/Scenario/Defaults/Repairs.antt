-- ===== src/Scenario/Defaults/Repairs.antt =====
-- Sections filled in twice (internal/scenario/defaults.go).
use aforo_nextgen_loadgen.Base.{
  ℤ, pos, lez, ℕ, Bool, true, not, ◌&&◌, String, Option, none, some, is_key, if◌then◌else◌, ◌≡◌,
  refl, inl, inr, Bool-cases,
}
use aforo_nextgen_loadgen.Base.Floats.{Floats}
use aforo_nextgen_loadgen.Scenario.Rates.{RateConfig}
use aforo_nextgen_loadgen.Scenario.Sections.{
  PayloadVariation, Payments, Tax, Erp, CreditNotes, Wallet, Fx, Assertions,
}
use aforo_nextgen_loadgen.Scenario.Defaults.{
  text_or, positive_or, map_or, above_zero_or, is_zero_rate_config, rate_or, fill_payload,
  fill_payments, fill_tax, fill_erp, fill_credit_notes, fill_wallet, fill_fx, assertions_touched,
  fill_assertions, is_zero,
}

-- A repair made where a test asks for it makes no difference the second time, if it makes none to itself.
pub repair_idem :
    {A : Type 0} (is_bad : A → Bool) (f : A → A) (x : A)
    → f (f x) ≡ f x
    → (let y = if is_bad x then f x else x in if is_bad y then f y else y)
      ≡ (if is_bad x then f x else x)
repair_idem is_bad f x same = elim (Bool-cases (is_bad x)) [
  | inl bad ↦ rw bad (elim (Bool-cases (is_bad (f x))) [
    | inl again ↦ rw again same
    | inr repaired ↦ rw repaired refl
  ])
  | inr good ↦ rw (good, good) refl
]

pub text_or_idem : (t d : String) → text_or (text_or t d) d ≡ text_or t d
unfolding text_or
text_or_idem t d = repair_idem (λ x. is_key x "") (λ x. d) t refl

pub positive_or_idem : (n d : ℤ) → positive_or (positive_or n d) d ≡ positive_or n d
unfolding positive_or
positive_or_idem n d = repair_idem (λ x. lez x (pos 0)) (λ x. d) n refl

pub map_or_idem : {A : Type 0} (m d : Option A) → map_or (map_or m d) d ≡ map_or m d
unfolding map_or
map_or_idem (some m) d = refl
map_or_idem none none = refl
map_or_idem none (some d) = refl

module _ (fl : Floats) (card_name : ℕ → String) where
  pub above_zero_or_idem :
      (x d : fl.Float)
      → above_zero_or fl card_name (above_zero_or fl card_name x d) d
        ≡ above_zero_or fl card_name x d
  unfolding above_zero_or
  above_zero_or_idem x d = repair_idem (λ y. fl.le y (fl.of_int 0)) (λ y. d) x refl

  pub rate_or_idem :
      (x d : RateConfig fl.Float)
      → rate_or fl card_name (rate_or fl card_name x d) d ≡ rate_or fl card_name x d
  unfolding rate_or
  rate_or_idem x d = repair_idem (is_zero_rate_config fl card_name) (λ y. d) x refl

  abbrev set_payments : Payments fl.Float → Payments fl.Float
  set_payments p = record p {
    stripe_mode = text_or p.stripe_mode "test";
    dunning_max_attempts = positive_or p.dunning_max_attempts (pos 3);
    dunning_retry_interval_seconds = positive_or p.dunning_retry_interval_seconds (pos 60);
    idempotency_prefix = text_or p.idempotency_prefix "aforo-loadgen";
  }

  pub fill_payments_idem :
      (p : Payments fl.Float)
      → fill_payments fl card_name (fill_payments fl card_name p) ≡ fill_payments fl card_name p
  unfolding fill_payments
  fill_payments_idem p =
      repair_idem (λ (q : Payments fl.Float). q.enabled) set_payments p
        (simp (text_or_idem, positive_or_idem) refl)

  abbrev default_payload : PayloadVariation fl.Float
  default_payload = record {
    small_pct = fl.quot (fl.of_int 7) (fl.of_int 10);
    medium_pct = fl.quot (fl.of_int 25) (fl.of_int 100);
    large_pct = fl.quot (fl.of_int 5) (fl.of_int 100);
  }

  pub fill_payload_idem :
      (p : PayloadVariation fl.Float)
      → fill_payload fl card_name (fill_payload fl card_name p) ≡ fill_payload fl card_name p
  unfolding fill_payload
  fill_payload_idem p =
      repair_idem
        (λ (q : PayloadVariation fl.Float).
          is_zero fl card_name q.small_pct
          && is_zero fl card_name q.medium_pct
          && is_zero fl card_name q.large_pct)
        (λ q. default_payload) p refl

  pub fill_tax_idem :
      (t : Tax fl.Float) → fill_tax fl card_name (fill_tax fl card_name t) ≡ fill_tax fl card_name t
  unfolding fill_tax
  fill_tax_idem t = simp (text_or_idem, above_zero_or_idem) refl

  abbrev set_erp : Erp fl.Float → Erp fl.Float
  set_erp e = record e {
    max_retries = positive_or e.max_retries (pos 3);
    verify_external_ids = true;
  }

  pub fill_erp_idem :
      (e : Erp fl.Float) → fill_erp fl card_name (fill_erp fl card_name e) ≡ fill_erp fl card_name e
  unfolding fill_erp
  fill_erp_idem e =
      repair_idem (λ (x : Erp fl.Float). x.enabled) set_erp e (simp positive_or_idem refl)

  abbrev set_credit_notes : CreditNotes fl.Float → CreditNotes fl.Float
  set_credit_notes c = record c {
    partial_amount_pct =
        above_zero_or fl card_name c.partial_amount_pct (fl.quot (fl.of_int 1) (fl.of_int 2));
    apply_to_invoice_pct = above_zero_or fl card_name c.apply_to_invoice_pct (fl.of_int 1);
    reason = text_or c.reason "PRORATION";
  }

  pub fill_credit_notes_idem :
      (c : CreditNotes fl.Float)
      → fill_credit_notes fl card_name (fill_credit_notes fl card_name c)
        ≡ fill_credit_notes fl card_name c
  unfolding fill_credit_notes
  fill_credit_notes_idem c =
      repair_idem (λ (x : CreditNotes fl.Float). x.enabled) set_credit_notes c
        (simp (text_or_idem, above_zero_or_idem) refl)

  pub fill_wallet_idem :
      (w : Wallet)
      → fill_wallet fl card_name (fill_wallet fl card_name w) ≡ fill_wallet fl card_name w
  unfolding fill_wallet
  fill_wallet_idem w = simp positive_or_idem refl

  pub fill_fx_idem :
      (f : Fx fl.Float) → fill_fx fl card_name (fill_fx fl card_name f) ≡ fill_fx fl card_name f
  unfolding fill_fx
  fill_fx_idem f = simp text_or_idem refl

  abbrev set_assertions : Assertions fl.Float → Assertions fl.Float
  set_assertions a = record a {
    cross_tenant_leakage_max = pos 0;
    per_archetype_billing_match = true;
    stale_key_zero_false_positives = true;
  }

  pub fill_assertions_idem :
      (a : Assertions fl.Float)
      → fill_assertions fl card_name (fill_assertions fl card_name a)
        ≡ fill_assertions fl card_name a
  unfolding fill_assertions
  fill_assertions_idem a =
      repair_idem (λ (x : Assertions fl.Float). not (assertions_touched fl card_name x))
        set_assertions a refl
