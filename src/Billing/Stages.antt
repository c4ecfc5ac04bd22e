-- ===== src/Billing/Stages.antt =====
-- The stages after the rate: applyDiscount and route of internal/validate/billing/billing.go, with the
-- checks of single stages in discount.go, router.go and tax.go.
use aforo_nextgen_loadgen.Base.{
  ℕ, Bool, true, false, not, ◌&&◌, ◌||◌, String, Option, none, some, is_key, if◌then◌else◌,
}
use aforo_nextgen_loadgen.Base.Floats.{Floats}
use aforo_nextgen_loadgen.Billing.{Mode, postpaid, prepaid, hybrid, no_mode, Discount}
use aforo_nextgen_loadgen.Billing.Linear.{round_cents}
pub mod Bounds

pub record DiscountCheck (F : Type 0) : Type 0 where
  pub subtotal : F
  pub discount : Option (Discount F)
  pub applied_amt : F
  pub net_subtotal : F

pub record RouteCheck (F : Type 0) : Type 0 where
  pub total : F
  pub mode : Mode
  pub wallet_available : F
  pub wallet_debit : F
  pub invoice_usd : F

pub record TaxCheck (F : Type 0) : Type 0 where
  pub taxable : F
  pub tax_pct : F
  pub tax_amount : F
  pub total : F

module _ (fl : Floats) where
  -- Between nothing and the subtotal.
  unfoldable pub clamp : fl.Float → fl.Float → fl.Float
  clamp subtotal amount =
      if fl.lt amount (fl.of_int 0)
      then fl.of_int 0
      else if fl.lt subtotal amount
      then subtotal
      else amount

  unfoldable pub apply_discount : fl.Float → Option (Discount fl.Float) → fl.Float
  unfolding clamp
  apply_discount subtotal none = fl.of_int 0
  apply_discount subtotal (some d) =
      if fl.le subtotal (fl.of_int 0)
      then fl.of_int 0
      else if is_key d.kind "PERCENTAGE"
      then clamp subtotal (fl.mul subtotal d.value)
      else if is_key d.kind "FIXED_AMOUNT"
      then clamp subtotal d.value
      else fl.of_int 0

  -- What the wallet pays and what the invoice asks for.
  unfoldable pub route : fl.Float → Mode → fl.Float → fl.Float × fl.Float
  route total mode wallet_available =
      if fl.le total (fl.of_int 0) then (fl.of_int 0, fl.of_int 0) else elim mode [
        | postpaid ↦ (fl.of_int 0, total)
        | prepaid ↦ (total, fl.of_int 0)
        | hybrid ↦
            let w = fl.min total (fl.max wallet_available (fl.of_int 0)) in (w, fl.sub total w)
        | no_mode m ↦ (fl.of_int 0, total)
      ]

  abbrev pub billionth : fl.Float
  billionth = fl.quot (fl.of_int 1) (fl.of_int 1000000000)

  abbrev pub millionth : fl.Float
  millionth = fl.quot (fl.of_int 1) (fl.of_int 1000000)

  abbrev pub cent : fl.Float
  cent = fl.quot (fl.of_int 1) (fl.of_int 100)

  abbrev pub minus : fl.Float → fl.Float
  minus x = fl.sub (fl.of_int 0) x

  unfoldable pub run_discount_check : DiscountCheck fl.Float → DiscountCheck fl.Float
  unfolding apply_discount
  run_discount_check d =
      let amount = apply_discount d.subtotal d.discount in
      record d { applied_amt = amount; net_subtotal = fl.sub d.subtotal amount }

  unfoldable pub discount_check_is_valid : DiscountCheck fl.Float → Bool
  discount_check_is_valid d =
      fl.le (fl.of_int 0) d.applied_amt
      && fl.le d.applied_amt (fl.add d.subtotal billionth)
      && fl.le (minus billionth) d.net_subtotal

  unfoldable pub run_route_check : RouteCheck fl.Float → RouteCheck fl.Float
  unfolding route
  run_route_check r =
      let (wallet, invoice) = route r.total r.mode r.wallet_available in
      record r { wallet_debit = wallet; invoice_usd = invoice }

  -- math.Abs
  unfoldable pub magnitude : fl.Float → fl.Float
  magnitude x = if fl.lt x (fl.of_int 0) then minus x else x

  unfoldable pub route_check_is_valid : RouteCheck fl.Float → Bool
  unfolding magnitude
  route_check_is_valid r =
      if fl.lt r.wallet_debit (minus millionth) || fl.lt r.invoice_usd (minus millionth)
      then false
      else if fl.lt millionth (magnitude (fl.sub (fl.add r.wallet_debit r.invoice_usd) r.total))
      then false
      else elim r.mode [
        | postpaid ↦ fl.lt r.wallet_debit millionth
        | prepaid ↦ fl.lt r.invoice_usd millionth
        | hybrid ↦ fl.le r.wallet_debit (fl.add r.wallet_available cent)
        | no_mode m ↦ false
      ]

  abbrev floored : fl.Float → fl.Float
  floored x = if fl.lt x (fl.of_int 0) then fl.of_int 0 else x

  unfoldable pub run_tax_check : TaxCheck fl.Float → TaxCheck fl.Float
  unfolding round_cents
  run_tax_check t =
      let taxable = floored t.taxable in
      let tax_pct = floored t.tax_pct in
      let tax = round_cents fl (fl.mul taxable tax_pct) in
      record { taxable = taxable; tax_pct = tax_pct; tax_amount = tax; total = fl.add taxable tax }

  unfoldable pub tax_check_is_valid : TaxCheck fl.Float → Bool
  tax_check_is_valid t =
      let delta = fl.sub t.total (fl.add t.taxable t.tax_amount) in
      if fl.lt t.tax_amount (fl.of_int 0)
      then false
      else fl.lt (if fl.lt delta (fl.of_int 0) then minus delta else delta) cent
