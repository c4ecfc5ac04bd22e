-- ===== src/Seed/Discounts/Scale.antt =====
-- A percentage from its label to the invoice (internal/seed/distribution.go, and applyDiscount of
-- internal/validate/billing/billing.go).
use aforo_nextgen_loadgen.Base.{
  ℕ, ◌≡◌, ap, ◌∙◌, true, false, not, ◌||◌, String, Option, some, List, inl, inr, is_key, Bool-cases,
}
use aforo_nextgen_loadgen.Base.Floats.{Floats, FloatOrder}
use aforo_nextgen_loadgen.Billing.Stages.{clamp, apply_discount}
use aforo_nextgen_loadgen.Seed.Discounts.{
  parse_float_trailing, labelled, parse_discount_label, convert_discount,
}

module _ (fl : Floats) (ord : FloatOrder fl) where
  clamp_above :
      (x y : fl.Float)
      → fl.le (fl.of_int 0) x ≡ true
      → fl.le x y ≡ true
      → fl.le x (clamp fl x y) ≡ true
  unfolding clamp
  clamp_above x y h above =
      let (x_num, y_num) = ord.number_of_le x y above in
      let y_up = ord.le_trans (fl.of_int 0) x y h above in
      let not_below : fl.lt y (fl.of_int 0) ≡ false =
        ord.lt-not-le y (fl.of_int 0) y_num (ord.of_int_number 0) ∙ ap not y_up in
      elim (Bool-cases (fl.lt x y)) [
        | inl more ↦ rw (not_below, clamp) (rw more x_num)
        | inr even ↦ rw (not_below, clamp) (rw even above)
      ]

  positive : (v : fl.Float) → fl.le (fl.of_int 1) v ≡ true → fl.le v (fl.of_int 0) ≡ false
  positive v h = elim (Bool-cases (fl.le v (fl.of_int 0))) [
    | inr e ↦ e
    | inl low ↦
        let swapped = ord.le_trans (fl.of_int 1) v (fl.of_int 0) h low in
        let not_above = ord.one_above_zero in absurd cc
  ]

  -- A label `pct_<N>` of one percent or more takes the whole of a positive subtotal: the manifest keeps
  -- N, and the calculator multiplies the subtotal by it.
  pub percent_label_takes_all :
      (after : String → String → Option (List ℕ)) (label : String) (runes : List ℕ)
      (subtotal : fl.Float)
      → (is_key label "" || is_key label "none") ≡ false
      → after label "pct_" ≡ some runes
      → fl.le (fl.of_int 1) (parse_float_trailing fl runes) ≡ true
      → fl.le (fl.of_int 0) subtotal ≡ true
      → fl.le subtotal (fl.of_int 0) ≡ false
      → fl.le subtotal
          (apply_discount fl subtotal (convert_discount (parse_discount_label fl after label)))
        ≡ true
  unfolding parse_discount_label labelled convert_discount apply_discount
  percent_label_takes_all after label runes subtotal named prefix percent total some_total =
      rw (named, parse_discount_label)
        (rw prefix (
          rw (positive (parse_float_trailing fl runes) percent) (
            rw (some_total, apply_discount)
              (clamp_above subtotal (fl.mul subtotal (parse_float_trailing fl runes)) total (
                ord.mul_grows subtotal (parse_float_trailing fl runes) total some_total percent)))))
