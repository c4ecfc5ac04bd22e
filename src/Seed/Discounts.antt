-- ===== src/Seed/Discounts.antt =====
-- The discounts of a mix: drawDiscount, parseDiscountLabel and parseFloatTrailing of
-- internal/seed/distribution.go, and convertDiscount of internal/validate/billing_match.go, which hands
-- them to the calculator. A label after its prefix is the list of its code points.
use aforo_nextgen_loadgen.Base.{
  ℕ, ◌-◌, Bool, true, false, ◌&&◌, ◌||◌, not, String, Option, none, some, List, [], ◌∷◌, ◌==◌, ltb,
  is_key, if◌then◌else◌,
}
use aforo_nextgen_loadgen.Base.Floats.{Floats}
use aforo_nextgen_loadgen.Billing.{Discount}
use aforo_nextgen_loadgen.Seed.Distribution.{weighted_draw}
pub mod Scale

pub record ManifestDiscount (F : Type 0) : Type 0 where
  pub kind : String
  pub value : F

module _ (fl : Floats) where
  pub record Digits : Type 0 where
    pub v : fl.Float
    pub frac : fl.Float
    pub scale : fl.Float
    pub dot : Bool

  -- One digit.
  unfoldable pub add_digit : Digits → ℕ → Digits
  add_digit s r =
      let d = fl.of_int (r - 48) in
      let ten = fl.of_int 10 in
      if s.dot
      then record s { scale = fl.mul s.scale ten; frac = fl.add (fl.mul s.frac ten) d }
      else record s { v = fl.add (fl.mul s.v ten) d }

  -- The loop over the code points: 46 is the dot, and 48 to 57 are the digits.
  unfoldable pub read_digits : List ℕ → Digits → fl.Float
  unfolding add_digit
  read_digits [] s = fl.add s.v (fl.quot s.frac s.scale)
  read_digits (r ∷ rest) s =
      let after_dot = read_digits rest (record s { dot = true }) in
      let after_digit = read_digits rest (add_digit s r) in
      if r == 46 && not s.dot
      then after_dot
      else if ltb r 48 || ltb 57 r
      then fl.of_int 0
      else after_digit

  unfoldable pub parse_float_trailing : List ℕ → fl.Float
  unfolding read_digits
  parse_float_trailing runes =
      read_digits runes
        (record { v = fl.of_int 0; frac = fl.of_int 0; scale = fl.of_int 1; dot = false })

  unfoldable pub labelled : String → fl.Float → Option (ManifestDiscount fl.Float)
  labelled kind v = if fl.le v (fl.of_int 0) then none else some (record { kind = kind; value = v })

  -- `after` is the rest of a text that has the prefix, which is its second argument.
  module _ (after : String → String → Option (List ℕ)) where
    unfoldable pub parse_discount_label : String → Option (ManifestDiscount fl.Float)
    unfolding parse_float_trailing labelled
    parse_discount_label label =
        if is_key label "" || is_key label "none" then none else elim (after label "pct_") [
          | some runes ↦ labelled "PERCENTAGE" (parse_float_trailing runes)
          | none ↦ elim (after label "fixed_") [
            | some runes ↦ labelled "FIXED_AMOUNT" (parse_float_trailing runes)
            | none ↦ none
          ]
        ]

    unfoldable pub draw_discount :
        List (String × fl.Float) → fl.Float → Option (ManifestDiscount fl.Float)
    unfolding weighted_draw parse_discount_label
    draw_discount [] draw = none
    draw_discount (e ∷ mix) draw = parse_discount_label (weighted_draw fl (e ∷ mix) draw)

unfoldable pub convert_discount : {F : Type 0} → Option (ManifestDiscount F) → Option (Discount F)
convert_discount none = none
convert_discount (some d) = some (record { kind = d.kind; value = d.value })
