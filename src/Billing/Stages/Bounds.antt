-- ===== src/Billing/Stages/Bounds.antt =====
-- What a discount and a wallet can take (internal/validate/billing/billing.go).
use aforo_nextgen_loadgen.Base.{
  ◌≡◌, ◌⊎◌, refl, true, false, inl, inr, Option, none, some, arith, is_key, Bool-cases,
}
use aforo_nextgen_loadgen.Base.Floats.{Floats, FloatOrder}
use aforo_nextgen_loadgen.Billing.{Mode, postpaid, prepaid, hybrid, no_mode, Discount}
use aforo_nextgen_loadgen.Billing.Stages.{clamp, apply_discount, route}

module _ (fl : Floats) (ord : FloatOrder fl) where
  -- A value that is not NaN.
  abbrev pub IsNumber : fl.Float → Type 0
  IsNumber x = fl.le x x ≡ true

  abbrev pub IsBetween : fl.Float → fl.Float → fl.Float → Type 0
  IsBetween a b x = (fl.le a x ≡ true) × (fl.le x b ≡ true)

  -- What `x < y` rules out.
  le_of_not-lt : (x y : fl.Float) → IsNumber x → IsNumber y → fl.lt x y ≡ false → fl.le y x ≡ true
  le_of_not-lt x y hx hy e = ground (arith, ord.lt-not-le x y hx hy, e)

  clamp-IsBetween :
      (subtotal amount : fl.Float)
      → fl.le (fl.of_int 0) subtotal ≡ true
      → IsNumber amount
      → IsBetween (fl.of_int 0) subtotal (clamp fl subtotal amount)
  unfolding clamp
  clamp-IsBetween subtotal amount h num =
      let (zero_num, sub_num) = ord.number_of_le (fl.of_int 0) subtotal h in
      elim (Bool-cases (fl.lt amount (fl.of_int 0))) [
        | inl below ↦ rw (below, clamp) (zero_num, h)
        | inr not_below ↦ elim (Bool-cases (fl.lt subtotal amount)) [
          | inl above ↦ rw (not_below, clamp) (rw above (h, sub_num))
          | inr not_above ↦
              rw (not_below, clamp)
                (rw not_above (
                  le_of_not-lt amount (fl.of_int 0) num zero_num not_below,
                  le_of_not-lt subtotal amount sub_num num not_above,
                ))
        ]
      ]

  -- The numbers that a discount is computed from are not NaN.
  abbrev pub IsSound : fl.Float → Option (Discount fl.Float) → Type 0
  IsSound subtotal none = Unit
  IsSound subtotal (some d) = IsNumber (fl.mul subtotal d.value) × IsNumber d.value

  -- For a subtotal that is not negative and values that are not NaN, whatever the kind of the discount:
  -- it is not negative, and it takes no more than the subtotal.
  pub apply_discount-IsBetween :
      (subtotal : fl.Float) (d : Option (Discount fl.Float))
      → fl.le (fl.of_int 0) subtotal ≡ true
      → IsSound subtotal d
      → IsBetween (fl.of_int 0) subtotal (apply_discount fl subtotal d)
  unfolding apply_discount
  apply_discount-IsBetween subtotal none h s = ((ord.number_of_le (fl.of_int 0) subtotal h).0, h)
  apply_discount-IsBetween subtotal (some d) h s =
      let nothing : IsBetween (fl.of_int 0) subtotal (fl.of_int 0) =
        ((ord.number_of_le (fl.of_int 0) subtotal h).0, h) in
      elim (Bool-cases (fl.le subtotal (fl.of_int 0))) [
        | inl zero_total ↦ rw (zero_total, apply_discount) nothing
        | inr some_total ↦ elim (Bool-cases (is_key d.kind "PERCENTAGE")) [
          | inl share ↦
              rw (some_total, apply_discount)
                (rw share (clamp-IsBetween subtotal (fl.mul subtotal d.value) h s.0))
          | inr no_share ↦ elim (Bool-cases (is_key d.kind "FIXED_AMOUNT")) [
            | inl fixed ↦
                rw (some_total, apply_discount)
                  (rw no_share (rw fixed (clamp-IsBetween subtotal d.value h s.1)))
            | inr no_kind ↦ rw (some_total, apply_discount) (rw no_share (rw no_kind nothing))
          ]
        ]
      ]

  all_or_held :
      (total cap : fl.Float)
      → IsNumber total
      → IsNumber cap
      → (fl.le total (fl.min total cap) ≡ true) ⊎ (fl.le cap (fl.min total cap) ≡ true)
  all_or_held total cap total_num cap_num = elim (ord.le_total total cap total_num cap_num) [
    | inl covers ↦ inl (ord.min_greatest total cap total total_num covers)
    | inr short ↦ inr (ord.min_greatest total cap cap short cap_num)
  ]

  -- The wallet pays nothing and the invoice all; the wallet pays all; or the wallet pays as much of the
  -- total as it holds, and the invoice the rest.
  abbrev pub Sums : Mode → fl.Float → fl.Float → fl.Float → fl.Float → Type 0
  Sums postpaid total cap wallet invoice = (wallet ≡ fl.of_int 0) × (invoice ≡ total)
  Sums prepaid total cap wallet invoice = (wallet ≡ total) × (invoice ≡ fl.of_int 0)
  Sums hybrid total cap wallet invoice =
      (invoice ≡ fl.sub total wallet) × ((fl.le total wallet ≡ true) ⊎ (fl.le cap wallet ≡ true))
  Sums (no_mode m) total cap wallet invoice = (wallet ≡ fl.of_int 0) × (invoice ≡ total)

  -- The wallet's part is between nothing and the total, what is left for the invoice is not negative, and
  -- only PREPAID takes more than the wallet holds. Of a positive total, the two parts are those of the mode.
  abbrev pub IsSplit : fl.Float → fl.Float → Mode → fl.Float → fl.Float → Type 0
  IsSplit total wallet_available mode wallet invoice =
      IsBetween (fl.of_int 0) total wallet
      × IsBetween (fl.of_int 0) invoice invoice
      × ((fl.le wallet (fl.max wallet_available (fl.of_int 0)) ≡ true) ⊎ (mode ≡ prepaid))
      × (((fl.le total (fl.of_int 0) ≡ true) × (wallet ≡ fl.of_int 0) × (invoice ≡ fl.of_int 0))
          ⊎ ((fl.le total (fl.of_int 0) ≡ false)
              × Sums mode total (fl.max wallet_available (fl.of_int 0)) wallet invoice))

  -- For a total that is not negative and a wallet that is not NaN, in every mode: the wallet pays
  -- between nothing and the total, and no more than it holds unless the mode is PREPAID; the invoice is not negative.
  -- Of a positive total, PREPAID takes all from the wallet, HYBRID takes from the wallet all of the total or all
  -- that the wallet holds and invoices the total less that, and every other mode invoices all of it; a total of
  -- zero takes nothing from either. The difference of the two is taken not to be NaN.
  pub route-IsSplit :
      (total : fl.Float) (mode : Mode) (wallet_available : fl.Float)
      → fl.le (fl.of_int 0) total ≡ true
      → IsNumber wallet_available
      → IsNumber (fl.sub total (fl.min total (fl.max wallet_available (fl.of_int 0))))
      → IsSplit total wallet_available mode
          (route fl total mode wallet_available).0
          (route fl total mode wallet_available).1
  unfolding route
  route-IsSplit total mode avail h num diff =
      let (zero_num, total_num) = ord.number_of_le (fl.of_int 0) total h in
      let (low, high) = ord.max_upper avail (fl.of_int 0) num zero_num in
      let cap_num = (ord.number_of_le (fl.of_int 0) (fl.max avail (fl.of_int 0)) high).1 in
      elim (Bool-cases (fl.le total (fl.of_int 0))) [
        | inl nothing ↦
            rw (nothing, route)
              ((zero_num, h), (zero_num, zero_num), inl high, inl (refl, refl, refl))
        | inr something ↦
            elim mode
              as (λ m.
                IsSplit total avail m (route fl total m avail).0 (route fl total m avail).1) [
                  | postpaid ↦
                      rw (something, route)
                        ((zero_num, h), (h, total_num), inl high, inr (refl, (refl, refl)))
                  | prepaid ↦
                      rw (something, route)
                        ((h, total_num), (zero_num, zero_num), inr refl, inr (refl, (refl, refl)))
                  | hybrid ↦
                      let (w_total, w_cap) =
                        ord.min_lower total (fl.max avail (fl.of_int 0)) total_num cap_num in
                      rw (something, route)
                        (
                          (
                            ord.min_greatest total (fl.max avail (fl.of_int 0)) (fl.of_int 0) h
                                high,
                            w_total,
                          ),
                          (
                            ord.sub_nonneg total (fl.min total (fl.max avail (fl.of_int 0))) w_total
                                diff,
                            diff,
                          ),
                          inl w_cap,
                          inr (
                            refl,
                            (
                              refl,
                              all_or_held total (fl.max avail (fl.of_int 0)) total_num cap_num,
                            ),
                          ),
                        )
                  | no_mode m ↦
                      rw (something, route)
                        ((zero_num, h), (h, total_num), inl high, inr (refl, (refl, refl)))
                ]
      ]
