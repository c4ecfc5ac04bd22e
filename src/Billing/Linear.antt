-- ===== src/Billing/Linear.antt =====
-- The charges that grow with the units: roundCents, perUnitCharge, linearCharge, ceilBlocks, round6,
-- includedQuotaCharge, percentageCharge and flatRateCharge of internal/validate/billing.
use aforo_nextgen_loadgen.Base.{ℕ, ◌+◌, ◌-◌, ◌/◌, ◌%◌, ◌&&◌, ◌||◌, ltb, leb, ◌==◌, if◌then◌else◌}
use aforo_nextgen_loadgen.Base.Floats.{Floats}
use aforo_nextgen_loadgen.Billing.{RateConfig}

-- The blocks of `size` units that hold `units`.
unfoldable pub blocks : ℕ → ℕ → ℕ
blocks units size = if units % size == 0 then units / size else units / size + 1

module _ (fl : Floats) where
  unfoldable pub round_cents : fl.Float → fl.Float
  round_cents x = fl.quot (fl.round_even (fl.mul x (fl.of_int 100))) (fl.of_int 100)

  unfoldable pub round6 : fl.Float → fl.Float
  round6 x = fl.quot (fl.round_even (fl.mul x (fl.of_int 1000000))) (fl.of_int 1000000)

  -- float64(math.MaxInt64) / 2
  abbrev pub max_micros : fl.Float
  max_micros = fl.quot (fl.of_int 9223372036854775807) (fl.of_int 2)

  unfoldable pub ceil_blocks : fl.Float → ℕ → fl.Float
  unfolding blocks round6
  ceil_blocks billable size =
      let micros = fl.round_even (fl.mul billable (fl.of_int 1000000)) in
      let block_micros = fl.mul (fl.of_int size) (fl.of_int 1000000) in
      if fl.le max_micros micros || fl.le max_micros block_micros
      then fl.ceil (fl.quot (round6 billable) (fl.of_int size))
      else fl.of_int (blocks (fl.to_int micros) (fl.to_int block_micros))

  -- The units past the free ones, and at least zero.
  unfoldable pub billable_units : fl.Float → ℕ → fl.Float
  billable_units units free =
      let b = fl.sub units (fl.of_int free) in if fl.lt b (fl.of_int 0) then fl.of_int 0 else b

  unfoldable pub linear_charge : fl.Float → RateConfig fl.Float → fl.Float
  unfolding round_cents ceil_blocks billable_units
  linear_charge units r =
      let billable = billable_units units r.included_free_units in
      let cost = round_cents (
        if ltb 0 r.block_size_units && fl.lt (fl.of_int 0) billable
        then fl.mul
            (fl.mul (ceil_blocks billable r.block_size_units) (fl.of_int r.block_size_units))
            r.per_unit_rate_usd
        else fl.mul billable r.per_unit_rate_usd) in
      if fl.lt units (fl.of_int 0)
      then round_cents (fl.mul units r.per_unit_rate_usd)
      else if fl.lt (fl.of_int 0) r.min_fee_usd && fl.lt cost (round_cents r.min_fee_usd)
      then round_cents r.min_fee_usd
      else cost

  unfoldable pub per_unit_charge : ℕ → RateConfig fl.Float → fl.Float
  unfolding linear_charge
  per_unit_charge events r = linear_charge (fl.of_int events) r

  unfoldable pub included_quota_charge : ℕ → RateConfig fl.Float → fl.Float
  unfolding blocks
  included_quota_charge events r =
      let overage = events - r.included_free_units in
      if leb events r.included_free_units
      then fl.of_int 0
      else if ltb 0 r.block_size_units
      then fl.mul
          (fl.mul (fl.of_int (blocks overage r.block_size_units)) (fl.of_int r.block_size_units))
          r.per_unit_rate_usd
      else fl.mul (fl.of_int overage) r.per_unit_rate_usd

  unfoldable pub percentage_charge : fl.Float → RateConfig fl.Float → fl.Float
  percentage_charge base r =
      let raw = fl.mul base r.percentage_rate in
      if fl.lt base (fl.of_int 0) || fl.lt r.percentage_rate (fl.of_int 0)
      then fl.max (fl.of_int 0) r.min_fee_usd
      else if fl.lt raw r.min_fee_usd
      then r.min_fee_usd
      else raw

  unfoldable pub flat_rate_charge : RateConfig fl.Float → fl.Float
  flat_rate_charge r = r.flat_fee_usd
