-- ===== src/Billing/Tiers.antt =====
-- The charges by bands: graduatedCharge, volumeTieredCharge and staircaseCharge of
-- internal/validate/billing. `sort_tiers` and `sort_bands` are sort.SliceStable on a copy, by UpToUnits
-- and by From.
use aforo_nextgen_loadgen.Base.{
  ℕ, zero, suc, ◌+◌, ◌-◌, Bool, true, false, ◌&&◌, ◌||◌, Option, none, some, List, [], ◌∷◌, ltb,
  leb, ◌==◌, if◌then◌else◌,
}
use aforo_nextgen_loadgen.Base.Floats.{Floats}
use aforo_nextgen_loadgen.Billing.{Tier, Band, TierCharge}
use aforo_nextgen_loadgen.Billing.Linear.{round_cents, billable_units}
pub mod Split
pub mod Choice

-- The units of a band: all of it, or what is left of the events.
unfoldable pub used_units : ℕ → ℕ → ℕ → ℕ
used_units events from top = if ltb (events - from) (top - from) then events - from else top - from

module _ {F : Type 0} where
  -- The tier of the whole volume: the first that reaches it, and otherwise the last.
  unfoldable pub tier_for : ℕ → Tier F → List (Tier F) → Tier F
  tier_for events t [] = t
  tier_for events t (u ∷ rest) =
      let later = tier_for events u rest in if leb events t.up_to_units then t else later

module _ (fl : Floats) where
  unfoldable pub band_charge : ℕ → ℕ → Tier fl.Float → TierCharge fl.Float
  unfolding used_units
  band_charge events from t =
      let used = used_units events from t.up_to_units in
      let usage = fl.mul (fl.of_int used) t.unit_price in
      record {
        from = from;
        to = from + used;
        units = used;
        unit_price = t.unit_price;
        flat_fee = t.flat_fee;
        charge = (if ltb 0 used then fl.add usage t.flat_fee else usage);
      }

  -- The loop over the tiers, from the units that the bands so far have taken.
  unfoldable pub graduated_rows : ℕ → ℕ → List (Tier fl.Float) → List (TierCharge fl.Float)
  unfolding band_charge
  graduated_rows events from [] = []
  graduated_rows events from (t ∷ rest) = elim (leb events from) [
    | true ↦ []
    | false ↦ elim (leb t.up_to_units from) [
      | true ↦ graduated_rows events from rest
      | false ↦ band_charge events from t ∷ graduated_rows events t.up_to_units rest
    ]
  ]

  unfoldable pub add_charges : fl.Float → List (TierCharge fl.Float) → fl.Float
  add_charges total [] = total
  add_charges total (r ∷ rest) = add_charges (fl.add total r.charge) rest

  unfoldable pub volume_row : ℕ → Tier fl.Float → TierCharge fl.Float
  volume_row events t = record {
    from = 0;
    to = events;
    units = events;
    unit_price = t.unit_price;
    flat_fee = t.flat_fee;
    charge = fl.add (fl.mul (fl.of_int events) t.unit_price) t.flat_fee;
  }

  -- A band that is open at the top has To == 0.
  unfoldable pub is_in_band : fl.Float → Band fl.Float → Bool
  is_in_band billable b =
      fl.le (fl.of_int b.from) billable && (b.to == 0 || fl.le billable (fl.of_int b.to))

  -- The first band that holds the units, and otherwise the last.
  unfoldable pub band_for : fl.Float → Band fl.Float → List (Band fl.Float) → Band fl.Float
  unfolding is_in_band
  band_for billable b [] = b
  band_for billable b (c ∷ rest) =
      let later = band_for billable c rest in if is_in_band billable b then b else later

  unfoldable pub staircase_row : fl.Float → Band fl.Float → TierCharge fl.Float
  unfolding round_cents
  staircase_row billable b =
      let price = round_cents fl b.price in
      record {
        from = b.from;
        to = (if b.to == 0 then 9223372036854775807 else b.to);
        units = fl.to_int billable;
        unit_price = fl.of_int 0;
        flat_fee = price;
        charge = price;
      }

  unfoldable pub graduated_charge :
      (List (Tier fl.Float) → List (Tier fl.Float))
      → ℕ
      → List (Tier fl.Float)
      → fl.Float × List (TierCharge fl.Float)
  unfolding graduated_rows add_charges
  graduated_charge sort_tiers zero raw = (fl.of_int 0, [])
  graduated_charge sort_tiers (suc n) raw =
      let rows = graduated_rows (suc n) 0 (sort_tiers raw) in (add_charges (fl.of_int 0) rows, rows)

  unfoldable pub volume_tiered_charge :
      (List (Tier fl.Float) → List (Tier fl.Float))
      → ℕ
      → List (Tier fl.Float)
      → fl.Float × List (TierCharge fl.Float)
  unfolding tier_for volume_row
  volume_tiered_charge sort_tiers zero raw = (fl.of_int 0, [])
  volume_tiered_charge sort_tiers (suc n) raw = elim (sort_tiers raw) [
    | [] ↦ (fl.of_int 0, [])
    | t ∷ rest ↦ let row = volume_row (suc n) (tier_for (suc n) t rest) in (row.charge, row ∷ [])
  ]

  unfoldable pub staircase_charge :
      (List (Band fl.Float) → List (Band fl.Float))
      → fl.Float
      → ℕ
      → List (Band fl.Float)
      → fl.Float × List (TierCharge fl.Float)
  unfolding billable_units band_for staircase_row
  staircase_charge sort_bands units free raw =
      let billable = billable_units fl units free in
      if fl.eq billable (fl.of_int 0) then (fl.of_int 0, []) else elim (sort_bands raw) [
        | [] ↦ (fl.of_int 0, [])
        | b ∷ rest ↦
            let row = staircase_row billable (band_for billable b rest) in (row.charge, row ∷ [])
      ]
