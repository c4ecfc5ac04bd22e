-- ===== src/Billing/Tiers/Split.antt =====
-- The rows of a graduated charge (internal/validate/billing/graduated.go).
use Prim.Native.Nat.{min, max}
use aforo_nextgen_loadgen.Base.{
  ℕ, zero, suc, ◌+◌, ◌-◌, ◌≤◌, ◌<◌, ◌≡◌, refl, inl, inr, List, [], ◌∷◌, true, subst, sym, ltb,
  arith, leb, Bool-cases,
}
use aforo_nextgen_loadgen.Base.Floats.{Floats}
use aforo_nextgen_loadgen.Billing.{Tier, TierCharge}
use aforo_nextgen_loadgen.Billing.Tiers.{used_units, band_charge, graduated_rows, graduated_charge}

-- The highest bound of the tiers.
abbrev pub top : {F : Type 0} → List (Tier F) → ℕ
top [] = 0
top (t ∷ rest) = max t.up_to_units (top rest)

abbrev pub units_of : {F : Type 0} → List (TierCharge F) → ℕ
units_of [] = 0
units_of (r ∷ rest) = r.units + units_of rest

-- Each row begins where the one before ended, and holds at least one unit.
abbrev pub IsChain : {F : Type 0} → ℕ → List (TierCharge F) → Type 0
IsChain from [] = Unit
IsChain from (r ∷ rest) =
    (r.from ≡ from) × (r.to ≡ from + r.units) × (0 < r.units) × IsChain r.to rest

module _ (fl : Floats) where
  graduated_rows_done :
      (events from : ℕ) (ts : List (Tier fl.Float))
      → events ≤ from
      → graduated_rows fl events from ts ≡ []
  unfolding graduated_rows
  graduated_rows_done events from [] h = refl
  graduated_rows_done events from (t ∷ rest) h =
      let test : leb events from ≡ true = ground arith in rw (test, graduated_rows) refl

  graduated_rows-IsChain :
      (events from : ℕ) (ts : List (Tier fl.Float))
      → IsChain from (graduated_rows fl events from ts)
        × (units_of (graduated_rows fl events from ts) ≡ min events (max from (top ts)) - from)
  unfolding graduated_rows band_charge used_units
  graduated_rows-IsChain events from [] = (tt, omega arith)
  graduated_rows-IsChain events from (t ∷ rest) = elim (Bool-cases (leb events from)) [
    | inl over ↦ rw (over, graduated_rows) (tt, ground (arith, over))
    | inr more ↦ elim (Bool-cases (leb t.up_to_units from)) [
      | inl below ↦
          let (chain, count) = graduated_rows-IsChain events from rest in
          rw (more, graduated_rows) (rw below (chain, ground (arith, count, below)))
      | inr above ↦
          let (chain, count) = graduated_rows-IsChain events t.up_to_units rest in
          rw (more, graduated_rows)
            (rw above (elim (Bool-cases (ltb (events - from) (t.up_to_units - from))) [
              | inl short ↦
                  let rest_is =
                    graduated_rows_done events t.up_to_units rest (ground (arith, short, more)) in
                  rw (short, rest_is)
                    ((refl, refl, ground (arith, more), tt), ground (arith, short, more, above))
              | inr full ↦
                  let end : from + (t.up_to_units - from) ≡ t.up_to_units = ground (arith, above) in
                  rw full (
                    (
                      refl,
                      refl,
                      ground (arith, above),
                      subst (λ n. IsChain n (graduated_rows fl events t.up_to_units rest)) (sym end)
                          chain,
                    ),
                    ground (arith, count, full, more, above),
                  )
            ]))
    ]
  ]

  -- The rows of a graduated charge begin at zero, follow one another without a gap, hold at least one
  -- unit each, and hold together the events up to the highest bound of the sorted tiers.
  pub graduated_charge-IsChain :
      (sort_tiers : List (Tier fl.Float) → List (Tier fl.Float)) (events : ℕ)
      (raw : List (Tier fl.Float))
      → IsChain 0 (graduated_charge fl sort_tiers events raw).1
        × (units_of (graduated_charge fl sort_tiers events raw).1
            ≡ min events (top (sort_tiers raw)))
  unfolding graduated_charge
  graduated_charge-IsChain sort_tiers zero raw = (tt, omega arith)
  graduated_charge-IsChain sort_tiers (suc n) raw =
      let (chain, count) = graduated_rows-IsChain (suc n) 0 (sort_tiers raw) in
      (chain, omega (arith, count))
