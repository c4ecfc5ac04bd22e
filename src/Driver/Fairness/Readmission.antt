-- ===== src/Driver/Fairness/Readmission.antt =====
-- How long the gate can keep a tenant out (internal/driver/fairness.go).
use native.Mathlib.Nat.{pow-suc}
use aforo_nextgen_loadgen.Base.{
  ℕ, ◌+◌, ◌-◌, ◌*◌, ◌/◌, ◌^◌, ◌≤◌, ◌<◌, ◌≡◌, ◌⊎◌, inl, inr, refl, sym, ap, subst, ◌∙◌, Bool, true,
  false, String, List, [], ◌∷◌, length, ltb, leb, ◌==◌, arith, Bool-cases,
}
use aforo_nextgen_loadgen.Base.Floats.{Floats}
use aforo_nextgen_loadgen.Driver.Fairness.{
  FairnessGate, maybe_roll_window, note_tenant, is_hot, weigh, allow, count_of, decay,
}

module _ (fl : Floats) where
  -- One tenant asks at each of the times.
  abbrev pub knocks : FairnessGate fl → String → ℕ → List ℕ → List Bool
  knocks g tenant total_tenants [] = []
  knocks g tenant total_tenants (now ∷ rest) =
      let later = knocks (allow fl g now tenant total_tenants).1 tenant total_tenants rest in
      (allow fl g now tenant total_tenants).0 ∷ later

-- One of the answers is yes.
abbrev pub IsAdmitted : List Bool → Type 0
IsAdmitted [] = ⊥
IsAdmitted (b ∷ rest) = (b ≡ true) ⊎ IsAdmitted rest

-- Each time is at least a window after the one before it.
abbrev pub IsSpaced : ℕ → ℕ → List ℕ → Type 0
IsSpaced start window [] = Unit
IsSpaced start window (t ∷ rest) = (start + window ≤ t) × IsSpaced t window rest

module _ (fl : Floats) where
  -- What a refusal leaves of the gate.
  abbrev IsKept : FairnessGate fl → FairnessGate fl → Type 0
  IsKept g g' =
      (g'.total_events ≡ g.total_events)
      × (g'.window_start ≡ g.window_start)
      × (g'.cfg.window ≡ g.cfg.window)

  note_tenant-IsKept : (g : FairnessGate fl) (tenant : String) → IsKept g (note_tenant fl g tenant)
  unfolding note_tenant
  note_tenant-IsKept g tenant = elim (Bool-cases (count_of tenant g.tenant_counts == 0)) [
    | inl new ↦ rw (new, note_tenant) (refl, refl, refl)
    | inr known ↦ rw (known, note_tenant) (refl, refl, refl)
  ]

  weigh-IsKept :
      (g : FairnessGate fl) (tenant : String) (n : ℕ)
      → ((weigh fl g tenant n).0 ≡ true)
        ⊎ ((32 ≤ g.total_events) × IsKept g (weigh fl g tenant n).1)
  unfolding weigh
  weigh-IsKept g tenant n = elim (Bool-cases (ltb g.total_events 32)) [
    | inl few ↦ inl (rw (few, weigh) refl)
    | inr many ↦ elim (Bool-cases (is_hot fl g tenant n)) [
      | inl hot ↦
          inr (ground (arith, many), rw (many, weigh) (rw hot (note_tenant-IsKept g tenant)))
      | inr fair ↦ inl (rw (many, weigh) (rw fair refl))
    ]
  ]

  abbrev halved : FairnessGate fl → ℕ → FairnessGate fl
  halved g now = record g {
    tenant_counts = decay g.tenant_counts;
    total_events = g.total_events / 2;
    window_start = now;
  }

  rolled :
      (g : FairnessGate fl) (now : ℕ)
      → g.window_start + g.cfg.window ≤ now
      → maybe_roll_window fl g now ≡ halved g now
  unfolding maybe_roll_window
  rolled g now late =
      let passed : ltb (now - g.window_start) g.cfg.window ≡ false = ground (arith, late) in
      rw (passed, maybe_roll_window) refl

  -- The answer is yes, or 32 events are left after halving and the gate has the halves.
  abbrev IsRefused : FairnessGate fl → ℕ → Bool × FairnessGate fl → Type 0
  IsRefused g now r =
      (r.0 ≡ true)
      ⊎ ((32 ≤ g.total_events / 2)
          × (r.1.total_events ≡ g.total_events / 2)
          × (r.1.window_start ≡ now)
          × (r.1.cfg.window ≡ g.cfg.window))

  -- A call after the window has passed.
  allow-IsRefused :
      (g : FairnessGate fl) (now : ℕ) (tenant : String) (n : ℕ)
      → g.window_start + g.cfg.window ≤ now
      → IsRefused g now (allow fl g now tenant n)
  unfolding allow
  allow-IsRefused g now tenant n late = elim (Bool-cases (leb n 1)) [
    | inl alone ↦ inl (rw (alone, allow) refl)
    | inr several ↦
        let asked : allow fl g now tenant n ≡ weigh fl (maybe_roll_window fl g now) tenant n =
          rw (several, allow) refl in
        let weighed = asked ∙ ap (λ h. weigh fl h tenant n) (rolled g now late) in
        subst (IsRefused g now) (sym weighed) (elim (weigh-IsKept (halved g now) tenant n) [
          | inl admitted ↦ inl admitted
          | inr (many, kept) ↦ inr (many, kept.0, kept.1, kept.2)
        ])
  ]

  -- A tenant that asks again and again, a window or more after the last call and with no other call in
  -- between, is admitted before long, however hot it is: with fewer than 64 * 2 ^ n events in the gate,
  -- one of n + 1 calls is admitted.
  pub knocks-IsAdmitted :
      (g : FairnessGate fl) (tenant : String) (total_tenants now : ℕ) (rest : List ℕ)
      → IsSpaced g.window_start g.cfg.window (now ∷ rest)
      → g.total_events < 64 * 2 ^ length rest
      → IsAdmitted (knocks fl g tenant total_tenants (now ∷ rest))
  knocks-IsAdmitted g tenant n now [] spaced few = elim (allow-IsRefused g now tenant n spaced.0) [
    | inl admitted ↦ inl admitted
    | inr (many, total, start, window) ↦ absurd (omega (arith, many, few))
  ]
  knocks-IsAdmitted g tenant n now (next ∷ rest) spaced few =
      elim (allow-IsRefused g now tenant n spaced.0) [
        | inl admitted ↦ inl admitted
        | inr (many, total, start, window) ↦
            let g' = (allow fl g now tenant n).1 in
            inr (
              knocks-IsAdmitted g' tenant n next rest (rw (start, window) spaced.1)
                (rw total (omega (arith, few, pow-suc 2 (length rest)))))
      ]
