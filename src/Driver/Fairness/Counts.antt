-- ===== src/Driver/Fairness/Counts.antt =====
-- What the gate counts (internal/driver/fairness.go).
use aforo_nextgen_loadgen.Base.{
  ℕ, suc, ◌+◌, ◌-◌, ◌/◌, ◌≤◌, ◌≡◌, ◌⊎◌, inl, inr, refl, String, Option, none, some, List, [], ◌∷◌,
  find, put, ltb, leb, ◌==◌, arith, Bool-cases,
}
use aforo_nextgen_loadgen.Base.Floats.{Floats}
use aforo_nextgen_loadgen.Driver.Fairness.{
  FairnessGate, decay, count_of, maybe_roll_window, note_tenant, is_hot, admit, weigh, allow,
  run_filter,
}

abbrev pub sum_counts : List (String × ℕ) → ℕ
sum_counts [] = 0
sum_counts ((k, v) ∷ rest) = v + sum_counts rest

sum_counts-decay : (m : List (String × ℕ)) → sum_counts (decay m) ≤ sum_counts m / 2
unfolding decay
sum_counts-decay [] = omega arith
sum_counts-decay ((k, v) ∷ rest) = ground (arith, sum_counts-decay rest)

sum_counts-put :
    (k : String) (m : List (String × ℕ))
    → sum_counts (put k (suc (count_of k m)) m) ≡ suc (sum_counts m)
unfolding count_of put find
sum_counts-put k [] = omega arith
sum_counts-put k ((j, w) ∷ m) = ground (arith, sum_counts-put k m)

module _ (fl : Floats) where
  -- The tenants' counts are part of the events.
  abbrev pub IsCounted : FairnessGate fl → Type 0
  IsCounted g = sum_counts g.tenant_counts ≤ g.total_events

  maybe_roll_window-IsCounted :
      (g : FairnessGate fl) (now : ℕ) → IsCounted g → IsCounted (maybe_roll_window fl g now)
  unfolding maybe_roll_window
  maybe_roll_window-IsCounted g now h =
      elim (Bool-cases (ltb (now - g.window_start) g.cfg.window)) [
        | inl same ↦ rw (same, maybe_roll_window) h
        | inr passed ↦
            rw (passed, maybe_roll_window) (omega (arith, h, sum_counts-decay g.tenant_counts))
      ]

  note_tenant-IsCounted :
      (g : FairnessGate fl) (tenant : String) → IsCounted g → IsCounted (note_tenant fl g tenant)
  unfolding note_tenant
  note_tenant-IsCounted g tenant h = elim (Bool-cases (count_of tenant g.tenant_counts == 0)) [
    | inl new ↦ rw (new, note_tenant) h
    | inr known ↦ rw (known, note_tenant) h
  ]

  admit-IsCounted :
      (g : FairnessGate fl) (tenant : String) → IsCounted g → IsCounted (admit fl g tenant)
  unfolding admit
  admit-IsCounted g tenant h = omega (arith, h, sum_counts-put tenant g.tenant_counts)

  weigh-IsCounted :
      (g : FairnessGate fl) (tenant : String) (n : ℕ)
      → IsCounted g
      → IsCounted (weigh fl g tenant n).1
  unfolding weigh
  weigh-IsCounted g tenant n h =
      let noted = note_tenant-IsCounted g tenant h in
      elim (Bool-cases (ltb g.total_events 32)) [
        | inl few ↦ rw (few, weigh) (admit-IsCounted (note_tenant fl g tenant) tenant noted)
        | inr many ↦ elim (Bool-cases (is_hot fl g tenant n)) [
          | inl hot ↦ rw (many, weigh) (rw hot noted)
          | inr fair ↦
              rw (many, weigh) (rw fair (admit-IsCounted (note_tenant fl g tenant) tenant noted))
        ]
      ]

  allow-IsCounted :
      (g : FairnessGate fl) (now : ℕ) (tenant : String) (n : ℕ)
      → IsCounted g
      → IsCounted (allow fl g now tenant n).1
  unfolding allow
  allow-IsCounted g now tenant n h = elim (Bool-cases (leb n 1)) [
    | inl alone ↦ rw (alone, allow) h
    | inr several ↦
        rw (several, allow)
          (weigh-IsCounted (maybe_roll_window fl g now) tenant n
            (maybe_roll_window-IsCounted g now h))
  ]

  -- The events that are not nil, in order, each in one of the two lists.
  abbrev pub IsShuffle : List (ℕ × Option String) → List String → List String → Type 0
  IsShuffle [] out deferred = (out ≡ []) × (deferred ≡ [])
  IsShuffle ((now, none) ∷ rest) out deferred = IsShuffle rest out deferred
  IsShuffle ((now, some tenant) ∷ rest) out deferred =
      ((more : List String) × (out ≡ tenant ∷ more) × IsShuffle rest more deferred)
      ⊎ ((more : List String) × (deferred ≡ tenant ∷ more) × IsShuffle rest out more)

  -- Whatever events come at whatever times, each that is not nil goes either to the output or to the
  -- deferred ones, once and in order; and the counts of the tenants never come to more than the events that
  -- the gate has counted, across any number of windows.
  pub run_filter-IsShuffle :
      (total_tenants : ℕ) (g : FairnessGate fl) (events : List (ℕ × Option String))
      → IsCounted g
      → let r = run_filter fl total_tenants g events in IsShuffle events r.1 r.2 × IsCounted r.0
  unfolding run_filter
  run_filter-IsShuffle n g [] h = ((refl, refl), h)
  run_filter-IsShuffle n g ((now, none) ∷ rest) h = run_filter-IsShuffle n g rest h
  run_filter-IsShuffle n g ((now, some tenant) ∷ rest) h =
      let next = (allow fl g now tenant n).1 in
      let (shuffled, counted) =
        run_filter-IsShuffle n next rest (allow-IsCounted g now tenant n h) in
      elim (Bool-cases (allow fl g now tenant n).0) [
        | inl ok ↦ rw ok (inl (_, refl, shuffled), counted)
        | inr refused ↦ rw refused (inr (_, refl, shuffled), counted)
      ]
