-- ===== src/Examples/Fairness.antt =====
-- The fairness gate (internal/driver/fairness.go), in whole numbers.
use aforo_nextgen_loadgen.Base.{
  ℕ, ◌≡◌, refl, true, false, String, Option, none, some, List, [], ◌∷◌, find, put, arith,
}
use aforo_nextgen_loadgen.Examples.Fractions.{whole}
use aforo_nextgen_loadgen.Driver.Fairness.{FairnessGate, new_fairness_gate, allow, run_filter}
use aforo_nextgen_loadgen.Driver.Fairness.Readmission.{knocks, IsAdmitted, knocks-IsAdmitted}
use aforo_nextgen_loadgen.Driver.Fairness.Counts.{IsCounted, IsShuffle, run_filter-IsShuffle}

-- A gate in which one tenant has all of the hundred events.
abbrev hot_gate : FairnessGate whole
hot_gate = record {
  cfg = record { window = 60; min_share_fraction = 1 };
  total_events = 100;
  tenant_counts = ("hot", 100) ∷ [];
  window_start = 0;
  tenant_order = "hot" ∷ [];
}

-- It is refused in this window, and in the next, and then it comes in.
refused_then_admitted :
    knocks whole hot_gate "hot" 2 (1 ∷ 61 ∷ 121 ∷ []) ≡ false ∷ false ∷ true ∷ []
unfolding allow find put
refused_then_admitted = refl

knocks-IsAdmitted_example : IsAdmitted (knocks whole hot_gate "hot" 2 (60 ∷ 120 ∷ []))
knocks-IsAdmitted_example =
    knocks-IsAdmitted whole hot_gate "hot" 2 60 (120 ∷ []) (omega arith, (omega arith, tt))
      (omega arith)

-- Two tenants, and a nil event between theirs.
abbrev few : List (ℕ × Option String)
few = (1, some "hot") ∷ (2, none) ∷ (3, some "cold") ∷ []

run_filter-IsShuffle_example :
    IsShuffle whole few (run_filter whole 2 hot_gate few).1 (run_filter whole 2 hot_gate few).2
    × IsCounted whole (run_filter whole 2 hot_gate few).0
run_filter-IsShuffle_example = run_filter-IsShuffle whole 2 hot_gate few (omega arith)

cold_goes_out : (run_filter whole 2 hot_gate few).1 ≡ "cold" ∷ []
unfolding run_filter find put
cold_goes_out = refl

-- A tenant whose count decays away is listed again when it comes back: the order of the tenants keeps all
-- windows.
listed_twice :
    (allow whole
      (allow whole
        (new_fairness_gate whole (record { window = 60; min_share_fraction = 1 }) 0)
        1
        "t"
        2).1
      61
      "t"
      2).1.tenant_order
    ≡ "t" ∷ "t" ∷ []
unfolding allow new_fairness_gate find put
listed_twice = refl
